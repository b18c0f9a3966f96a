-- ===== src/Syncer/Slices.antt =====
-- sliceContent of pkg/syncer/handle.go and sliceReadContent of pkg/fusefs/view.go: the part of a
-- file that a read answers, with int64 arithmetic and Go's bounds check.
use rclaude.Prelude.{
  zero, suc, ℕ, ◌+◌, ◌-◌, ◌^◌, ◌<◌, ◌≤◌, ◌≡◌, refl, Bool, true, false, ◌&&◌, Option, none, some,
  List, [], ◌∷◌, length, take, drop, length-drop, text_eq, if◌then◌else◌, arith, ap, ◌∙◌, sym,
  Bool-cases, inl, inr, ltb, leb,
}
use rclaude.Prelude.Int.{ℤ, pos, negsuc, pos_part, add64, sub64, ltb_ℤ, leb_ℤ, add64_pos, sub64_pos}

-- data[offset:end]: none is the panic of an index out of range
unfoldable pub slice : List ℕ → ℤ → ℤ → Option (List ℕ)
slice bytes offset end =
    if leb_ℤ (pos 0) offset && leb_ℤ offset end && leb_ℤ end (pos (length bytes))
    then some (take (pos_part end - pos_part offset) (drop (pos_part offset) bytes))
    else none

-- sliceContent
unfoldable pub slice_content : List ℕ → ℤ → ℤ → Option (List ℕ)
slice_content bytes offset size =
    let total = pos (length bytes) in
    let from = if ltb_ℤ offset (pos 0) then pos 0 else offset in
    if leb_ℤ total from
    then some []
    else (let end =
          if ltb_ℤ (pos 0) size && ltb_ℤ size (sub64 total from) then add64 from size else total in
        slice bytes from end)

-- sliceReadContent: its copy has the same bytes
unfoldable pub slice_read_content : List ℕ → ℤ → ℤ → Option (List ℕ)
slice_read_content bytes offset size =
    let total = pos (length bytes) in
    let from = if ltb_ℤ offset (pos 0) then pos 0 else offset in
    if leb_ℤ total from
    then some []
    else (let end =
          if ltb_ℤ (pos 0) size
          then (if ltb_ℤ size (sub64 total from) then add64 from size else total)
          else total in
        slice bytes from end)

-- What a read means: from the offset on, at most so many bytes; a size that is not positive asks
-- for the rest.
abbrev pub window : List ℕ → ℤ → ℤ → List ℕ
window bytes offset size =
    let rest = drop (pos_part offset) bytes in
    if ltb_ℤ (pos 0) size then take (pos_part size) rest else rest

drop_all : (n : ℕ) (bytes : List ℕ) → length bytes ≤ n → drop n bytes ≡ []
drop_all zero [] h = refl
drop_all zero (b ∷ bytes) h = absurd (omega arith)
drop_all (suc n) [] h = refl
drop_all (suc n) (b ∷ bytes) h = drop_all n bytes (omega arith)

take_all : (n : ℕ) (bytes : List ℕ) → length bytes ≤ n → take n bytes ≡ bytes
take_all zero [] h = refl
take_all zero (b ∷ bytes) h = absurd (omega arith)
take_all (suc n) [] h = refl
take_all (suc n) (b ∷ bytes) h = ap (λ s. b ∷ s) (take_all n bytes (omega arith))

take-nil : (n : ℕ) → take {A = ℕ} n [] ≡ []
take-nil zero = refl
take-nil (suc n) = refl

window-past :
    (bytes : List ℕ) (o : ℕ) (size : ℤ) → length bytes ≤ o → [] ≡ window bytes (pos o) size
window-past bytes o size h = rw (drop_all o bytes h) (ground (arith, take-nil (pos_part size)))

slice_lem :
    (bytes : List ℕ) (o e : ℕ)
    → o ≤ e
    → e ≤ length bytes
    → slice bytes (pos o) (pos e) ≡ some (take (e - o) (drop o bytes))
unfolding slice
slice_lem bytes o e h k = ground arith

slice_rest :
    (bytes : List ℕ) (o : ℕ)
    → o ≤ length bytes
    → slice bytes (pos o) (pos (length bytes)) ≡ some (drop o bytes)
slice_rest bytes o h =
    slice_lem bytes o (length bytes) h (omega arith)
    ∙ ap (λ s. some s)
        (take_all (length bytes - o) (drop o bytes) (omega (arith, length-drop o bytes)))

-- The end that the code computes for a window that starts inside.
abbrev end_of : ℕ → ℕ → ℤ → ℤ
end_of total o size =
    if ltb_ℤ (pos 0) size && ltb_ℤ size (sub64 (pos total) (pos o))
    then add64 (pos o) size
    else pos total

whole :
    (bytes : List ℕ) (o : ℕ) (size : ℤ)
    → o ≤ length bytes
    → ltb_ℤ (pos 0) size ≡ false
    → slice bytes (pos o) (end_of (length bytes) o size) ≡ some (window bytes (pos o) size)
whole bytes o size h none_asked =
    let end : end_of (length bytes) o size ≡ pos (length bytes) = rw none_asked refl in
    let asked : window bytes (pos o) size ≡ drop o bytes = rw none_asked refl in
    ap (slice bytes (pos o)) end ∙ (slice_rest bytes o h ∙ ap (λ s. some s) (sym asked))

inside :
    (bytes : List ℕ) (o : ℕ) (size : ℤ)
    → length bytes < 2 ^ 63
    → o < length bytes
    → slice bytes (pos o) (end_of (length bytes) o size) ≡ some (window bytes (pos o) size)
inside bytes o (negsuc n) small in_range = whole bytes o (negsuc n) (omega arith) (ground arith)
inside bytes o (pos zero) small in_range = whole bytes o (pos zero) (omega arith) (ground arith)
inside bytes o (pos (suc n)) small in_range =
    let asked : window bytes (pos o) (pos (suc n)) ≡ take (suc n) (drop o bytes) = ground arith in
    elim (Bool-cases (ltb (suc n) (length bytes - o))) [
      | inl less ↦
          let end : end_of (length bytes) o (pos (suc n)) ≡ pos (o + suc n) =
            ground (arith, sub64_pos (length bytes) o, add64_pos o (suc n)) in
          let width : o + suc n - o ≡ suc n = omega arith in
          ap (slice bytes (pos o)) end
          ∙ (slice_lem bytes o (o + suc n) (omega arith) (ground arith)
              ∙ (ap (λ k. some (take k (drop o bytes))) width ∙ ap (λ s. some s) (sym asked)))
      | inr more ↦
          let end : end_of (length bytes) o (pos (suc n)) ≡ pos (length bytes) =
            ground (arith, sub64_pos (length bytes) o) in
          ap (slice bytes (pos o)) end
          ∙ (slice_rest bytes o (omega arith)
              ∙ ap (λ s. some s)
                  (sym (
                    asked ∙ take_all (suc n) (drop o bytes) (ground (arith, length-drop o bytes)))))
    ]

from_zero : (offset : ℤ) → (if ltb_ℤ offset (pos 0) then pos 0 else offset) ≡ pos (pos_part offset)
from_zero (pos o) = ground arith
from_zero (negsuc k) = ground arith

nested :
    (a b : Bool) (x y : ℤ) → (if a then (if b then x else y) else y) ≡ (if a && b then x else y)
nested true b x y = refl
nested false b x y = refl

slice_content-window :
    (bytes : List ℕ) (offset size : ℤ)
    → length bytes < 2 ^ 63
    → slice_content bytes offset size ≡ some (window bytes offset size)
unfolding slice_content
slice_content-window bytes offset size small =
    rw (from_zero offset) (elim (Bool-cases (leb (length bytes) (pos_part offset))) [
      | inl past ↦
          let over : leb_ℤ (pos (length bytes)) (pos (pos_part offset)) ≡ true = ground arith in
          rw over (ap (λ s. some s) (window-past bytes (pos_part offset) size (ground arith)))
      | inr within ↦
          let under : leb_ℤ (pos (length bytes)) (pos (pos_part offset)) ≡ false = ground arith in
          rw under (inside bytes (pos_part offset) size small (ground arith))
    ])

slice_read_content-slice_content :
    (bytes : List ℕ) (offset size : ℤ)
    → slice_read_content bytes offset size ≡ slice_content bytes offset size
unfolding slice_content slice_read_content
slice_read_content-slice_content bytes offset size = rw (from_zero offset) (
    ap
      (λ end.
        if leb_ℤ (pos (length bytes)) (pos (pos_part offset))
        then some []
        else slice bytes (pos (pos_part offset)) end)
      (nested (ltb_ℤ (pos 0) size) (ltb_ℤ size (sub64 (pos (length bytes)) (pos (pos_part offset))))
        (add64 (pos (pos_part offset)) size) (pos (length bytes))))

-- For a file that a Go slice can hold, both functions answer the window of the read for every
-- offset and size, and never index out of range; an offset below zero counts as zero.
pub slice_content_lem :
    (bytes : List ℕ) (offset size : ℤ)
    → length bytes < 2 ^ 63
    → (slice_content bytes offset size ≡ some (window bytes offset size))
      × (slice_read_content bytes offset size ≡ some (window bytes offset size))
slice_content_lem bytes offset size small =
    let same = slice_content-window bytes offset size small in
    (same, slice_read_content-slice_content bytes offset size ∙ same)
