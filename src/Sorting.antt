-- ===== src/Sorting.antt =====
-- sort.Strings on texts: the order of the code points is the order of the bytes of UTF-8.
use rclaude.Prelude.{
  ◌≡◌, refl, Bool, true, false, ◌||◌, List, [], ◌∷◌, Text, ltb, ◌==◌, text_eq, nat_eq, text_beq,
  if◌then◌else◌, arith, ◌∙◌, Bool-cases, inl, inr, All,
}

unfoldable pub text_lt : Text → Text → Bool
text_lt s [] = false
text_lt [] (d ∷ t) = true
text_lt (c ∷ s) (d ∷ t) = let rest = text_lt s t in if c == d then rest else ltb c d

unfoldable pub insert_sorted : Text → List Text → List Text
insert_sorted s [] = s ∷ []
insert_sorted s (t ∷ ts) =
    let later = t ∷ insert_sorted s ts in if text_lt t s then later else s ∷ t ∷ ts

unfoldable pub sort_texts : List Text → List Text
sort_texts [] = []
sort_texts (s ∷ ss) = insert_sorted s (sort_texts ss)

abbrev pub member : Text → List Text → Bool
member s [] = false
member s (t ∷ ts) = t == s || member s ts

-- Each text is below all that follow it, so that none stands twice.
abbrev pub IsAscending : List Text → Type 0
IsAscending [] = Unit
IsAscending (s ∷ ts) = All (λ t. text_lt s t ≡ true) ts × IsAscending ts

abbrev pub IsDistinct : List Text → Type 0
IsDistinct [] = Unit
IsDistinct (s ∷ ts) = (member s ts ≡ false) × IsDistinct ts

text_lt-total : (s t : Text) → text_lt s t ≡ false → (s == t) ≡ false → text_lt t s ≡ true
unfolding text_lt text_beq
text_lt-total [] [] h ne = cc
text_lt-total [] (d ∷ t) h ne = cc
text_lt-total (c ∷ s) [] h ne = refl
text_lt-total (c ∷ s) (d ∷ t) h ne = ground (arith, text_lt-total s t)

pub text_lt_irrefl : (s : Text) → text_lt s s ≡ false
unfolding text_lt
text_lt_irrefl [] = refl
text_lt_irrefl (c ∷ s) = ground (arith, text_lt_irrefl s)

pub text_lt_trans : (s t u : Text) → text_lt s t ≡ true → text_lt t u ≡ true → text_lt s u ≡ true
unfolding text_lt
text_lt_trans s [] u h k = absurd (ground arith)
text_lt_trans s (d ∷ t) [] h k = cc
text_lt_trans [] (d ∷ t) (e ∷ u) h k = refl
text_lt_trans (c ∷ s) (d ∷ t) (e ∷ u) h k = ground (arith, text_lt_trans s t u)

pub All-insert_sorted {κ} :
    (P : Text → Type κ) (s : Text) (ts : List Text) → P s → All P ts → All P (insert_sorted s ts)
unfolding insert_sorted
All-insert_sorted P s [] h k = (h, tt)
All-insert_sorted P s (t ∷ ts) h (k, ks) = elim (Bool-cases (text_lt t s)) [
  | inl less ↦ rw less (k, All-insert_sorted P s ts h ks)
  | inr other ↦ rw other (h, (k, ks))
]

text_lt_chain :
    (s t : Text) (ts : List Text)
    → text_lt s t ≡ true
    → All (λ u. text_lt t u ≡ true) ts
    → All (λ u. text_lt s u ≡ true) ts
text_lt_chain s t [] h k = tt
text_lt_chain s t (u ∷ ts) h (k, ks) = (text_lt_trans s t u h k, text_lt_chain s t ts h ks)

insert_sorted-IsAscending :
    (s : Text) (ts : List Text)
    → member s ts ≡ false
    → IsAscending ts
    → IsAscending (insert_sorted s ts)
unfolding insert_sorted
insert_sorted-IsAscending s [] m h = (tt, tt)
insert_sorted-IsAscending s (t ∷ ts) m (h, hs) = elim (Bool-cases (text_lt t s)) [
  | inl less ↦ rw less (
    All-insert_sorted (λ u. text_lt t u ≡ true) s ts less h,
    insert_sorted-IsAscending s ts (ground arith) hs,
  )
  | inr other ↦
      let before : text_lt s t ≡ true = text_lt-total t s other (ground arith) in
      rw other ((before, text_lt_chain s t ts before h), (h, hs))
]

member-insert_sorted :
    (q s : Text) (ts : List Text) → member q (insert_sorted s ts) ≡ (s == q || member q ts)
unfolding insert_sorted
member-insert_sorted q s [] = refl
member-insert_sorted q s (t ∷ ts) = ground (arith, member-insert_sorted q s ts)

pub member-sort_texts : (q : Text) (ss : List Text) → member q (sort_texts ss) ≡ member q ss
unfolding sort_texts
member-sort_texts q [] = refl
member-sort_texts q (s ∷ ss) =
    member-insert_sorted q s (sort_texts ss) ∙ ground (arith, member-sort_texts q ss)

pub sort_texts-IsAscending : (ss : List Text) → IsDistinct ss → IsAscending (sort_texts ss)
unfolding sort_texts
sort_texts-IsAscending [] d = tt
sort_texts-IsAscending (s ∷ ss) (d, ds) =
    insert_sorted-IsAscending s (sort_texts ss) (member-sort_texts s ss ∙ d)
      (sort_texts-IsAscending ss ds)
