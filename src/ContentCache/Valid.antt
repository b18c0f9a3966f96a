-- ===== src/ContentCache/Valid.antt =====
-- The cache's map, list and byte count agree, and how one element leaves them.
use rclaude.Prelude.{
  ℕ, ◌+◌, ◌^◌, ◌<◌, ◌≡◌, refl, sym, ◌∙◌, none, some, [], ◌∷◌, arith, Text, All, text_eq, nat_eq,
  if◌then◌else◌, Option-cases, inl, inr,
}
use rclaude.Prelude.Int.{ℤ, pos, sub64, sub64_pos, ltb_ℤ}
use rclaude.Prelude.Assoc
use rclaude.Prelude.Assoc.{lookup-remove, NodupKeys, remove-NodupKeys}
use rclaude.ContentCache.{Cache, Element, remove_element, remove_key}
use rclaude.ContentCache.Elements.{
  find_path, drop_path, total, size, IsDistinct, path-find_path, find_path-drop_path,
  drop_path_absent, total-drop_path, drop_path-All, drop_path-IsDistinct, list_remove-find_path,
}

-- The largest budget for which no byte count overflows an int64: twice it is in range.
abbrev pub budget_bound : ℕ
budget_bound = 2 ^ 62

pub record IsLinked (c : Cache) : Type 0 where
  pub used : c.used ≡ pos (total c.lru)
  pub distinct : IsDistinct c.lru
  pub fresh : All (λ e. e.id < c.next_id) c.lru
  pub index : (p : Text) → Assoc.lookup p c.entries ≡ find_path p c.lru
  pub keys : NodupKeys c.entries

-- The cache without the path.
unfoldable pub without : Cache → Text → Cache
without c p = record c {
  used = pos (total (drop_path p c.lru));
  lru = drop_path p c.lru;
  entries = Assoc.remove p c.entries;
}

pub without-IsLinked : {c : Cache} (p : Text) → IsLinked c → IsLinked (without c p)
unfolding without
without-IsLinked {c} p h = record {
  used = refl;
  distinct = drop_path-IsDistinct p c.lru h.distinct;
  fresh = drop_path-All (λ e. e.id < c.next_id) p c.lru h.fresh;
  index =
      λ q. ground (arith, lookup-remove p q c.entries, find_path-drop_path p q c.lru, h.index q);
  keys = remove-NodupKeys p c.entries h.keys;
}

used_after :
    (used : ℤ) (all gone left : ℕ)
    → used ≡ pos all
    → left + gone ≡ all
    → all < 2 ^ 63
    → (let u = sub64 used (pos gone) in if ltb_ℤ u (pos 0) then pos 0 else u) ≡ pos left
used_after used all gone left u e b = rw u (rw (sub64_pos all gone (omega arith) b) (ground arith))

-- removeElement of the element that a path leads to drops the path, from the map, the list and
-- the byte count alike.
pub remove_element-find_path :
    (c : Cache) (p : Text) {e : Element}
    → IsLinked c
    → total c.lru < 2 ^ 63
    → find_path p c.lru ≡ some e
    → remove_element c e ≡ without c p
unfolding remove_element without
remove_element-find_path c p {e} h b f = rw (path-find_path p c.lru f) (
    rw (list_remove-find_path p c.lru h.distinct f) (
      rw (
        used_after c.used (total c.lru) (size e) (total (drop_path p c.lru)) h.used
          (total-drop_path p c.lru h.distinct f) b)))

lookup-none-remove :
    (p : Text) (m : Assoc.Assoc Text Element) → Assoc.lookup p m ≡ none → Assoc.remove p m ≡ m
unfolding Assoc.lookup Assoc.remove
lookup-none-remove p [] h = refl
lookup-none-remove p ((q, e) ∷ m) h = ground (arith, lookup-none-remove p m)

pub without_absent :
    (c : Cache) (p : Text) → IsLinked c → find_path p c.lru ≡ none → without c p ≡ c
unfolding without
without_absent c p h f =
    rw (drop_path_absent p c.lru f)
      (rw (lookup-none-remove p c.entries (h.index p ∙ f)) (rw (sym h.used)))

pub remove_key_lem :
    (c : Cache) (p : Text) → IsLinked c → total c.lru < 2 ^ 63 → remove_key c p ≡ without c p
unfolding remove_key
remove_key_lem c p h b = elim (Option-cases (find_path p c.lru)) [
  | inl miss ↦ rw (h.index p ∙ miss, remove_key) (sym (without_absent c p h miss))
  | inr (e, hit) ↦ rw (h.index p ∙ hit, remove_key) (remove_element-find_path c p h b hit)
]
