-- ===== src/Tests/Syncer.antt =====
-- Reads of a file of four bytes, and a filter that remembers two paths.
use rclaude.Prelude.{
  ℕ, ◌≡◌, refl, some, List, [], ◌∷◌, Text, codes, true, ltb, text_beq, replace_all, arith,
  if◌then◌else◌, ◌+◌, text_eq,
}
use rclaude.Prelude.Int.{pos, negsuc, pos_part, add64, sub64}
use rclaude.Prelude.Assoc
use rclaude.SafePath.{to_slash}
use rclaude.Sorting.{IsAscending, member, sort_texts, insert_sorted, text_lt}
use rclaude.Syncer.Locker.{lock_keys, dedup_keys, has_key, lock_keys_lem}
use rclaude.Syncer.Slices.{slice, slice_content, slice_read_content, window, slice_content_lem}
use rclaude.Syncer.SelfWrite.{
  SelfWriteFilter, remember, store_paths, should_suppress, drop_expired, mentions,
  remember-should_suppress,
}

abbrev bytes : List ℕ
bytes = 1 ∷ 2 ∷ 3 ∷ 4 ∷ []

slice_test : slice_content bytes (pos 1) (pos 2) ≡ some (2 ∷ 3 ∷ [])
unfolding slice_content slice sub64 add64
slice_test = refl

-- A size near the largest int64 does not wrap.
slice_large_test : slice_content bytes (pos 3) (pos 0x7fffffffffffffff) ≡ some (4 ∷ [])
unfolding slice_content slice sub64 add64
slice_large_test = refl

slice_content_lem_example :
    (slice_content bytes (negsuc 4) (pos 2) ≡ some (window bytes (negsuc 4) (pos 2)))
    × (slice_read_content bytes (negsuc 4) (pos 2) ≡ some (window bytes (negsuc 4) (pos 2)))
slice_content_lem_example = slice_content_lem bytes (negsuc 4) (pos 2) (omega arith)

abbrev filter : SelfWriteFilter
filter = record { ttl = pos 5; entries = (codes "old", 8) ∷ [] }

abbrev written : List Text
written = codes "a\\b" ∷ codes "c" ∷ []

suppress_test : (should_suppress 11 (codes "a/b") (remember 7 written filter)).1 ≡ true
unfolding should_suppress remember store_paths drop_expired to_slash replace_all text_beq
    Assoc.lookup Assoc.insert Assoc.remove
suppress_test = refl

remember-should_suppress_example :
    (should_suppress 11 (codes "a/b") (remember 7 written filter)).1 ≡ (
      if mentions written (to_slash (codes "a/b"))
      then ltb 11 (7 + pos_part filter.ttl)
      else (should_suppress 11 (codes "a/b") filter).1)
remember-should_suppress_example =
    remember-should_suppress 7 11 written (codes "a/b") filter
      (Assoc.lookup-nil {V = ℕ} (codes "old"), tt) refl

lock_test :
    lock_keys (codes "b" ∷ codes "a\\x" ∷ codes "b" ∷ codes "a/x" ∷ [])
    ≡ codes "a/x" ∷ codes "b" ∷ []
unfolding lock_keys dedup_keys sort_texts insert_sorted text_lt to_slash replace_all text_beq
    Assoc.lookup Assoc.insert
lock_test = refl

lock_keys_lem_example :
    IsAscending (lock_keys written)
    × (member (codes "c") (lock_keys written) ≡ has_key (codes "c") written)
lock_keys_lem_example = lock_keys_lem (codes "c") written
