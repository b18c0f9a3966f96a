-- ===== src/Tests/Daemon.antt =====
-- A daemon on a disk of three files: its filter, its locks, and its answers.
use rclaude.Prelude.{
  ℕ, ◌≡◌, refl, ◌⊎◌, ◌↔◌, ◌≤◌, Bool, true, false, none, [], ◌∷◌, Text, codes, text_beq, text_eq,
  starts_with, contains_text, trim_left, trim_space, replace_all, is_space, arith, ◌==◌, ok, All,
}
use rclaude.Prelude.Assoc
use rclaude.Prelude.Assoc.{Assoc}
use rclaude.Paths.{paths_run}
use rclaude.SafePath.{to_slash}
use rclaude.Normalize.{normalize, relative_form}
use rclaude.Syncer.Files.{join_rel_path}
use rclaude.Syncer.Sensitive.{
  SensitiveFilter, default_sensitive_patterns, climb, path_candidates, match_path,
  match_any_candidate, match_any_pattern, match_sensitive_pattern, new_sensitive_filter,
  add_patterns, normalize_pattern, is_sensitive_path, match_sensitive_pattern, new_sensitive_filter,
  add_patterns, normalize_pattern, is_sensitive_path,
}
use rclaude.Syncer.Sensitive.Hidden.{match_path-join_rel_path, new_sensitive_filter-hides}
use rclaude.Syncer.Locker.{lock_keys, dedup_keys}
use rclaude.Sorting.{sort_texts, insert_sorted}
use rclaude.Syncer.Locker.Entries.{PathLocker, new_path_locker, enter_lock, set_locked}
use rclaude.Syncer.Locker.Threads.{
  IsIdle, idle, locking, waiting, System, Reach, start, later, step, call, enter, acquire,
}
use rclaude.Syncer.Locker.Exclusive.{key_holders, key_users, Reach-exclusive}
use rclaude.Syncer.Locker.Progress.{Progress, Reach-Progress}

-- Patterns that match just themselves.
abbrev exactly : Text → Text → Bool
exactly pattern target = pattern == target

abbrev usual : SensitiveFilter
usual = record { patterns = default_sensitive_patterns }

abbrev env : Text
env = codes ".env"

bundle : Unit {0}
unfolding match_path match_any_candidate match_any_pattern match_sensitive_pattern path_candidates
    climb normalize relative_form replace_all paths_run contains_text starts_with text_beq
    normalize_pattern add_patterns new_sensitive_filter trim_space trim_left is_space join_rel_path
    to_slash is_sensitive_path
bundle = tt

hidden_test : match_path exactly usual (codes "a\\id_rsa/b") ≡ true
unfolding bundle
hidden_test = refl

shown_test : match_path exactly usual (codes "a/b") ≡ false
unfolding bundle
shown_test = refl

match_path-join_rel_path_example :
    match_path exactly usual (join_rel_path env (codes "keys")) ≡ true
match_path-join_rel_path_example =
    match_path-join_rel_path exactly usual env (codes "keys")
      (((λ e. cc), (λ e. cc), (λ e. cc)), omega arith) (omega arith) env_hidden
  where
    env_hidden : match_path exactly usual env ≡ true
    env_hidden = unfold bundle in refl

accepts_all : Text → Bool
accepts_all _ = true

new_sensitive_filter-hides_example :
    (f : SensitiveFilter) × (new_sensitive_filter accepts_all (codes " *.log" ∷ []) ≡ ok f)
    × (match_path exactly f env ≡ true)
new_sensitive_filter-hides_example =
    new_sensitive_filter-hides accepts_all exactly (codes " *.log" ∷ []) env
      (((λ e. unfold bundle in cc e, unfold accepts_all in refl), tt)) (unfold bundle in refl)

-- Two goroutines call LockMany of the same path, and the first has got it.
abbrev two : System
two = record { locker = new_path_locker; threads = idle ∷ idle ∷ [] }

called : Reach (record { locker = new_path_locker; threads = locking (env ∷ []) [] ∷ idle ∷ [] })
unfolding lock_keys dedup_keys sort_texts insert_sorted bundle Assoc.lookup Assoc.insert
called =
    later (start {s = two} refl (refl, (refl, tt))) (step [] (idle ∷ []) refl (call (env ∷ [])))

abbrev entered : PathLocker
entered = (enter_lock env new_path_locker).0

abbrev address : ℕ
address = (enter_lock env new_path_locker).1

queued : Reach (record { locker = entered; threads = waiting env address [] [] ∷ idle ∷ [] })
queued = later called (step [] (idle ∷ []) refl enter)

abbrev locked_by_first : System
locked_by_first = record {
  locker = set_locked true address entered;
  threads = locking [] ((env, address) ∷ []) ∷ idle ∷ [];
}

locked : Reach locked_by_first
unfolding enter_lock new_path_locker Assoc.lookup Assoc.insert
locked = later queued (step [] (idle ∷ []) refl (acquire refl))

Reach-exclusive_example :
    (key_holders env locked_by_first.threads ≤ 1)
    × ((Assoc.lookup env locked_by_first.locker.locks ≡ none)
        ↔ (key_users env locked_by_first.threads ≡ 0))
Reach-exclusive_example = Reach-exclusive env locked

Reach-Progress_example :
    Progress locked_by_first.locker locked_by_first.threads ⊎ All IsIdle locked_by_first.threads
Reach-Progress_example = Reach-Progress locked
