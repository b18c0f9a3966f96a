-- ===== src/Syncer/Handle/Hidden.antt =====
-- No request gets at a file that the filter hides.
use rclaude.Prelude.{
  ℕ, ◌≡◌, refl, ◌⊎◌, inl, inr, Bool, true, not, ◌&&◌, Option, none, some, List, [], ◌∷◌, Text,
  codes, Bool-cases, Result, ok, err,
}
use rclaude.Prelude.Int.{pos, ltb_ℤ}
use rclaude.Syncer.Sensitive.{SensitiveFilter, is_sensitive_path}
use rclaude.Syncer.Os.{Os}
use rclaude.Syncer.Resolution.{
  ResolveError, ResolveOptions, resolve_workspace_path, blocks_sensitive_path,
}
use rclaude.Syncer.Messages.{
  RenameReq, Operation, read, stat, list_dir, write, delete, mkdir, rename, truncate, unset, Cause,
  no_entry, permission, invalid_argument, Failure, unsafe_path, failed, FileResponse, err_response,
}
use rclaude.Syncer.Handle.{
  follow, plain, HandleOptions, Checked, refused, allowed, check_path, handle_read, handle_stat,
  handle_list_dir,
}
use rclaude.Syncer.Handle.Mutating.{
  leaf, follow_leaf, Daemon, resolve_rename_paths, handle_write, handle_delete, handle_mkdir,
  handle_rename, handle_truncate,
}
use rclaude.Syncer.Handle.Dispatch.{handle_operation}

-- The paths that an operation names.
abbrev path_of : {A : Type 0} → (A → Text) → Option A → List Text
path_of field none = []
path_of field (some r) = field r ∷ []

abbrev rename_paths : Option RenameReq → List Text
rename_paths none = []
rename_paths (some r) = r.old_path ∷ r.new_path ∷ []

abbrev pub named_paths : Operation → List Text
named_paths (read r) = path_of (λ q. q.path) r
named_paths (stat r) = path_of (λ q. q.path) r
named_paths (list_dir r) = path_of (λ q. q.path) r
named_paths (write r) = path_of (λ q. q.path) r
named_paths (delete r) = path_of (λ q. q.path) r
named_paths (mkdir r) = path_of (λ q. q.path) r
named_paths (rename r) = rename_paths r
named_paths (truncate r) = path_of (λ q. q.path) r
named_paths unset = []

module _ {Disk File : Type 0} (os : Os Disk File) (matches : Text → Text → Bool) where
  -- The request fails and changes nothing.
  abbrev pub IsRefused : Daemon Disk → Option (Daemon Disk × FileResponse) → Type 0
  IsRefused d result =
      (failure : Failure) × (id : Text) × (result ≡ some (d, err_response id failure))

  check_path_hidden :
      (op path : Text) (cause : Cause) (opts : HandleOptions) (how : ResolveOptions) (disk : Disk)
      → is_sensitive_path matches opts.sensitive_filter path ≡ true
      → (failure : Failure) × (check_path os matches op path cause opts how disk ≡ refused failure)
  unfolding check_path blocks_sensitive_path
  check_path_hidden op path cause opts how disk hidden =
      resolved (resolve_workspace_path opts.root path) refl
    where
      resolved :
          (r : Result ResolveError Text)
          → resolve_workspace_path opts.root path ≡ r
          → (failure : Failure) × (check_path os matches op path cause opts how disk
              ≡ refused failure)
      resolved (err e) eq = (unsafe_path e, rw (eq, check_path) refl)
      resolved (ok abs) eq = (failed op path cause, rw (eq, check_path) (rw hidden refl))

  -- The filter hides one of the paths.
  abbrev pub AnyHidden : Option SensitiveFilter → List Text → Type 0
  AnyHidden filter [] = ⊥
  AnyHidden filter (path ∷ paths) =
      (is_sensitive_path matches filter path ≡ true) ⊎ AnyHidden filter paths

  resolve_rename_paths-hidden :
      (r : RenameReq) (opts : HandleOptions) (disk : Disk)
      → AnyHidden opts.sensitive_filter (r.old_path ∷ r.new_path ∷ [])
      → (failure : Failure) × (resolve_rename_paths os matches r opts disk ≡ err failure)
  unfolding resolve_rename_paths
  resolve_rename_paths-hidden r opts disk (inl old) =
      let (failure, e) =
        check_path_hidden (codes "rename") r.old_path permission opts plain disk old in
      (failure, rw e refl)
  resolve_rename_paths-hidden r opts disk (inr (inl new)) =
      first (check_path os matches (codes "rename") r.old_path permission opts plain disk) refl
    where
      first :
          (c : Checked)
          → check_path os matches (codes "rename") r.old_path permission opts plain disk ≡ c
          → (failure : Failure) × (resolve_rename_paths os matches r opts disk ≡ err failure)
      first (refused failure) e = (failure, rw (e, resolve_rename_paths) refl)
      first (allowed abs) e =
          let (failure, k) =
            check_path_hidden (codes "rename") r.new_path permission opts leaf disk new in
          (failure, rw (e, resolve_rename_paths) (rw k refl))
  resolve_rename_paths-hidden r opts disk (inr (inr bad)) = absurd bad

  -- A request that names a path which the filter hides fails, and leaves the disk, the locks and the
  -- filter of own writes as they were, whatever the operation.
  pub handle_operation-IsRefused :
      (now : ℕ) (id : Text) (op : Operation) (opts : HandleOptions) (d : Daemon Disk)
      → AnyHidden opts.sensitive_filter (named_paths op)
      → IsRefused d (handle_operation os matches now id op opts d)
  unfolding handle_operation handle_read handle_stat handle_list_dir handle_write handle_delete
      handle_mkdir handle_rename handle_truncate
  handle_operation-IsRefused now id (read (some r)) opts d (inl h) =
      let (failure, e) = check_path_hidden (codes "read") r.path no_entry opts follow d.disk h in
      (failure, id, rw e refl)
  handle_operation-IsRefused now id (stat (some r)) opts d (inl h) =
      let (failure, e) = check_path_hidden (codes "stat") r.path no_entry opts plain d.disk h in
      (failure, id, rw e refl)
  handle_operation-IsRefused now id (list_dir (some r)) opts d (inl h) =
      let (failure, e) = check_path_hidden (codes "list") r.path no_entry opts follow d.disk h in
      (failure, id, rw e refl)
  handle_operation-IsRefused now id (write (some r)) opts d (inl h) =
      let (failure, e) =
        check_path_hidden (codes "write") r.path permission opts follow_leaf d.disk h in
      elim (Bool-cases (not r.append && ltb_ℤ r.offset (pos 0))) [
        | inl bad ↦ (failed (codes "write") r.path invalid_argument, id, rw bad refl)
        | inr good ↦ (failure, id, rw good (rw e refl))
      ]
  handle_operation-IsRefused now id (delete (some r)) opts d (inl h) =
      let (failure, e) = check_path_hidden (codes "delete") r.path permission opts plain d.disk h in
      (failure, id, rw e refl)
  handle_operation-IsRefused now id (mkdir (some r)) opts d (inl h) =
      let (failure, e) = check_path_hidden (codes "mkdir") r.path permission opts leaf d.disk h in
      (failure, id, rw e refl)
  handle_operation-IsRefused now id (rename (some r)) opts d h =
      let (failure, e) = resolve_rename_paths-hidden r opts d.disk h in (failure, id, rw e refl)
  handle_operation-IsRefused now id (truncate (some r)) opts d (inl h) =
      let (failure, e) =
        check_path_hidden (codes "truncate") r.path permission opts follow d.disk h in
      elim (Bool-cases (ltb_ℤ r.size (pos 0))) [
        | inl bad ↦ (failed (codes "truncate") r.path invalid_argument, id, rw bad refl)
        | inr good ↦ (failure, id, rw good (rw e refl))
      ]
  handle_operation-IsRefused now id (read (some r)) opts d (inr bad) = absurd bad
  handle_operation-IsRefused now id (stat (some r)) opts d (inr bad) = absurd bad
  handle_operation-IsRefused now id (list_dir (some r)) opts d (inr bad) = absurd bad
  handle_operation-IsRefused now id (write (some r)) opts d (inr bad) = absurd bad
  handle_operation-IsRefused now id (delete (some r)) opts d (inr bad) = absurd bad
  handle_operation-IsRefused now id (mkdir (some r)) opts d (inr bad) = absurd bad
  handle_operation-IsRefused now id (truncate (some r)) opts d (inr bad) = absurd bad
  handle_operation-IsRefused now id (read none) opts d bad = absurd bad
  handle_operation-IsRefused now id (stat none) opts d bad = absurd bad
  handle_operation-IsRefused now id (list_dir none) opts d bad = absurd bad
  handle_operation-IsRefused now id (write none) opts d bad = absurd bad
  handle_operation-IsRefused now id (delete none) opts d bad = absurd bad
  handle_operation-IsRefused now id (mkdir none) opts d bad = absurd bad
  handle_operation-IsRefused now id (rename none) opts d bad = absurd bad
  handle_operation-IsRefused now id (truncate none) opts d bad = absurd bad
  handle_operation-IsRefused now id unset opts d bad = absurd bad
