-- ===== src/PtyService/Attach/Confined.antt =====
-- Where the program of a terminal runs, which program it is, and what it sees of the environment.
use rclaude.Prelude.{
  ◌≡◌, ◌≢◌, refl, sym, ap, ◌∙◌, ◌⊎◌, inl, inr, true, false, Option, none, some, List, [], ◌∷◌, ◌++◌,
  Text, contains_any, trim_space, ◌==◌, text_eq, arith, Result, ok, err, ◌>>=◌, All, All-append,
  Bool-cases,
}
use rclaude.Paths.{slash, is_abs, segments, join_slash}
use rclaude.Paths.Clean.{segments_of_normal}
use rclaude.SafePath
use rclaude.SafePath.{SafeError, backslash, clean_segment, is_abs_like}
use rclaude.SafePath.Names.{clean-join_slash}
use rclaude.SafePath.Joined.{join-IsBelow}
use rclaude.SafePath.Within.{is_abs-ne-nil}
use rclaude.SafePath.Segment.{IsSegment, clean_segment_iff}
use rclaude.PtyHost.{
  HostError, resolve_cwd, or_error, of_join, unsafe_user_id, unsafe_workspace, resolve_binary,
  is_absolute_binary_path, of_look_path, build_env,
}
use rclaude.PtyService.Attach.Environment.{IsSeen, build_env-IsSeen}
use rclaude.PtyService.{AttachReq, Reason}
use rclaude.PtyService.Plan.{
  Config, Machine, SpawnPlan, prepare_spawn, plan_for, resolve_agent, of_binary, env_map,
}

of_join-ok : (r : Result SafeError Text) (cwd : Text) → of_join r ≡ ok cwd → r ≡ ok cwd
of_join-ok (ok s) cwd e = cc
of_join-ok (err SafeError.base_not_abs) cwd e = cc
of_join-ok (err SafeError.empty_path) cwd e = cc
of_join-ok (err SafeError.absolute_rel) cwd e = cc
of_join-ok (err SafeError.escape) cwd e = cc
of_join-ok (err SafeError.unsafe_segment) cwd e = cc

join-inside :
    (root u v cwd : Text)
    → is_abs root ≡ true
    → IsSegment u
    → IsSegment v
    → SafePath.join root (u ++ slash ∷ v) ≡ ok cwd
    → (is_abs cwd ≡ true) × (segments cwd ≡ segments root ++ u ∷ v ∷ [])
unfolding join_slash
join-inside root u v cwd rooted hu hv e = elim (Bool-cases (is_abs_like (u ++ slash ∷ v))) [
  | inl bad ↦ absurd (refused bad)
  | inr fine ↦
      let (j, joined, (above, below)) = join-IsBelow root (u ++ slash ∷ v) rooted fine cleaned in
      let same : j ≡ cwd = cc (sym joined ∙ e) in
      (
        ap is_abs (sym same) ∙ above,
        ap segments (sym same)
            ∙ below
            ∙ ap (◌++◌ (segments root))
                (segments_of_normal u (v ∷ []) (inl (hu.name, (hv.name, tt)))),
      )
]
  where
    refused : is_abs_like (u ++ slash ∷ v) ≡ true → ⊥
    refused bad = unfold SafePath.join in cc (rw (is_abs-ne-nil root rooted, rooted, bad) at e)

    full : (t : Text) → t ++ slash ∷ v ≢ []
    full [] h = cc
    full (c ∷ t) h = cc

    cleaned : SafePath.clean (u ++ slash ∷ v) ≡ ok (u ++ slash ∷ v)
    cleaned =
        clean-join_slash (u ∷ v ∷ []) (hu.name, (hv.name, tt)) (full u)
          (All-append _ u (slash ∷ v) hu.no_backslash (omega arith, hv.no_backslash))

resolve_cwd-inside :
    (root user workspace cwd : Text)
    → is_abs root ≡ true
    → resolve_cwd root user workspace ≡ ok cwd
    → (is_abs cwd ≡ true)
      × (segments cwd ≡ segments root ++ trim_space user ∷ trim_space workspace ∷ [])
unfolding resolve_cwd
resolve_cwd-inside root user workspace cwd rooted e =
    go (clean_segment user) (clean_segment workspace) refl refl
      (rw (is_abs-ne-nil root rooted) at e)
  where
    go :
        (a b : Result SafeError Text)
        → clean_segment user ≡ a
        → clean_segment workspace ≡ b
        → (or_error unsafe_user_id a >>= λ u.
            or_error unsafe_workspace b >>= λ v. of_join (SafePath.join root (u ++ slash ∷ v)))
          ≡ ok cwd
        → (is_abs cwd ≡ true)
          × (segments cwd ≡ segments root ++ trim_space user ∷ trim_space workspace ∷ [])
    go (err _) b ea eb h = cc
    go (ok u) (err _) ea eb h = cc
    go (ok u) (ok v) ea eb h =
        let (same_u, hu) = (clean_segment_iff user u).0 ea in
        let (same_v, hv) = (clean_segment_iff workspace v).0 eb in
        let (above, below) = join-inside root u v cwd rooted hu hv (of_join-ok _ cwd h) in
        (above, below ∙ rw (same_u, same_v) refl)

-- An absolute path that the client named, or what PATH has for a bare name.
abbrev pub IsProgram : Machine → Text → Text → Type 0
IsProgram m agent binary =
    ((binary ≡ trim_space agent) × (is_absolute_binary_path binary ≡ true))
    ⊎ ((contains_any (slash ∷ backslash ∷ []) (trim_space agent) ≡ false)
        × (m.look_path (trim_space agent) ≡ some binary))

resolve_agent-IsProgram :
    (m : Machine) (agent binary : Text)
    → resolve_agent m agent ≡ ok binary
    → IsProgram m agent binary
unfolding resolve_agent resolve_binary
resolve_agent-IsProgram m agent binary e = elim (Bool-cases (trim_space agent == [])) [
  | inl empty ↦ cc (rw empty at e)
  | inr full ↦ elim (Bool-cases (is_absolute_binary_path (trim_space agent))) [
    | inl absolute ↦
        let k = rw (full, absolute) at e in
        let same : trim_space agent ≡ binary = cc k in
        inl (sym same, ap is_absolute_binary_path (sym same) ∙ absolute)
    | inr bare ↦ elim (Bool-cases (contains_any (slash ∷ backslash ∷ []) (trim_space agent))) [
      | inl bad ↦ cc (rw (full, bare, bad) at e)
      | inr plain ↦
          inr (plain, found (m.look_path (trim_space agent)) (rw (full, bare, plain) at e))
    ]
  ]
]
  where
    found :
        (answer : Option Text)
        → of_binary agent (of_look_path answer) ≡ ok binary
        → answer ≡ some binary
    found none h = cc
    found (some path) h = cc

pub record IsConfined (m : Machine) (cfg : Config) (user workspace : Text) (req : AttachReq)
    (plan : SpawnPlan) : Type 0 where
  pub rooted : is_abs plan.cwd ≡ true
  pub inside :
      segments plan.cwd ≡ segments cfg.workspace ++ trim_space user ∷ trim_space workspace ∷ []
  pub program : IsProgram m req.agent plan.binary
  pub seen : All (IsSeen m cfg.env_whitelist req.term) plan.env

-- When the workspace root is absolute, a program that prepareSpawn plans runs in the absolute
-- directory root/user/workspace and in no other; it is the absolute path that the client named, or
-- what PATH has for a name without separators; and each entry of its environment is a variable of
-- the server with the value that the server has, under an allowed key, or the TERM of the client
-- with safe characters only, where TERM is allowed.
pub prepare_spawn-IsConfined :
    (m : Machine) (cfg : Config) (user workspace : Text) (req : AttachReq) (plan : SpawnPlan)
    → is_abs cfg.workspace ≡ true
    → prepare_spawn m cfg user workspace req ≡ ok plan
    → IsConfined m cfg user workspace req plan
unfolding prepare_spawn
prepare_spawn-IsConfined m cfg user workspace req plan rooted e =
    go (resolve_agent m req.agent) (resolve_cwd cfg.workspace user workspace) refl refl e
  where
    env : List Text
    env =
        build_env m.path_match m.is_letter m.is_digit (env_map m.environ) cfg.env_whitelist req.term

    go :
        (a : Result Reason Text) (b : Result HostError Text)
        → resolve_agent m req.agent ≡ a
        → resolve_cwd cfg.workspace user workspace ≡ b
        → plan_for m cfg user workspace req a ≡ ok plan
        → IsConfined m cfg user workspace req plan
    go (err _) b ea eb h = cc
    go (ok binary) (err e) ea eb h = cc (rw eb at h)
    go (ok binary) (ok cwd) ea eb h =
        let (above, below) = resolve_cwd-inside cfg.workspace user workspace cwd rooted eb in
        let same : record { binary = binary; cwd = cwd; env = env } ≡ plan = cc (rw eb at h) in
        rw (← same) (record {
          rooted = above;
          inside = below;
          program = resolve_agent-IsProgram m req.agent binary ea;
          seen = build_env-IsSeen m cfg.env_whitelist req.term;
        })
