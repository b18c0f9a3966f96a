-- ===== src/PtyService/Plan.antt =====
-- The configuration of pkg/ptyservice/service.go, and the program that prepareSpawn plans.
use rclaude.Prelude.{
  ℕ, Bool, not, Option, none, some, List, [], ◌∷◌, Text, codes, trim_space, ◌==◌, text_eq, nat_eq,
  if◌then◌else◌, Result, ok, err,
}
use rclaude.Prelude.Int.{ℤ, pos, leb_ℤ}
use rclaude.Prelude.Assoc
use rclaude.Prelude.Assoc.{Assoc}
use rclaude.PtyHost.{HostError, WindowSize, SpawnReq, resolve_cwd, build_env, resolve_binary}
use rclaude.PtyService.{AttachReq, Reason, agent_required, agent_refused, host_refused}

-- Config, without the logger
pub record Config : Type 0 where
  pub workspace : Text
  pub env_whitelist : List Text
  pub frame_max : ℤ
  pub graceful_stop : ℤ

pub data ServiceError : Type 0 where
  nil_registry nil_spawner : ServiceError

abbrev or_default : ℤ → ℕ → ℤ
or_default n default = if leb_ℤ n (pos 0) then pos default else n

abbrev or_whitelist : List Text → List Text
or_whitelist [] =
    codes "TERM"
    ∷ codes "LANG"
    ∷ codes "LC_ALL"
    ∷ codes "LC_CTYPE"
    ∷ codes "PATH"
    ∷ codes "HOME"
    ∷ codes "SHELL"
    ∷ codes "CLAUDE_CONFIG_DIR"
    ∷ []
or_whitelist (entry ∷ rest) = entry ∷ rest

-- New
unfoldable pub new_service : (has_registry has_spawner : Bool) → Config → Result ServiceError Config
new_service has_registry has_spawner cfg =
    if not has_registry
    then err nil_registry
    else if not has_spawner
    then err nil_spawner
    else ok (record {
      workspace = if cfg.workspace == [] then codes "/workspace" else cfg.workspace;
      env_whitelist = or_whitelist cfg.env_whitelist;
      frame_max = or_default cfg.frame_max 65536;
      graceful_stop = or_default cfg.graceful_stop 5000000000;
    })

-- strings.Cut(pair, "=")
unfoldable pub cut_equals : Text → Option (Text × Text)
cut_equals [] = none
cut_equals (c ∷ s) =
    let rest = cut_equals s in
    if c == b'=' then some ([], s) else elim rest [ none ↦ none | some (k, v) ↦ some (c ∷ k, v) ]

-- envMap
abbrev pub with_pair : Option (Text × Text) → Assoc Text Text → Assoc Text Text
with_pair none out = out
with_pair (some (key, value)) out = if key == [] then out else Assoc.insert key value out

abbrev pub env_each : List Text → Assoc Text Text → Assoc Text Text
env_each [] out = out
env_each (pair ∷ pairs) out = env_each pairs (with_pair (cut_equals pair) out)

unfoldable pub env_map : List Text → Assoc Text Text
env_map pairs = env_each pairs []

-- What the machine of the server gives: the functions that package ptyhost takes, os.Environ, and
-- Spawn, which answers whether the host is not nil; and the limit of attachments, which may be nil.
pub record Machine : Type 0 where
  pub path_match : Text → Text → Option Bool
  pub is_letter : ℕ → Bool
  pub is_digit : ℕ → Bool
  pub look_path : Text → Option Text
  pub environ : List Text
  pub spawn : SpawnReq → Result Text Bool
  pub attach_limit : Option (Text → Option Text)

-- resolveAgent
abbrev pub of_binary : Text → Result HostError Text → Result Reason Text
of_binary agent (ok binary) = ok binary
of_binary agent (err e) = err (agent_refused agent e)

unfoldable pub resolve_agent : Machine → Text → Result Reason Text
resolve_agent m agent =
    if trim_space agent == []
    then err agent_required
    else of_binary agent (resolve_binary m.look_path agent)

-- fromProtoSize
abbrev pub from_proto_size : Option WindowSize → WindowSize
from_proto_size none = record { cols = 0; rows = 0; x_pixel = 0; y_pixel = 0 }
from_proto_size (some size) = size

-- spawnPlan
pub record SpawnPlan : Type 0 where
  pub binary : Text
  pub cwd : Text
  pub env : List Text

abbrev pub plan_in :
    Machine → Config → Text → AttachReq → Result HostError Text → Result Reason SpawnPlan
plan_in m cfg binary attach (err e) = err (host_refused e)
plan_in m cfg binary attach (ok cwd) = ok (record {
  binary = binary;
  cwd = cwd;
  env =
      build_env m.path_match m.is_letter m.is_digit (env_map m.environ) cfg.env_whitelist
        attach.term;
})

abbrev pub plan_for :
    Machine → Config → Text → Text → AttachReq → Result Reason Text → Result Reason SpawnPlan
plan_for m cfg user workspace attach (err reason) = err reason
plan_for m cfg user workspace attach (ok binary) =
    plan_in m cfg binary attach (resolve_cwd cfg.workspace user workspace)

-- prepareSpawn
unfoldable pub prepare_spawn : Machine → Config → Text → Text → AttachReq → Result Reason SpawnPlan
prepare_spawn m cfg user workspace attach =
    plan_for m cfg user workspace attach (resolve_agent m attach.agent)
