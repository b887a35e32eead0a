-- ===== src/Daemon/Prepare.antt =====
-- internal/daemon/server.go: the environment of `doStart` and what else may fail before the process
-- is started.
use pmmcp.Prelude.{String, false, not, Option, none, some, List, [], ◌∷◌, str_eq, if◌then◌else◌}
use pmmcp.Prelude.Result.{Result, ok, err}
use pmmcp.Daemon.{domain_error, Failure, other_failure, Host}
use pmmcp.Daemon.Guard.{log_dir_of}
use pmmcp.Daemon.Request.{StartPayload}

unfoldable pub set_pair : String × String → List (String × String) → List (String × String)
set_pair (k, v) [] = (k, v) ∷ []
set_pair (k, v) ((k', v') ∷ m) =
    let rest = set_pair (k, v) m in if str_eq k' k then (k, v) ∷ m else (k', v') ∷ rest

unfoldable pub overlay : List (String × String) → List (String × String) → List (String × String)
overlay m [] = m
overlay m (kv ∷ kvs) = overlay (set_pair kv m) kvs

unfoldable pub load_files :
    Host → List String → List (String × String) → Option (List (String × String))
load_files h [] m = some m
load_files h (f ∷ fs) m = elim (h.load_env_file f) [
  | none ↦ none
  | some loaded ↦ load_files h fs (overlay m loaded)
]

unfoldable pub value_of : String → List (String × String) → String
value_of k [] = ""
value_of k ((k', v) ∷ m) = let rest = value_of k m in if str_eq k' k then v else rest

-- The secrets that `RegisterNamedValue` is told of.
unfoldable pub register :
    Host
    → List (String × String)
    → List (String × String)
    → List (String × String)
    → List (String × String)
register h [] resolved reg = reg
register h ((k, orig) ∷ m) resolved reg =
    register h m resolved (if h.is_secret_ref orig then (k, value_of k resolved) ∷ reg else reg)

-- The identifier and the environment, before and after its references are resolved.
pub record Prepared : Type 0 where
  pub id : String
  pub env_map : List (String × String)
  pub resolved : List (String × String)

-- `doStart` from the sandbox policy to the resolved environment. A response that is made with its
-- code is the failure with that code.
unfoldable pub prepare : Host → StartPayload → String → String → Result Failure Prepared
prepare h pl sandbox cwd =
    if not (h.has_policy sandbox cwd)
    then err (domain_error "sandbox_failed" false)
    else if not (h.applies_policy sandbox cwd)
    then err (domain_error "sandbox_failed" false)
    else elim h.new_id [
      | none ↦ err other_failure
      | some i ↦
          if not (h.make_dir (log_dir_of h i))
          then err other_failure
          else elim (load_files h pl.env_files []) [
            | none ↦ err (domain_error "invalid_argument" false)
            | some m ↦ elim (h.resolve_env cwd (overlay m pl.env)) [
              | none ↦ err (domain_error "invalid_argument" false)
              | some resolved ↦
                  ok (record { id = i; env_map = overlay m pl.env; resolved = resolved })
            ]
          ]
    ]
