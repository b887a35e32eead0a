-- ===== src/Daemon/Control.antt =====
-- internal/daemon/server.go: `doStop` and `doRemove`.
use pmmcp.Prelude.{
  String, Bool, false, not, ◌&&◌, ◌||◌, none, some, List, [], ◌∷◌, str_eq, if◌then◌else◌, put,
}
use Prim.Native.String.{◌++◌ as concat}
use pmmcp.Prelude.Int.{ℤ, pos, leb_ℤ, mul64}
use pmmcp.Prelude.Time.{second}
use pmmcp.Prelude.Result.{ok, err}
use pmmcp.Domain.{Process, desired_stopped}
use pmmcp.Authz.{Principal}
use pmmcp.Store.{delete}
use pmmcp.Daemon.{
  already_stopped, stopped, removed, Response, answer, err_from, store_failure, Call, stop_call,
  Host, Server, name_scope_key,
}
use pmmcp.Daemon.Guard.{deed, audit_log, authorize_target, save, is_terminal}
use pmmcp.Daemon.Resolve.{resolve_id}

pub record IdPayload : Type 0 where
  pub id : String
  pub name : String
  pub project : String
  pub timeout_sec : ℤ
  pub force : Bool
  pub purge_logs : Bool

-- A call of the manager to stop a process.
unfoldable pub call_stop : String → ℤ → Server → Server
call_stop i timeout s = record s { calls = stop_call i timeout ∷ s.calls }

unfoldable pub stop_timeout : IdPayload → ℤ
stop_timeout pl =
    if pl.force
    then pos 1000000
    else if leb_ℤ pl.timeout_sec (pos 0)
    then mul64 (pos 10) second
    else mul64 pl.timeout_sec second

-- The record of a process that was stopped, with what `Inspect` tells of it.
unfoldable pub as_stopped : Host → List Call → String → Process → Process
as_stopped h calls i rec =
    let rec' = record rec {
      status = "exited";
      desired = desired_stopped;
      exited_at = some h.now;
    } in
    elim (h.inspect_answer calls i) [
      | err e ↦ rec'
      | ok none ↦ rec'
      | ok (some g) ↦ record rec' {
        exit_code = g.exit_code;
        status = if str_eq g.status "" then "exited" else g.status;
      }
    ]

-- `doStop` once the manager has stopped the process.
unfoldable pub after_stop :
    Host → Principal → IdPayload → String → Process → Server → Server × Response
after_stop h p pl i rec s =
    let rec' = as_stopped h s.calls i rec in
    let s' = save h rec' s in
    (
      record s' {
        events =
            record {
              kind = "process.stopped";
              process_id = i;
              session_id = p.session;
              message = "";
            }
            ∷ s'.events;
        audit = audit_log h (deed p "process.stop" i "") s'.audit;
      },
      answer (stopped i rec'.status pl.force),
    )

-- `doStop` of a process that the principal may act on.
unfoldable pub stop_target :
    Host → Principal → IdPayload → String → Process → Server → Server × Response
stop_target h p pl i rec s =
    if is_terminal rec.status
    then (s, answer (already_stopped i rec.status))
    else elim (h.stop_answer s.calls i) [
      | some e ↦ (call_stop i (stop_timeout pl) s, err_from e)
      | none ↦ after_stop h p pl i rec (call_stop i (stop_timeout pl) s)
    ]

unfoldable pub do_stop : Host → Principal → IdPayload → Server → Server × Response
do_stop h p pl s = elim (resolve_id s pl.id pl.name pl.project) [
  | err e ↦ (s, err_from e)
  | ok (i, rec) ↦ elim (authorize_target h p "process.stop" "process:stop" rec s) [
    | some denied ↦ denied
    | none ↦ stop_target h p pl i rec s
  ]
]

-- The maps of the server without the process.
unfoldable pub forget : String → Process → Server → Server
forget i rec s = record s {
  by_name = put s.by_name (name_scope_key rec.project_id rec.profile rec.name) "";
  health_url = put s.health_url i "";
  auto_restart = put s.auto_restart i false;
  ports = put s.ports i [];
  proc_env = put s.proc_env i [];
  watches = put s.watches i "";
  stop_on_disconnect = put s.stop_on_disconnect i "";
  start_times = put s.start_times i none;
}

-- A declaration is known under the project's root, so that `apply` may create the process again.
unfoldable pub is_declared : Host → Process → Server → Bool
is_declared h rec s = elim (s.projects rec.project_id) [
  | none ↦ false
  | some root ↦ h.exists (h.join_path root "pmmcp.yaml") || h.exists (h.join_path root "pmmcp.yml")
]

-- `doRemove` of a process that the principal may act on.
unfoldable pub remove_target :
    Host → Principal → IdPayload → String → Process → Server → Server × Response
remove_target h p pl i rec s0 =
    let s = call_stop i (mul64 (pos 5) second) s0 in
    elim (delete i s.store) [
      | err e ↦ (s, err_from (store_failure e))
      | ok t ↦
          let s' = forget i rec s in
          (
            record s' {
              store = t;
              audit =
                  audit_log h
                    (deed p "process.remove" i
                      (if pl.purge_logs then concat rec.name " purge_logs=true" else rec.name))
                    s'.audit;
            },
            answer (
                removed i rec.name
                  (pl.purge_logs && (not (str_eq rec.log_dir "") && h.remove_all rec.log_dir))
                  (is_declared h rec s)),
          )
    ]

unfoldable pub do_remove : Host → Principal → IdPayload → Server → Server × Response
do_remove h p pl s = elim (resolve_id s pl.id pl.name pl.project) [
  | err e ↦ (s, err_from e)
  | ok (i, rec) ↦ elim (authorize_target h p "process.remove" "process:remove" rec s) [
    | some denied ↦ denied
    | none ↦ remove_target h p pl i rec s
  ]
]
