-- ===== src/Daemon/Run.antt =====
-- internal/daemon/handlers_ext.go: `doRun`, `doWait`, `doHealthCheck` and
-- `ensureMemberRunning`.
use pmmcp.Prelude.{String, Bool, true, false, not, Option, none, some, ◌∷◌, str_eq, if◌then◌else◌}
use Prim.Native.String.{◌++◌ as concat}
use pmmcp.Prelude.Int.{ℤ}
use pmmcp.Prelude.Result.{Result, ok, err}
use pmmcp.Domain.{Process, desired_stopped}
use pmmcp.Authz.{Principal}
use pmmcp.Store.{get}
use pmmcp.Daemon.{
  Failure, deadline_exceeded, StartResult, started, waited, health_checked, Response, answer,
  refusal, err_from, Handle, Host, Server,
}
use pmmcp.Daemon.Guard.{save, audited, deed}
use pmmcp.Daemon.Resolve.{resolve_id}
use pmmcp.Daemon.Control.{IdPayload}
use pmmcp.Daemon.Restart.{do_restart}
use pmmcp.Daemon.Edit.{by_id}
use pmmcp.Daemon.Request.{StartPayload}
use pmmcp.Daemon.Start.{do_start}

-- The record with what `Wait` tells.
unfoldable pub ended : Host → Handle → Process → Process
ended h g rec = record rec {
  status = if str_eq g.status "" then "exited" else g.status;
  exit_code = g.exit_code;
  pid = g.pid;
  exited_at = some h.now;
}

unfoldable pub wait_done : Principal → String → Process → Server → Server × Response
wait_done p i rec s = (
  record s {
    events =
        record { kind = "process.exited"; process_id = i; session_id = p.session; message = "" }
        ∷ s.events;
  },
  answer (waited i rec.status rec.exit_code false),
)

unfoldable pub do_wait : Host → Principal → IdPayload → Server → Server × Response
do_wait h p pl s = elim (resolve_id s pl.id pl.name pl.project) [
  | err e ↦ (s, err_from e)
  | ok (i, rec) ↦ elim (h.wait_answer s.calls i) [
    | err deadline_exceeded ↦ (s, answer (waited i rec.status none true))
    | err e ↦ (s, err_from e)
    | ok none ↦ wait_done p i rec s
    | ok (some g) ↦ wait_done p i (ended h g rec) (save h (ended h g rec) s)
  ]
]

-- The answer of `Inspect` to a health check: whether it passed and what it says, and the record that
-- is left.
unfoldable pub health_of : Result Failure (Option Handle) → Process → (Bool × String) × Process
health_of (err e) rec = ((false, "process not found in manager"), rec)
health_of (ok none) rec = ((false, "process not found in manager"), rec)
health_of (ok (some g)) rec =
    if str_eq g.status "running"
    then ((true, "running"), record rec { status = "running"; pid = g.pid })
    else if str_eq g.status ""
    then ((false, concat "status " g.status), rec)
    else ((false, concat "status " g.status), record rec { status = g.status })

unfoldable pub checked : Host → String → Process → Server → (Bool × String) × Process
checked h i rec s =
    if not (str_eq (s.health_url i) "")
    then (h.probe_answer (s.health_url i), rec)
    else health_of (h.inspect_answer s.calls i) rec

-- The record by the outcome of the check.
unfoldable pub judged : Bool → String → Process → Process
judged passed message rec =
    if not passed
    then record rec { status = "unhealthy"; last_error = message }
    else if str_eq rec.status "unhealthy"
    then record rec { status = "running"; last_error = "" }
    else rec

unfoldable pub do_health_check : Host → Principal → IdPayload → Server → Server × Response
do_health_check h p pl s = elim (resolve_id s pl.id pl.name pl.project) [
  | err e ↦ (s, err_from e)
  | ok (i, rec) ↦
      let ((passed, message), seen) = checked h i rec s in
      let new = judged passed message seen in
      (
        audited h (deed p "process.health_check" i message) (save h new s),
        answer (health_checked i passed new.status message),
      )
]

-- `api.RunPayload`: a start payload, and whether and how long to wait.
pub record RunPayload : Type 0 where
  pub start : StartPayload
  pub wait : Bool
  pub timeout_sec : ℤ

-- The desired state of a one-shot process, so that it is not started again with the daemon.
unfoldable pub set_one_shot : Host → String → Server → Server
set_one_shot h i s = elim (get i s.store) [
  | none ↦ s
  | some rec ↦ save h (record rec { desired = desired_stopped }) s
]

-- `doRun` once `doStart` has answered.
unfoldable pub after_start :
    Host → Principal → RunPayload → StartResult → Server → Server × Response
after_start h p pl r s =
    let s' = set_one_shot h r.id s in
    if not pl.wait
    then (s', answer (started r))
    else do_wait h p (record (by_id r.id) { timeout_sec = pl.timeout_sec }) s'

unfoldable pub run_named : Host → Principal → RunPayload → StartPayload → Server → Server × Response
run_named h p pl start s =
    let (s', r) = do_start h p (some start) s in
    elim r [ answer (started res) ↦ after_start h p pl res s' | other ↦ (s', other) ]

-- The payload is `none` if it cannot be decoded; a missing name is made from random bytes.
unfoldable pub do_run : Host → Principal → Option RunPayload → Server → Server × Response
do_run h p none s = (s, refusal "invalid_argument" false)
do_run h p (some pl) s =
    if not (str_eq pl.start.name "") then run_named h p pl pl.start s else elim h.run_name [
      | none ↦ (s, refusal "internal" false)
      | some name ↦ run_named h p pl (record pl.start { name = name }) s
    ]

unfoldable pub ensure_member_running :
    Host → Principal → String → String → Server → Server × Response
ensure_member_running h p project name s = elim (resolve_id s "" name project) [
  | err e ↦ (s, err_from e)
  | ok (i, rec) ↦ elim (h.inspect_answer s.calls i) [
    | ok (some g) ↦
        if str_eq g.status "running"
        then (
          s,
          answer (
              started (record {
                id = i;
                name = rec.name;
                pid = g.pid;
                status = "running";
                log_dir = rec.log_dir;
                predecessor_id = "";
              })),
        )
        else do_restart h p (by_id i) s
    | _ ↦ do_restart h p (by_id i) s
  ]
]
