-- ===== src/Daemon/Relaunch.antt =====
-- internal/daemon/server.go: `RelaunchEligible`, which starts the wanted processes again when the
-- daemon comes up.
use pmmcp.Prelude.{
  ℕ, false, not, ◌&&◌, Option, none, some, List, [], ◌∷◌, str_eq, ltb, if◌then◌else◌, is_some, put,
}
use pmmcp.Prelude.Int.{pos}
use pmmcp.Prelude.Result.{ok, err}
use pmmcp.Domain.{Process}
use pmmcp.Supervise.{RestartPolicy}
use pmmcp.Supervise.Loop.{eligible_for_relaunch}
use pmmcp.Store.{list}
use pmmcp.Daemon.{Failure, Host, Server, Handle, StartSpec, name_scope_key}
use pmmcp.Daemon.Guard.{save, record_start_time}
use pmmcp.Daemon.Restart.{call_start}
use pmmcp.Daemon.Edit.{is_running}

unfoldable pub relaunch_spec : Process → Server → StartSpec
relaunch_spec rec s = record {
  id = rec.id;
  name = rec.name;
  command = rec.command;
  cwd = rec.cwd;
  env = s.proc_env rec.id;
  log_dir = rec.log_dir;
  sandbox = rec.sandbox;
  runtime = "";
  image = "";
  ports = [];
  memory_bytes = 0;
}

-- The maps with the name and the project of a record.
unfoldable pub with_name : Process → Server → Server
with_name rec s = record s {
  by_name = put s.by_name (name_scope_key rec.project_id rec.profile rec.name) rec.id;
  projects =
      if str_eq rec.project_id ""
      then s.projects
      else if is_some (s.projects rec.project_id)
      then s.projects
      else put s.projects rec.project_id (some rec.project_id);
}

unfoldable pub relaunched : Host → Process → Handle → Server → Server
relaunched h rec g s =
    let s' = record_start_time h rec.id g.pid (
      save h
        (record rec {
          status = "running";
          pid = g.pid;
          exit_code = none;
          started_at = some h.now;
          exited_at = none;
          last_error = "";
        })
        s) in
    record s' {
      events =
          record {
            kind = "process.relaunched";
            process_id = rec.id;
            session_id = "";
            message = rec.name;
          }
          ∷ s'.events;
    }

-- The zero value of the policy.
abbrev pub no_policy : RestartPolicy ℕ
no_policy = record {
  enabled = false;
  max = pos 0;
  backoff = pos 0;
  stable_window = pos 0;
  multiplier = 0;
  max_backoff = pos 0;
  jitter = 0;
}

-- The attempt to start a process again, and the error that it ends with.
unfoldable pub attempt_start : Host → Process → Server → Server × Option Failure
attempt_start h rec s =
    let s' = call_start (relaunch_spec rec s) s in
    elim (h.start_answer s.calls (relaunch_spec rec s)) [
      | err e ↦ (save h (record rec { status = "failed"; last_error = h.error_text e }) s', some e)
      | ok g ↦ (relaunched h rec g s', none)
    ]

-- One turn of the loop.
unfoldable pub relaunch_one : Host → Process → Server → Server × Option Failure
relaunch_one h rec s =
    if not (eligible_for_relaunch rec.desired no_policy)
    then (s, none)
    else if is_running (h.inspect_answer s.calls rec.id)
    then (with_name rec s, none)
    else if ltb 0 rec.pid && h.pid_alive rec.pid
    then (with_name rec s, none)
    else attempt_start h rec (with_name rec s)

-- The loop; its answer is the first error.
unfoldable pub relaunch_each :
    Host → List Process → Option Failure → Server → Server × Option Failure
relaunch_each h [] first s = (s, first)
relaunch_each h (rec ∷ recs) first s =
    let (s', failed) = relaunch_one h rec s in
    relaunch_each h recs (if is_some first then first else failed) s'

unfoldable pub relaunch_eligible : Host → Server → Server × Option Failure
relaunch_eligible h s =
    relaunch_each h (list (record { project_id = ""; status = ""; name = "" }) s.store) none s
