-- ===== src/Daemon/Restart.antt =====
-- internal/daemon/server.go: `doRestart`.
use pmmcp.Prelude.{
  ℕ, String, Bool, true, false, not, none, some, List, [], ◌∷◌, str_eq, ltb, if◌then◌else◌, GoMap,
  put,
}
use Prim.Native.String.{◌++◌ as concat}
use pmmcp.Prelude.Int.{ℤ, pos, mul64}
use pmmcp.Prelude.Time.{second}
use pmmcp.Prelude.Result.{ok, err}
use pmmcp.Domain.{Process, desired_running, desired_stopped}
use pmmcp.Authz.{Principal}
use pmmcp.Store.{create}
use pmmcp.Daemon.{
  other_failure, started, Response, answer, err_from, store_failure, StartSpec, start_call, Host,
  Server, name_scope_key,
}
use pmmcp.Daemon.Guard.{audited, deed, authorize_target, save, record_start_time, log_dir_of}
use pmmcp.Daemon.Resolve.{resolve_id}
use pmmcp.Daemon.Control.{IdPayload, call_stop}

unfoldable pub restart_spec : Host → String → Process → String → Server → StartSpec
restart_spec h i rec new s = record {
  id = new;
  name = rec.name;
  command = rec.command;
  cwd = rec.cwd;
  env = s.proc_env i;
  log_dir = log_dir_of h new;
  sandbox = rec.sandbox;
  runtime = rec.runtime;
  image = "";
  ports = s.ports i;
  memory_bytes = s.mem_limit i;
}

-- The predecessor, terminal and with the link to its successor.
unfoldable pub retired : Host → String → Process → Process
retired h new rec = record rec {
  status = "exited";
  desired = desired_stopped;
  successor_id = new;
  exited_at = some h.now;
}

unfoldable pub successor : Host → Principal → String → Process → String → ℕ → Process
successor h p i rec new pid = record {
  id = new;
  name = rec.name;
  command = rec.command;
  cwd = rec.cwd;
  status = "running";
  desired = desired_running;
  project_id = rec.project_id;
  profile = rec.profile;
  session_id = p.session;
  sandbox = rec.sandbox;
  runtime = rec.runtime;
  pid = pid;
  exit_code = none;
  last_error = "";
  log_dir = log_dir_of h new;
  env_keys = rec.env_keys;
  predecessor_id = i;
  successor_id = "";
  created_at = 0;
  updated_at = 0;
  started_at = some h.now;
  exited_at = none;
}

-- What a map kept for the old process is kept for the new one, if there is anything to keep.
unfoldable pub pass_on {ℓ} : {V : Type ℓ} → Bool → V → String → String → GoMap V → GoMap V
pass_on is_set empty i new m = put (if is_set then put m new (m i) else m) i empty

unfoldable pub is_listed : List String → Bool
is_listed [] = false
is_listed (x ∷ xs) = true

unfoldable pub hand_over : String → Process → String → Server → Server
hand_over i rec new s = record s {
  by_name = put s.by_name (name_scope_key rec.project_id rec.profile rec.name) new;
  proc_env = pass_on (is_listed (s.proc_env i)) [] i new s.proc_env;
  ports = pass_on (is_listed (s.ports i)) [] i new s.ports;
  mem_limit = pass_on (ltb 0 (s.mem_limit i)) 0 i new s.mem_limit;
  auto_restart = pass_on (s.auto_restart i) false i new s.auto_restart;
  health_url = pass_on (not (str_eq (s.health_url i) "")) "" i new s.health_url;
  stop_on_disconnect =
      pass_on (not (str_eq (s.stop_on_disconnect i) "")) "" i new s.stop_on_disconnect;
  start_times = put s.start_times i none;
}

-- `doRestart` once both records are stored.
unfoldable pub restarted :
    Host → Principal → String → Process → String → ℕ → Server → Server × Response
restarted h p i rec new pid s =
    let s' = record_start_time h new pid (hand_over i rec new s) in
    (
      audited h (deed p "process.restart" i (concat "successor=" new)) (record s' {
        events =
            record {
              kind = "process.restarted";
              process_id = new;
              session_id = p.session;
              message = concat "predecessor=" i;
            }
            ∷ s'.events;
      }),
      answer (
          started (record {
            id = new;
            name = rec.name;
            pid = pid;
            status = "running";
            log_dir = log_dir_of h new;
            predecessor_id = i;
          })),
    )

-- `doRestart` once the new process runs: the old record is updated and the new one created.
unfoldable pub link : Host → Principal → String → Process → String → ℕ → Server → Server × Response
link h p i rec new pid s0 =
    let s = save h (retired h new rec) s0 in
    elim (create h.now (successor h p i rec new pid) s.store) [
      | err e ↦ (call_stop new (mul64 (pos 2) second) s, err_from (store_failure e))
      | ok t ↦ restarted h p i rec new pid (record s { store = t })
    ]

unfoldable pub call_start : StartSpec → Server → Server
call_start spec s = record s { calls = start_call spec ∷ s.calls }

unfoldable pub restart_timeout : IdPayload → ℤ
restart_timeout pl = if pl.force then pos 100000000 else mul64 (pos 10) second

-- `doRestart` once the old process was told to stop.
unfoldable pub start_again : Host → Principal → String → Process → Server → Server × Response
start_again h p i rec s = elim h.new_id [
  | none ↦ (s, err_from other_failure)
  | some new ↦
      if not (h.make_dir (log_dir_of h new))
      then (s, err_from other_failure)
      else elim (h.start_answer s.calls (restart_spec h i rec new s)) [
        | err e ↦ (call_start (restart_spec h i rec new s) s, err_from e)
        | ok g ↦ link h p i rec new g.pid (call_start (restart_spec h i rec new s) s)
      ]
]

unfoldable pub restart_target :
    Host → Principal → IdPayload → String → Process → Server → Server × Response
restart_target h p pl i rec s = start_again h p i rec (call_stop i (restart_timeout pl) s)

unfoldable pub do_restart : Host → Principal → IdPayload → Server → Server × Response
do_restart h p pl s = elim (resolve_id s pl.id pl.name pl.project) [
  | err e ↦ (s, err_from e)
  | ok (i, rec) ↦ elim (authorize_target h p "process.restart" "process:restart" rec s) [
    | some denied ↦ denied
    | none ↦ restart_target h p pl i rec s
  ]
]
