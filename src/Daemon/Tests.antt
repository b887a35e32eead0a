-- ===== src/Daemon/Tests.antt =====
-- A daemon with two processes, runs of its handlers, and the witnesses.
use pmmcp.Prelude.{ℕ, String, ◌≡◌, refl, ◌≢◌, true, false, none, some, [], ◌∷◌, ◌++◌, arith, eq_iff}
use pmmcp.Prelude.Int.{pos, mul64}
use pmmcp.Prelude.Time.{second}
use pmmcp.Prelude.Result.{ok}
use pmmcp.Domain.{
  Process, validate, validate_command, check_args, is_valid_status, is_valid_desired,
}
use pmmcp.Authz.{Principal, allow}
use pmmcp.Authz.Share.{allowed}
use pmmcp.Audit.{new_log}
use pmmcp.Store.{
  Table, get, has_id, clashes, is_same_live, null_runtime, created, create, updated, update, write,
  write_row, list, matches, place,
}
use pmmcp.Daemon.{
  Host, Server, Handle, Call, start_call, stop_call, StartSpec, StartResult, Answer, started, views,
  Response, answer, refusal, ProcessView, to_view,
}
use pmmcp.Daemon.Guard.{audited, denial, authorize_target}
use pmmcp.Daemon.Resolve.{resolve_id, find_record}
use pmmcp.Daemon.Control.{IdPayload, do_stop, do_remove}
use pmmcp.Daemon.Restart.{restart_spec, restart_timeout, do_restart, restart_target, start_again}
use pmmcp.Daemon.Edit.{by_id, is_running, do_enable}
use pmmcp.Daemon.Request.{
  StartPayload, placement, sandbox_is_relaxation, sandbox_rank, sandbox_of, name_holder,
  holder_in_map,
}
use pmmcp.Daemon.Start.{do_start}
use pmmcp.Daemon.Read.{ListPayload, do_list, collect_views, is_shown, list_limit, list_project}
use pmmcp.Daemon.Dispatch.{stop_request, remove_request, start_request, disable_request, dispatch}
use pmmcp.Daemon.Relaunch.{relaunch_eligible}
use pmmcp.Daemon.Tenancy.{MayAct, controls-refused, disable-unguarded}
use pmmcp.Daemon.Lineage.{Linked, do_restart-lineage}
use pmmcp.Daemon.Names.{do_start-name_kept}
use pmmcp.Daemon.Replace.{HeldBy, replace-unguarded}
use pmmcp.Daemon.Settled.{StartEnds}
use pmmcp.Daemon.Boot.{Some, MayRelaunch, relaunch_eligible-starts}
use pmmcp.Daemon.Cursor.{views_of, page, last_id}
use pmmcp.Daemon.Paging.{do_list-pages}

abbrev host : Host
host = record {
  now = 9;
  new_id = some "p9";
  audit_id = λ l. some "a1";
  start_answer = λ calls spec. ok (record { pid = 70; status = "running"; exit_code = none });
  stop_answer = λ calls i. none;
  inspect_answer = λ calls i. ok (some (record { pid = 7; status = "running"; exit_code = none }));
  make_dir = λ path. true;
  remove_all = λ path. true;
  exists = λ path. false;
  join_path = λ dir name. name;
  start_time = λ pid. none;
  getwd = "/srv";
  detect_project = λ path. none;
  to_lower = λ text. text;
  has_policy = λ profile path. true;
  applies_policy = λ profile path. true;
  load_env_file = λ path. none;
  resolve_env = λ path env. some env;
  is_secret_ref = λ text. false;
  listening_ports = λ pid. [];
  pid_alive = λ pid. false;
  wait_answer = λ calls i. ok none;
  probe_answer = λ url. (true, "status 200");
  run_name = none;
  error_text = λ e. "failed";
  state_dir = "/state";
  sandbox_default = "standard";
}

-- The host after a crash, on which nothing runs.
abbrev idle_host : Host
idle_host = record host { inspect_answer = λ calls i. ok none }

abbrev process : String → String → String → Process
process id name session = record {
  id = id;
  name = name;
  command = "serve" ∷ [];
  cwd = "/srv";
  status = "running";
  desired = "running";
  project_id = "shop";
  profile = "";
  session_id = session;
  sandbox = "standard";
  runtime = "local";
  pid = 7;
  exit_code = none;
  last_error = "";
  log_dir = "";
  env_keys = [];
  predecessor_id = "";
  successor_id = "";
  created_at = 5;
  updated_at = 5;
  started_at = none;
  exited_at = none;
}

abbrev web : Process
web = process "p1" "web" "ann"

abbrev web_and_db : Table
web_and_db = record (process "p2" "db" "bob") { created_at = 6 } ∷ web ∷ []

abbrev server : Server
server = record {
  store = web_and_db;
  calls = [];
  events = [];
  audit = new_log (pos 10);
  shares = [];
  registered = [];
  by_name = λ key. "";
  projects = λ key. none;
  watches = λ i. "";
  health_url = λ i. "";
  auto_restart = λ i. false;
  ports = λ i. [];
  proc_env = λ i. [];
  mem_limit = λ i. 0;
  start_times = λ i. none;
  stop_on_disconnect = λ i. "";
}

abbrev agent_of : String → Principal
agent_of session = record { uid = "1000"; username = ""; role = "agent"; session = session }

stop_foreign :
    (do_stop host (agent_of "bob") (by_id "p1") server).1 ≡ refusal "permission_denied" false
unfolding do_stop resolve_id find_record get authorize_target pmmcp.Daemon.Guard.deny allowed
stop_foreign = refl

strangers : (c : String) → ¬ MayAct (agent_of "bob") c web []
unfolding allowed
strangers c m = ground (
  arith,
  m,
  eq_iff "ann" "",
  eq_iff "ann" "bob",
  eq_iff "agent" "full",
  eq_iff "agent" "operator",
)

controls-refused_example :
    (do_stop host (agent_of "bob") (by_id "p1") server ≡ (
      audited host (denial (agent_of "bob") "process.stop" "process:stop") server,
      refusal "permission_denied" false,
    ))
    × (do_restart host (agent_of "bob") (by_id "p1") server ≡ (
      audited host (denial (agent_of "bob") "process.restart" "process:restart") server,
      refusal "permission_denied" false,
    ))
    × (do_remove host (agent_of "bob") (by_id "p1") server ≡ (
      audited host (denial (agent_of "bob") "process.remove" "process:remove") server,
      refusal "permission_denied" false,
    ))
unfolding resolve_id find_record get
controls-refused_example =
    controls-refused host (agent_of "bob") (by_id "p1") server "p1" web refl
      (strangers "process:stop") (strangers "process:restart") (strangers "process:remove")

disable-unguarded_example :
    let (t, a) = dispatch host (agent_of "ann") (disable_request (by_id "p1")) server in
    let (u, b) = dispatch host (agent_of "bob") (disable_request (by_id "p1")) server in
    (dispatch host (agent_of "bob") (stop_request (by_id "p1")) server ≡ (
      audited host (denial (agent_of "bob") "process.stop" "process:stop") server,
      refusal "permission_denied" false,
    ))
    × (b ≡ a)
    × (u ≡ record t { audit = u.audit })
unfolding resolve_id find_record get allow pmmcp.Authz.caps pmmcp.Prelude.elem
disable-unguarded_example =
    disable-unguarded host (agent_of "ann") (agent_of "bob") (by_id "p1") server "p1" web refl refl
      refl (strangers "process:stop")

-- The process runs, and is stopped.
disable_stops :
    (do_enable host (agent_of "bob") (by_id "p1") false server).0.calls
    ≡ stop_call "p1" (mul64 (pos 10) second) ∷ []
unfolding do_enable pmmcp.Daemon.Edit.disable_record pmmcp.Daemon.Edit.stop_disabled
    pmmcp.Daemon.Control.call_stop pmmcp.Daemon.Guard.save audited resolve_id find_record get update
    write write_row updated null_runtime has_id clashes is_same_live validate validate_command
    check_args is_valid_status is_valid_desired is_running
disable_stops = refl

abbrev web_again : StartPayload
web_again = record {
  name = "web";
  command = "serve" ∷ [];
  cwd = "";
  env = [];
  env_files = [];
  sandbox = "";
  project = "shop";
  stop_on_disconnect = false;
  health_url = "";
  auto_restart = false;
  ports = [];
  runtime = "";
  image = "";
  profile = "";
  memory_bytes = 0;
  replace = false;
}

web_is_held : HeldBy host (record web_again { replace = true }) server "p1"
unfolding validate_command check_args sandbox_is_relaxation sandbox_rank sandbox_of name_holder
    holder_in_map placement list matches place pmmcp.Daemon.Request.first_live
    pmmcp.Daemon.Guard.is_terminal
web_is_held = (refl, refl, refl, refl, refl)

replace-unguarded_example :
    (dispatch host (agent_of "bob") (stop_request (by_id "p1")) server ≡ (
      audited host (denial (agent_of "bob") "process.stop" "process:stop") server,
      refusal "permission_denied" false,
    ))
    × (dispatch host (agent_of "bob") (remove_request (by_id "p1")) server ≡ (
      audited host (denial (agent_of "bob") "process.remove" "process:remove") server,
      refusal "permission_denied" false,
    ))
    × StartEnds host
        (stop_call "p1" (mul64 (pos 5) second) ∷ [])
        (dispatch host
          (agent_of "bob")
          (start_request (some (record web_again { replace = true })))
          server).0
unfolding resolve_id find_record get allow pmmcp.Authz.caps pmmcp.Prelude.elem
replace-unguarded_example =
    replace-unguarded host (agent_of "bob") (record web_again { replace = true }) (by_id "p1")
      server "p1" web refl (strangers "process:stop") (strangers "process:remove") refl web_is_held
      refl

-- The same server after `web` has stopped.
abbrev web_exited : Server
web_exited = record server { store = record web { status = "exited"; desired = "stopped" } ∷ [] }

do_start-name_kept_example :
    (do_start host (agent_of "ann") (some (record web_again { profile = "dev" })) web_exited).1
    ≢ answer (views [])
unfolding get placement
do_start-name_kept_example =
    do_start-name_kept host (agent_of "ann") (record web_again { profile = "dev" }) web_exited "p1"
      (record web { status = "exited"; desired = "stopped" }) (views []) refl (refl, refl, refl)
      refl

abbrev restart_result : Answer
restart_result = started (record {
  id = "p9";
  name = "web";
  pid = 70;
  status = "running";
  log_dir = "p9";
  predecessor_id = "p1";
})

restart_answers : (do_restart host (agent_of "ann") (by_id "p1") server).1 ≡ answer restart_result
unfolding do_restart restart_target start_again resolve_id find_record get authorize_target
    pmmcp.Daemon.Restart.link pmmcp.Daemon.Restart.restarted pmmcp.Daemon.Restart.retired
    pmmcp.Daemon.Restart.successor pmmcp.Daemon.Restart.call_start pmmcp.Daemon.Control.call_stop
    pmmcp.Daemon.Guard.save pmmcp.Daemon.Guard.log_dir_of create created update write write_row
    updated null_runtime has_id clashes is_same_live validate validate_command check_args
    is_valid_status is_valid_desired
restart_answers = refl

do_restart-lineage_example :
    (new : String) × (pid : ℕ) × Linked
      (agent_of "ann")
      web
      new
      pid
      (do_restart host (agent_of "ann") (by_id "p1") server).0
    × ((do_restart host (agent_of "ann") (by_id "p1") server).0.calls
        ≡ start_call (restart_spec host "p1" web new server)
          ∷ stop_call "p1" (restart_timeout (by_id "p1"))
          ∷ [])
unfolding resolve_id find_record get validate validate_command check_args is_valid_status
    is_valid_desired
do_restart-lineage_example =
    do_restart-lineage host (agent_of "ann") (by_id "p1") server web restart_result refl refl refl
      (λ e. ground (arith, e, eq_iff "p1" "")) restart_answers

relaunch_eligible-starts_example :
    Some
      (MayRelaunch idle_host "p1")
      (list (record { project_id = ""; status = ""; name = "" }) web_and_db)
unfolding relaunch_eligible pmmcp.Daemon.Relaunch.relaunch_each pmmcp.Daemon.Relaunch.relaunch_one
    pmmcp.Daemon.Relaunch.attempt_start pmmcp.Daemon.Relaunch.relaunched
    pmmcp.Daemon.Relaunch.with_name pmmcp.Daemon.Relaunch.relaunch_spec
    pmmcp.Supervise.Loop.eligible_for_relaunch pmmcp.Daemon.Restart.call_start
    pmmcp.Daemon.Guard.save pmmcp.Daemon.Guard.record_start_time is_running update write write_row
    updated null_runtime has_id clashes is_same_live validate validate_command check_args
    is_valid_status is_valid_desired list matches place
relaunch_eligible-starts_example = relaunch_eligible-starts idle_host server "p1" refl refl

abbrev everything : ListPayload
everything = record {
  project = "";
  cwd = "";
  status = "";
  include_exited = false;
  runtime = "";
  profile = "";
  cursor = "";
  limit = pos 0;
  all = true;
}

do_list-pages_example :
    views_of (do_list host (page everything "" 1) server).1
      ++ views_of
          (do_list host
            (page everything
              (last_id "" (views_of (do_list host (page everything "" 1) server).1))
              1)
            server).1
    ≡ views_of (do_list host (page everything "" 2) server).1
unfolding has_id clashes is_same_live views_of do_list collect_views is_shown list_limit
    list_project list matches place pmmcp.Daemon.Guard.is_terminal
do_list-pages_example =
    do_list-pages host everything server 0 0 (refl, refl, refl, (refl, refl, refl, tt)) (λ e. cc)
