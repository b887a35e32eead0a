-- ===== src/Daemon/Start.antt =====
-- internal/daemon/server.go: `doStart`.
use pmmcp.Prelude.{
  ℕ, String, true, false, not, ◌&&◌, Option, none, some, ◌∷◌, map, str_eq, ltb, if◌then◌else◌,
  length, put,
}
use pmmcp.Prelude.Int.{pos, mul64}
use pmmcp.Prelude.Time.{second}
use pmmcp.Prelude.Result.{ok, err}
use pmmcp.Domain.{Process, validate_command, desired_running}
use pmmcp.Authz.{Principal}
use pmmcp.Store.{create}
use pmmcp.Daemon.{
  started, Response, answer, refusal, err_from, store_failure, StartSpec, Host, Server,
  name_scope_key,
}
use pmmcp.Daemon.Guard.{audited, deed, require, record_start_time, log_dir_of}
use pmmcp.Daemon.Control.{call_stop}
use pmmcp.Daemon.Restart.{call_start, is_listed}
use pmmcp.Daemon.Edit.{key_value}
use pmmcp.Daemon.Request.{
  StartPayload, sandbox_is_relaxation, sandbox_of, placement, name_holder, replace_existing,
}
use pmmcp.Daemon.Prepare.{register, Prepared, prepare}

abbrev pub runtime_of : StartPayload → String
runtime_of pl = if str_eq pl.runtime "" then "local" else pl.runtime

unfoldable pub start_spec : Host → StartPayload → String → String → Prepared → StartSpec
start_spec h pl sandbox cwd pre = record {
  id = pre.id;
  name = pl.name;
  command = pl.command;
  cwd = cwd;
  env = map key_value pre.resolved;
  log_dir = log_dir_of h pre.id;
  sandbox = sandbox;
  runtime = runtime_of pl;
  image = pl.image;
  ports = pl.ports;
  memory_bytes = pl.memory_bytes;
}

unfoldable pub started_record :
    Host → Principal → StartPayload → String → String → String → Prepared → ℕ → Process
started_record h p pl sandbox project cwd pre pid = record {
  id = pre.id;
  name = pl.name;
  command = pl.command;
  cwd = cwd;
  status = "running";
  desired = desired_running;
  project_id = project;
  profile = pl.profile;
  session_id = p.session;
  sandbox = sandbox;
  runtime = runtime_of pl;
  pid = pid;
  exit_code = none;
  last_error = "";
  log_dir = log_dir_of h pre.id;
  env_keys = map (λ kv. kv.0) pre.resolved;
  predecessor_id = "";
  successor_id = "";
  created_at = 0;
  updated_at = 0;
  started_at = some h.now;
  exited_at = none;
}

-- The maps of the server with what the payload asks for.
unfoldable pub remember :
    Principal → StartPayload → String → String → String → Prepared → Server → Server
remember p pl project cwd key pre s = record s {
  by_name = put s.by_name key pre.id;
  projects =
      if str_eq project ""
      then s.projects
      else put s.projects project (some (if str_eq pl.project "" then cwd else project));
  proc_env =
      if ltb 0 (length pre.resolved)
      then put s.proc_env pre.id (map key_value pre.resolved)
      else s.proc_env;
  health_url =
      if str_eq pl.health_url "" then s.health_url else put s.health_url pre.id pl.health_url;
  auto_restart = if pl.auto_restart then put s.auto_restart pre.id true else s.auto_restart;
  ports = if is_listed pl.ports then put s.ports pre.id pl.ports else s.ports;
  mem_limit = if ltb 0 pl.memory_bytes then put s.mem_limit pre.id pl.memory_bytes else s.mem_limit;
  stop_on_disconnect =
      if pl.stop_on_disconnect && not (str_eq p.session "")
      then put s.stop_on_disconnect pre.id p.session
      else s.stop_on_disconnect;
}

-- `doStart` once the record is stored.
unfoldable pub commit_start :
    Host
    → Principal
    → StartPayload
    → String
    → String
    → String
    → Prepared
    → ℕ
    → Server
    → Server × Response
commit_start h p pl project cwd key pre pid s =
    let s' = record_start_time h pre.id pid (remember p pl project cwd key pre s) in
    (
      audited h (deed p "process.start" pre.id pl.name) (record s' {
        events =
            record {
              kind = "process.started";
              process_id = pre.id;
              session_id = p.session;
              message = pl.name;
            }
            ∷ s'.events;
      }),
      answer (
          started (record {
            id = pre.id;
            name = pl.name;
            pid = pid;
            status = "running";
            log_dir = log_dir_of h pre.id;
            predecessor_id = "";
          })),
    )

-- `doStart` once the process runs: the record is created, or the process stopped again.
unfoldable pub store_start :
    Host
    → Principal
    → StartPayload
    → String
    → String
    → String
    → String
    → Prepared
    → ℕ
    → Server
    → Server × Response
store_start h p pl sandbox project cwd key pre pid s =
    elim (create h.now (started_record h p pl sandbox project cwd pre pid) s.store) [
      | err e ↦ (call_stop pre.id (mul64 (pos 2) second) s, err_from (store_failure e))
      | ok t ↦ commit_start h p pl project cwd key pre pid (record s { store = t })
    ]

-- `doStart` once the name is free.
unfoldable pub start_new :
    Host → Principal → StartPayload → String → String → String → String → Server → Server × Response
start_new h p pl sandbox project cwd key s = elim (prepare h pl sandbox cwd) [
  | err e ↦ (s, err_from e)
  | ok pre ↦
      let s' =
        call_start (start_spec h pl sandbox cwd pre)
          (record s { registered = register h pre.env_map pre.resolved s.registered }) in
      elim (h.start_answer s.calls (start_spec h pl sandbox cwd pre)) [
        | err e ↦ (s', err_from e)
        | ok g ↦ store_start h p pl sandbox project cwd key pre g.pid s'
      ]
]

-- `doStart` of a sandbox that the principal may ask for.
unfoldable pub start_named :
    Host → Principal → StartPayload → String → String → String → Server → Server × Response
start_named h p pl sandbox project cwd s =
    let key = name_scope_key project pl.profile pl.name in
    let (i, s') = name_holder project pl key s in
    if str_eq i ""
    then start_new h p pl sandbox project cwd key s'
    else if not pl.replace
    then (s', refusal "name_conflict" false)
    else start_new h p pl sandbox project cwd key (replace_existing key i s')

unfoldable pub start_sandboxed : Host → Principal → StartPayload → Server → Server × Response
start_sandboxed h p pl s =
    let (project, cwd) = placement h pl in start_named h p pl (sandbox_of h pl) project cwd s

-- The payload is `none` if it cannot be decoded.
unfoldable pub do_start : Host → Principal → Option StartPayload → Server → Server × Response
do_start h p none s = (s, refusal "invalid_argument" false)
do_start h p (some pl) s = elim (validate_command pl.command) [
  | some e ↦ (s, refusal "invalid_argument" false)
  | none ↦
      if str_eq pl.name ""
      then (s, refusal "invalid_argument" false)
      else if not (sandbox_is_relaxation h h.sandbox_default (sandbox_of h pl))
      then start_sandboxed h p pl s
      else elim (require h p "process.start:sandbox_relax" "sandbox:relax" s) [
        | some denied ↦ denied
        | none ↦ start_sandboxed h p pl s
      ]
]
