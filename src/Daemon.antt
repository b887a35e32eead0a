-- ===== src/Daemon.antt =====
-- internal/daemon/server.go: the daemon's state, what it asks of the host, and the guards of its
-- handlers. A handler is one step; the time is that at which it begins.
pub mod Guard
pub mod Resolve
pub mod Control
pub mod Restart
pub mod Edit
pub mod Request
pub mod Prepare
pub mod Start
pub mod Relaunch
pub mod Boot
pub mod Keeps
pub mod Read
pub mod Apart
pub mod Cursor
pub mod Paging
pub mod Run
pub mod Dispatch
pub mod Observed
pub mod Roles
pub mod Tenancy
pub mod Written
pub mod Lineage
pub mod Names
pub mod Replace
pub mod Settled
mod Tests
use pmmcp.Prelude.{ℕ, String, Bool, false, Option, List, [], GoMap}
use Prim.Native.String.{◌++◌ as concat}
use pmmcp.Prelude.Int.{ℤ, pos}
use pmmcp.Prelude.Time.{Time}
use pmmcp.Prelude.Result.{Result}
use pmmcp.Domain.{Process, Code}
use pmmcp.Authz.Share.{ShareBook}
use pmmcp.Audit.{Log, Record}
use pmmcp.Store.{Table, StoreError, store_not_found, store_conflict}

-- The errors that `errFrom` tells apart.
pub data Failure : Type 0 where
  sandbox_failed invalid_spec already_exists process_not_found : Failure
  domain_error : Code → Bool → Failure
  record_not_found record_conflict deadline_exceeded other_failure : Failure

pub record StartResult : Type 0 where
  pub id : String
  pub name : String
  pub pid : ℕ
  pub status : String
  pub log_dir : String
  pub predecessor_id : String

pub record ProcessView : Type 0 where
  pub id : String
  pub name : String
  pub status : String
  pub desired : String
  pub pid : ℕ
  pub cwd : String
  pub command : List String
  pub log_dir : String
  pub project : String
  pub profile : String
  pub sandbox : String
  pub runtime : String
  pub env_keys : List String
  pub exit_code : Option ℕ
  pub error : String
  pub predecessor_id : String
  pub successor_id : String
  pub ports : List String
  pub discovered : List String

unfoldable pub to_view : Process → ProcessView
to_view p = record {
  id = p.id;
  name = p.name;
  status = p.status;
  desired = p.desired;
  pid = p.pid;
  cwd = p.cwd;
  command = p.command;
  log_dir = p.log_dir;
  project = p.project_id;
  profile = p.profile;
  sandbox = p.sandbox;
  runtime = p.runtime;
  env_keys = p.env_keys;
  exit_code = p.exit_code;
  error = p.last_error;
  predecessor_id = p.predecessor_id;
  successor_id = p.successor_id;
  ports = [];
  discovered = [];
}

-- The payload of an answer, before it is encoded.
pub data Answer : Type 0 where
  started : StartResult → Answer
  already_stopped : String → String → Answer
  stopped : String → String → Bool → Answer
  removed : String → String → Bool → Bool → Answer
  view : ProcessView → Answer
  waited : String → String → Option ℕ → Bool → Answer
  views : List ProcessView → Answer
  shared : Answer
  unshared : ℕ → Answer
  health_checked : String → Bool → String → String → Answer

-- `api.Response`: the answer, or the code of the error and whether to try again.
pub data Response : Type 0 where
  answer : Answer → Response
  refusal : Code → Bool → Response

-- `errFrom` on an error that is not nil.
unfoldable pub err_from : Failure → Response
err_from sandbox_failed = refusal "sandbox_failed" false
err_from invalid_spec = refusal "invalid_argument" false
err_from already_exists = refusal "conflict" false
err_from process_not_found = refusal "not_found" false
err_from (domain_error c retry) = refusal c retry
err_from record_not_found = refusal "not_found" false
err_from record_conflict = refusal "conflict" false
err_from deadline_exceeded = refusal "internal" false
err_from other_failure = refusal "internal" false

-- An error of the store as `errFrom` sees it: those of the checks on a record have no code.
unfoldable pub store_failure : StoreError → Failure
store_failure e = elim e [
  | store_not_found ↦ record_not_found
  | store_conflict ↦ record_conflict
  | _ ↦ other_failure
]

pub record StartSpec : Type 0 where
  pub id : String
  pub name : String
  pub command : List String
  pub cwd : String
  pub env : List String
  pub log_dir : String
  pub sandbox : String
  pub runtime : String
  pub image : String
  pub ports : List String
  pub memory_bytes : ℕ

pub record Handle : Type 0 where
  pub pid : ℕ
  pub status : String
  pub exit_code : Option ℕ

-- A call of the process manager that changes something.
pub data Call : Type 0 where
  start_call : StartSpec → Call
  stop_call : String → ℤ → Call

-- What the handlers ask of the host. The process manager may answer by the calls that were made.
pub record Host : Type 0 where
  pub now : Time
  pub new_id : Option String
  pub audit_id : Log → Option String
  pub start_answer : List Call → StartSpec → Result Failure Handle
  pub stop_answer : List Call → String → Option Failure
  pub inspect_answer : List Call → String → Result Failure (Option Handle)
  pub make_dir : String → Bool
  pub remove_all : String → Bool
  pub exists : String → Bool
  pub join_path : String → String → String
  pub start_time : ℕ → Option ℕ
  pub getwd : String
  pub detect_project : String → Option (String × String)
  pub to_lower : String → String
  pub has_policy : String → String → Bool
  pub applies_policy : String → String → Bool
  pub load_env_file : String → Option (List (String × String))
  pub resolve_env : String → List (String × String) → Option (List (String × String))
  pub is_secret_ref : String → Bool
  pub listening_ports : ℕ → List String
  pub pid_alive : ℕ → Bool
  pub wait_answer : List Call → String → Result Failure (Option Handle)
  pub probe_answer : String → Bool × String
  pub run_name : Option String
  pub error_text : Failure → String
  pub state_dir : String
  pub sandbox_default : String

pub record Notice : Type 0 where
  pub kind : String
  pub process_id : String
  pub session_id : String
  pub message : String

-- The fields of `Server` that the handlers change. The calls of the manager, the events and the
-- secrets to redact are kept newest first.
pub record Server : Type 0 where
  pub store : Table
  pub calls : List Call
  pub events : List Notice
  pub audit : Log
  pub shares : ShareBook
  pub registered : List (String × String)
  pub by_name : GoMap String
  pub projects : GoMap (Option String)
  pub watches : GoMap String
  pub health_url : GoMap String
  pub auto_restart : GoMap Bool
  pub ports : GoMap (List String)
  pub proc_env : GoMap (List String)
  pub mem_limit : GoMap ℕ
  pub start_times : GoMap (Option ℕ)
  pub stop_on_disconnect : GoMap String

unfoldable pub name_scope_key : String → String → String → String
name_scope_key project profile name =
    concat project (concat "\0" (concat profile (concat "\0" name)))

abbrev pub blank : Record
blank = record {
  seq = pos 0;
  id = "";
  action = "";
  actor = "";
  role = "";
  session_id = "";
  target = "";
  outcome = "";
  capability = "";
  client = "";
  reason = "";
  request_id = "";
  detail = "";
  at = 0;
}
