-- ===== src/Domain/Tests.antt =====
-- Runs of internal/domain and the theorems about it at concrete records and errors.
use pmmcp.Prelude.{String, ◌≡◌, refl, none, some, [], ◌∷◌}
use pmmcp.Domain.{
  Process, validate, GoError, domain, wrap, check_args, validate_command, is_valid_status,
  is_valid_desired,
}

abbrev web : Process
web = record {
  id = "proc_1";
  name = "web";
  command = "npm" ∷ "start" ∷ [];
  cwd = "/srv";
  status = "running";
  desired = "running";
  project_id = "";
  profile = "";
  session_id = "";
  sandbox = "";
  runtime = "";
  pid = 42;
  exit_code = none;
  last_error = "";
  log_dir = "";
  env_keys = [];
  predecessor_id = "";
  successor_id = "";
  created_at = 1;
  updated_at = 1;
  started_at = none;
  exited_at = none;
}

validate-web : validate (some web) ≡ none
unfolding validate validate_command check_args is_valid_status is_valid_desired
validate-web = refl

abbrev crashed : String
crashed = "crashed"

abbrev missing : GoError
missing = wrap (domain "not_found")
