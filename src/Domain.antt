-- ===== src/Domain.antt =====
-- internal/domain: the words for a process's state, the checks on a process record, and the exit
-- code of an error.
pub mod Checks
pub mod Exits
mod Tests
use pmmcp.Prelude.{
  ℕ, suc, String, Bool, not, ◌&&◌, ◌||◌, Option, none, some, List, [], ◌∷◌, str_eq, ◌==◌,
  if◌then◌else◌, length,
}
use pmmcp.Prelude.Time.{Time}

-- `Status` and `Desired` are Go strings; these are the known ones, in the order of `AllStatuses`.
abbrev pub all_statuses : List String
all_statuses =
    "starting" ∷ "running" ∷ "unhealthy" ∷ "stopping" ∷ "exited" ∷ "failed" ∷ "crashed" ∷ []

unfoldable pub is_valid_status : String → Bool
is_valid_status s =
    str_eq s "starting"
    || (str_eq s "running"
        || (str_eq s "unhealthy"
            || (str_eq s "stopping"
                || (str_eq s "exited" || (str_eq s "failed" || str_eq s "crashed")))))

-- `none` is the error.
unfoldable pub parse_status : String → Option String
parse_status s = if not (is_valid_status s) then none else some s

abbrev pub desired_running : String
desired_running = "running"

abbrev pub desired_stopped : String
desired_stopped = "stopped"

unfoldable pub is_valid_desired : String → Bool
is_valid_desired d = str_eq d desired_running || str_eq d desired_stopped

pub record Process : Type 0 where
  pub id : String
  pub name : String
  pub command : List String
  pub cwd : String
  pub status : String
  pub desired : String
  pub project_id : String
  pub profile : String
  pub session_id : String
  pub sandbox : String
  pub runtime : String
  pub pid : ℕ
  pub exit_code : Option ℕ
  pub last_error : String
  pub log_dir : String
  pub env_keys : List String
  pub predecessor_id : String
  pub successor_id : String
  pub created_at : Time
  pub updated_at : Time
  pub started_at : Option Time
  pub exited_at : Option Time

pub data Invalid : Type 0 where
  empty_argv nil_process empty_name : Invalid
  empty_argument : ℕ → Invalid
  bad_status bad_desired : String → Invalid

-- The loop of `ValidateCommand` from the argument at index i on; `none` is the nil error.
unfoldable pub check_args : ℕ → List String → Option Invalid
check_args i [] = none
check_args i (a ∷ args) =
    let rest = check_args (suc i) args in if str_eq a "" then some (empty_argument i) else rest

unfoldable pub validate_command : List String → Option Invalid
unfolding check_args
validate_command command = if length command == 0 then some empty_argv else check_args 0 command

-- `p` is `none` for the nil pointer.
unfoldable pub validate : Option Process → Option Invalid
validate none = some nil_process
validate (some p) =
    if str_eq p.name "" then some empty_name else elim (validate_command p.command) [
      | some e ↦ some e
      | none ↦
          if not (str_eq p.status "") && not (is_valid_status p.status)
          then some (bad_status p.status)
          else if not (str_eq p.desired "") && not (is_valid_desired p.desired)
          then some (bad_desired p.desired)
          else none
    ]

abbrev pub Code : Type 0
Code = String

unfoldable pub exit_code : Code → ℕ
exit_code code =
    if str_eq code ""
    then 0
    else if str_eq code "invalid_argument"
    then 2
    else if str_eq code "daemon_unavailable"
    then 3
    else if str_eq code "not_found"
    then 4
    else if str_eq code "permission_denied"
    then 5
    else if str_eq code "conflict" || (str_eq code "name_conflict" || str_eq code "already_exists")
    then 6
    else if str_eq code "sandbox_failed"
    then 7
    else if str_eq code "ipc_version_mismatch"
    then 8
    else 1

-- A Go error: a `domain.Error` with or without a wrapped error, another error that wraps one, or a
-- plain error. Messages and details are left out.
pub data GoError : Type 0 where
  domain : Code → GoError
  domain_wrap : Code → GoError → GoError
  wrap : GoError → GoError
  plain : GoError

-- The code that `errors.As` finds: that of the outermost `domain.Error` of the chain.
unfoldable pub find_code : GoError → Option Code
find_code (domain c) = some c
find_code (domain_wrap c e) = some c
find_code (wrap e) = find_code e
find_code plain = none

-- `none` is the nil error.
unfoldable pub exit_code_from_error : Option GoError → ℕ
unfolding find_code
exit_code_from_error none = 0
exit_code_from_error (some e) = elim (find_code e) [
  | none ↦ 1
  | some c ↦ if str_eq c "" then 1 else exit_code c
]
