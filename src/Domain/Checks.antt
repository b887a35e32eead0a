-- ===== src/Domain/Checks.antt =====
-- The checks of internal/domain/process.go and status.go.
use pmmcp.Prelude.{
  ℕ, suc, String, ◌≡◌, refl, ◌≢◌, ◌↔◌, ◌⊎◌, true, none, some, List, [], ◌∷◌, arith, eq_iff, All,
  elem,
}
use pmmcp.Domain.{
  all_statuses, is_valid_status, is_valid_desired, parse_status, desired_running, desired_stopped,
  Process, check_args, validate_command, validate,
}

-- `Valid` and `AllStatuses` agree, and `ParseStatus` accepts exactly the statuses of the list.
pub parse_status_iff :
    (s t : String) → (parse_status s ≡ some t) ↔ ((s ≡ t) × (elem s all_statuses ≡ true))
unfolding parse_status is_valid_status elem
parse_status_iff s t = ((λ h. ground arith), (λ h. ground arith))

check_args-none : (i : ℕ) (args : List String) → check_args i args ≡ none → All (λ a. a ≢ "") args
unfolding check_args
check_args-none i [] h = tt
check_args-none i (a ∷ args) h =
    (ground (arith, eq_iff a ""), check_args-none (suc i) args (ground arith))

check_args-All : (i : ℕ) (args : List String) → All (λ a. a ≢ "") args → check_args i args ≡ none
unfolding check_args
check_args-All i [] h = refl
check_args-All i (a ∷ args) h = ground (arith, eq_iff a "", check_args-All (suc i) args h.1)

validate_command-none :
    (c : List String) → validate_command c ≡ none → (c ≢ []) × All (λ a. a ≢ "") c
unfolding validate_command
validate_command-none c h = ((λ e. ground (arith, e)), check_args-none 0 c (ground arith))

validate_command-All : (c : List String) → c ≢ [] → All (λ a. a ≢ "") c → validate_command c ≡ none
unfolding validate_command
validate_command-All [] n a = absurd (n refl)
validate_command-All (x ∷ c) n a = ground (arith, check_args-All 0 (x ∷ c) a)

status_known : (s : String) → is_valid_status s ≡ elem s all_statuses
unfolding is_valid_status elem
status_known s = ground arith

-- A name, a command of one argument at least and no empty one, and a status and a desired state
-- that are known or left empty.
abbrev pub IsWellFormed : Process → Type 0
IsWellFormed p =
    (p.name ≢ "")
    × ((p.command ≢ []) × All (λ a. a ≢ "") p.command)
    × ((p.status ≡ "") ⊎ (elem p.status all_statuses ≡ true))
    × ((p.desired ≡ "") ⊎ ((p.desired ≡ desired_running) ⊎ (p.desired ≡ desired_stopped)))

validate-IsWellFormed : (p : Process) → validate (some p) ≡ none → IsWellFormed p
unfolding validate is_valid_desired
validate-IsWellFormed p h = (
  ground (arith, eq_iff p.name ""),
  validate_command-none p.command (ground arith),
  ground (arith, eq_iff p.status "", status_known p.status),
  ground (
    arith,
    eq_iff p.desired "",
    eq_iff p.desired desired_running,
    eq_iff p.desired desired_stopped,
  ),
)

IsWellFormed-validate : (p : Process) → IsWellFormed p → validate (some p) ≡ none
unfolding validate is_valid_desired
IsWellFormed-validate p (n, (c, a), s, d) = ground (
  arith,
  validate_command-All p.command c a,
  eq_iff p.name "",
  eq_iff p.status "",
  status_known p.status,
  eq_iff p.desired "",
  eq_iff p.desired desired_running,
  eq_iff p.desired desired_stopped,
)

-- A process record passes the checks exactly if it has a name, a command of one argument at least
-- and no empty one, and a status and a desired state that are known or left empty.
pub validate_iff : (p : Process) → (validate (some p) ≡ none) ↔ IsWellFormed p
validate_iff p = (validate-IsWellFormed p, IsWellFormed-validate p)
