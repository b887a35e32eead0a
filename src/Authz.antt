-- ===== src/Authz.antt =====
-- internal/authz/authz.go: capabilities, roles and the checks on them. A capability or a role is a
-- Go string, so unknown values can occur.
pub mod Roles
pub mod Share
mod Tests
use pmmcp.Prelude.{
  String, Bool, List, [], ◌∷◌, ◌++◌, Option, none, some, str_eq, elem, if◌then◌else◌,
}
use pmmcp.Prelude.{◌&&◌, not}

abbrev pub Capability : Type 0
Capability = String

abbrev pub Role : Type 0
Role = String

abbrev pub role_full : Role
role_full = "full"

abbrev pub role_operator : Role
role_operator = "operator"

abbrev pub role_agent : Role
role_agent = "agent"

abbrev pub role_readonly : Role
role_readonly = "readonly"

abbrev pub role_logs : Role
role_logs = "logs"

abbrev pub cap_secrets_read_values : Capability
cap_secrets_read_values = "secrets:read_values"

abbrev pub cap_session_end : Capability
cap_session_end = "session:end"

pub record Principal : Type 0 where
  pub uid : String
  pub username : String
  pub role : Role
  pub session : String

abbrev pub caps_readonly : List Capability
caps_readonly =
    "process:list" ∷ "process:read" ∷ "events:read" ∷ "daemon:info" ∷ cap_session_end ∷ []

abbrev pub caps_logs : List Capability
caps_logs = caps_readonly ++ "logs:read" ∷ []

abbrev pub caps_agent : List Capability
caps_agent =
    caps_logs
    ++ "process:start" ∷ "process:stop" ∷ "process:restart" ∷ "process:remove" ∷ "declare:apply"
      ∷ "group:manage" ∷ "profile:manage" ∷ "watch:set" ∷ "audit:read" ∷ []

abbrev pub caps_operator : List Capability
caps_operator =
    caps_agent
    ++ "logs:export" ∷ "sandbox:relax" ∷ "daemon:configure" ∷ "webhooks:manage" ∷ "secrets:write"
      ∷ "session:share" ∷ []

abbrev pub caps_full : List Capability
caps_full = caps_operator ++ cap_secrets_read_values ∷ []

-- The list behind the set that `Caps` builds: an unknown role has none.
unfoldable pub caps : Role → List Capability
caps role =
    if str_eq role role_full
    then caps_full
    else if str_eq role role_operator
    then caps_operator
    else if str_eq role role_agent
    then caps_agent
    else if str_eq role role_logs
    then caps_logs
    else if str_eq role role_readonly
    then caps_readonly
    else []

unfoldable pub allow : Principal → Capability → Bool
allow p c = elem c (caps p.role)

pub data Denied : Type 0 where
  permission_denied : Role → Capability → Denied

-- `none` is the nil error.
unfoldable pub require : Principal → Capability → Option Denied
require p c = if allow p c then none else some (permission_denied p.role c)

-- The result of the OS user lookup, which may fail.
pub record OsUser : Type 0 where
  pub uid : String
  pub username : String

unfoldable pub current_user_from : Option OsUser → Role → String → Option Principal
current_user_from none role session = none
current_user_from (some u) role session = some (record {
  uid = u.uid;
  username = u.username;
  role = if str_eq role "" then role_agent else role;
  session = session;
})

unfoldable pub same_uid : Principal → String → Bool
same_uid p daemon_uid = not (str_eq p.uid "") && str_eq p.uid daemon_uid
