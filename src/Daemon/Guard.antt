-- ===== src/Daemon/Guard.antt =====
-- internal/daemon/server.go: what the handlers share: the guards, the audit log, and the updates whose
-- errors are ignored.
use pmmcp.Prelude.{
  ℕ, String, Bool, false, ◌||◌, Option, none, some, str_eq, ◌==◌, if◌then◌else◌, put,
}
use pmmcp.Prelude.Result.{ok, err}
use pmmcp.Domain.{Process}
use pmmcp.Authz.{Principal, Role, Capability, role_full, role_operator, require as lacks}
use pmmcp.Authz.Share.{allowed}
use pmmcp.Audit.{Log, Record, append}
use pmmcp.Store.{update}
use pmmcp.Daemon.{Host, Response, Server, blank, refusal}

-- `_, _ = s.audit.Append(…)`.
unfoldable pub audit_log : Host → Record → Log → Log
audit_log h r l = elim (append l (h.audit_id l) h.now r) [ none ↦ l | some (l', r') ↦ l' ]

-- The record that `auditDeny` appends.
unfoldable pub denial : Principal → String → Capability → Record
denial p method c = record blank {
  action = method;
  actor = p.role;
  role = p.role;
  session_id = p.session;
  target = method;
  outcome = "denied";
  capability = c;
  detail = c;
}

-- `deny`: the denial is audited and returned.
unfoldable pub deny : Host → Principal → String → Capability → Server → Server × Response
deny h p method c s = (
  record s { audit = audit_log h (denial p method c) s.audit },
  refusal "permission_denied" false,
)

-- The server and the response of a denial; `none` is the nil response of a check that passed.
unfoldable pub require :
    Host → Principal → String → Capability → Server → Option (Server × Response)
require h p method c s = elim (lacks p c) [ none ↦ none | some e ↦ some (deny h p method c s) ]

unfoldable pub authorize_target :
    Host → Principal → String → Capability → Process → Server → Option (Server × Response)
authorize_target h p method c rec s =
    if str_eq rec.session_id "" || str_eq rec.session_id p.session
    then none
    else if str_eq p.role role_full || str_eq p.role role_operator
    then none
    else if allowed rec.id p.session c s.shares
    then none
    else some (deny h p method c s)

-- `principal`, for a daemon that runs as that user.
unfoldable pub principal : String → Role → String → Principal
principal uid role session = record {
  uid = uid;
  username = "";
  role = if str_eq role "" then role_full else role;
  session = session;
}

-- `_ = s.store.Update(…)`.
unfoldable pub save : Host → Process → Server → Server
save h rec s = elim (update h.now rec s.store) [ ok t ↦ record s { store = t } | err e ↦ s ]

unfoldable pub record_start_time : Host → String → ℕ → Server → Server
record_start_time h i pid s = if pid == 0 then s else elim (h.start_time pid) [
  | none ↦ s
  | some at ↦ record s { start_times = put s.start_times i (some at) }
]

unfoldable pub is_terminal : String → Bool
is_terminal status = str_eq status "exited" || str_eq status "failed"

unfoldable pub audited : Host → Record → Server → Server
audited h r s = record s { audit = audit_log h r s.audit }

-- The audit record of something that a principal did.
unfoldable pub deed : Principal → String → String → String → Record
deed p action target detail = record blank {
  action = action;
  actor = p.role;
  session_id = p.session;
  target = target;
  detail = detail;
}

unfoldable pub log_dir_of : Host → String → String
log_dir_of h i = h.join_path (h.join_path h.state_dir "logs") i
