-- ===== src/Daemon/Roles.antt =====
-- internal/daemon and internal/authz: what a role without the capabilities of an agent can change.
use pmmcp.Prelude.{◌≡◌}
use pmmcp.Authz.{require as lacks}
use pmmcp.Daemon.{Host, Server}
use pmmcp.Daemon.Guard.{require}
use pmmcp.Daemon.Observed.{OnlyObserved}
use pmmcp.Daemon.Dispatch.{Request, wait_request, health_request}

-- A server that differs from another in its audit log only.
abbrev pub OnlyAudited : Server → Server → Type 0
OnlyAudited s t = t ≡ record s { audit = t.audit }

-- What a request of a role without the capabilities of an agent can change.
abbrev pub LowEffect : Host → Request → Server → Server → Type 0
LowEffect h (wait_request pl) s t = OnlyObserved h pl s t
LowEffect h (health_request pl) s t = OnlyObserved h pl s t
LowEffect h _ s t = OnlyAudited s t
