-- ===== src/Authz/Tests.antt =====
-- Runs of internal/authz and the theorems about it at concrete principals and grants.
use pmmcp.Prelude.{String, ◌≡◌, refl, false, some, [], ◌∷◌, elem}
use pmmcp.Authz.{Principal, OsUser, allow, caps, require, permission_denied, same_uid}
use pmmcp.Authz.Share.{Grant, ShareBook}

abbrev principal_of : String → Principal
principal_of role = record { uid = "501"; username = "sam"; role = role; session = "ses_1" }

abbrev sam : OsUser
sam = record { uid = "501"; username = "sam" }

-- A reader stops no process; an empty user identifier is nobody.
require_reader :
    require (principal_of "readonly") "process:stop"
    ≡ some (permission_denied "readonly" "process:stop")
unfolding require allow caps elem
require_reader = refl

same_uid_empty : same_uid (record { uid = ""; username = ""; role = ""; session = "" }) "" ≡ false
unfolding same_uid
same_uid_empty = refl

abbrev grant_to : String → Grant
grant_to c = record { target = "proc_1"; cap = c; to_session = "ses_2"; grantor = "ses_1" }

abbrev book : ShareBook
book = grant_to "logs:read" ∷ grant_to "process:stop" ∷ []
