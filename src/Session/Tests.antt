-- ===== src/Session/Tests.antt =====
-- Runs of internal/session and the theorems about it at concrete registries.
use pmmcp.Prelude.{◌≡◌, refl, none, put}
use pmmcp.Session.{
  Registry, new_registry, open_commit, open_session, insert, new_session, primary_id, open_probe,
}
use pmmcp.Session.Coherence.{IsCoherent, Reach, here, next, commits, Reach-IsCoherent}

abbrev one_session : Registry
one_session = (open_commit new_registry "ses_1" "claude" "agent" 7).0

abbrev two_sessions : Registry
two_sessions = (open_commit one_session "ses_2" "" "logs" 9).0

primary_id_harness : primary_id (new_session "ses_1" "claude" "agent" 7) ≡ "claude"
unfolding primary_id new_session
primary_id_harness = refl

open_session_again : (open_session one_session none "claude" "full" 8).0 ≡ one_session
unfolding open_session open_commit open_probe insert new_session new_registry put
open_session_again = refl

two_sessions-Reach : Reach new_registry two_sessions
unfolding open_commit open_probe insert new_session new_registry put
two_sessions-Reach =
    next (next here (commits "ses_1" "claude" "agent" 7 refl)) (commits "ses_2" "" "logs" 9 refl)

Reach-IsCoherent_example : IsCoherent two_sessions
Reach-IsCoherent_example = Reach-IsCoherent two_sessions-Reach
