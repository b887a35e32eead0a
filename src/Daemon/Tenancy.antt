-- ===== src/Daemon/Tenancy.antt =====
-- internal/daemon: which principal can stop, restart or remove the process of another session.
use pmmcp.Prelude.{String, ◌≡◌, refl, ◌⊎◌, true, false, inl, inr, Option-cases, some, arith, eq_iff}
use pmmcp.Prelude.Result.{ok, Result-cases}
use pmmcp.Domain.{Process, desired_stopped}
use pmmcp.Authz.{Principal, Capability, allow, require as lacks}
use pmmcp.Daemon.Dispatch.{stop_request, disable_request, guarded, dispatch}
use pmmcp.Authz.Share.{ShareBook, allowed}
use pmmcp.Store.{update}
use pmmcp.Daemon.{Host, Server, Response, refusal}
use pmmcp.Daemon.Guard.{require, denial, deny, audited, authorize_target}
use pmmcp.Daemon.Resolve.{resolve_id}
use pmmcp.Daemon.Control.{IdPayload, do_stop, do_remove}
use pmmcp.Daemon.Restart.{do_restart}
use pmmcp.Daemon.Edit.{disable_record, do_enable}

-- The process has no session, or that of the principal; or the principal's role is over sessions; or
-- the process was shared with its session for that capability.
abbrev pub MayAct : Principal → Capability → Process → ShareBook → Type 0
MayAct p c rec b =
    (rec.session_id ≡ "")
    ⊎ (rec.session_id ≡ p.session)
    ⊎ (p.role ≡ "full")
    ⊎ (p.role ≡ "operator")
    ⊎ (allowed rec.id p.session c b ≡ true)

pub authorize_target-refuses :
    (h : Host) (p : Principal) (method : String) (c : Capability) (rec : Process) (s : Server)
    → ¬ MayAct p c rec s.shares
    → authorize_target h p method c rec s ≡ some (deny h p method c s)
unfolding authorize_target
authorize_target-refuses h p method c rec s other = ground (
  arith,
  other,
  eq_iff rec.session_id "",
  eq_iff rec.session_id p.session,
  eq_iff p.role "full",
  eq_iff p.role "operator",
)

-- A principal that may not act on the process that a request names can neither stop nor restart nor
-- remove it: the answer is `permission_denied`, the denial is handed to the audit log, and nothing
-- else of the server changes.
pub controls-refused :
    (h : Host) (p : Principal) (pl : IdPayload) (s : Server) (i : String) (rec : Process)
    → resolve_id s pl.id pl.name pl.project ≡ ok (i, rec)
    → ¬ MayAct p "process:stop" rec s.shares
    → ¬ MayAct p "process:restart" rec s.shares
    → ¬ MayAct p "process:remove" rec s.shares
    → (do_stop h p pl s
        ≡ (audited h (denial p "process.stop" "process:stop") s, refusal "permission_denied" false))
      × (do_restart h p pl s ≡ (
        audited h (denial p "process.restart" "process:restart") s,
        refusal "permission_denied" false,
      ))
      × (do_remove h p pl s ≡ (
        audited h (denial p "process.remove" "process:remove") s,
        refusal "permission_denied" false,
      ))
unfolding do_stop do_restart do_remove deny audited
controls-refused h p pl s i rec found stop restart remove = (
  rw (do_stop, found, authorize_target-refuses h p "process.stop" "process:stop" rec s stop) refl,
  rw
      (
        do_restart,
        found,
        authorize_target-refuses h p "process.restart" "process:restart" rec s restart,
      )
      refl,
  rw (do_remove, found, authorize_target-refuses h p "process.remove" "process:remove" rec s remove)
      refl,
)

-- Denied by the role or by the process, a request is denied in the same way.
pub guarded-refused :
    (h : Host) (p : Principal) (method : String) (c : Capability) (s : Server)
    (rest : Server × Response)
    → rest ≡ (audited h (denial p method c) s, refusal "permission_denied" false)
    → guarded (require h p method c s) rest
      ≡ (audited h (denial p method c) s, refusal "permission_denied" false)
unfolding guarded require deny audited
guarded-refused h p method c s rest e = elim (Option-cases (lacks p c)) [
  | inl may ↦ rw (require, may) e
  | inr (x, not_may) ↦ rw (require, not_may) refl
]

pub guarded-passes :
    (h : Host) (p : Principal) (method : String) (c : Capability) (s : Server)
    (rest : Server × Response)
    → allow p c ≡ true
    → guarded (require h p method c s) rest ≡ rest
unfolding guarded require lacks
guarded-passes h p method c s rest holds = rw (guarded, require, lacks, holds) refl

disable_record-blind :
    (h : Host) (p q : Principal) (i : String) (rec : Process) (s : Server)
    → let (t, a) = disable_record h p i rec s in
      let (u, b) = disable_record h q i rec s in (b ≡ a) × (u ≡ record t { audit = u.audit })
unfolding disable_record audited
disable_record-blind h p q i rec s = elim (Result-cases (update h.now rec s.store)) [
  | inl (t, taken) ↦ rw (disable_record, taken) (refl, refl)
  | inr (x, lost) ↦ rw (disable_record, lost) (refl, refl)
]

-- Whose process it is does not matter for disabling it. Take a principal q that may not act on the
-- process that a request names (it has another session, and was not shared for a stop), and any other
-- principal p, such as the one that started it, both with roles that have `process:stop`. A stop that q
-- asks for is denied and changes only the audit log; but a disable that q asks for has the answer that
-- p gets, and leaves the server, with the calls of the process manager, as p's does, but for the audit
-- log.
pub disable-unguarded :
    (h : Host) (p q : Principal) (pl : IdPayload) (s : Server) (i : String) (rec : Process)
    → resolve_id s pl.id pl.name pl.project ≡ ok (i, rec)
    → allow p "process:stop" ≡ true
    → allow q "process:stop" ≡ true
    → ¬ MayAct q "process:stop" rec s.shares
    → let (t, a) = dispatch h p (disable_request pl) s in
      let (u, b) = dispatch h q (disable_request pl) s in
      (dispatch h q (stop_request pl) s
        ≡ (audited h (denial q "process.stop" "process:stop") s, refusal "permission_denied" false))
      × (b ≡ a)
      × (u ≡ record t { audit = u.audit })
unfolding dispatch do_stop deny audited do_enable
disable-unguarded h p q pl s i rec found holds_p holds_q stop =
    let same : ((dispatch h q (disable_request pl) s).1 ≡ (dispatch h p (disable_request pl) s).1)
        × ((dispatch h q (disable_request pl) s).0
            ≡ record (dispatch h p (disable_request pl) s).0 {
              audit = (dispatch h q (disable_request pl) s).0.audit;
            }) =
      rw
        (
          guarded-passes h p "process.disable" "process:stop" s (do_enable h p pl false s) holds_p,
          guarded-passes h q "process.disable" "process:stop" s (do_enable h q pl false s) holds_q,
          do_enable,
          found,
        )
        (disable_record-blind h p q i (record rec { desired = desired_stopped }) s) in
    (
      guarded-refused h q "process.stop" "process:stop" s (do_stop h q pl s) (
          rw (do_stop, found, authorize_target-refuses h q "process.stop" "process:stop" rec s stop)
            refl),
      same.0,
      same.1,
    )
