-- ===== src/Daemon/Observed.antt =====
-- internal/daemon/handlers_ext.go: what `doWait` and `doHealthCheck` change.
use pmmcp.Prelude.{
  String, ◌≡◌, refl, sym, ◌⊎◌, inl, inr, Bool, Option, none, true, false, some, arith, str_eq,
  Bool-cases, Option-cases,
}
use pmmcp.Authz.{Principal, Capability, require as lacks}
use mathlib.Core.Path.{subst}
use pmmcp.Prelude.Result.{Result, ok, err, Result-cases}
use pmmcp.Domain.{Process}
use pmmcp.Store.{update}
use pmmcp.Daemon.Run.{do_wait, wait_done, ended, health_of, checked, judged, do_health_check}
use pmmcp.Daemon.{Response, Host, Server, Handle, Failure}
use pmmcp.Daemon.Guard.{require, deny, save, audited, audit_log, deed}
use pmmcp.Daemon.Control.{IdPayload}
use pmmcp.Daemon.Resolve.{resolve_id}
use pmmcp.Daemon.Dispatch.{guarded}

-- The record, but for what the manager or a probe tells of the process.
abbrev pub IsObserved : Process → Process → Type 0
IsObserved old new = new ≡ record old {
  status = new.status;
  pid = new.pid;
  exit_code = new.exit_code;
  exited_at = new.exited_at;
  last_error = new.last_error;
}

-- A server that differs from another in its audit log, its events and at most the record of the
-- process that the request names, of which only what was observed is new.
abbrev pub OnlyObserved : Host → IdPayload → Server → Server → Type 0
OnlyObserved h pl s t =
    (t ≡ record s { audit = t.audit; events = t.events; store = t.store })
    × ((t.store ≡ s.store)
        ⊎ ((i : String) × (old : Process) × (new : Process) × (resolve_id s pl.id pl.name pl.project
              ≡ ok (i, old))
            × IsObserved old new
            × (t.store ≡ (save h new s).store)))

save-only :
    (h : Host) (rec : Process) (s : Server)
    → save h rec s ≡ record s { store = (save h rec s).store }
unfolding save
save-only h rec s = elim (Result-cases (update h.now rec s.store)) [
  | inl (t, e) ↦ rw (save, e) refl
  | inr (x, e) ↦ rw (save, e) refl
]

pub denied-OnlyObserved :
    (h : Host) (p : Principal) (method : String) (c : Capability) (pl : IdPayload) (s : Server)
    (rest : Server × Response)
    → OnlyObserved h pl s rest.0
    → OnlyObserved h pl s (guarded (require h p method c s) rest).0
unfolding guarded require deny
denied-OnlyObserved h p method c pl s rest observed = elim (Option-cases (lacks p c)) [
  | inl may ↦ rw (require, may) observed
  | inr (x, not_may) ↦ rw (require, not_may) (refl, inl refl)
]

health_of-IsObserved :
    (a : Result Failure (Option Handle)) (rec : Process) → IsObserved rec (health_of a rec).1
unfolding health_of
health_of-IsObserved (err x) rec = refl
health_of-IsObserved (ok none) rec = refl
health_of-IsObserved (ok (some g)) rec = elim (Bool-cases (str_eq g.status "running")) [
  | inl up ↦ rw (health_of, up) refl
  | inr down ↦ elim (Bool-cases (str_eq g.status "")) [
    | inl e ↦ rw (health_of, down, e) refl
    | inr e ↦ rw (health_of, down, e) refl
  ]
]

checked-IsObserved :
    (h : Host) (i : String) (rec : Process) (s : Server) → IsObserved rec (checked h i rec s).1
unfolding checked
checked-IsObserved h i rec s = elim (Bool-cases (str_eq (s.health_url i) "")) [
  | inl e ↦ rw (checked, e) (health_of-IsObserved (h.inspect_answer s.calls i) rec)
  | inr e ↦ rw (checked, e) refl
]

judged-IsObserved :
    (passed : Bool) (message : String) (old rec : Process)
    → IsObserved old rec
    → IsObserved old (judged passed message rec)
unfolding judged
judged-IsObserved false message old rec e =
    λ t. record (e t) { status = "unhealthy"; last_error = message }
judged-IsObserved true message old rec e = elim (Bool-cases (str_eq rec.status "unhealthy")) [
  | inl y ↦ rw y (λ t. record (e t) { status = "running"; last_error = "" })
  | inr n ↦ rw n e
]

do_wait-failed :
    (h : Host) (p : Principal) (pl : IdPayload) (s : Server) (i : String) (rec : Process)
    (x : Failure)
    → resolve_id s pl.id pl.name pl.project ≡ ok (i, rec)
    → h.wait_answer s.calls i ≡ err x
    → (do_wait h p pl s).0 ≡ s
unfolding do_wait
do_wait-failed h p pl s i rec x found failed = ground (arith, found, failed)

pub do_wait-OnlyObserved :
    (h : Host) (p : Principal) (pl : IdPayload) (s : Server)
    → OnlyObserved h pl s (do_wait h p pl s).0
unfolding do_wait wait_done ended
do_wait-OnlyObserved h p pl s = elim (Result-cases (resolve_id s pl.id pl.name pl.project)) [
  | inr (x, lost) ↦ rw (do_wait, lost) (refl, inl refl)
  | inl ((i, rec), found) ↦ elim (Result-cases (h.wait_answer s.calls i)) [
    | inr (x, failed) ↦
        subst (λ t. OnlyObserved h pl s t) (sym (do_wait-failed h p pl s i rec x found failed))
          (refl, inl refl)
    | inl (a, told) ↦ elim (Option-cases a) [
      | inl e ↦ rw (do_wait, found, told, e) (refl, inl refl)
      | inr (g, e) ↦
          let new = ended h g rec in
          rw (do_wait, found, told, e)
            (
              (λ t. record (save-only h new s t) {
                audit = (save h new s).audit;
                events = (wait_done p i new (save h new s)).0.events;
              }),
              inr (i, rec, new, refl, refl, refl),
            )
    ]
  ]
]

pub do_health_check-OnlyObserved :
    (h : Host) (p : Principal) (pl : IdPayload) (s : Server)
    → OnlyObserved h pl s (do_health_check h p pl s).0
unfolding do_health_check audited
do_health_check-OnlyObserved h p pl s =
    elim (Result-cases (resolve_id s pl.id pl.name pl.project)) [
      | inr (x, lost) ↦ rw (do_health_check, lost) (refl, inl refl)
      | inl ((i, rec), found) ↦
          let ((passed, message), seen) = checked h i rec s in
          let new = judged passed message seen in
          let observed = judged-IsObserved passed message rec seen (checked-IsObserved h i rec s) in
          rw (do_health_check, found)
            (
              (λ t. record (save-only h new s t) {
                audit = audit_log h (deed p "process.health_check" i message) (save h new s).audit;
                events = (save h new s).events;
              }),
              inr (i, rec, new, refl, observed, refl),
            )
    ]
