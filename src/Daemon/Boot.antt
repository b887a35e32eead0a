-- ===== src/Daemon/Boot.antt =====
-- internal/daemon/server.go: which processes `RelaunchEligible` starts.
use pmmcp.Prelude.{
  String, ◌≡◌, ap, ◌∙◌, ◌⊎◌, inl, inr, Bool, true, false, ◌&&◌, ◌||◌, Option, none, some, List, [],
  ◌∷◌, arith, str_eq, eq_iff, ltb, if◌then◌else◌, Bool-cases, is_some,
}
use pmmcp.Prelude.Result.{Result-cases}
use pmmcp.Domain.{Process}
use pmmcp.Supervise.Loop.{eligible_for_relaunch}
use pmmcp.Store.{list}
use pmmcp.Daemon.{Failure, Host, Server, Call, start_call, stop_call}
use pmmcp.Daemon.Guard.{save}
use pmmcp.Daemon.Restart.{call_start}
use pmmcp.Daemon.Edit.{is_running}
use pmmcp.Daemon.Keeps.{save-calls}
use pmmcp.Daemon.Keeps.{record_start_time-keeps}
use pmmcp.Daemon.Relaunch.{
  relaunch_spec, with_name, relaunched, attempt_start, relaunch_one, relaunch_each,
  relaunch_eligible,
}

-- Some entry satisfies a predicate.
abbrev pub Some : (Process → Type 0) → List Process → Type 0
Some P [] = ⊥
Some P (r ∷ rs) = P r ⊎ Some P rs

-- The manager was asked to start a process under that identifier.
abbrev pub was_started : String → List Call → Bool
was_started i [] = false
was_started i (stop_call j timeout ∷ calls) = was_started i calls
was_started i (start_call spec ∷ calls) = str_eq spec.id i || was_started i calls

-- A record that the daemon may start again under that identifier.
abbrev pub MayRelaunch : Host → String → Process → Type 0
MayRelaunch h i r =
    (r.id ≡ i) × (r.desired ≡ "running") × ((ltb 0 r.pid && h.pid_alive r.pid) ≡ false)

attempt_start-calls :
    (h : Host) (rec : Process) (s : Server)
    → (attempt_start h rec s).0.calls ≡ start_call (relaunch_spec rec s) ∷ s.calls
unfolding attempt_start relaunched call_start
attempt_start-calls h rec s =
    let s' = call_start (relaunch_spec rec s) s in
    elim (Result-cases (h.start_answer s.calls (relaunch_spec rec s))) [
      | inr (x, failed) ↦
          rw (attempt_start, failed)
            (save-calls h (record rec { status = "failed"; last_error = h.error_text x }) s')
      | inl (g, runs) ↦
          let saved : Process = record rec {
            status = "running";
            pid = g.pid;
            exit_code = none;
            started_at = some h.now;
            exited_at = none;
            last_error = "";
          } in
          let (store, calls, names) = record_start_time-keeps h rec.id g.pid (save h saved s') in
          rw (attempt_start, runs) (calls ∙ save-calls h saved s')
    ]

relaunch_one-starts :
    (h : Host) (rec : Process) (s : Server) (i : String)
    → was_started i (relaunch_one h rec s).0.calls ≡ true
    → (was_started i s.calls ≡ true) ⊎ MayRelaunch h i rec
unfolding relaunch_one eligible_for_relaunch with_name
relaunch_one-starts h rec s i e = elim (Bool-cases (str_eq rec.desired "running")) [
  | inr stays ↦ inl (ground (arith, stays, e))
  | inl wanted ↦ elim (Bool-cases (is_running (h.inspect_answer s.calls rec.id))) [
    | inl runs ↦ inl (ground (arith, wanted, runs, e))
    | inr idle ↦ elim (Bool-cases (ltb 0 rec.pid && h.pid_alive rec.pid)) [
      | inl alive ↦ inl (ground (arith, wanted, idle, alive, e))
      | inr gone ↦ elim (Bool-cases (str_eq rec.id i)) [
        | inl own ↦ inr ((eq_iff rec.id i).0 own, (eq_iff rec.desired "running").0 wanted, gone)
        | inr other ↦ inl (old_call other (tried wanted idle gone))
      ]
    ]
  ]
]
  where
    tried :
        str_eq rec.desired "running" ≡ true
        → is_running (h.inspect_answer s.calls rec.id) ≡ false
        → (ltb 0 rec.pid && h.pid_alive rec.pid) ≡ false
        → was_started i (attempt_start h rec (with_name rec s)).0.calls ≡ true
    tried wanted idle gone = ground (arith, wanted, idle, gone, e)

    old_call :
        str_eq rec.id i ≡ false
        → was_started i (attempt_start h rec (with_name rec s)).0.calls ≡ true
        → was_started i s.calls ≡ true
    old_call other t =
        unfold relaunch_spec in
        ground (arith, other, ap (was_started i) (attempt_start-calls h rec (with_name rec s)), t)

relaunch_each-starts :
    (h : Host) (recs : List Process) (first : Option Failure) (s : Server) (i : String)
    → was_started i (relaunch_each h recs first s).0.calls ≡ true
    → (was_started i s.calls ≡ true) ⊎ Some (MayRelaunch h i) recs
unfolding relaunch_each
relaunch_each-starts h [] first s i e = inl e
relaunch_each-starts h (rec ∷ recs) first s i e =
    elim (relaunch_each-starts h recs (if is_some first then first else (relaunch_one h rec s).1)
      (relaunch_one h rec s).0 i e) [
        | inr later ↦ inr (inr later)
        | inl before ↦ elim (relaunch_one-starts h rec s i before) [
          | inl earlier ↦ inl earlier
          | inr now ↦ inr (inl now)
        ]
      ]

-- When the daemon comes up it starts only processes that are wanted and gone: under every identifier
-- that the manager is newly asked to start there is a stored record whose desired state is running
-- and whose system process is not alive. What was stopped on purpose stays stopped.
pub relaunch_eligible-starts :
    (h : Host) (s : Server) (i : String)
    → was_started i s.calls ≡ false
    → was_started i (relaunch_eligible h s).0.calls ≡ true
    → Some (MayRelaunch h i) (list (record { project_id = ""; status = ""; name = "" }) s.store)
unfolding relaunch_eligible
relaunch_eligible-starts h s i fresh e =
    elim (relaunch_each-starts h (list (record { project_id = ""; status = ""; name = "" }) s.store)
      none s i e) [ inl before ↦ absurd (ground (arith, fresh, before)) | inr found ↦ found ]
