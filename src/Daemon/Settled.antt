-- ===== src/Daemon/Settled.antt =====
-- internal/daemon/server.go: what becomes of a process that `doRestart` starts.
pub mod Start
use pmmcp.Prelude.{
  String, ◌≡◌, refl, sym, ap, ◌∙◌, ◌⊎◌, inl, inr, true, false, none, some, List, ◌∷◌, arith, eq_iff,
  Bool-cases, Option-cases,
}
use mathlib.Core.Path.{subst}
use pmmcp.Prelude.Result.{ok, err, Result-cases}
use pmmcp.Domain.{Process}
use pmmcp.Authz.{Principal}
use pmmcp.Store.{Table, StoreError, get, created, create}
use pmmcp.Prelude.Int.{ℤ, pos, mul64}
use pmmcp.Prelude.Time.{second}
use pmmcp.Store.Unique.{create-ok}
use pmmcp.Daemon.{
  Host, Server, Handle, Call, start_call, stop_call, Failure, err_from, other_failure, StartSpec,
}
use pmmcp.Daemon.Guard.{deny, save, log_dir_of}
use pmmcp.Daemon.Resolve.{resolve_id}
use pmmcp.Daemon.Control.{IdPayload, call_stop}
use pmmcp.Daemon.Keeps.{save-calls}
use pmmcp.Daemon.Written.{restarted-keeps}
use pmmcp.Daemon.Keeps.{authorize_target-cases}
use pmmcp.Daemon.Restart.{
  restart_spec, retired, successor, link, call_start, restart_timeout, start_again, restart_target,
  do_restart,
}

-- The record of the process that was started by that spec, as running, with the identifier that the
-- system gave it.
abbrev pub IsRecordOf : StartSpec → Handle → Process → Type 0
IsRecordOf spec g rec =
    (rec.id ≡ spec.id)
    × (rec.name ≡ spec.name)
    × (rec.command ≡ spec.command)
    × (rec.status ≡ "running")
    × (rec.pid ≡ g.pid)

abbrev pub IsStored : StartSpec → Handle → Table → Type 0
IsStored spec g t = (r : Process) × (get spec.id t ≡ some r) × IsRecordOf spec g r

-- How a start ends that is made after those calls: none is asked for; the manager declines it; the
-- process has been started and its record is stored; or it has been started, the store does not take
-- a record of it, and the manager was asked to stop that same process.
pub data StartEnds (h : Host) (calls : List Call) (t : Server) : Type 0 where
  no_start : t.calls ≡ calls → StartEnds h calls t
  declined :
      (spec : StartSpec) (x : Failure)
      → h.start_answer calls spec ≡ err x
      → t.calls ≡ start_call spec ∷ calls
      → StartEnds h calls t
  recorded :
      (spec : StartSpec) (g : Handle)
      → h.start_answer calls spec ≡ ok g
      → t.calls ≡ start_call spec ∷ calls
      → IsStored spec g t.store
      → StartEnds h calls t
  given_up :
      (spec : StartSpec) (g : Handle) (rec : Process) (e : StoreError) (timeout : ℤ)
      → h.start_answer calls spec ≡ ok g
      → IsRecordOf spec g rec
      → create h.now rec t.store ≡ err e
      → t.calls ≡ stop_call spec.id timeout ∷ start_call spec ∷ calls
      → StartEnds h calls t

-- At most one stop is asked for before.
abbrev pub AfterStop : List Call → List Call → Type 0
AfterStop before calls =
    (calls ≡ before) ⊎ ((i : String) × (timeout : ℤ) × (calls ≡ stop_call i timeout ∷ before))

abbrev pub HandlerEnds : Host → Server → Server → Type 0
HandlerEnds h s t = (calls : List Call) × AfterStop s.calls calls × StartEnds h calls t

-- A process that was started and whose record is the newest one of the store.
pub newest-IsStored :
    (h : Host) (spec : StartSpec) (g : Handle) (rec : Process) (rest t : Table)
    → IsRecordOf spec g rec
    → t ≡ created h.now rec ∷ rest
    → IsStored spec g t
newest-IsStored h spec g rec rest t same eq =
    (created h.now rec, ap (get spec.id) eq ∙ heads, (unfold created in same))
  where
    heads : get spec.id (created h.now rec ∷ rest) ≡ some (created h.now rec)
    heads = unfold get created in ground (arith, eq_iff rec.id spec.id, same)

link-StartEnds :
    (h : Host) (p : Principal) (i : String) (rec : Process) (new : String) (g : Handle) (s : Server)
    → h.start_answer s.calls (restart_spec h i rec new s) ≡ ok g
    → StartEnds h s.calls (link h p i rec new g.pid (call_start (restart_spec h i rec new s) s)).0
unfolding link call_stop
link-StartEnds h p i rec new g s runs =
    let spec = restart_spec h i rec new s in
    let s1 = save h (retired h new rec) (call_start spec s) in
    let succ = successor h p i rec new g.pid in
    let asked : s1.calls ≡ start_call spec ∷ s.calls =
      save-calls h (retired h new rec) (call_start spec s) ∙ called spec in
    elim (Result-cases (create h.now succ s1.store)) [
      | inr (x, taken) ↦
          rw (link, taken)
            (given_up spec g succ x (mul64 (pos 2) second) runs is_its taken
              (λ t. stop_call (is_new_spec t) (mul64 (pos 2) second) ∷ asked t))
      | inl (t, stored) ↦
          let (named, unused, free, eq) = create-ok h.now succ s1.store t stored in
          let (store, calls, names) =
            restarted-keeps h p i rec new g.pid (record s1 { store = t }) in
          rw (link, stored)
            (recorded spec g runs (calls ∙ asked) (
              subst (λ x. IsStored spec g x) (sym store)
                (newest-IsStored h spec g succ s1.store t is_its eq)))
    ]
  where
    called : (spec : StartSpec) → (call_start spec s).calls ≡ start_call spec ∷ s.calls
    called spec = unfold call_start in refl

    is_its : IsRecordOf (restart_spec h i rec new s) g (successor h p i rec new g.pid)
    is_its = unfold successor restart_spec in (refl, refl, refl, refl, refl)

    is_new_spec : new ≡ (restart_spec h i rec new s).id
    is_new_spec = unfold restart_spec in refl

start_again-StartEnds :
    (h : Host) (p : Principal) (i : String) (rec : Process) (s : Server)
    → StartEnds h s.calls (start_again h p i rec s).0
unfolding start_again
start_again-StartEnds h p i rec s = elim (Option-cases h.new_id) [
  | inl lost ↦ subst (λ x. StartEnds h s.calls x.0) (sym (no_id lost)) (no_start refl)
  | inr (new, made) ↦ elim (Bool-cases (h.make_dir (log_dir_of h new))) [
    | inr full ↦ subst (λ x. StartEnds h s.calls x.0) (sym (no_dir new made full)) (no_start refl)
    | inl dir ↦ elim (Result-cases (h.start_answer s.calls (restart_spec h i rec new s))) [
      | inr (x, failed) ↦
          subst (λ x. StartEnds h s.calls x.0) (sym (not_granted new x made dir failed))
            (declined (restart_spec h i rec new s) x failed (unfold call_start in refl))
      | inl (g, runs) ↦
          subst (λ x. StartEnds h s.calls x.0) (sym (run new g made dir runs))
            (link-StartEnds h p i rec new g s runs)
    ]
  ]
]
  where
    no_id : h.new_id ≡ none → start_again h p i rec s ≡ (s, err_from other_failure)
    no_id lost = ground (arith, lost)

    no_dir :
        (new : String)
        → h.new_id ≡ some new
        → h.make_dir (log_dir_of h new) ≡ false
        → start_again h p i rec s ≡ (s, err_from other_failure)
    no_dir new made full = ground (arith, made, full)

    not_granted :
        (new : String) (x : Failure)
        → h.new_id ≡ some new
        → h.make_dir (log_dir_of h new) ≡ true
        → h.start_answer s.calls (restart_spec h i rec new s) ≡ err x
        → start_again h p i rec s ≡ (call_start (restart_spec h i rec new s) s, err_from x)
    not_granted new x made dir failed = ground (arith, made, dir, failed)

    run :
        (new : String) (g : Handle)
        → h.new_id ≡ some new
        → h.make_dir (log_dir_of h new) ≡ true
        → h.start_answer s.calls (restart_spec h i rec new s) ≡ ok g
        → start_again h p i rec s
          ≡ link h p i rec new g.pid (call_start (restart_spec h i rec new s) s)
    run new g made dir runs = ground (arith, made, dir, runs)

pub do_restart-HandlerEnds :
    (h : Host) (p : Principal) (pl : IdPayload) (s : Server)
    → HandlerEnds h s (do_restart h p pl s).0
unfolding do_restart restart_target deny
do_restart-HandlerEnds h p pl s = elim (Result-cases (resolve_id s pl.id pl.name pl.project)) [
  | inr (x, lost) ↦ rw (do_restart, lost) (s.calls, inl refl, no_start refl)
  | inl ((i, rec), found) ↦
      elim (authorize_target-cases h p "process.restart" "process:restart" rec s) [
        | inr not_may ↦ rw (do_restart, found, not_may) (s.calls, inl refl, no_start refl)
        | inl may ↦
            rw (do_restart, found, may)
              (
                (call_stop i (restart_timeout pl) s).calls,
                inr (i, restart_timeout pl, (unfold call_stop in refl)),
                start_again-StartEnds h p i rec (call_stop i (restart_timeout pl) s),
              )
      ]
]
