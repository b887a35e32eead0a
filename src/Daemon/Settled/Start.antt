-- ===== src/Daemon/Settled/Start.antt =====
-- internal/daemon/server.go: what becomes of a process that `doStart` starts.
use pmmcp.Prelude.{ℕ, String, ◌≡◌, refl, sym, ◌∙◌, inl, inr, List, ◌∷◌}
use mathlib.Core.Path.{subst}
use pmmcp.Prelude.Int.{pos, mul64}
use pmmcp.Prelude.Time.{second}
use pmmcp.Prelude.Result.{ok, Result-cases}
use pmmcp.Authz.{Principal, require as lacks}
use pmmcp.Store.{create}
use pmmcp.Store.Unique.{create-ok}
use pmmcp.Daemon.{Host, Server, Handle, Call, start_call, stop_call}
use pmmcp.Daemon.Guard.{audited, require}
use pmmcp.Daemon.Control.{call_stop}
use pmmcp.Daemon.Keeps.{record_start_time-keeps}
use pmmcp.Daemon.Restart.{call_start}
use pmmcp.Daemon.Request.{StartPayload}
use pmmcp.Daemon.Prepare.{Prepared, prepare, register}
use pmmcp.Daemon.Start.{start_spec, started_record, remember, commit_start, store_start, start_new}
use pmmcp.Daemon.Settled.{
  IsRecordOf, IsStored, StartEnds, no_start, declined, recorded, given_up, newest-IsStored,
}

commit_start-keeps :
    (h : Host) (p : Principal) (pl : StartPayload) (project cwd key : String) (pre : Prepared)
    (pid : ℕ) (s : Server)
    → ((commit_start h p pl project cwd key pre pid s).0.store ≡ s.store)
      × ((commit_start h p pl project cwd key pre pid s).0.calls ≡ s.calls)
unfolding commit_start audited remember
commit_start-keeps h p pl project cwd key pre pid s =
    let (store, calls, names) =
      record_start_time-keeps h pre.id pid (remember p pl project cwd key pre s) in
    (store, calls)

store_start-StartEnds :
    (h : Host) (p : Principal) (pl : StartPayload) (sandbox project cwd key : String)
    (pre : Prepared) (g : Handle) (s : Server) (calls : List Call)
    → s.calls ≡ start_call (start_spec h pl sandbox cwd pre) ∷ calls
    → h.start_answer calls (start_spec h pl sandbox cwd pre) ≡ ok g
    → StartEnds h calls (store_start h p pl sandbox project cwd key pre g.pid s).0
unfolding store_start call_stop
store_start-StartEnds h p pl sandbox project cwd key pre g s calls asked runs =
    let rec = started_record h p pl sandbox project cwd pre g.pid in
    let spec = start_spec h pl sandbox cwd pre in
    elim (Result-cases (create h.now rec s.store)) [
      | inr (x, taken) ↦
          rw (store_start, taken)
            (given_up spec g rec x (mul64 (pos 2) second) runs is_its taken
              (λ t. stop_call (is_pre t) (mul64 (pos 2) second) ∷ asked t))
      | inl (t, stored) ↦
          let (named, unused, free, eq) = create-ok h.now rec s.store t stored in
          let s1 : Server = record s { store = t } in
          let (store, kept) = commit_start-keeps h p pl project cwd key pre g.pid s1 in
          rw (store_start, stored)
            (recorded spec g runs (kept ∙ asked) (
              subst (λ x. IsStored spec g x) (sym store)
                (newest-IsStored h spec g rec s.store t is_its eq)))
    ]
  where
    is_its :
        IsRecordOf
          (start_spec h pl sandbox cwd pre)
          g
          (started_record h p pl sandbox project cwd pre g.pid)
    is_its = unfold started_record start_spec in (refl, refl, refl, refl, refl)

    is_pre : pre.id ≡ (start_spec h pl sandbox cwd pre).id
    is_pre = unfold start_spec in refl

pub start_new-StartEnds :
    (h : Host) (p : Principal) (pl : StartPayload) (sandbox project cwd key : String) (s : Server)
    → StartEnds h s.calls (start_new h p pl sandbox project cwd key s).0
unfolding start_new call_start
start_new-StartEnds h p pl sandbox project cwd key s =
    elim (Result-cases (prepare h pl sandbox cwd)) [
      | inr (x, lost) ↦ rw (start_new, lost) (no_start refl)
      | inl (pre, ready) ↦
          let spec = start_spec h pl sandbox cwd pre in
          elim (Result-cases (h.start_answer s.calls spec)) [
            | inr (x, failed) ↦ rw (start_new, ready, failed) (declined spec x failed refl)
            | inl (g, runs) ↦
                rw (start_new, ready, runs)
                  (store_start-StartEnds h p pl sandbox project cwd key pre g
                    (call_start spec
                      (record s { registered = register h pre.env_map pre.resolved s.registered }))
                    s.calls (unfold call_start in refl) runs)
          ]
    ]
