-- ===== src/Daemon/Lineage.antt =====
-- internal/daemon/server.go: what `doRestart` leaves behind when it answers.
use pmmcp.Prelude.{ℕ, String, ◌≡◌, refl, sym, ap, ◌∙◌, ◌≢◌, none, some, ◌∷◌, arith, eq_iff}
use pmmcp.Prelude.Result.{ok}
use pmmcp.Domain.{Process, validate}
use pmmcp.Authz.{Principal}
use pmmcp.Store.{get, created, updated}
use pmmcp.Daemon.{Host, Server, start_call, stop_call, Answer, answer, name_scope_key}
use pmmcp.Daemon.Guard.{save}
use pmmcp.Daemon.Keeps.{save-calls}
use mathlib.Core.Path.{subst}
use pmmcp.Daemon.Resolve.{resolve_id}
use pmmcp.Daemon.Control.{IdPayload, call_stop}
use pmmcp.Daemon.Restart.{
  restart_spec, retired, successor, restarted, call_start, restart_timeout, do_restart,
}
use pmmcp.Daemon.Written.{
  Written, start_again-links, link-stores, do_restart-runs, restarted-keeps, link-Written,
}

-- The old record of a restart, as it stays in the store.
abbrev pub IsRetired : String → Process → Type 0
IsRetired new old = (old.status ≡ "exited") × (old.desired ≡ "stopped") × (old.successor_id ≡ new)

-- The new record of a restart: that of the old one, for the principal.
abbrev pub IsSuccessor : Principal → Process → ℕ → Process → Type 0
IsSuccessor p rec pid succ =
    (succ.status ≡ "running")
    × (succ.desired ≡ "running")
    × (succ.predecessor_id ≡ rec.id)
    × (succ.successor_id ≡ "")
    × (succ.session_id ≡ p.session)
    × (succ.pid ≡ pid)
    × (succ.name ≡ rec.name)
    × (succ.command ≡ rec.command)

-- The two records name each other, and the name leads to the new one.
abbrev pub Linked : Principal → Process → String → ℕ → Server → Type 0
Linked p rec new pid s =
    (old : Process) × (succ : Process) × (get rec.id s.store ≡ some old)
    × (get new s.store ≡ some succ)
    × IsRetired new old
    × IsSuccessor p rec pid succ
    × (s.by_name (name_scope_key rec.project_id rec.profile rec.name) ≡ new)

Written-Linked :
    (h : Host) (p : Principal) (rec : Process) (new : String) (pid : ℕ) (s : Server)
    → Written h p rec.id rec new pid s
    → Linked p rec new pid s
unfolding updated created retired successor
Written-Linked h p rec new pid s (old, succ, name) = (
  updated h.now (retired h new rec) rec,
  created h.now (successor h p rec.id rec new pid),
  old,
  succ,
  (refl, refl, refl),
  (refl, refl, refl, refl, refl, refl, refl, refl),
  name,
)

-- A restart that answers has stopped the old process and started a new one, in that order. The old
-- record is kept, terminal, and names its successor; the new record runs, belongs to the session of
-- the principal and names its predecessor; and the name leads to the new one. (The record that was
-- resolved is the one that is stored, and valid.)
pub do_restart-lineage :
    (h : Host) (p : Principal) (pl : IdPayload) (s : Server) (rec : Process) (a : Answer)
    → resolve_id s pl.id pl.name pl.project ≡ ok (rec.id, rec)
    → get rec.id s.store ≡ some rec
    → validate (some rec) ≡ none
    → rec.id ≢ ""
    → (do_restart h p pl s).1 ≡ answer a
    → (new : String) × (pid : ℕ) × Linked p rec new pid (do_restart h p pl s).0
      × ((do_restart h p pl s).0.calls
          ≡ start_call (restart_spec h rec.id rec new s)
            ∷ stop_call rec.id (restart_timeout pl)
            ∷ s.calls)
unfolding call_start call_stop restart_spec
do_restart-lineage h p pl s rec a found held v named e =
    let s1 = call_stop rec.id (restart_timeout pl) s in
    let runs = do_restart-runs h p pl s rec.id rec a found e in
    let (new, g, ran, links) =
      start_again-links h p rec.id rec s1 a (ap (λ x. x.1) (sym runs) ∙ e) in
    let s2 = call_start (restart_spec h rec.id rec new s1) s1 in
    let all = runs ∙ links in
    let (t, stored, ends) =
      link-stores h p rec.id rec new g.pid s2 a (ap (λ x. x.1) (sym all) ∙ e) in
    let (store, calls, names) =
      restarted-keeps h p rec.id rec new g.pid
        (record (save h (retired h new rec) s2) { store = t }) in
    (
      new,
      g.pid,
      subst (λ x. Linked p rec new g.pid x.0) (sym (all ∙ ends))
          (Written-Linked h p rec new g.pid
            (restarted h p rec.id rec new g.pid
              (record (save h (retired h new rec) s2) { store = t })).0
            (link-Written h p rec new g.pid s2 t held v (ground (arith, eq_iff rec.id "", named))
              stored)),
      ap (λ x. x.0.calls) (all ∙ ends) ∙ (calls ∙ save-calls h (retired h new rec) s2),
    )
