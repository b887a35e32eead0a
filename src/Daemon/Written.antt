-- ===== src/Daemon/Written.antt =====
-- internal/daemon/server.go: what `doRestart` writes when it answers.
use pmmcp.Prelude.{
  ℕ, String, ◌≡◌, refl, ap, ◌∙◌, inl, inr, true, false, none, some, [], ◌∷◌, arith, str_eq, eq_iff,
  Bool-cases, Option-cases, put,
}
use pmmcp.Prelude.Result.{ok, err, Result-cases}
use pmmcp.Domain.{Process, validate, validate_command, is_valid_status, is_valid_desired}
use pmmcp.Authz.{Principal}
use pmmcp.Store.{
  Table, get, has_id, clashes, is_same_live, created, create, updated, update, write, write_row,
}
use pmmcp.Store.Unique.{create-ok, has_id-write_row}
use pmmcp.Store.Answers.{has_id-get, get-write_row}
use pmmcp.Daemon.{
  Host, Server, Handle, Answer, answer, other_failure, store_failure, name_scope_key,
}
use pmmcp.Daemon.Guard.{deny, audited, save, log_dir_of}
use mathlib.Core.Path.{subst}
use pmmcp.Daemon.Resolve.{resolve_id}
use pmmcp.Daemon.Control.{IdPayload, call_stop}
use pmmcp.Daemon.Restart.{
  restart_spec, retired, successor, hand_over, restarted, link, call_start, restart_timeout,
  start_again, restart_target, do_restart,
}
use pmmcp.Daemon.Keeps.{authorize_target-cases, record_start_time-keeps, err_from-refuses}

pub start_again-links :
    (h : Host) (p : Principal) (i : String) (rec : Process) (s : Server) (a : Answer)
    → (start_again h p i rec s).1 ≡ answer a
    → (new : String) × (g : Handle) × (h.start_answer s.calls (restart_spec h i rec new s) ≡ ok g)
      × (start_again h p i rec s
          ≡ link h p i rec new g.pid (call_start (restart_spec h i rec new s) s))
unfolding start_again
start_again-links h p i rec s a e = elim (Option-cases h.new_id) [
  | inl lost ↦ absurd (err_from-refuses other_failure a (ground (arith, lost, e)))
  | inr (new, made) ↦ elim (Bool-cases (h.make_dir (log_dir_of h new))) [
    | inr full ↦ absurd (err_from-refuses other_failure a (ground (arith, made, full, e)))
    | inl dir ↦ elim (Result-cases (h.start_answer s.calls (restart_spec h i rec new s))) [
      | inr (x, failed) ↦ absurd (err_from-refuses x a (ground (arith, made, dir, failed, e)))
      | inl (g, runs) ↦ (new, g, runs, ground (arith, made, dir, runs))
    ]
  ]
]

pub link-stores :
    (h : Host) (p : Principal) (i : String) (rec : Process) (new : String) (pid : ℕ) (s : Server)
    (a : Answer)
    → (link h p i rec new pid s).1 ≡ answer a
    → (t : Table) × (create h.now (successor h p i rec new pid) (save h (retired h new rec) s).store
        ≡ ok t)
      × (link h p i rec new pid s
          ≡ restarted h p i rec new pid (record (save h (retired h new rec) s) { store = t }))
unfolding link
link-stores h p i rec new pid s a e =
    elim (Result-cases
      (create h.now (successor h p i rec new pid) (save h (retired h new rec) s).store)) [
        | inr (x, taken) ↦ absurd (err_from-refuses (store_failure x) a (ground (arith, taken, e)))
        | inl (t, stored) ↦ (t, stored, ground (arith, stored))
      ]

pub do_restart-runs :
    (h : Host) (p : Principal) (pl : IdPayload) (s : Server) (i : String) (rec : Process)
    (a : Answer)
    → resolve_id s pl.id pl.name pl.project ≡ ok (i, rec)
    → (do_restart h p pl s).1 ≡ answer a
    → do_restart h p pl s ≡ start_again h p i rec (call_stop i (restart_timeout pl) s)
unfolding do_restart restart_target deny
do_restart-runs h p pl s i rec a found e =
    elim (authorize_target-cases h p "process.restart" "process:restart" rec s) [
      | inl may ↦ ground (arith, found, may)
      | inr not_may ↦ absurd (ground (arith, found, not_may, e))
    ]

-- A record that stays valid when it is retired.
retired-valid :
    (h : Host) (new : String) (rec : Process)
    → validate (some rec) ≡ none
    → validate (some (retired h new rec)) ≡ none
unfolding validate is_valid_status is_valid_desired retired
retired-valid h new rec v = elim (Option-cases (validate_command rec.command)) [
  | inl fine ↦ ground (arith, fine, v)
  | inr (x, bad) ↦ absurd (ground (arith, bad, v))
]

clashes-succeeded :
    (p : Process) (t : Table) → str_eq p.successor_id "" ≡ false → clashes p t ≡ false
unfolding clashes is_same_live
clashes-succeeded p [] n = refl
clashes-succeeded p (r ∷ t) n = ground (arith, clashes-succeeded p t n, n)

save-retired :
    (h : Host) (new : String) (rec : Process) (s : Server)
    → get rec.id s.store ≡ some rec
    → validate (some rec) ≡ none
    → str_eq rec.id "" ≡ false
    → str_eq new "" ≡ false
    → save h (retired h new rec) s
      ≡ record s { store = write_row h.now (retired h new rec) s.store }
unfolding save retired
save-retired h new rec s held v named link =
    ap (λ u. elim u [ ok t ↦ record s { store = t } | err e ↦ s ])
      (update-writes (retired-valid h new rec v)
        (clashes-succeeded (retired h new rec) s.store link) (has_id-get rec.id s.store rec held))
  where
    update-writes :
        validate (some (retired h new rec)) ≡ none
        → clashes (retired h new rec) s.store ≡ false
        → has_id rec.id s.store ≡ true
        → update h.now (retired h new rec) s.store
          ≡ ok (write_row h.now (retired h new rec) s.store)
    update-writes v' free has = unfold update write retired in ground (arith, v', free, has, named)

-- What `link` writes.
abbrev pub Written : Host → Principal → String → Process → String → ℕ → Server → Type 0
Written h p i rec new pid s =
    (get i s.store ≡ some (updated h.now (retired h new rec) rec))
    × (get new s.store ≡ some (created h.now (successor h p i rec new pid)))
    × (s.by_name (name_scope_key rec.project_id rec.profile rec.name) ≡ new)

pub restarted-keeps :
    (h : Host) (p : Principal) (i : String) (rec : Process) (new : String) (pid : ℕ) (s : Server)
    → ((restarted h p i rec new pid s).0.store ≡ s.store)
      × ((restarted h p i rec new pid s).0.calls ≡ s.calls)
      × ((restarted h p i rec new pid s).0.by_name
            (name_scope_key rec.project_id rec.profile rec.name)
          ≡ new)
unfolding restarted audited hand_over
restarted-keeps h p i rec new pid s =
    let (store, calls, names) = record_start_time-keeps h new pid (hand_over i rec new s) in
    (store, calls, ap (λ m. m key) names ∙ put-same)
  where
    key : String
    key = name_scope_key rec.project_id rec.profile rec.name

    put-same : put s.by_name key new key ≡ new
    put-same = unfold put in ground (arith, eq_iff key key)

pub link-Written :
    (h : Host) (p : Principal) (rec : Process) (new : String) (pid : ℕ) (s : Server) (t : Table)
    → get rec.id s.store ≡ some rec
    → validate (some rec) ≡ none
    → str_eq rec.id "" ≡ false
    → create h.now (successor h p rec.id rec new pid) (save h (retired h new rec) s).store ≡ ok t
    → Written h p rec.id rec new pid
        (restarted h p rec.id rec new pid (record (save h (retired h new rec) s) { store = t })).0
unfolding successor retired
link-Written h p rec new pid s t held v named e =
    let (new_named, new_free, free, eq) =
      create-ok h.now (successor h p rec.id rec new pid) (save h (retired h new rec) s).store t e in
    let saved = save-retired h new rec s held v named new_named in
    let (store, calls, names) =
      restarted-keeps h p rec.id rec new pid
        (record (save h (retired h new rec) s) { store = t }) in
    let rows = write_row h.now (retired h new rec) s.store in
    let final =
      store ∙ (eq ∙ ap (λ x. created h.now (successor h p rec.id rec new pid) ∷ x.store) saved) in
    let unused : has_id new rows ≡ false = subst (λ x. has_id new x.store ≡ false) saved new_free in
    (
      ap (get rec.id) final
          ∙ (skips rows unused ∙ get-write_row h.now (retired h new rec) rec s.store held),
      ap (get new) final ∙ heads rows,
      names,
    )
  where
    succ : Process
    succ = created h.now (successor h p rec.id rec new pid)

    heads : (rows : Table) → get new (succ ∷ rows) ≡ some succ
    heads rows = unfold get created in ground (arith, eq_iff new new)

    skips :
        (rows : Table)
        → has_id new (write_row h.now (retired h new rec) s.store) ≡ false
        → get rec.id (succ ∷ rows) ≡ get rec.id rows
    skips rows unused =
        unfold get created in
        ground (
          arith,
          eq_iff new rec.id,
          has_id-write_row h.now new (retired h new rec) s.store,
          has_id-get rec.id s.store rec held,
          unused,
        )
