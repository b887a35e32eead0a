-- ===== src/Daemon/Names.antt =====
-- internal/daemon/server.go: what `doStart` does with a name that is held.
use pmmcp.Prelude.{
  ℕ, String, ◌≡◌, refl, sym, ap, ◌∙◌, ◌≢◌, inl, inr, true, false, some, [], ◌∷◌, arith, str_eq,
  eq_iff, Bool-cases, Option-cases,
}
use mathlib.Core.Path.{subst}
use pmmcp.Prelude.Result.{Result-cases}
use pmmcp.Domain.{Process, validate_command}
use pmmcp.Authz.{Principal, require as lacks}
use pmmcp.Store.{is_same_live, clashes, Table, get, has_id, create}
use pmmcp.Store.Unique.{create-ok}
use pmmcp.Daemon.{Host, Server, Answer, answer, store_failure, name_scope_key}
use pmmcp.Daemon.Guard.{deny, require, is_terminal}
use pmmcp.Daemon.Keeps.{err_from-refuses}
use pmmcp.Daemon.Restart.{call_start}
use pmmcp.Daemon.Request.{
  StartPayload, sandbox_is_relaxation, sandbox_of, placement, holder_in_map, name_holder,
  replace_existing,
}
use pmmcp.Daemon.Prepare.{Prepared, prepare, register}
use pmmcp.Daemon.Start.{
  start_spec, started_record, store_start, start_new, start_named, start_sandboxed, do_start,
}

pub start_named-replaces :
    (h : Host) (p : Principal) (pl : StartPayload) (sandbox project cwd : String) (s : Server)
    → str_eq (name_holder project pl (name_scope_key project pl.profile pl.name) s).0 "" ≡ false
    → pl.replace ≡ true
    → start_named h p pl sandbox project cwd s
      ≡ start_new h p pl sandbox project cwd (name_scope_key project pl.profile pl.name) (
          replace_existing
            (name_scope_key project pl.profile pl.name)
            (name_holder project pl (name_scope_key project pl.profile pl.name) s).0
            (name_holder project pl (name_scope_key project pl.profile pl.name) s).1)
unfolding start_named
start_named-replaces h p pl sandbox project cwd s used replaces = ground (arith, used, replaces)

holder_in_map-keeps :
    (key : String) (s : Server)
    → ((holder_in_map key s).1.store ≡ s.store) × ((holder_in_map key s).1.calls ≡ s.calls)
unfolding holder_in_map
holder_in_map-keeps key s = elim (Bool-cases (str_eq (s.by_name key) "")) [
  | inl free ↦ rw (holder_in_map, free) (refl, refl)
  | inr used ↦ elim (Option-cases (get (s.by_name key) s.store)) [
    | inl gone ↦ rw (holder_in_map, used, gone) (refl, refl)
    | inr (rec, found) ↦ elim (Bool-cases (is_terminal rec.status)) [
      | inl ended ↦ rw (holder_in_map, used, found, ended) (refl, refl)
      | inr live ↦ rw (holder_in_map, used, found, live) (refl, refl)
    ]
  ]
]

pub name_holder-keeps :
    (project : String) (pl : StartPayload) (key : String) (s : Server)
    → ((name_holder project pl key s).1.store ≡ s.store)
      × ((name_holder project pl key s).1.calls ≡ s.calls)
unfolding name_holder
name_holder-keeps project pl key s = elim (Bool-cases (str_eq (holder_in_map key s).0 "")) [
  | inl free ↦ rw (name_holder, free) (holder_in_map-keeps key s)
  | inr used ↦ rw (name_holder, used) (holder_in_map-keeps key s)
]

holds-taken :
    (j : String) (q rec : Process) (t : Table)
    → get j t ≡ some q
    → is_same_live rec q ≡ true
    → has_id rec.id t ≡ false
    → clashes rec t ≡ true
unfolding get has_id clashes
holds-taken j q rec [] held same unused = absurd cc
holds-taken j q rec (r ∷ t) held same unused = elim (Bool-cases (str_eq r.id j)) [
  | inl here ↦ ground (arith, head_is here, same, unused)
  | inr other ↦
      ground
        (arith, holds-taken j q rec t (ground (arith, other, held)) same (ground (arith, unused)))
]
  where
    head_is : str_eq r.id j ≡ true → is_same_live rec r ≡ true
    head_is e = subst (λ x. is_same_live rec x ≡ true) (sym (one_row e)) same
      where
        one_row : str_eq r.id j ≡ true → r ≡ q
        one_row e = ground (arith, e, held)

store_start-refuses :
    (h : Host) (p : Principal) (pl : StartPayload) (sandbox project cwd key : String)
    (pre : Prepared) (pid : ℕ) (s : Server) (j : String) (q : Process) (a : Answer)
    → get j s.store ≡ some q
    → (q.successor_id ≡ "") × (q.project_id ≡ project) × (q.name ≡ pl.name)
    → (store_start h p pl sandbox project cwd key pre pid s).1 ≢ answer a
unfolding store_start
store_start-refuses h p pl sandbox project cwd key pre pid s j q a held (live, in_project, in_name)
      e =
    let rec = started_record h p pl sandbox project cwd pre pid in
    elim (Result-cases (create h.now rec s.store)) [
      | inr (x, taken) ↦ err_from-refuses (store_failure x) a (ground (arith, taken, e))
      | inl (t, stored) ↦
          let (named, unused, free, eq) = create-ok h.now rec s.store t stored in
          ground (arith, free, holds-taken j q rec s.store held same unused)
    ]
  where
    same : is_same_live (started_record h p pl sandbox project cwd pre pid) q ≡ true
    same =
        unfold is_same_live started_record in
        ground (
          arith,
          eq_iff q.successor_id "",
          eq_iff project q.project_id,
          eq_iff pl.name q.name,
          live,
          in_project,
          in_name,
        )

start_new-refuses :
    (h : Host) (p : Principal) (pl : StartPayload) (sandbox project cwd key : String) (s : Server)
    (j : String) (q : Process) (a : Answer)
    → get j s.store ≡ some q
    → (q.successor_id ≡ "") × (q.project_id ≡ project) × (q.name ≡ pl.name)
    → (start_new h p pl sandbox project cwd key s).1 ≢ answer a
unfolding start_new call_start
start_new-refuses h p pl sandbox project cwd key s j q a held holds e =
    elim (Result-cases (prepare h pl sandbox cwd)) [
      | inr (x, lost) ↦ err_from-refuses x a (ground (arith, lost, e))
      | inl (pre, ready) ↦
          elim (Result-cases (h.start_answer s.calls (start_spec h pl sandbox cwd pre))) [
            | inr (x, failed) ↦ err_from-refuses x a (ground (arith, ready, failed, e))
            | inl (g, runs) ↦
                store_start-refuses h p pl sandbox project cwd key pre g.pid
                  (call_start (start_spec h pl sandbox cwd pre)
                    (record s { registered = register h pre.env_map pre.resolved s.registered }))
                  j q a held holds (ground (arith, ready, runs, e))
          ]
    ]

start_named-refuses :
    (h : Host) (p : Principal) (pl : StartPayload) (sandbox project cwd : String) (s : Server)
    (j : String) (q : Process) (a : Answer)
    → get j s.store ≡ some q
    → (q.successor_id ≡ "") × (q.project_id ≡ project) × (q.name ≡ pl.name)
    → pl.replace ≡ false
    → (start_named h p pl sandbox project cwd s).1 ≢ answer a
unfolding start_named
start_named-refuses h p pl sandbox project cwd s j q a held holds keeps e =
    let key = name_scope_key project pl.profile pl.name in
    let holder = name_holder project pl key s in
    let (store, calls) = name_holder-keeps project pl key s in
    elim (Bool-cases (str_eq holder.0 "")) [
      | inl free ↦
          start_new-refuses h p pl sandbox project cwd key holder.1 j q a (ap (get j) store ∙ held)
            holds (ground (arith, free, e))
      | inr used ↦ ground (arith, used, keeps, e)
    ]

-- A start without `replace` never succeeds while the store has a record of that project and name
-- that has no successor: also if that process has long stopped, and if it is of another profile.
pub do_start-name_kept :
    (h : Host) (p : Principal) (pl : StartPayload) (s : Server) (j : String) (q : Process)
    (a : Answer)
    → get j s.store ≡ some q
    → (q.successor_id ≡ "") × (q.project_id ≡ (placement h pl).0) × (q.name ≡ pl.name)
    → pl.replace ≡ false
    → (do_start h p (some pl) s).1 ≢ answer a
unfolding do_start start_sandboxed require deny
do_start-name_kept h p pl s j q a held holds keeps e =
    let refuses =
      start_named-refuses h p pl (sandbox_of h pl) (placement h pl).0 (placement h pl).1 s j q a
        held holds keeps in
    elim (Option-cases (validate_command pl.command)) [
      | inr (x, bad) ↦ ground (arith, bad, e)
      | inl fine ↦ elim (Bool-cases (str_eq pl.name "")) [
        | inl unnamed ↦ ground (arith, fine, unnamed, e)
        | inr named ↦
            elim (Bool-cases (sandbox_is_relaxation h h.sandbox_default (sandbox_of h pl))) [
              | inr strict ↦ refuses (ground (arith, fine, named, strict, e))
              | inl loose ↦ elim (Option-cases (lacks p "sandbox:relax")) [
                | inl may ↦ refuses (ground (arith, fine, named, loose, may, e))
                | inr (x, not_may) ↦ ground (arith, fine, named, loose, not_may, e)
              ]
            ]
      ]
    ]
