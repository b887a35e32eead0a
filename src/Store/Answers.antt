-- ===== src/Store/Answers.antt =====
-- internal/store/sqlite/sqlite.go: what a read finds after a write.
use pmmcp.Prelude.{
  String, ◌≡◌, refl, ap, inl, inr, true, false, none, some, [], ◌∷◌, arith, str_eq, eq_iff, ◌==◌,
  Bool-cases, Option-cases,
}
use pmmcp.Prelude.Time.{Time, is_zero}
use pmmcp.Prelude.Result.{ok, err}
use pmmcp.Domain.{Process, validate}
use pmmcp.Store.{
  Table, store_conflict, has_id, get, updated, write_row, next_token, update_cas, delete_row,
}
use pmmcp.Store.Unique.{update_cas-ok}

pub has_id-get : (i : String) (t : Table) (p : Process) → get i t ≡ some p → has_id i t ≡ true
unfolding has_id get
has_id-get i [] p e = absurd cc
has_id-get i (r ∷ t) p e = ground (arith, has_id-get i t p, e)

pub get-write_row :
    (now : Time) (p r : Process) (t : Table)
    → get p.id t ≡ some r
    → get p.id (write_row now p t) ≡ some (updated now p r)
unfolding get write_row updated
get-write_row now p r [] e = absurd cc
get-write_row now p r (q ∷ t) e = elim (Bool-cases (str_eq q.id p.id)) [
  | inl same ↦ rw (same, own) (ap (λ x. some (updated now p x)) (head_is same))
  | inr other ↦ rw (other, other) (get-write_row now p r t (ground (arith, other, e)))
]
  where
    head_is : str_eq q.id p.id ≡ true → q ≡ r
    head_is h = ground (arith, h, e)

    own : str_eq p.id p.id ≡ true
    own = ground (arith, eq_iff p.id p.id)

pub get-write_row_other :
    (now : Time) (i : String) (p : Process) (t : Table)
    → str_eq p.id i ≡ false
    → get i (write_row now p t) ≡ get i t
unfolding get write_row updated
get-write_row_other now i p [] n = refl
get-write_row_other now i p (r ∷ t) n =
    ground
      (arith, get-write_row_other now i p t n, n, eq_iff r.id p.id, eq_iff r.id i, eq_iff p.id i)

pub get-delete_row_other :
    (i j : String) (t : Table) → str_eq j i ≡ false → get i (delete_row j t) ≡ get i t
unfolding get delete_row
get-delete_row_other i j [] n = refl
get-delete_row_other i j (r ∷ t) n =
    ground (arith, get-delete_row_other i j t n, n, eq_iff r.id j, eq_iff r.id i, eq_iff j i)

-- What a compare-and-swap that succeeds has compared with.
update_cas-read :
    (now : Time) (p : Process) (t t' : Table)
    → update_cas now p t ≡ ok t'
    → (r : Process) × (get p.id t ≡ some r) × (is_zero p.updated_at ≡ false)
unfolding update_cas
update_cas-read now p t t' e = elim (Option-cases (validate (some p))) [
  | inr (x, bad) ↦ absurd (ground (arith, bad, e))
  | inl valid ↦ elim (Option-cases (get p.id t)) [
    | inl gone ↦ absurd (ground (arith, valid, gone, e))
    | inr (r, found) ↦ (r, found, ground (arith, valid, found, e))
  ]
]

next_token-moves : (now token : Time) → (next_token now token == token) ≡ false
unfolding next_token
next_token-moves now token = ground arith

-- No update is lost: of two writers that read one row, the one that comes second to write it back
-- with `UpdateWithCAS` is told of the conflict, whatever the two clocks say and whatever it writes.
-- (Its record is one that the store would take.)
pub update_cas-race :
    (now later : Time) (p q : Process) (t t' : Table)
    → update_cas now p t ≡ ok t'
    → q.id ≡ p.id
    → q.updated_at ≡ p.updated_at
    → validate (some q) ≡ none
    → update_cas later q t' ≡ err store_conflict
update_cas-race now later p q t t' e same token valid =
    let (named, free, eq) = update_cas-ok now p t t' e in
    let (r, found, set) = update_cas-read now p t t' e in
    let token' = next_token now p.updated_at in
    let stored : get q.id t' ≡ some (updated token' p r) =
      rw (same, eq) (get-write_row token' p r t found) in
    unfold update_cas updated in
    ground (
      arith,
      valid,
      stored,
      set,
      named,
      token,
      eq_iff q.id "",
      eq_iff p.id "",
      next_token-moves now p.updated_at,
    )
