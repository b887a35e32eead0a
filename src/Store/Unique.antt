-- ===== src/Store/Unique.antt =====
-- internal/store/sqlite/sqlite.go: what the constraints of the table keep true.
use pmmcp.Prelude.{
  String, ◌≡◌, refl, sym, inl, inr, true, false, some, [], ◌∷◌, arith, str_eq, eq_iff, Bool-cases,
  Option-cases,
}
use mathlib.Core.Path.{subst}
use pmmcp.Prelude.Time.{Time}
use pmmcp.Prelude.Result.{ok}
use pmmcp.Domain.{Process, validate}
use pmmcp.Store.{
  Table, has_id, is_same_live, clashes, get, created, create, updated, write_row, write, update,
  next_token, update_cas, delete_row, delete,
}

-- Every row has an identifier, shares it with no other row, and shares its name and project with
-- none while neither has a successor.
abbrev pub IsTable : Table → Type 0
IsTable [] = Unit
IsTable (p ∷ t) =
    (str_eq p.id "" ≡ false) × (has_id p.id t ≡ false) × (clashes p t ≡ false) × IsTable t

same_live_sym : (p q : Process) → is_same_live p q ≡ is_same_live q p
unfolding is_same_live
same_live_sym p q = ground (
  arith,
  eq_iff p.project_id q.project_id,
  eq_iff q.project_id p.project_id,
  eq_iff p.name q.name,
  eq_iff q.name p.name,
)

pub has_id-write_row :
    (now : Time) (i : String) (p : Process) (t : Table) → has_id i (write_row now p t) ≡ has_id i t
unfolding has_id write_row updated
has_id-write_row now i p [] = refl
has_id-write_row now i p (r ∷ t) =
    ground (arith, has_id-write_row now i p t, eq_iff r.id p.id, eq_iff r.id i, eq_iff p.id i)

has_id-delete_row :
    (i j : String) (t : Table) → has_id i t ≡ false → has_id i (delete_row j t) ≡ false
unfolding has_id delete_row
has_id-delete_row i j [] h = refl
has_id-delete_row i j (r ∷ t) h = ground (arith, has_id-delete_row i j t, h)

clashes-delete_row :
    (p : Process) (j : String) (t : Table)
    → clashes p t ≡ false
    → clashes p (delete_row j t) ≡ false
unfolding clashes delete_row
clashes-delete_row p j [] h = refl
clashes-delete_row p j (r ∷ t) h = ground (arith, clashes-delete_row p j t, h)

-- What an update writes has the record's identifier and its key in the index.
updated_live : (now : Time) (p q r : Process) → is_same_live q (updated now p r) ≡ is_same_live q p
unfolding is_same_live updated
updated_live now p q r = refl

clashes-updated :
    (now : Time) (p r : Process) (t : Table) → clashes (updated now p r) t ≡ clashes p t
unfolding clashes is_same_live updated
clashes-updated now p r [] = refl
clashes-updated now p r (q ∷ t) = ground (arith, clashes-updated now p r t)

clashes-write_row :
    (now : Time) (q p : Process) (t : Table)
    → clashes q t ≡ false
    → is_same_live q p ≡ false
    → clashes q (write_row now p t) ≡ false
unfolding clashes write_row
clashes-write_row now q p [] h n = refl
clashes-write_row now q p (r ∷ t) h n =
    ground (arith, clashes-write_row now q p t, updated_live now p q r, h, n)

write_row-IsTable :
    (now : Time) (p : Process) (t : Table)
    → str_eq p.id "" ≡ false
    → clashes p t ≡ false
    → IsTable t
    → IsTable (write_row now p t)
unfolding clashes write_row updated
write_row-IsTable now p [] named free w = tt
write_row-IsTable now p (r ∷ t) named free (has, new, alone, w) =
    elim (Bool-cases (str_eq r.id p.id)) [
      | inl same ↦
          rw same (named, has_same same, rw (clashes-updated now p r t) (ground (arith, free)), w)
      | inr other ↦ rw other (
        has,
        rw (has_id-write_row now r.id p t) new,
        clashes-write_row now r p t alone (rw (same_live_sym r p) (ground (arith, free, other))),
        write_row-IsTable now p t named (ground (arith, free)) w,
      )
    ]
  where
    has_same : str_eq r.id p.id ≡ true → has_id p.id t ≡ false
    has_same h = subst (λ i. has_id i t ≡ false) ((eq_iff r.id p.id).0 h) new

delete_row-IsTable : (j : String) (t : Table) → IsTable t → IsTable (delete_row j t)
unfolding delete_row
delete_row-IsTable j [] w = tt
delete_row-IsTable j (r ∷ t) (has, new, alone, w) = elim (Bool-cases (str_eq r.id j)) [
  | inl same ↦ rw same w
  | inr other ↦ rw other (
    has,
    has_id-delete_row r.id j t new,
    clashes-delete_row r j t alone,
    delete_row-IsTable j t w,
  )
]

clashes-created : (now : Time) (p : Process) (t : Table) → clashes (created now p) t ≡ clashes p t
unfolding clashes is_same_live created
clashes-created now p [] = refl
clashes-created now p (q ∷ t) = ground (arith, clashes-created now p t)

-- One call, with the table that it leaves when it succeeds.
pub data Step : Table → Table → Type 0 where
  by_create : {t t' : Table} (now : Time) (p : Process) → create now p t ≡ ok t' → Step t t'
  by_update : {t t' : Table} (now : Time) (p : Process) → update now p t ≡ ok t' → Step t t'
  by_update_cas : {t t' : Table} (now : Time) (p : Process) → update_cas now p t ≡ ok t' → Step t t'
  by_delete : {t t' : Table} (i : String) → delete i t ≡ ok t' → Step t t'

pub data Reach (t : Table) : Table → Type 0 where
  here : Reach t t
  next : {u v : Table} → Reach t u → Step u v → Reach t v

-- What a call that succeeds has found and written.
pub create-ok :
    (now : Time) (p : Process) (t t' : Table)
    → create now p t ≡ ok t'
    → (str_eq p.id "" ≡ false)
      × (has_id p.id t ≡ false)
      × (clashes p t ≡ false)
      × (t' ≡ created now p ∷ t)
unfolding create
create-ok now p t t' e = elim (Option-cases (validate (some p))) [
  | inl valid ↦ ground (arith, valid, e)
  | inr (x, bad) ↦ ground (arith, bad, e)
]

write-ok :
    (now : Time) (p : Process) (t t' : Table)
    → write now p t ≡ ok t'
    → (clashes p t ≡ false) × (t' ≡ write_row now p t)
unfolding write
write-ok now p t t' e = ground (arith, e)

pub update-ok :
    (now : Time) (p : Process) (t t' : Table)
    → update now p t ≡ ok t'
    → (str_eq p.id "" ≡ false) × (clashes p t ≡ false) × (t' ≡ write_row now p t)
unfolding update write
update-ok now p t t' e = elim (Option-cases (validate (some p))) [
  | inl valid ↦ ground (arith, valid, e)
  | inr (x, bad) ↦ ground (arith, bad, e)
]

pub update_cas-ok :
    (now : Time) (p : Process) (t t' : Table)
    → update_cas now p t ≡ ok t'
    → (str_eq p.id "" ≡ false)
      × (clashes p t ≡ false)
      × (t' ≡ write_row (next_token now p.updated_at) p t)
unfolding update_cas write
update_cas-ok now p t t' e = elim (Option-cases (validate (some p))) [
  | inr (x, bad) ↦ ground (arith, bad, e)
  | inl valid ↦ elim (Option-cases (get p.id t)) [
    | inl gone ↦ ground (arith, valid, gone, e)
    | inr (r, found) ↦ ground (arith, valid, found, e)
  ]
]

Step-IsTable : {t t' : Table} → Step t t' → IsTable t → IsTable t'
unfolding delete created
Step-IsTable {t} (by_create {t' = t'} now p e) w =
    let (named, new, free, eq) = create-ok now p t t' e in
    subst IsTable (sym eq) (named, new, rw (clashes-created now p t) free, w)
Step-IsTable {t} (by_update {t' = t'} now p e) w =
    let (named, free, eq) = update-ok now p t t' e in
    subst IsTable (sym eq) (write_row-IsTable now p t named free w)
Step-IsTable {t} (by_update_cas {t' = t'} now p e) w =
    let (named, free, eq) = update_cas-ok now p t t' e in
    subst IsTable (sym eq) (write_row-IsTable (next_token now p.updated_at) p t named free w)
Step-IsTable {t} (by_delete {t' = t'} i e) w =
    subst IsTable (sym (delete-ok e)) (delete_row-IsTable i t w)
  where
    delete-ok : delete i t ≡ ok t' → t' ≡ delete_row i t
    delete-ok h = ground (arith, h)

pub Reach-IsTable : {t t' : Table} → Reach t t' → IsTable t → IsTable t'
Reach-IsTable here w = w
Reach-IsTable (next r s) w = Step-IsTable s (Reach-IsTable r w)

pub get-id : (i : String) (t : Table) (p : Process) → get i t ≡ some p → p.id ≡ i
unfolding get
get-id i [] p e = absurd cc
get-id i (r ∷ t) p e = elim (Bool-cases (str_eq r.id i)) [
  | inl same ↦ ground (arith, same, e, eq_iff r.id i)
  | inr other ↦ get-id i t p (ground (arith, other, e))
]

clashes-get :
    (p q : Process) (j : String) (t : Table)
    → clashes p t ≡ false
    → get j t ≡ some q
    → str_eq j p.id ≡ false
    → is_same_live p q ≡ false
unfolding clashes get
clashes-get p q j [] free e n = absurd cc
clashes-get p q j (r ∷ t) free e n = elim (Bool-cases (str_eq r.id j)) [
  | inl same ↦ ground (arith, same, free, e, n, eq_iff r.id j)
  | inr other ↦ clashes-get p q j t (ground (arith, free)) (ground (arith, other, e)) n
]

IsTable-apart :
    (t : Table) (p q : Process) (i j : String)
    → IsTable t
    → get i t ≡ some p
    → get j t ≡ some q
    → str_eq i j ≡ false
    → is_same_live p q ≡ false
unfolding get
IsTable-apart [] p q i j w e f n = absurd cc
IsTable-apart (r ∷ t) p q i j (named, new, alone, w) e f n = elim (Bool-cases (str_eq r.id i)) [
  | inr other ↦ elim (Bool-cases (str_eq r.id j)) [
    | inr far ↦ IsTable-apart t p q i j w (ground (arith, other, e)) (ground (arith, far, f)) n
    | inl same ↦ ground (
      arith,
      same,
      f,
      same_live_sym p q,
      clashes-get r p i t alone (ground (arith, other, e)),
      eq_iff r.id j,
      eq_iff i r.id,
      n,
    )
  ]
  | inl same ↦ ground (
    arith,
    same,
    e,
    clashes-get r q j t alone (ground (arith, same, f, n, eq_iff r.id i, eq_iff r.id j)),
    eq_iff r.id i,
    eq_iff j r.id,
    n,
  )
]

-- In every table that calls to `Create`, `Update`, `UpdateWithCAS` and `Delete` reach from the
-- empty one, two rows without a successor that have one project and one name are one row.
pub Reach-one_holder :
    (t : Table) (p q : Process) (i j : String)
    → Reach [] t
    → get i t ≡ some p
    → get j t ≡ some q
    → p.successor_id ≡ ""
    → q.successor_id ≡ ""
    → p.project_id ≡ q.project_id
    → p.name ≡ q.name
    → i ≡ j
unfolding is_same_live
Reach-one_holder t p q i j r e f live_p live_q project name = elim (Bool-cases (str_eq i j)) [
  | inl same ↦ (eq_iff i j).0 same
  | inr other ↦ ground (
    arith,
    IsTable-apart t p q i j (Reach-IsTable r tt) e f other,
    eq_iff p.successor_id "",
    eq_iff q.successor_id "",
    eq_iff p.project_id q.project_id,
    eq_iff p.name q.name,
  )
]
