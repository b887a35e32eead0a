-- ===== src/Store.antt =====
-- internal/store/sqlite/sqlite.go: the table of process records, under the constraints of its
-- migrations: the identifier is the primary key, and one row without a successor holds a name in a
-- project. The rows stand newest first. The database itself is taken to work.
pub mod Unique
pub mod Answers
mod Tests
use pmmcp.Prelude.{
  ◌+◌, String, Bool, false, not, ◌&&◌, ◌||◌, Option, none, some, List, [], ◌∷◌, str_eq, ltb, ◌==◌,
  if◌then◌else◌,
}
use pmmcp.Prelude.Time.{Time, is_zero}
use pmmcp.Prelude.Result.{Result, ok, err}
use pmmcp.Domain.{Process, Invalid, validate}

abbrev pub Table : Type 0
Table = List Process

-- `ErrNotFound`, `ErrConflict`, and the errors made before the database is asked.
pub data StoreError : Type 0 where
  store_not_found store_conflict empty_id missing_token : StoreError
  invalid : Invalid → StoreError

unfoldable pub null_runtime : String → String
null_runtime r = if str_eq r "" then "local" else r

unfoldable pub has_id : String → Table → Bool
has_id i [] = false
has_id i (r ∷ t) = str_eq r.id i || has_id i t

-- Two rows have one key in the unique index `processes_live_name`.
unfoldable pub is_same_live : Process → Process → Bool
is_same_live p q =
    (str_eq p.successor_id "" && str_eq q.successor_id "")
    && (str_eq p.project_id q.project_id && str_eq p.name q.name)

-- A row with another identifier has the record's key in that index.
unfoldable pub clashes : Process → Table → Bool
clashes p [] = false
clashes p (r ∷ t) = (not (str_eq r.id p.id) && is_same_live p r) || clashes p t

unfoldable pub get : String → Table → Option Process
get i [] = none
get i (r ∷ t) = let rest = get i t in if str_eq r.id i then some r else rest

-- The row that `Create` writes.
unfoldable pub created : Time → Process → Process
created now p = record p {
  runtime = null_runtime p.runtime;
  created_at = if is_zero p.created_at then now else p.created_at;
  updated_at = now;
}

-- `Create` of a record that is not nil.
unfoldable pub create : Time → Process → Table → Result StoreError Table
create now p t = elim (validate (some p)) [
  | some e ↦ err (invalid e)
  | none ↦
      if str_eq p.id ""
      then err empty_id
      else if has_id p.id t || clashes p t
      then err store_conflict
      else ok (created now p ∷ t)
]

-- The row r with the columns that an update sets: all but its identifier and its creation time.
unfoldable pub updated : Time → Process → Process → Process
updated now p r = record p {
  runtime = null_runtime p.runtime;
  created_at = r.created_at;
  updated_at = now;
}

unfoldable pub write_row : Time → Process → Table → Table
write_row now p [] = []
write_row now p (r ∷ t) =
    let rest = write_row now p t in if str_eq r.id p.id then updated now p r ∷ t else r ∷ rest

-- The statement of an update on the row with the record's identifier, if there is one.
unfoldable pub write : Time → Process → Table → Result StoreError Table
write now p t = if clashes p t then err store_conflict else ok (write_row now p t)

-- `Update` of a record that is not nil.
unfoldable pub update : Time → Process → Table → Result StoreError Table
update now p t = if str_eq p.id "" then err empty_id else elim (validate (some p)) [
  | some e ↦ err (invalid e)
  | none ↦ if has_id p.id t then write now p t else err store_not_found
]

-- The time that a compare-and-swap stores: after the one that it compares with.
unfoldable pub next_token : Time → Time → Time
next_token now token = if ltb token now then now else token + 1

-- `UpdateWithCAS` of a record that is not nil.
unfoldable pub update_cas : Time → Process → Table → Result StoreError Table
update_cas now p t =
    if str_eq p.id ""
    then err empty_id
    else if is_zero p.updated_at
    then err missing_token
    else elim (validate (some p)) [
      | some e ↦ err (invalid e)
      | none ↦ elim (get p.id t) [
        | none ↦ err store_not_found
        | some r ↦
            if r.updated_at == p.updated_at
            then write (next_token now p.updated_at) p t
            else err store_conflict
      ]
    ]

unfoldable pub delete_row : String → Table → Table
delete_row i [] = []
delete_row i (r ∷ t) = let rest = delete_row i t in if str_eq r.id i then t else r ∷ rest

unfoldable pub delete : String → Table → Result StoreError Table
delete i t = if has_id i t then ok (delete_row i t) else err store_not_found

-- `ProcessFilter`: an empty text asks for nothing.
pub record Filter : Type 0 where
  pub project_id : String
  pub status : String
  pub name : String

unfoldable pub matches : Filter → Process → Bool
matches f p =
    (str_eq f.project_id "" || str_eq p.project_id f.project_id)
    && ((str_eq f.status "" || str_eq p.status f.status)
        && (str_eq f.name "" || str_eq p.name f.name))

-- A row behind those that were created before it or with it.
unfoldable pub place : Process → List Process → List Process
place p [] = p ∷ []
place p (q ∷ out) =
    let rest = place p out in if ltb p.created_at q.created_at then p ∷ q ∷ out else q ∷ rest

-- `List`: the rows that match, by the time of their creation.
unfoldable pub list : Filter → Table → List Process
list f [] = []
list f (p ∷ t) = let rest = list f t in if matches f p then place p rest else rest
