-- ===== src/Group.antt =====
-- internal/group/group.go: process groups, and the order in which their members start and stop.
-- The texts of errors are left out, with the cycle that `findCyclePath` prints in one of them.
pub mod Sort
pub mod Edges
pub mod Missing
pub mod Dependencies
pub mod Kahn
pub mod Order
pub mod Registry
pub mod Stop
mod Tests
use pmmcp.Prelude.{
  ℕ, zero, suc, String, Bool, true, false, not, ◌||◌, List, [], ◌∷◌, ◌++◌, str_eq, ltb, ◌==◌,
  if◌then◌else◌, length, GoMap, put,
}
use mathlib.Core.List.{reverse}
use pmmcp.Prelude.Int.{ℤ, pos, negsuc, ltb_ℤ}
use pmmcp.Prelude.Result.{Result, ok, err, ◌>>=◌}
use pmmcp.Prelude.Occurs.{has}

pub record Member : Type 0 where
  pub name : String
  pub process_id : String
  pub order : ℤ
  pub depends_on : List String

pub record Group : Type 0 where
  pub id : String
  pub name : String
  pub project_id : String
  pub members : List Member

pub data GroupError : Type 0 where
  not_found exists_already cycle : GroupError
  empty_name create_id_failed invalid_id : GroupError
  empty_member_name : ℕ → GroupError
  duplicate_member : String → GroupError
  unknown_member : String → String → GroupError

-- The maps that `startOrder` builds; a set is the list of its elements.
pub record Tables : Type 0 where
  pub names : List String
  pub deps : GoMap (List String)
  pub reverse_deps : GoMap (List String)
  pub order_index : GoMap ℕ
  pub member_order : GoMap ℤ

unfoldable pub no_tables : Tables
no_tables = record {
  names = [];
  deps = λ _. [];
  reverse_deps = λ _. [];
  order_index = λ _. 0;
  member_order = λ _. pos 0;
}

-- The first loop of `startOrder`, from the member at index i on.
unfoldable pub read_names : ℕ → List Member → Tables → Result GroupError Tables
read_names i [] t = ok t
read_names i (m ∷ ms) t =
    let rest = read_names (suc i) ms (record t {
      names = t.names ++ m.name ∷ [];
      order_index = put t.order_index m.name i;
      member_order = put t.member_order m.name m.order;
      deps = put t.deps m.name [];
    }) in
    if str_eq m.name ""
    then err (empty_member_name i)
    else if has m.name t.names
    then err (duplicate_member m.name)
    else rest

-- The body of the second loop: one entry of `DependsOn`.
unfoldable pub read_edge : String → String → Tables → Result GroupError Tables
read_edge name d t =
    if str_eq d name
    then err cycle
    else if not (has d t.names)
    then err (unknown_member name d)
    else if has d (t.deps name)
    then ok t
    else ok (record t {
      deps = put t.deps name (t.deps name ++ d ∷ []);
      reverse_deps = put t.reverse_deps d (t.reverse_deps d ++ name ∷ []);
    })

unfoldable pub read_deps : String → List String → Tables → Result GroupError Tables
read_deps name [] t = ok t
read_deps name (d ∷ ds) t = do t' ← read_edge name d t; read_deps name ds t'

unfoldable pub read_edges : List Member → Tables → Result GroupError Tables
read_edges [] t = ok t
read_edges (m ∷ ms) t = do t' ← read_deps m.name m.depends_on t; read_edges ms t'

unfoldable pub less : Tables → String → String → Bool
less t a b =
    let x = t.member_order a in
    let y = t.member_order b in
    if ltb_ℤ x y || ltb_ℤ y x then ltb_ℤ x y else ltb (t.order_index a) (t.order_index b)

-- `sortStable`: the sorted part is kept in reverse, so that an entry moves left past its head.
unfoldable pub move_left : (String → String → Bool) → String → List String → List String
move_left lt x [] = x ∷ []
move_left lt x (y ∷ ys) = if lt x y then y ∷ move_left lt x ys else x ∷ y ∷ ys

unfoldable pub sort_from : (String → String → Bool) → List String → List String → List String
sort_from lt done [] = reverse done
sort_from lt done (x ∷ xs) = sort_from lt (move_left lt x done) xs

unfoldable pub sort_stable : (String → String → Bool) → List String → List String
sort_stable lt xs = sort_from lt [] xs

pub record Queue : Type 0 where
  pub indegree : GoMap ℤ
  pub ready : List String
  pub out : List String

-- The start of Kahn's algorithm. Go ranges over a map in any order: `visit` is that order.
unfoldable pub fill : Tables → List String → Queue → Queue
fill t [] q = q
fill t (name ∷ visit) q =
    let n = length (t.deps name) in
    fill t visit (record q {
      indegree = put q.indegree name (pos n);
      ready = if n == 0 then q.ready ++ name ∷ [] else q.ready;
    })

unfoldable pub kahn_init : Tables → List String → Queue
kahn_init t visit =
    let q = fill t visit (record { indegree = λ _. pos 0; ready = []; out = [] }) in
    record q { ready = sort_stable (less t) q.ready }

-- `x--`; it starts from a length and stays far from the ends of the 64-bit range.
abbrev pub pred_ℤ : ℤ → ℤ
pred_ℤ (pos zero) = negsuc 0
pred_ℤ (pos (suc n)) = pos n
pred_ℤ (negsuc n) = negsuc (suc n)

abbrev pub is_zero_ℤ : ℤ → Bool
is_zero_ℤ (pos zero) = true
is_zero_ℤ (pos (suc n)) = false
is_zero_ℤ (negsuc n) = false

unfoldable pub release_one : Tables → String → Queue → Queue
release_one t dep q =
    let left = pred_ℤ (q.indegree dep) in
    record q {
      indegree = put q.indegree dep left;
      ready = if is_zero_ℤ left then sort_stable (less t) (q.ready ++ dep ∷ []) else q.ready;
    }

unfoldable pub release : Tables → List String → Queue → Queue
release t [] q = q
release t (dep ∷ dependents) q = release t dependents (release_one t dep q)

-- One round of the loop: the first ready node starts.
unfoldable pub pop : Tables → String → List String → Queue → Queue
pop t n rest q = release t (t.reverse_deps n) (record q { ready = rest; out = q.out ++ n ∷ [] })

-- The loop, on fuel; each round adds a member to `out`, so the number of members is enough.
unfoldable pub kahn : ℕ → Tables → Queue → Queue
kahn zero t q = q
kahn (suc fuel) t q = elim q.ready [ [] ↦ q | n ∷ rest ↦ kahn fuel t (pop t n rest q) ]

unfoldable pub start_order : List String → List Member → Result GroupError (List String)
start_order visit [] = ok []
start_order visit (m ∷ ms) = do
  t ← read_names 0 (m ∷ ms) no_tables
  t' ← read_edges (m ∷ ms) t
  let q = kahn (length (m ∷ ms)) t' (kahn_init t' visit)
  if length q.out == length (m ∷ ms) then ok q.out else err cycle
