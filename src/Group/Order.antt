-- ===== src/Group/Order.antt =====
-- What `startOrder` of internal/group/group.go promises: an order in which dependencies come first,
-- whenever there is one.
use pmmcp.Prelude.{
  ℕ, zero, suc, ◌+◌, ◌≤◌, ◌<◌, String, ◌≡◌, refl, sym, ap, ◌∙◌, ◌≢◌, inl, inr, true, List, [], ◌∷◌,
  ◌++◌, arith, eq_iff, ◌==◌, Bool-cases, length, put,
}
use pmmcp.Prelude.Result.{ok, err, Result-cases}
use pmmcp.Prelude.Occurs.{occ, has, occ-append, length-le_of_occ, occ-eq_of_length}
use pmmcp.Group.{
  Member, GroupError, cycle, Tables, no_tables, read_names, read_edges, read_edge, read_deps, Queue,
  kahn, kahn_init, start_order,
}
use pmmcp.Group.Edges.{names_of, needs, IsRead, read_edges-IsRead}
use pmmcp.Group.Missing.{missing, missing-some}
use pmmcp.Group.Dependencies.{DepsFirst}
use pmmcp.Group.Kahn.{IsCounted, IsKahn, kahn_init-IsCounted, kahn-IsKahn}

-- `visit` lists the members' names once each, as a range over the map does.
abbrev pub IsVisit : List String → List Member → Type 0
IsVisit visit ms = (a : String) → occ a visit ≡ occ a (names_of ms)

pub length-names_of : (ms : List Member) → length (names_of ms) ≡ length ms
length-names_of [] = refl
length-names_of (m ∷ ms) = ap suc (length-names_of ms)

DepsFirst-cong :
    (f g : String → List String) (seen xs : List String)
    → ((x e : String) → has e (f x) ≡ has e (g x))
    → DepsFirst f seen xs
    → DepsFirst g seen xs
DepsFirst-cong f g seen [] e h = tt
DepsFirst-cong f g seen (x ∷ xs) e h =
    ((λ d p. h.0 d (ground (arith, e x d))), DepsFirst-cong f g (seen ++ x ∷ []) xs e h.1)

-- What the two reading loops and the Kahn loop leave behind.
pub record Ran (ms : List Member) (t : Tables) (q : Queue) : Type 0 where
  pub read : IsRead ms t
  pub queue : IsKahn t read.graph q
  pub idle : q.ready ≡ []

pub ran :
    (visit : List String) (ms : List Member) (t t' : Tables)
    → IsVisit visit ms
    → read_names 0 ms no_tables ≡ ok t
    → read_edges ms t ≡ ok t'
    → Ran ms t' (kahn (length ms) t' (kahn_init t' visit))
ran visit ms t t' v names edges = record { read = r; queue = ended.0; idle = ended.1 }
  where
    r : IsRead ms t'
    r = read_edges-IsRead ms t t' names edges

    begun : IsCounted t' r.graph [] (kahn_init t' visit) × ((kahn_init t' visit).out ≡ [])
    begun = kahn_init-IsCounted t' r.graph visit (λ x. v x ∙ ap (occ x) (sym r.names_same))

    ended :
        IsKahn t' r.graph (kahn (length ms) t' (kahn_init t' visit))
        × ((kahn (length ms) t' (kahn_init t' visit)).ready ≡ [])
    ended =
        kahn-IsKahn t' r.graph (length ms) (kahn_init t' visit)
          (record { counted = begun.0; ordered = rw begun.1 tt })
          (omega (arith, ap length r.names_same, length-names_of ms))

-- The members of the order when the loop ends: those of the group, if it has as many.
Ran-sound :
    (ms : List Member) (t : Tables) (q : Queue)
    → Ran ms t q
    → length q.out ≡ length ms
    → ((a : String) → occ a q.out ≡ occ a (names_of ms)) × DepsFirst (needs ms) [] q.out
Ran-sound ms t q r full = (
  λ a.
      occ-eq_of_length q.out t.names (λ x. omega (arith, r.queue.counted.within x))
        (omega (arith, ap length r.read.names_same, length-names_of ms)) a
      ∙ ap (occ a) r.read.names_same,
  DepsFirst-cong t.deps (needs ms) [] q.out r.read.edges_same r.queue.ordered,
)

-- If `startOrder` returns an order, the order holds each member of the group exactly once, and every
-- member stands behind all the members that it depends on.
pub start_order_sound :
    (visit : List String) (ms : List Member) (out : List String)
    → IsVisit visit ms
    → start_order visit ms ≡ ok out
    → ((a : String) → occ a out ≡ occ a (names_of ms)) × DepsFirst (needs ms) [] out
unfolding start_order
start_order_sound visit [] out v h = rw (← same) ((λ a. refl), tt)
  where
    same : [] ≡ out
    same = ground arith
start_order_sound visit (m ∷ ms) out v h = elim (Result-cases (read_names 0 (m ∷ ms) no_tables)) [
  | inr (e, fails) ↦ absurd (ground (arith, fails))
  | inl (t, names) ↦ elim (Result-cases (read_edges (m ∷ ms) t)) [
    | inr (e, fails) ↦ absurd (ground (arith, names, fails))
    | inl (t', edges) ↦
        let q = kahn (length (m ∷ ms)) t' (kahn_init t' visit) in
        let same : q.out ≡ out = ground (arith, names, edges) in
        let full : length q.out ≡ length (m ∷ ms) = ground (arith, names, edges) in
        rw (← same) (Ran-sound (m ∷ ms) t' q (ran visit (m ∷ ms) t t' v names edges) full)
  ]
]

-- A ranking under which every member stands strictly above all that it depends on: there is one
-- exactly if the dependencies have no cycle.
abbrev pub Ranks : (String → ℕ) → List Member → Type 0
Ranks rank ms = (x d : String) → 0 < occ d (needs ms x) → rank d < rank x

Ran-started :
    (ms : List Member) (t : Tables) (q : Queue) (rank : String → ℕ)
    → Ran ms t q
    → Ranks rank ms
    → (k : ℕ) (x : String) → rank x < k
    → occ x t.names ≡ 1
    → 0 < occ x q.out
Ran-started ms t q rank r acyclic zero x lt h = absurd (omega arith)
Ran-started ms t q rank r acyclic (suc k) x lt h =
    elim (Bool-cases (missing q.out (t.deps x) == 0)) [
      | inl ready ↦ omega (arith, r.queue.counted.complete x h (all_started ready), no_ready)
      | inr waits ↦
          let (d, dep, absent) = missing-some q.out (t.deps x) (ground (arith, waits)) in
          absurd (
            omega (
              arith,
              absent,
              Ran-started ms t q rank r acyclic k d
                  (omega (arith, lt, acyclic x d (ground (arith, r.read.edges_same x d, dep))))
                  (r.read.graph.edge_ends x d dep).0,
            ))
    ]
  where
    no_ready : occ x q.ready ≡ 0
    no_ready = rw r.idle (unfold occ in refl)

    all_started : (missing q.out (t.deps x) == 0) ≡ true → missing q.out (t.deps x) + occ x [] ≡ 0
    all_started e = unfold occ in ground arith

pub Ran-complete :
    (ms : List Member) (t : Tables) (q : Queue) (rank : String → ℕ)
    → Ran ms t q
    → Ranks rank ms
    → length q.out ≡ length ms
Ran-complete ms t q rank r acyclic = omega (
  arith,
  length-le_of_occ q.out t.names (λ a. omega (arith, r.queue.counted.within a)),
  length-le_of_occ t.names q.out all_in,
  ap length r.read.names_same,
  length-names_of ms,
)
  where
    all_in : (a : String) → occ a t.names ≤ occ a q.out
    all_in a = elim (Bool-cases (has a t.names)) [
      | inr absent ↦ ground (arith, absent)
      | inl there ↦
          let one : occ a t.names ≡ 1 = ground (arith, there, r.read.graph.names_once a) in
          omega (arith, Ran-started ms t q rank r acyclic (suc (rank a)) a (omega arith) one)
    ]

read_names-ne-cycle : (i : ℕ) (ms : List Member) (t : Tables) → read_names i ms t ≢ err cycle
unfolding read_names
read_names-ne-cycle i [] t h = cc
read_names-ne-cycle i (m ∷ ms) t h = ground (
  arith,
  read_names-ne-cycle (suc i) ms (record t {
    names = t.names ++ m.name ∷ [];
    order_index = put t.order_index m.name i;
    member_order = put t.member_order m.name m.order;
    deps = put t.deps m.name [];
  }),
)

-- The reading loops report a cycle only for a member that depends on itself.
read_deps-cycle :
    (name : String) (ds : List String) (t : Tables)
    → read_deps name ds t ≡ err cycle
    → 0 < occ name ds
unfolding read_deps occ
read_deps-cycle name [] t h = cc
read_deps-cycle name (d ∷ ds) t h = elim (Result-cases (read_edge name d t)) [
  | inl (t', e) ↦ ground (arith, e, read_deps-cycle name ds t')
  | inr (x, e) ↦ ground (arith, own x e, eq_iff name d)
]
  where
    own : (x : GroupError) → read_edge name d t ≡ err x → d ≡ name
    own x e = unfold read_edge in ground (arith, eq_iff d name)

read_edges-cycle :
    (ms : List Member) (t : Tables)
    → read_edges ms t ≡ err cycle
    → (x : String) × (0 < occ x (needs ms x))
unfolding read_edges needs
read_edges-cycle [] t h = cc
read_edges-cycle (m ∷ ms) t h = elim (Result-cases (read_deps m.name m.depends_on t)) [
  | inl (t', e) ↦
      let (x, k) = read_edges-cycle ms t' (ground (arith, e)) in
      (x, ground (arith, occ-append x m.depends_on (needs ms x)))
  | inr (x, e) ↦ (
    m.name,
    ground (
      arith,
      e,
      read_deps-cycle m.name m.depends_on t,
      eq_iff m.name m.name,
      occ-append m.name m.depends_on (needs ms m.name),
    ),
  )
]

-- `startOrder` reports a cycle only if there is one: where the members can be ranked so that each
-- stands strictly above all that it depends on, the answer is never the cycle error.
pub start_order-ne-cycle :
    (visit : List String) (ms : List Member) (rank : String → ℕ)
    → IsVisit visit ms
    → Ranks rank ms
    → start_order visit ms ≢ err cycle
unfolding start_order
start_order-ne-cycle visit [] rank v acyclic h = cc
start_order-ne-cycle visit (m ∷ ms) rank v acyclic h =
    elim (Result-cases (read_names 0 (m ∷ ms) no_tables)) [
      | inr (e, fails) ↦ read_names-ne-cycle 0 (m ∷ ms) no_tables (ground (arith, fails))
      | inl (t, names) ↦ elim (Result-cases (read_edges (m ∷ ms) t)) [
        | inr (e, fails) ↦
            let (x, loop) = read_edges-cycle (m ∷ ms) t (ground (arith, names, fails)) in
            omega (arith, acyclic x x loop)
        | inl (t', edges) ↦
            let q = kahn (length (m ∷ ms)) t' (kahn_init t' visit) in
            let r = ran visit (m ∷ ms) t t' v names edges in
            ground (arith, names, edges, Ran-complete (m ∷ ms) t' q rank r acyclic)
      ]
    ]
