-- ===== src/Group/Edges.antt =====
-- What the two reading loops of `startOrder` leave in its maps.
use pmmcp.Prelude.{
  ℕ, suc, ◌≤◌, ◌<◌, String, ◌≡◌, refl, ap, ◌∙◌, ◌≢◌, ◌⊎◌, inl, inr, Bool, false, ◌&&◌, ◌||◌, List,
  [], ◌∷◌, ◌++◌, map, arith, str_eq, eq_iff, if◌then◌else◌, Bool-cases, put,
}
use mathlib.Core.List.{append-nil}
use pmmcp.Prelude.Result.{ok, Result-cases}
use pmmcp.Prelude.Occurs.{occ, has, occ-append, occ-one, occ_self}
use pmmcp.Group.{Member, Tables, no_tables, read_names, read_edge, read_deps, read_edges}

abbrev pub names_of : List Member → List String
names_of = map (λ (m : Member). m.name)

-- What the members called x ask for, in the order of the text.
unfoldable pub needs : List Member → String → List String
needs [] x = []
needs (m ∷ ms) x = if str_eq m.name x then m.depends_on ++ needs ms x else needs ms x

append_cons {ℓ} : {A : Type ℓ} (xs ys : List A) (x : A) → (xs ++ x ∷ []) ++ ys ≡ xs ++ x ∷ ys
append_cons [] ys x = refl
append_cons (y ∷ xs) ys x = rw (append_cons xs ys x)

abbrev Clear : Tables → Type 0
Clear t = ((x : String) → t.deps x ≡ []) × ((x : String) → t.reverse_deps x ≡ [])

-- The names that were read: those of the members, none of them twice and none of them empty.
record NamesRead (t : Tables) (names : List String) : Type 0 where
  same : t.names ≡ names
  once : (a : String) → occ a names ≤ 1
  clear : Clear t

read_names-ok :
    (i : ℕ) (ms : List Member) (t t' : Tables)
    → ((a : String) → occ a t.names ≤ 1)
    → Clear t
    → read_names i ms t ≡ ok t'
    → NamesRead t' (t.names ++ names_of ms)
unfolding read_names
read_names-ok i [] t t' u c h = record {
  same = ground (arith, append-nil t.names);
  once = λ a. rw append-nil (u a);
  clear = (λ x. ground (arith, c.0 x), λ x. ground (arith, c.1 x));
}
read_names-ok i (m ∷ ms) t t' u c h =
    rw append_cons at (read_names-ok (suc i) ms entered t' once_more (cleared, c.1) (ground arith))
  where
    entered : Tables
    entered = record t {
      names = t.names ++ m.name ∷ [];
      order_index = put t.order_index m.name i;
      member_order = put t.member_order m.name m.order;
      deps = put t.deps m.name [];
    }

    new : has m.name t.names ≡ false
    new = ground arith

    once_more : (a : String) → occ a (t.names ++ m.name ∷ []) ≤ 1
    once_more a =
        ground
          (arith, occ-append a t.names (m.name ∷ []), occ-one a m.name, u a, eq_iff a m.name, new)

    cleared : (x : String) → put t.deps m.name [] x ≡ []
    cleared x = unfold put in ground (arith, c.0 x)

-- The two edge maps mirror each other over the names, and hold no edge twice and none from a
-- member to itself.
pub record IsGraph (t : Tables) : Type 0 where
  pub names_once : (a : String) → occ a t.names ≤ 1
  pub mirror : (x d : String) → occ x (t.reverse_deps d) ≡ occ d (t.deps x)
  pub edge_once : (x d : String) → occ d (t.deps x) ≤ 1
  pub edge_ends :
      (x d : String) → 0 < occ d (t.deps x) → (occ d t.names ≡ 1) × (occ x t.names ≡ 1) × (d ≢ x)

abbrev edge_added : String → String → Tables → Tables
edge_added name d t = record t {
  deps = put t.deps name (t.deps name ++ d ∷ []);
  reverse_deps = put t.reverse_deps d (t.reverse_deps d ++ name ∷ []);
}

-- An entry of `DependsOn` that is accepted is known already, or is a new edge between two names.
read_edge-cases :
    (name d : String) (t t' : Tables)
    → read_edge name d t ≡ ok t'
    → (d ≢ name)
      × (0 < occ d t.names)
      × (((t ≡ t') × (0 < occ d (t.deps name)))
          ⊎ ((edge_added name d t ≡ t') × (occ d (t.deps name) ≡ 0)))
unfolding read_edge
read_edge-cases name d t t' h = (
  ground (arith, eq_iff d name),
  ground arith,
  elim (Bool-cases (has d (t.deps name))) [
    | inl old ↦ inl (ground (arith, old), ground (arith, old))
    | inr new ↦ inr (ground (arith, new), ground (arith, new))
  ],
)

module _ (name d : String) (t : Tables) (g : IsGraph t) (k : occ name t.names ≡ 1)
    (other : d ≢ name) (known : 0 < occ d t.names) (new : occ d (t.deps name) ≡ 0) where
  edge_added-IsGraph : IsGraph (edge_added name d t)
  unfolding put
  edge_added-IsGraph = record {
    names_once = g.names_once;
    mirror = λ x e. ground (
      arith,
      g.mirror x e,
      eq_iff e d,
      eq_iff x name,
      occ-append x (t.reverse_deps d) (name ∷ []),
      occ-append e (t.deps name) (d ∷ []),
      occ-one x name,
      occ-one e d,
      g.mirror x d,
      g.mirror name e,
    );
    edge_once = λ x e. ground (
      arith,
      g.edge_once x e,
      eq_iff x name,
      occ-append e (t.deps name) (d ∷ []),
      occ-one e d,
      eq_iff e d,
      g.edge_once name e,
    );
    edge_ends = λ x e h. ground (
      arith,
      g.edge_ends x e,
      eq_iff x name,
      occ-append e (t.deps name) (d ∷ []),
      occ-one e d,
      eq_iff e d,
      g.edge_ends name e,
      g.names_once d,
    );
  }

  -- Exactly the new edge is added.
  has-edge_added :
      (x e : String)
      → has e ((edge_added name d t).deps x) ≡ (has e (t.deps x) || (str_eq x name && str_eq e d))
  unfolding put
  has-edge_added x e =
      ground (arith, eq_iff x name, occ-append e (t.deps name) (d ∷ []), occ-one e d)

-- What a reading loop does to the maps: the names stay, the graph stays one, and exactly the edges
-- that `added` tells of are new.
record Reads (t t' : Tables) (added : String → String → Bool) : Type 0 where
  names_kept : t'.names ≡ t.names
  graph : IsGraph t'
  edges : (x e : String) → has e (t'.deps x) ≡ (has e (t.deps x) || added x e)

read_edge-Reads :
    (name d : String) (t t' : Tables)
    → occ name t.names ≡ 1
    → IsGraph t
    → read_edge name d t ≡ ok t'
    → Reads t t' (λ x e. str_eq x name && str_eq e d)
read_edge-Reads name d t t' k g h = elim (read_edge-cases name d t t' h).2 [
  | inl (same, old) ↦ rw (← same) (record {
    names_kept = refl;
    graph = g;
    edges = λ x e. ground (arith, eq_iff x name, eq_iff e d, old);
  })
  | inr (same, new) ↦
      let (other, known, _) = read_edge-cases name d t t' h in
      rw (← same) (record {
        names_kept = refl;
        graph = edge_added-IsGraph name d t g k other known new;
        edges = has-edge_added name d t g k other known new;
      })
]

read_deps-Reads :
    (name : String) (ds : List String) (t t' : Tables)
    → occ name t.names ≡ 1
    → IsGraph t
    → read_deps name ds t ≡ ok t'
    → Reads t t' (λ x e. str_eq x name && has e ds)
unfolding read_deps occ
read_deps-Reads name [] t t' k g h =
    let same : t ≡ t' = ground arith in
    rw (← same) (record { names_kept = refl; graph = g; edges = λ x e. ground arith })
read_deps-Reads name (d ∷ ds) t t' k g h = elim (Result-cases (read_edge name d t)) [
  | inr (e, fails) ↦ absurd (ground (arith, fails))
  | inl (t1, done) ↦
      let first = read_edge-Reads name d t t1 k g done in
      let later =
        read_deps-Reads name ds t1 t' (rw first.names_kept k) first.graph (ground (arith, done)) in
      record {
        names_kept = later.names_kept ∙ first.names_kept;
        graph = later.graph;
        edges = λ x e. ground (arith, later.edges x e, first.edges x e);
      }
]

read_edges-Reads :
    (ms : List Member) (t t' : Tables)
    → ((a : String) → 0 < occ a (names_of ms) → occ a t.names ≡ 1)
    → IsGraph t
    → read_edges ms t ≡ ok t'
    → Reads t t' (λ x e. has e (needs ms x))
unfolding read_edges needs occ
read_edges-Reads [] t t' k g h =
    let same : t ≡ t' = ground arith in
    rw (← same) (record { names_kept = refl; graph = g; edges = λ x e. ground arith })
read_edges-Reads (m ∷ ms) t t' k g h = elim (Result-cases (read_deps m.name m.depends_on t)) [
  | inr (e, fails) ↦ absurd (ground (arith, fails))
  | inl (t1, done) ↦
      let here : occ m.name t.names ≡ 1 = k m.name (omega (arith, occ_self m.name (names_of ms))) in
      let first = read_deps-Reads m.name m.depends_on t t1 here g done in
      let later =
        read_edges-Reads ms t1 t' (λ a p. rw first.names_kept (k a (ground arith))) first.graph
          (ground (arith, done)) in
      record {
        names_kept = later.names_kept ∙ first.names_kept;
        graph = later.graph;
        edges = λ x e. ground (
          arith,
          later.edges x e,
          first.edges x e,
          eq_iff x m.name,
          eq_iff m.name x,
          occ-append e m.depends_on (needs ms x),
        );
      }
]

-- The maps after both loops: a graph over the members' names, whose edges are the dependencies that
-- the members ask for.
pub record IsRead (ms : List Member) (t : Tables) : Type 0 where
  pub names_same : t.names ≡ names_of ms
  pub graph : IsGraph t
  pub edges_same : (x e : String) → has e (t.deps x) ≡ has e (needs ms x)

pub read_edges-IsRead :
    (ms : List Member) (t t' : Tables)
    → read_names 0 ms no_tables ≡ ok t
    → read_edges ms t ≡ ok t'
    → IsRead ms t'
unfolding no_tables
read_edges-IsRead ms t t' names edges = record {
  names_same = reads.names_kept ∙ named.same;
  graph = reads.graph;
  edges_same = λ x e. ground (arith, reads.edges x e, named.clear.0 x, no_occ e);
}
  where
    no_occ : (e : String) → occ e [] ≡ 0
    no_occ e = unfold occ in refl

    named : NamesRead t (names_of ms)
    named =
        read_names-ok 0 ms no_tables t (λ a. unfold occ in omega arith) ((λ x. refl), (λ x. refl))
          names

    start : IsGraph t
    start = record {
      names_once = λ a. rw named.same (named.once a);
      mirror = λ x d. ground (arith, named.clear.0 x, named.clear.1 d, no_occ x, no_occ d);
      edge_once = λ x d. ground (arith, named.clear.0 x, no_occ d);
      edge_ends = λ x d h. absurd (ground (arith, named.clear.0 x, no_occ d));
    }

    reads : Reads t t' (λ x e. has e (needs ms x))
    reads =
        read_edges-Reads ms t t' (λ a h. ground (arith, named.once a, ap (occ a) named.same)) start
          edges
