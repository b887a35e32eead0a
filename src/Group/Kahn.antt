-- ===== src/Group/Kahn.antt =====
-- The invariant of Kahn's loop in `startOrder`, and its end.
use pmmcp.Prelude.{
  ℕ, zero, suc, ◌+◌, ◌≤◌, ◌<◌, String, ◌≡◌, refl, sym, ap, ◌∙◌, ◌⊎◌, inl, inr, List, [], ◌∷◌, ◌++◌,
  arith, str_eq, eq_iff, ◌==◌, if◌then◌else◌, length, length-append, put,
}
use pmmcp.Prelude.Int.{pos}
use pmmcp.Prelude.Occurs.{occ, has, occ-append, occ-one, occ_self, length-le_of_occ}
use pmmcp.Group.{
  Tables, Queue, less, sort_stable, fill, kahn_init, release_one, release, pop, kahn, pred_ℤ,
  is_zero_ℤ,
}
use pmmcp.Group.Sort.{occ-sort_stable}
use pmmcp.Group.Edges.{IsGraph}
use pmmcp.Group.Missing.{missing, missing-snoc, missing-zero}
use pmmcp.Group.Dependencies.{DepsFirst, DepsFirst-snoc}

is_zero_ℤ-pos : (n : ℕ) → is_zero_ℤ (pos n) ≡ (n == 0)
is_zero_ℤ-pos zero = refl
is_zero_ℤ-pos (suc n) = ground arith

module _ (t : Tables) (g : IsGraph t) where
  -- The queue while the dependents rs of the member popped last still count it as missing: every
  -- member's count is the number of its dependencies that have not started, and a member has
  -- started or is ready exactly if that number is 0.
  pub record IsCounted (rs : List String) (q : Queue) : Type 0 where
    pub within : (x : String) → occ x q.out + occ x q.ready ≤ occ x t.names
    pub counts :
        (x : String) → occ x t.names ≡ 1 → q.indegree x ≡ pos (missing q.out (t.deps x) + occ x rs)
    pub started :
        (x : String) → 0 < occ x q.out + occ x q.ready → missing q.out (t.deps x) + occ x rs ≡ 0
    pub complete :
        (x : String)
        → occ x t.names ≡ 1
        → missing q.out (t.deps x) + occ x rs ≡ 0
        → 0 < occ x q.out + occ x q.ready

  release_one-IsCounted :
      (r : String) (rs : List String) (q : Queue)
      → occ r t.names ≡ 1
      → IsCounted (r ∷ rs) q
      → IsCounted rs (release_one t r q)
  unfolding release_one put occ
  release_one-IsCounted r rs q k v = record {
    within = λ x.
        ground
          (arith, empties, v.within x, v.within r, v.started r, waits, eq_iff x r, ready_occ x);
    counts = λ x h. ground (arith, left, v.counts x h, eq_iff x r);
    started = λ x h. ground (arith, empties, v.started x, eq_iff x r, ready_occ x, waits);
    complete = λ x h e. ground (arith, empties, v.complete x h, eq_iff x r, ready_occ x);
  }
    where
      rest : ℕ
      rest = missing q.out (t.deps r) + occ r rs

      waits : missing q.out (t.deps r) + occ r (r ∷ rs) ≡ suc rest
      waits = omega (arith, occ_self r rs)

      left : pred_ℤ (q.indegree r) ≡ pos rest
      left = rw (v.counts r k ∙ ap pos waits)

      empties : is_zero_ℤ (pred_ℤ (q.indegree r)) ≡ (rest == 0)
      empties = rw left (is_zero_ℤ-pos rest)

      ready_occ :
          (x : String)
          → occ x (sort_stable (less t) (q.ready ++ r ∷ []))
            ≡ occ x q.ready + (if str_eq x r then 1 else 0)
      ready_occ x =
          occ-sort_stable (less t) x (q.ready ++ r ∷ [])
          ∙ occ-append x q.ready (r ∷ [])
          ∙ ap (λ n. occ x q.ready + n) (occ-one x r)

  release-IsCounted :
      (rs : List String) (q : Queue)
      → ((x : String) → 0 < occ x rs → occ x t.names ≡ 1)
      → IsCounted rs q
      → IsCounted [] (release t rs q)
  unfolding release
  release-IsCounted [] q k v = v
  release-IsCounted (r ∷ rs) q k v =
      release-IsCounted rs (release_one t r q) (λ x h. k x (unfold occ in ground arith))
        (release_one-IsCounted r rs q (k r (omega (arith, occ_self r rs))) v)

  pub out-release : (rs : List String) (q : Queue) → (release t rs q).out ≡ q.out
  unfolding release
  out-release [] q = refl
  out-release (r ∷ rs) q = out-release rs (release_one t r q) ∙ unfold release_one in refl

  pop-IsCounted :
      (n : String) (rest : List String) (q : Queue)
      → q.ready ≡ n ∷ rest
      → IsCounted [] q
      → IsCounted [] (pop t n rest q)
  unfolding pop
  pop-IsCounted n rest q e v =
      release-IsCounted (t.reverse_deps n) popped
        (λ x h. (g.edge_ends x n (omega (arith, g.mirror x n))).1)
        (record {
          within = λ x. omega (arith, v.within x, out_occ x, ready_occ x);
          counts = λ x h. v.counts x h ∙ ap pos (omega (arith, moved x, nil x));
          started = λ x h.
              omega (arith, v.started x (omega (arith, h, out_occ x, ready_occ x)), moved x, nil x);
          complete = λ x h z.
              omega (arith, v.complete x h (omega (arith, moved x, nil x)), out_occ x, ready_occ x);
        })
    where
      popped : Queue
      popped = record q { ready = rest; out = q.out ++ n ∷ [] }

      nil : (x : String) → occ x [] ≡ 0
      nil x = unfold occ in refl

      out_occ : (x : String) → occ x (q.out ++ n ∷ []) ≡ occ x q.out + (if str_eq x n then 1 else 0)
      out_occ x = occ-append x q.out (n ∷ []) ∙ ap (λ k. occ x q.out + k) (occ-one x n)

      ready_occ : (x : String) → occ x q.ready ≡ occ x rest + (if str_eq x n then 1 else 0)
      ready_occ x = ap (occ x) e ∙ unfold occ in ground arith

      fresh : occ n q.out ≡ 0
      fresh = ground (arith, v.within n, g.names_once n, ready_occ n, eq_iff n n)

      moved :
          (x : String)
          → missing q.out (t.deps x)
            ≡ missing (q.out ++ n ∷ []) (t.deps x) + occ x (t.reverse_deps n)
      moved x =
          missing-snoc q.out n (t.deps x) fresh
          ∙ ap (λ k. missing (q.out ++ n ∷ []) (t.deps x) + k) (sym (g.mirror x n))

  fill_lem :
      (visit : List String) (q : Queue) (x : String)
      → ((fill t visit q).indegree x
          ≡ (if has x visit then pos (length (t.deps x)) else q.indegree x))
        × (occ x (fill t visit q).ready
            ≡ occ x q.ready + (if length (t.deps x) == 0 then occ x visit else 0))
        × ((fill t visit q).out ≡ q.out)
  unfolding fill put occ
  fill_lem [] q x = (refl, ground arith, refl)
  fill_lem (y ∷ visit) q x =
      let q' = record q {
        indegree = put q.indegree y (pos (length (t.deps y)));
        ready = if length (t.deps y) == 0 then q.ready ++ y ∷ [] else q.ready;
      } in
      let (counts, readies, outs) = fill_lem visit q' x in
      (
        ground (arith, counts, eq_iff x y),
        ground (arith, readies, occ-append x q.ready (y ∷ []), occ-one x y, eq_iff x y),
        outs,
      )

  missing-nil : (ds : List String) → missing [] ds ≡ length ds
  unfolding missing occ
  missing-nil [] = refl
  missing-nil (d ∷ ds) = ap suc (missing-nil ds)

  pub kahn_init-IsCounted :
      (visit : List String)
      → ((x : String) → occ x visit ≡ occ x t.names)
      → IsCounted [] (kahn_init t visit) × ((kahn_init t visit).out ≡ [])
  unfolding kahn_init
  kahn_init-IsCounted visit all = (
    record {
      within = λ x. ground (arith, out_occ x, ready_occ x, all x);
      counts = λ x h. ground (arith, (filled x).0, all x, missing_all x, nil x);
      started = λ x h. ground (arith, out_occ x, ready_occ x, missing_all x, nil x);
      complete = λ x h z. ground (arith, out_occ x, ready_occ x, missing_all x, nil x, all x);
    },
    (fill_lem visit start "").2,
  )
    where
      start : Queue
      start = record { indegree = λ _. pos 0; ready = []; out = [] }

      filled :
          (x : String)
          → ((fill t visit start).indegree x
              ≡ (if has x visit then pos (length (t.deps x)) else start.indegree x))
            × (occ x (fill t visit start).ready
                ≡ occ x start.ready + (if length (t.deps x) == 0 then occ x visit else 0))
            × ((fill t visit start).out ≡ start.out)
      filled x = fill_lem visit start x

      nil : (x : String) → occ x [] ≡ 0
      nil x = unfold occ in refl

      out_occ : (x : String) → occ x (fill t visit start).out ≡ 0
      out_occ x = ap (occ x) (filled x).2 ∙ nil x

      ready_occ :
          (x : String)
          → occ x (sort_stable (less t) (fill t visit start).ready)
            ≡ (if length (t.deps x) == 0 then occ x visit else 0)
      ready_occ x =
          occ-sort_stable (less t) x (fill t visit start).ready ∙ omega (arith, (filled x).1, nil x)

      missing_all : (x : String) → missing (fill t visit start).out (t.deps x) ≡ length (t.deps x)
      missing_all x = ap (λ o. missing o (t.deps x)) (filled x).2 ∙ missing-nil (t.deps x)

List-cases {ℓ} : {A : Type ℓ} (xs : List A) → (xs ≡ []) ⊎ ((x : A) × (r : List A) × (xs ≡ x ∷ r))
List-cases [] = inl refl
List-cases (x ∷ r) = inr (x, r, refl)

module _ (t : Tables) (g : IsGraph t) where
  pub record IsKahn (q : Queue) : Type 0 where
    pub counted : IsCounted t g [] q
    pub ordered : DepsFirst t.deps [] q.out

  out-pop : (n : String) (rest : List String) (q : Queue) → (pop t n rest q).out ≡ q.out ++ n ∷ []
  unfolding pop
  out-pop n rest q = out-release t g (t.reverse_deps n) _

  pop-IsKahn :
      (n : String) (rest : List String) (q : Queue)
      → q.ready ≡ n ∷ rest
      → IsKahn q
      → IsKahn (pop t n rest q)
  pop-IsKahn n rest q e v = record {
    counted = pop-IsCounted t g n rest q e v.counted;
    ordered = rw (out-pop n rest q) (
        DepsFirst-snoc t.deps [] q.out n v.ordered
          (λ d h. missing-zero q.out (t.deps n) d (omega (arith, v.counted.started n in_ready)) h));
  }
    where
      in_ready : 0 < occ n q.out + occ n q.ready
      in_ready = rw e (omega (arith, occ_self n rest))

  -- With as much fuel as there are members left to start, the loop ends with no member ready.
  pub kahn-IsKahn :
      (fuel : ℕ) (q : Queue)
      → IsKahn q
      → length t.names ≤ fuel + length q.out
      → IsKahn (kahn fuel t q) × ((kahn fuel t q).ready ≡ [])
  unfolding kahn
  kahn-IsKahn zero q v h = (v, none_left q.ready refl)
    where
      none_left : (r : List String) → q.ready ≡ r → q.ready ≡ []
      none_left [] e = e
      none_left (x ∷ r) e = absurd (
          omega (
            arith,
            length-le_of_occ (q.out ++ q.ready) t.names
                (λ a. omega (arith, v.counted.within a, occ-append a q.out q.ready)),
            length-append q.out q.ready,
            ap length e,
          ))
  kahn-IsKahn (suc fuel) q v h = elim (List-cases q.ready) [
    | inl e ↦ rw (e, kahn) (v, e)
    | inr (n, rest, e) ↦
        rw (e, kahn)
          (kahn-IsKahn fuel (pop t n rest q) (pop-IsKahn n rest q e v)
            (omega (arith, ap length (out-pop n rest q), length-append q.out (n ∷ []))))
  ]
