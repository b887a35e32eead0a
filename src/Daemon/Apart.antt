-- ===== src/Daemon/Apart.antt =====
-- internal/daemon/server.go: the records that `doList` is given have different identifiers.
use pmmcp.Prelude.{
  String, ◌≡◌, refl, inl, inr, false, ◌||◌, List, [], ◌∷◌, arith, str_eq, eq_iff, ltb, Bool-cases,
}
use pmmcp.Domain.{Process}
use pmmcp.Store.{Table, Filter, list, matches, place, has_id}
use pmmcp.Store.Unique.{IsTable}

-- No two records have one identifier.
abbrev pub AllApart : List Process → Type 0
AllApart [] = Unit
AllApart (p ∷ ps) = (has_id p.id ps ≡ false) × AllApart ps

has_id-place :
    (i : String) (p : Process) (out : List Process)
    → has_id i (place p out) ≡ (str_eq p.id i || has_id i out)
unfolding has_id place
has_id-place i p [] = refl
has_id-place i p (q ∷ out) = ground (arith, has_id-place i p out)

place-AllApart :
    (p : Process) (out : List Process)
    → has_id p.id out ≡ false
    → AllApart out
    → AllApart (place p out)
unfolding has_id place
place-AllApart p [] new w = (refl, tt)
place-AllApart p (q ∷ out) new (apart, w) = elim (Bool-cases (ltb p.created_at q.created_at)) [
  | inl before ↦ rw before (new, (apart, w))
  | inr behind ↦ rw behind (
    ground (arith, has_id-place q.id p out, apart, new, eq_iff p.id q.id, eq_iff q.id p.id),
    place-AllApart p out (ground (arith, new)) w,
  )
]

pub has_id-list :
    (i : String) (f : Filter) (t : Table) → has_id i t ≡ false → has_id i (list f t) ≡ false
unfolding has_id list
has_id-list i f [] new = refl
has_id-list i f (p ∷ t) new = ground (arith, has_id-list i f t, has_id-place i p (list f t), new)

pub list-AllApart : (f : Filter) (t : Table) → IsTable t → AllApart (list f t)
unfolding list
list-AllApart f [] w = tt
list-AllApart f (p ∷ t) (named, new, alone, w) = elim (Bool-cases (matches f p)) [
  | inl shown ↦
      rw shown (place-AllApart p (list f t) (has_id-list p.id f t new) (list-AllApart f t w))
  | inr hidden ↦ rw hidden (list-AllApart f t w)
]

pub has_id-blank : (t : Table) → IsTable t → has_id "" t ≡ false
unfolding has_id
has_id-blank [] w = refl
has_id-blank (p ∷ t) (named, new, alone, w) = ground (arith, named, has_id-blank t w)
