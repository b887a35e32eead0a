-- ===== src/Session/Coherence.antt =====
-- The two indexes of the session registry agree, whatever the interleaving of the calls.
use pmmcp.Prelude.{
  ℕ, String, ◌≡◌, refl, ◌≢◌, inl, inr, true, none, some, arith, eq_iff, Option-cases, put,
}
use pmmcp.Session.{
  Session, Registry, new_registry, get, get_by_harness, open_probe, open_commit, new_session,
  insert, end,
}

-- Every session is found under its own identifiers, and a harness names the one session that is
-- found by its internal identifier too.
pub record IsCoherent (r : Registry) : Type 0 where
  pub keyed : (i : String) (s : Session) → r.by_id i ≡ some s → s.id ≡ i
  pub indexed :
      (i : String) (s : Session)
      → r.by_id i ≡ some s
      → s.harness_id ≢ ""
      → r.by_harness s.harness_id ≡ some s
  pub named :
      (h : String) (s : Session)
      → r.by_harness h ≡ some s
      → (s.harness_id ≡ h) × (r.by_id s.id ≡ some s)
  pub anonymous : r.by_harness "" ≡ none

new_registry-IsCoherent : IsCoherent new_registry
unfolding new_registry
new_registry-IsCoherent = record {
  keyed = λ i s e. cc;
  indexed = λ i s e. cc;
  named = λ h s e. cc;
  anonymous = refl;
}

insert-IsCoherent :
    (r : Registry) (s : Session)
    → IsCoherent r
    → r.by_id s.id ≡ none
    → (s.harness_id ≢ "" → r.by_harness s.harness_id ≡ none)
    → IsCoherent (insert r s)
unfolding insert put
insert-IsCoherent r s c new free = record {
  keyed = λ i t e. ground (arith, eq_iff i s.id, c.keyed i t);
  indexed = λ i t e n. ground (
    arith,
    eq_iff i s.id,
    c.keyed i t,
    c.indexed i t,
    eq_iff t.harness_id s.harness_id,
    eq_iff s.harness_id "",
    free,
  );
  named = λ h t e.
      ground (arith, eq_iff h s.harness_id, c.named h t, eq_iff t.id s.id, eq_iff s.harness_id "");
  anonymous = ground (arith, c.anonymous, eq_iff s.harness_id "", eq_iff "" s.harness_id);
}

remove-IsCoherent : (r : Registry) (i : String) → IsCoherent r → IsCoherent (end r i).0
unfolding end put
remove-IsCoherent r i c = elim (Option-cases (r.by_id i)) [
  | inl e ↦ rw (e, end) c
  | inr (s, e) ↦
      rw (e, end)
        (record {
          keyed = λ j t h. ground (arith, c.keyed j t);
          indexed = λ j t h n. ground (
            arith,
            eq_iff j i,
            eq_iff t.harness_id s.harness_id,
            c.indexed j t,
            c.keyed j t,
            c.keyed i s e,
            c.indexed i s e,
            eq_iff s.harness_id "",
          );
          named = λ h t q. ground (
            arith,
            c.named h t,
            eq_iff t.id i,
            eq_iff h s.harness_id,
            eq_iff s.harness_id "",
            c.keyed i s e,
            c.anonymous,
          );
          anonymous = ground (arith, c.anonymous, eq_iff s.harness_id "", eq_iff "" s.harness_id);
        })
]

commit-IsCoherent :
    (r : Registry) (sid h role : String) (now : ℕ)
    → r.by_id sid ≡ none
    → IsCoherent r
    → IsCoherent (open_commit r sid h role now).0
unfolding open_commit
commit-IsCoherent r sid h role now new c = elim (Option-cases (open_probe r h)) [
  | inl e ↦
      rw (e, open_commit)
        (insert-IsCoherent r (new_session sid h role now) c new
          (λ n. unfold open_probe in ground (arith, eq_iff h "")))
  | inr (s, e) ↦ rw (e, open_commit) c
]

-- What can happen to the registry between any two looks at it: the locked part of an `Open` of
-- any client, whose identifier is new, or an `End`.
pub data Step (r : Registry) : Registry → Type 0 where
  commits :
      (sid h role : String) (now : ℕ) → r.by_id sid ≡ none → Step r (open_commit r sid h role now).0
  ends : (i : String) → Step r (end r i).0

pub data Reach (r : Registry) : Registry → Type 0 where
  here : Reach r r
  next : {t u : Registry} → Reach r t → Step t u → Reach r u

Step-IsCoherent : {r t : Registry} → Step r t → IsCoherent r → IsCoherent t
Step-IsCoherent {r} (commits sid h role now new) c = commit-IsCoherent r sid h role now new c
Step-IsCoherent {r} (ends i) c = remove-IsCoherent r i c

Reach-from-IsCoherent : {r t : Registry} → Reach r t → IsCoherent r → IsCoherent t
Reach-from-IsCoherent here c = c
Reach-from-IsCoherent (next w s) c = Step-IsCoherent s (Reach-from-IsCoherent w c)

-- From the empty registry, however the locked parts of the calls to `Open` (each with an identifier
-- that is not in use) and the calls to `End` interleave, the two indexes agree: every session is
-- found under its own identifiers, and every harness names one session, which both find.
pub Reach-IsCoherent : {r : Registry} → Reach new_registry r → IsCoherent r
Reach-IsCoherent w = Reach-from-IsCoherent w new_registry-IsCoherent

-- Two clients that open the same harness get the same session, whichever of them commits first and
-- whatever each of them saw before: the second commit finds the session of the first, and changes
-- nothing.
pub commit-commit :
    (r : Registry) (sid sid' h role role' : String) (now now' : ℕ)
    → h ≢ ""
    → let (r', s) = open_commit r sid h role now in open_commit r' sid' h role' now' ≡ (r', s)
unfolding open_commit insert put
commit-commit r sid sid' h role role' now now' n = ground (arith, eq_iff h "", eq_iff h h)

-- After `End` of a live session neither its identifier nor its harness finds it, and every session
-- with another identifier is still found by its identifier and by its harness.
pub get-end :
    (r : Registry) (s : Session) (i : String)
    → IsCoherent r
    → get r i ≡ some s
    → ((end r i).1 ≡ true)
      × (get (end r i).0 i ≡ none)
      × (get_by_harness (end r i).0 s.harness_id ≡ none)
      × ((j : String) (t : Session)
          → j ≢ i
          → get r j ≡ some t
          → (get (end r i).0 j ≡ some t)
            × (t.harness_id ≢ "" → get_by_harness (end r i).0 t.harness_id ≡ some t))
unfolding get get_by_harness end put
get-end r s i c e =
    rw (e, end)
      (
        refl,
        ground (arith, eq_iff i i),
        ground (arith, eq_iff s.harness_id s.harness_id),
        λ j t n f. (
          ground (arith, eq_iff j i),
          λ m. ground (
            arith,
            eq_iff j i,
            eq_iff t.harness_id s.harness_id,
            eq_iff t.harness_id "",
            eq_iff s.harness_id "",
            c.indexed j t f,
            c.indexed i s e,
            c.keyed i s e,
            c.keyed j t f,
          ),
        ),
      )
