-- ===== src/Profile/Reach.antt =====
-- The states that the profile store of internal/profile/profile.go reaches, and the identifiers that
-- a client may give.
use pmmcp.Prelude.{
  String, ◌≡◌, refl, sym, ap, ◌∙◌, ◌≢◌, ◌↔◌, inl, inr, Bool, true, false, not, ◌&&◌, Option, none,
  some, [], ◌∷◌, arith, str_eq, eq_iff, if◌then◌else◌, Bool-cases, Option-cases, put,
}
use pmmcp.Prelude.Runes.{Runes, eq_runes, eq_runes_iff, is_empty}
use pmmcp.Prelude.Result.{ok, err, Result-cases}
use pmmcp.Profile.{
  Profile, Store, new_store, profile_key, put_key, insert, create, rename, set_env, change, update,
  delete, is_valid_name, assigned_id, default_name, stored_env, conflict,
}
use pmmcp.Profile.Keys.{profile_key-injective}
use pmmcp.Profile.Index.{
  IsIndexed, key_of, new_store-IsIndexed, insert-IsIndexed, renamed-IsIndexed, set_env-IsIndexed,
  deleted-IsIndexed,
}

-- What `Create` checked and stored.
record Created (s s' : Store) (p q : Profile) : Type 0 where
  valid : is_valid_name q.name ≡ true
  placed : is_empty q.project_id ≡ false
  free : s.by_key (key_of q) ≡ none
  stored : s' ≡ insert q s
  kept : str_eq p.id "" ≡ false → q.id ≡ p.id

create-Created :
    (done : Bool) (new_id : Option String) (p q : Profile) (s s' : Store)
    → create done new_id p s ≡ ok (s', q)
    → Created s s' p q
unfolding create assigned_id
create-Created done new_id p q s s' h = elim (Result-cases (assigned_id p.id new_id)) [
  | inr (x, fails) ↦ absurd (ground (arith, fails))
  | inl (i, given) ↦
      let name : Runes = if is_empty p.name then default_name else p.name in
      let made : Profile = record {
        id = i;
        name = name;
        project_id = p.project_id;
        env = some (stored_env p.env);
      } in
      let same : made ≡ q = ground (arith, given) in
      let valid : is_valid_name name ≡ true = ground (arith, given) in
      let placed : is_empty p.project_id ≡ false = ground (arith, given) in
      let free : s.by_key (profile_key p.project_id name) ≡ none = ground (arith, given) in
      let stored : s' ≡ insert made s = ground (arith, given) in
      rw (← same) (record {
        valid = valid;
        placed = placed;
        free = free;
        stored = stored;
        kept = λ own. ground (arith, given, own);
      })
]

rename-IsIndexed :
    (cur q : Profile) (name : Runes) (s s' : Store)
    → IsIndexed s
    → s.by_id cur.id ≡ some cur
    → rename cur name s ≡ ok (s', q)
    → IsIndexed s' × (s'.by_id q.id ≡ some q)
unfolding rename
rename-IsIndexed cur q name s s' x here h =
    let free : s.by_key (profile_key cur.project_id name) ≡ none = ground arith in
    let valid : is_valid_name name ≡ true = ground arith in
    let same : record cur { name = name } ≡ q = ground arith in
    let stored : record s {
      by_id = put s.by_id cur.id (some (record cur { name = name }));
      by_key =
          put_key (put_key s.by_key (key_of cur) none) (profile_key cur.project_id name)
            (some cur.id);
    }
        ≡ s' =
      ground arith in
    rw (← same, ← stored)
      (
        renamed-IsIndexed cur name s x here free valid,
        unfold put in ground (arith, eq_iff cur.id cur.id),
      )

change-IsIndexed :
    (p cur q : Profile) (s s' : Store)
    → IsIndexed s
    → s.by_id cur.id ≡ some cur
    → change p cur s ≡ ok (s', q)
    → IsIndexed s'
unfolding change
change-IsIndexed p cur q s s' x here h =
    elim (Bool-cases (not (is_empty p.name) && not (eq_runes p.name cur.name))) [
      | inr same ↦
          let stored : (set_env p.env (s, cur)).0 ≡ s' = ground (arith, same) in
          rw (← stored) (set_env-IsIndexed p.env cur s x here)
      | inl other ↦ elim (Result-cases (rename cur p.name s)) [
        | inr (e, fails) ↦ absurd (ground (arith, other, fails))
        | inl ((s1, c1), made) ↦
            let stored : (set_env p.env (s1, c1)).0 ≡ s' = ground (arith, other, made) in
            let (x1, here1) = rename-IsIndexed cur c1 p.name s s1 x here made in
            rw (← stored) (set_env-IsIndexed p.env c1 s1 x1 here1)
      ]
    ]

update-IsIndexed :
    (done : Bool) (p q : Profile) (s s' : Store)
    → IsIndexed s
    → update done p s ≡ ok (s', q)
    → IsIndexed s'
unfolding update
update-IsIndexed done p q s s' x h = elim (Option-cases (s.by_id p.id)) [
  | inl e ↦ absurd (ground (arith, e))
  | inr (cur, e) ↦
      let changed : change p cur s ≡ ok (s', q) = ground (arith, e) in
      change-IsIndexed p cur q s s' x (ap s.by_id (x.own p.id cur e) ∙ e) changed
]

delete-IsIndexed :
    (done : Bool) (i : String) (s s' : Store) → IsIndexed s → delete done i s ≡ ok s' → IsIndexed s'
unfolding delete
delete-IsIndexed done i s s' x h = elim (Option-cases (s.by_id i)) [
  | inl e ↦ absurd (ground (arith, e))
  | inr (p, e) ↦
      let stored : record s {
        by_key = put_key s.by_key (key_of p) none;
        by_id = put s.by_id i none;
      }
          ≡ s' =
        ground (arith, e) in
      rw (← stored) (deleted-IsIndexed i p s x e)
]

-- The calls that change the store; a `Create` gets an identifier that no profile has.
pub data Step (s : Store) : Store → Type 0 where
  creates :
      {s' : Store} (done : Bool) (new_id : Option String) (p q : Profile)
      → create done new_id p s ≡ ok (s', q)
      → s.by_id q.id ≡ none
      → Step s s'
  updates : {s' : Store} (done : Bool) (p q : Profile) → update done p s ≡ ok (s', q) → Step s s'
  deletes : {s' : Store} (done : Bool) (i : String) → delete done i s ≡ ok s' → Step s s'

pub data Reach (s : Store) : Store → Type 0 where
  here : Reach s s
  next : {t u : Store} → Reach s t → Step t u → Reach s u

Step-IsIndexed : {s t : Store} → Step s t → IsIndexed s → IsIndexed t
Step-IsIndexed {s} {t} (creates done new_id p q h fresh) x =
    let c = create-Created done new_id p q s t h in
    rw c.stored (insert-IsIndexed q s x fresh c.free c.valid c.placed)
Step-IsIndexed {s} {t} (updates done p q h) x = update-IsIndexed done p q s t x h
Step-IsIndexed {s} {t} (deletes done i h) x = delete-IsIndexed done i s t x h

Reach-from-IsIndexed : {s t : Store} → Reach s t → IsIndexed s → IsIndexed t
Reach-from-IsIndexed here x = x
Reach-from-IsIndexed (next w st) x = Step-IsIndexed st (Reach-from-IsIndexed w x)

-- In every store that is reached from the empty one by calls to `Create`, `Update` and `Delete`, of
-- which each `Create` stores under an identifier that is not in use, the two indexes agree: every
-- profile has its own identifier, a valid name and a project, and is the one that its key names;
-- and every key names a profile with that key. So a project has no two profiles of one name.
pub Reach-IsIndexed :
    {s : Store}
    → Reach new_store s
    → IsIndexed s
      × ((i j : String) (p q : Profile)
          → s.by_id i ≡ some p
          → s.by_id j ≡ some q
          → p.project_id ≡ q.project_id
          → p.name ≡ q.name
          → i ≡ j)
Reach-IsIndexed {s} w =
    let x = Reach-from-IsIndexed w new_store-IsIndexed in
    (
      x,
      λ i j p q f g e n.
          let same : key_of p ≡ key_of q = λ t. profile_key (e t) (n t) in
          let left : s.by_key (key_of q) ≡ some i = rw (← same) (x.named i p f) in
          ground (arith, left, x.named j q g),
    )

named-full : (n : Runes) → is_valid_name n ≡ true → is_empty n ≡ false
unfolding is_valid_name
named-full [] v = sym v
named-full (c ∷ n) v = refl

-- With a name and a project given, only the key decides between a conflict and the rest of `Create`.
create-taken :
    (new_id : Option String) (p : Profile) (s : Store) (i : String)
    → is_valid_name p.name ≡ true
    → is_empty p.project_id ≡ false
    → s.by_key (key_of p) ≡ some i
    → create false new_id p s ≡ err conflict
unfolding create
create-taken new_id p s i v n k = ground (arith, named-full p.name v)

create-untaken :
    (new_id : Option String) (p : Profile) (s : Store)
    → is_valid_name p.name ≡ true
    → is_empty p.project_id ≡ false
    → s.by_key (key_of p) ≡ none
    → create false new_id p s ≢ err conflict
unfolding create assigned_id
create-untaken new_id p s v n k h = ground (arith, named-full p.name v)

-- In such a store `Create` answers that the profile is there already exactly if the project has a
-- profile of that name: two different pairs of a project and a name never share a key.
pub create-conflict_iff :
    (new_id : Option String) (p : Profile) (s : Store)
    → IsIndexed s
    → is_valid_name p.name ≡ true
    → is_empty p.project_id ≡ false
    → (create false new_id p s ≡ err conflict) ↔ (
        (i : String) × (q : Profile) × (s.by_id i ≡ some q)
        × (q.project_id ≡ p.project_id)
        × (q.name ≡ p.name))
create-conflict_iff new_id p s x v n = (
  (λ h. elim (Option-cases (s.by_key (key_of p))) [
    | inl free ↦ absurd (create-untaken new_id p s v n free h)
    | inr (i, k) ↦ elim (Option-cases (s.by_id i)) [
      | inl gone ↦ absurd (x.present (key_of p) i k gone)
      | inr (q, e) ↦
          let (project, name) =
            profile_key-injective p.project_id q.project_id p.name q.name v (x.valid i q e)
              (x.keyed (key_of p) i q k e) in
          (i, q, e, sym project, sym name)
    ]
  ]),
  (λ (i, q, e, project, name).
      let same : key_of q ≡ key_of p = λ t. profile_key (project t) (name t) in
      create-taken new_id p s i v n (rw (← same) (x.named i q e))),
)

-- `Create` does not ask whether the identifier that a client gives is in use. With the identifier
-- of a profile of another name or project, it puts the new profile in that one's place and leaves
-- the old key behind; and when the profile is deleted, the old key still names it, so that no
-- profile of the old name can be created in that project again.
pub create-stranded :
    (new_id : Option String) (p q r : Profile) (s s' s'' : Store)
    → IsIndexed s
    → s.by_id p.id ≡ some r
    → str_eq p.id "" ≡ false
    → create false new_id p s ≡ ok (s', q)
    → delete false p.id s' ≡ ok s''
    → (s''.by_id p.id ≡ none)
      × (s''.by_key (key_of r) ≡ some p.id)
      × (create false new_id (record r { id = "" }) s'' ≡ err conflict)
unfolding delete insert put put_key
create-stranded new_id p q r s s' s'' x used own h d =
    let c = create-Created false new_id p q s s' h in
    let same : q.id ≡ p.id = c.kept own in
    let old : s.by_key (key_of r) ≡ some p.id = x.named p.id r used in
    let held : s'.by_id p.id ≡ some q = rw c.stored (ground (arith, same, eq_iff p.id q.id)) in
    let key : s'.by_key (key_of r) ≡ some p.id = rw c.stored (ground (arith, same, old)) in
    let apart : eq_runes (key_of r) (key_of q) ≡ false =
      ground (arith, eq_runes_iff (key_of r) (key_of q), old, c.free) in
    let left : s''.by_key (key_of r) ≡ some p.id = ground (arith, held, key, apart) in
    (
      ground (arith, held, eq_iff p.id p.id),
      left,
      create-taken new_id (record r { id = "" }) s'' p.id (x.valid p.id r used)
          (x.placed p.id r used) left,
    )
