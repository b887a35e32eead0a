-- ===== src/Profile/Index.antt =====
-- The two indexes of the profile store in internal/profile/profile.go, and what a client can take
-- from them.
use pmmcp.Prelude.{String, ◌≡◌, ◌≢◌, true, false, Option, none, some, arith, eq_iff, put}
use pmmcp.Prelude.Runes.{Runes, eq_runes_iff, is_empty}
use pmmcp.Profile.{
  Profile, Env, Store, new_store, profile_key, put_key, insert, set_env, is_valid_name,
}

abbrev pub key_of : Profile → Runes
key_of p = profile_key p.project_id p.name

-- Every profile is stored under its own identifier, with a valid name and a project, and its key
-- names it; every key names a profile that has this key.
pub record IsIndexed (s : Store) : Type 0 where
  pub own : (i : String) (p : Profile) → s.by_id i ≡ some p → p.id ≡ i
  pub valid : (i : String) (p : Profile) → s.by_id i ≡ some p → is_valid_name p.name ≡ true
  pub placed : (i : String) (p : Profile) → s.by_id i ≡ some p → is_empty p.project_id ≡ false
  pub named : (i : String) (p : Profile) → s.by_id i ≡ some p → s.by_key (key_of p) ≡ some i
  pub present : (k : Runes) (i : String) → s.by_key k ≡ some i → s.by_id i ≢ none
  pub keyed :
      (k : Runes) (i : String) (p : Profile)
      → s.by_key k ≡ some i
      → s.by_id i ≡ some p
      → k ≡ key_of p

pub new_store-IsIndexed : IsIndexed new_store
unfolding new_store
new_store-IsIndexed = record {
  own = λ i p e. cc;
  valid = λ i p e. cc;
  placed = λ i p e. cc;
  named = λ i p e. cc;
  present = λ k i e. cc;
  keyed = λ k i p e f. cc;
}

pub insert-IsIndexed :
    (p : Profile) (s : Store)
    → IsIndexed s
    → s.by_id p.id ≡ none
    → s.by_key (key_of p) ≡ none
    → is_valid_name p.name ≡ true
    → is_empty p.project_id ≡ false
    → IsIndexed (insert p s)
unfolding insert put put_key
insert-IsIndexed p s x new free v n = record {
  own = λ i q e. ground (arith, eq_iff i p.id, x.own i q);
  valid = λ i q e. ground (arith, eq_iff i p.id, x.valid i q);
  placed = λ i q e. ground (arith, eq_iff i p.id, x.placed i q);
  named = λ i q e. ground (arith, eq_iff i p.id, x.named i q, eq_runes_iff (key_of q) (key_of p));
  present = λ k i e. ground (arith, eq_iff i p.id, eq_runes_iff k (key_of p), x.present k i);
  keyed = λ k i q e f.
      ground (arith, eq_iff i p.id, eq_runes_iff k (key_of p), x.keyed k i q, x.present k i);
}

-- The profile at an identifier, with another name that is free.
pub renamed-IsIndexed :
    (cur : Profile) (name : Runes) (s : Store)
    → IsIndexed s
    → s.by_id cur.id ≡ some cur
    → s.by_key (profile_key cur.project_id name) ≡ none
    → is_valid_name name ≡ true
    → IsIndexed (record s {
      by_id = put s.by_id cur.id (some (record cur { name = name }));
      by_key =
          put_key
            (put_key s.by_key (key_of cur) none)
            (profile_key cur.project_id name)
            (some cur.id);
    })
unfolding put put_key
renamed-IsIndexed cur name s x here free v =
    let fresh = profile_key cur.project_id name in
    record {
      own = λ i q e. ground (arith, eq_iff i cur.id, x.own i q);
      valid = λ i q e. ground (arith, eq_iff i cur.id, x.valid i q);
      placed = λ i q e. ground (arith, eq_iff i cur.id, x.placed i q, x.placed cur.id cur);
      named = λ i q e. ground (
        arith,
        eq_iff i cur.id,
        x.named i q,
        x.named cur.id cur,
        eq_runes_iff (key_of q) fresh,
        eq_runes_iff (key_of q) (key_of cur),
        eq_runes_iff fresh fresh,
      );
      present = λ k i e. ground (
        arith,
        eq_iff i cur.id,
        eq_runes_iff k fresh,
        eq_runes_iff k (key_of cur),
        x.present k i,
      );
      keyed = λ k i q e f. ground (
        arith,
        eq_iff i cur.id,
        eq_runes_iff k fresh,
        eq_runes_iff k (key_of cur),
        x.keyed k i q,
        x.keyed k i cur,
        x.present k i,
      );
    }

pub set_env-IsIndexed :
    (env : Option Env) (cur : Profile) (s : Store)
    → IsIndexed s
    → s.by_id cur.id ≡ some cur
    → IsIndexed (set_env env (s, cur)).0
unfolding set_env put
set_env-IsIndexed none cur s x here = x
set_env-IsIndexed (some e) cur s x here = record {
  own = λ i q h. ground (arith, eq_iff i cur.id, x.own i q);
  valid = λ i q h. ground (arith, eq_iff i cur.id, x.valid i q, x.valid cur.id cur);
  placed = λ i q h. ground (arith, eq_iff i cur.id, x.placed i q, x.placed cur.id cur);
  named = λ i q h. ground (arith, eq_iff i cur.id, x.named i q, x.named cur.id cur);
  present = λ k i h. ground (arith, eq_iff i cur.id, x.present k i);
  keyed = λ k i q h f. ground (arith, eq_iff i cur.id, x.keyed k i q, x.keyed k i cur);
}

pub deleted-IsIndexed :
    (i : String) (p : Profile) (s : Store)
    → IsIndexed s
    → s.by_id i ≡ some p
    → IsIndexed (record s { by_key = put_key s.by_key (key_of p) none; by_id = put s.by_id i none })
unfolding put put_key
deleted-IsIndexed i p s x here = record {
  own = λ j q h. ground (arith, eq_iff j i, x.own j q);
  valid = λ j q h. ground (arith, eq_iff j i, x.valid j q);
  placed = λ j q h. ground (arith, eq_iff j i, x.placed j q);
  named = λ j q h.
      ground (arith, eq_iff j i, x.named j q, x.named i p, eq_runes_iff (key_of q) (key_of p));
  present =
      λ k j h. ground (arith, eq_iff j i, eq_runes_iff k (key_of p), x.present k j, x.keyed k j p);
  keyed = λ k j q h f. ground (arith, eq_iff j i, eq_runes_iff k (key_of p), x.keyed k j q);
}
