-- ===== src/Profile/Tests.antt =====
-- Runs of internal/profile and the theorems about it at concrete stores.
use pmmcp.Prelude.{String, ◌≡◌, refl, false, none, some, [], put}
use pmmcp.Prelude.Runes.{codes, eq_runes}
use pmmcp.Prelude.Result.{ok, err}
use pmmcp.Profile.{
  Profile, Store, conflict, new_store, create, delete, active, is_valid_name, all_name_chars,
  is_name_char, profile_key, put_key, assigned_id, stored_env, insert,
}
use pmmcp.Profile.Index.{IsIndexed, key_of}
use pmmcp.Profile.Reach.{Reach, here, next, creates, Reach-IsIndexed, create-stranded}

abbrev staging : Profile
staging = record { id = "prof_1"; name = codes "staging"; project_id = codes "shop"; env = none }

abbrev kept : Profile
kept = record staging { env = some [] }

abbrev one : Store
one = insert kept new_store

abbrev production : Profile
production = record kept { name = codes "production" }

select_default : active "ses_1" new_store ≡ codes "default"
unfolding active new_store
select_default = refl

name_upper : is_valid_name (codes "Staging") ≡ false
unfolding is_valid_name codes
name_upper = refl

one-created : create false none staging new_store ≡ ok (one, kept)
unfolding create new_store is_valid_name all_name_chars is_name_char codes assigned_id stored_env
    insert
one-created = refl

one-Reach : Reach new_store one
unfolding new_store
one-Reach = next here (creates false none staging kept one-created refl)

Reach-IsIndexed_example :
    IsIndexed one
    × ((i j : String) (p q : Profile)
        → one.by_id i ≡ some p
        → one.by_id j ≡ some q
        → p.project_id ≡ q.project_id
        → p.name ≡ q.name
        → i ≡ j)
Reach-IsIndexed_example = Reach-IsIndexed one-Reach

abbrev two : Store
two = insert production one

abbrev left : Store
left = record two {
  by_key = put_key two.by_key (key_of production) none;
  by_id = put two.by_id "prof_1" none;
}

create-stranded_example :
    (left.by_id "prof_1" ≡ none)
    × (left.by_key (key_of kept) ≡ some "prof_1")
    × (create false none (record kept { id = "" }) left ≡ err conflict)
unfolding create delete insert new_store is_valid_name all_name_chars is_name_char codes assigned_id
    stored_env put put_key eq_runes profile_key
create-stranded_example =
    create-stranded none production production kept one two left (Reach-IsIndexed one-Reach).0 refl
      refl refl refl
