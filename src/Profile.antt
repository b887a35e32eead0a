-- ===== src/Profile.antt =====
-- internal/profile/profile.go: the store of workspace profiles, and the profile that each session
-- uses. A profile is copied on its way in and out, so values model it.
pub mod Keys
pub mod Index
pub mod Reach
mod Tests
use pmmcp.Prelude.{
  ℕ, String, Bool, true, false, not, ◌&&◌, ◌||◌, Option, none, some, List, [], ◌∷◌, ◌++◌, str_eq,
  leb, ◌==◌, if◌then◌else◌, is_some, length, GoMap, put,
}
use pmmcp.Prelude.Runes.{Runes, codes, eq_runes, is_empty}
use pmmcp.Prelude.Result.{Result, ok, err, ◌>>=◌}

abbrev pub Env : Type 0
Env = List (String × String)

-- `env` is `none` for the nil map.
pub record Profile : Type 0 where
  pub id : String
  pub name : Runes
  pub project_id : Runes
  pub env : Option Env

pub data ProfileError : Type 0 where
  cancelled invalid_name project_required conflict create_id_failed not_found : ProfileError
  id_required project_immutable session_required : ProfileError

pub record Store : Type 0 where
  pub by_id : GoMap (Option Profile)
  pub by_key : Runes → Option String
  pub session_use : GoMap (Option Runes)

unfoldable pub new_store : Store
new_store = record { by_id = λ _. none; by_key = λ _. none; session_use = λ _. none }

abbrev pub default_name : Runes
default_name = codes "default"

-- One character of `[a-z0-9_-]`.
unfoldable pub is_name_char : ℕ → Bool
is_name_char c =
    (leb b'a' c && leb c b'z') || ((leb b'0' c && leb c b'9') || (c == b'_' || c == b'-'))

unfoldable pub all_name_chars : Runes → Bool
all_name_chars [] = true
all_name_chars (c ∷ cs) = is_name_char c && all_name_chars cs

-- `nameRe`: ^[a-z][a-z0-9_-]{0,63}$
unfoldable pub is_valid_name : Runes → Bool
is_valid_name [] = false
is_valid_name (c ∷ cs) = (leb b'a' c && leb c b'z') && (leb (length cs) 63 && all_name_chars cs)

unfoldable pub profile_key : Runes → Runes → Runes
profile_key project_id name = project_id ++ 0 ∷ name

unfoldable pub put_key : (Runes → Option String) → Runes → Option String → Runes → Option String
put_key m k v j = if eq_runes j k then v else m j

-- The identifier that a profile is stored under: its own, or the new one.
unfoldable pub assigned_id : String → Option String → Result ProfileError String
assigned_id given new_id =
    if str_eq given ""
    then elim new_id [ none ↦ err create_id_failed | some i ↦ ok i ]
    else ok given

unfoldable pub stored_env : Option Env → Env
stored_env none = []
stored_env (some e) = e

unfoldable pub insert : Profile → Store → Store
insert p s = record s {
  by_id = put s.by_id p.id (some p);
  by_key = put_key s.by_key (profile_key p.project_id p.name) (some p.id);
}

-- `done` says whether the context is over.
unfoldable pub create :
    Bool → Option String → Profile → Store → Result ProfileError (Store × Profile)
create done new_id p s =
    let name = if is_empty p.name then default_name else p.name in
    if done
    then err cancelled
    else if not (is_valid_name name)
    then err invalid_name
    else if is_empty p.project_id
    then err project_required
    else if is_some (s.by_key (profile_key p.project_id name))
    then err conflict
    else do
      i ← assigned_id p.id new_id
      let stored : Profile = record {
        id = i;
        name = name;
        project_id = p.project_id;
        env = some (stored_env p.env);
      }
      ok (insert stored s, stored)

unfoldable pub get : Bool → String → Store → Result ProfileError Profile
get done i s =
    if done then err cancelled else elim (s.by_id i) [ none ↦ err not_found | some p ↦ ok p ]

-- The profile `cur` under its new name, in both maps.
unfoldable pub rename : Profile → Runes → Store → Result ProfileError (Store × Profile)
rename cur name s =
    let new_key = profile_key cur.project_id name in
    let renamed = record cur { name = name } in
    if not (is_valid_name name)
    then err invalid_name
    else if is_some (s.by_key new_key)
    then err conflict
    else ok (
      record s {
        by_id = put s.by_id cur.id (some renamed);
        by_key =
            put_key (put_key s.by_key (profile_key cur.project_id cur.name) none) new_key
              (some cur.id);
      },
      renamed,
    )

unfoldable pub set_env : Option Env → Store × Profile → Store × Profile
set_env none (s, cur) = (s, cur)
set_env (some e) (s, cur) =
    let cur' = record cur { env = some e } in
    (record s { by_id = put s.by_id cur.id (some cur') }, cur')

-- The change to the profile `cur` that `Update` finds under the identifier of `p`.
unfoldable pub change : Profile → Profile → Store → Result ProfileError (Store × Profile)
change p cur s =
    if not (is_empty p.project_id) && not (eq_runes p.project_id cur.project_id)
    then err project_immutable
    else if not (is_empty p.name) && not (eq_runes p.name cur.name)
    then rename cur p.name s >>= (λ r. ok (set_env p.env r))
    else ok (set_env p.env (s, cur))

unfoldable pub update : Bool → Profile → Store → Result ProfileError (Store × Profile)
update done p s =
    if done
    then err cancelled
    else if str_eq p.id ""
    then err id_required
    else elim (s.by_id p.id) [ none ↦ err not_found | some cur ↦ change p cur s ]

unfoldable pub delete : Bool → String → Store → Result ProfileError Store
delete done i s = if done then err cancelled else elim (s.by_id i) [
  | none ↦ err not_found
  | some p ↦ ok (record s {
    by_key = put_key s.by_key (profile_key p.project_id p.name) none;
    by_id = put s.by_id i none;
  })
]

-- `Use`: the profile name of a session.
unfoldable pub select : Bool → String → Runes → Store → Result ProfileError Store
select done session name s =
    let name' = if is_empty name then default_name else name in
    if done
    then err cancelled
    else if str_eq session ""
    then err session_required
    else if not (is_valid_name name')
    then err invalid_name
    else ok (record s { session_use = put s.session_use session (some name') })

unfoldable pub active : String → Store → Runes
active session s = elim (s.session_use session) [ none ↦ default_name | some name ↦ name ]

unfoldable pub remove_session : String → Store → Store
remove_session session s = record s { session_use = put s.session_use session none }
