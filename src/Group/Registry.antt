-- ===== src/Group/Registry.antt =====
-- The registry of internal/group/group.go. A group is copied on its way in and out, so values model
-- it. Identifiers are made and checked by internal/id, whose answers are arguments.
use pmmcp.Prelude.{
  String, Bool, not, Option, none, some, List, str_eq, if◌then◌else◌, is_some, GoMap, put,
}
use mathlib.Core.List.{reverse}
use pmmcp.Prelude.Result.{Result, ok, err, ◌>>=◌}
use pmmcp.Group.{
  Group, GroupError, empty_name, create_id_failed, invalid_id, exists_already, not_found,
  start_order,
}

abbrev pub Registry : Type 0
Registry = GoMap (Option Group)

unfoldable pub new_registry : Registry
new_registry = λ _. none

-- The identifier that `Create` stores the group under: its own, if it is a group identifier, or
-- the new one.
unfoldable pub assigned_id : Group → (String → Bool) → Option String → Result GroupError String
assigned_id g is_group_id new_id =
    if str_eq g.id ""
    then elim new_id [ none ↦ err create_id_failed | some gid ↦ ok gid ]
    else if not (is_group_id g.id)
    then err invalid_id
    else ok g.id

-- `Create`; `visit` is the order in which `startOrder` ranges over its map.
unfoldable pub create :
    (String → Bool)
    → Option String
    → List String
    → Group
    → Registry
    → Result GroupError (Registry × Group)
unfolding assigned_id
create is_group_id new_id visit g r = if str_eq g.name "" then err empty_name else do
  gid ← assigned_id g is_group_id new_id
  let stored = record g { id = gid }
  if is_some (r gid)
      then err exists_already
      else do order ← start_order visit g.members; ok (put r gid (some stored), stored)

unfoldable pub get : String → Registry → Result GroupError Group
get group_id r = elim (r group_id) [ none ↦ err not_found | some g ↦ ok g ]

unfoldable pub remove : String → Registry → Result GroupError Registry
remove group_id r = elim (r group_id) [ none ↦ err not_found | some g ↦ ok (put r group_id none) ]

unfoldable pub registry_start_order :
    String → List String → Registry → Result GroupError (List String)
registry_start_order group_id visit r = elim (r group_id) [
  | none ↦ err not_found
  | some g ↦ start_order visit g.members
]

unfoldable pub stop_order : String → List String → Registry → Result GroupError (List String)
unfolding registry_start_order
stop_order group_id visit r = do order ← registry_start_order group_id visit r; ok (reverse order)
