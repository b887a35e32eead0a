-- ===== src/Group/Tests.antt =====
-- Runs of internal/group and the theorems about it at a concrete group.
use pmmcp.Prelude.{
  ℕ, ◌<◌, String, ◌≡◌, refl, sym, ◌≢◌, inl, inr, Bool, true, none, some, List, [], ◌∷◌, arith,
  str_eq, eq_iff, if◌then◌else◌, Bool-cases, put,
}
use pmmcp.Prelude.Int.{pos}
use pmmcp.Prelude.Result.{ok, err}
use pmmcp.Prelude.Occurs.{occ}
use pmmcp.Group.{
  Member, Group, cycle, start_order, no_tables, read_names, read_edge, read_deps, read_edges, less,
  move_left, sort_from, sort_stable, fill, kahn_init, release_one, release, pop, kahn,
}
use pmmcp.Group.Edges.{names_of, needs}
use pmmcp.Group.Dependencies.{DepsFirst}
use pmmcp.Group.Order.{IsVisit, Ranks, start_order_sound, start_order-ne-cycle}
use pmmcp.Group.Registry.{Registry, new_registry, create, get, registry_start_order, assigned_id}
use pmmcp.Group.Stop.{create-startable}

abbrev member_of : String → List String → Member
member_of name deps = record { name = name; process_id = ""; order = pos 0; depends_on = deps }

abbrev team : List Member
team = member_of "web" ("db" ∷ []) ∷ member_of "db" [] ∷ []

abbrev visit : List String
visit = "web" ∷ "db" ∷ []

team_order : start_order visit team ≡ ok ("db" ∷ "web" ∷ [])
unfolding start_order read_names read_edge read_deps read_edges less move_left sort_from sort_stable
    fill kahn_init release_one release pop kahn no_tables put occ
team_order = refl

cyclic_order :
    start_order visit (member_of "web" ("db" ∷ []) ∷ member_of "db" ("web" ∷ []) ∷ []) ≡ err cycle
unfolding start_order read_names read_edge read_deps read_edges less move_left sort_from sort_stable
    fill kahn_init release_one release pop kahn no_tables put occ
cyclic_order = refl

visit-IsVisit : IsVisit visit team
unfolding occ
visit-IsVisit a = refl

start_order_sound_example :
    ((a : String) → occ a ("db" ∷ "web" ∷ []) ≡ occ a (names_of team))
    × DepsFirst (needs team) [] ("db" ∷ "web" ∷ [])
start_order_sound_example =
    start_order_sound visit team ("db" ∷ "web" ∷ []) visit-IsVisit team_order

abbrev depth : String → ℕ
depth x = if str_eq x "web" then 1 else 0

team-needs : (x d : String) → 0 < occ d (needs team x) → (x ≡ "web") × (d ≡ "db")
unfolding needs occ
team-needs x d h = elim (Bool-cases (str_eq "web" x)) [
  | inr e ↦ absurd (ground (arith, e))
  | inl e ↦ (sym ((eq_iff "web" x).0 e), ground (arith, e, eq_iff d "db"))
]

depth-Ranks : Ranks depth team
depth-Ranks x d h = let (web, db) = team-needs x d h in rw (web, db) (omega arith)

start_order-ne-cycle_example : start_order visit team ≢ err cycle
start_order-ne-cycle_example = start_order-ne-cycle visit team depth visit-IsVisit depth-Ranks

abbrev named : Group
named = record { id = "grp_1"; name = "app"; project_id = ""; members = team }

abbrev stored : Registry
stored = put new_registry "grp_1" (some named)

abbrev any_id : String → Bool
any_id s = true

create-startable_example :
    (new_registry "grp_1" ≡ none)
    × ((j : String) → get j stored ≡ (if str_eq j "grp_1" then ok named else get j new_registry))
    × ((visit' : List String)
        → IsVisit visit' team
        → (out : List String) × (registry_start_order "grp_1" visit' stored ≡ ok out))
unfolding start_order read_names read_edge read_deps read_edges less move_left sort_from sort_stable
    fill kahn_init release_one release pop kahn no_tables put occ create assigned_id new_registry
create-startable_example =
    create-startable any_id none visit named named new_registry stored visit-IsVisit refl
