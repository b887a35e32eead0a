-- ===== src/Session.antt =====
-- internal/session/session.go: the registry of client sessions. A session record is never changed
-- after it is made, so the pointers that the two maps share are modelled by values.
pub mod Coherence
mod Tests
use pmmcp.Prelude.{
  ℕ, String, Bool, true, false, Option, none, some, str_eq, if◌then◌else◌, GoMap, put,
}

pub record Session : Type 0 where
  pub id : String
  pub harness_id : String
  pub role : String
  pub created_at : ℕ
  pub ended_at : Option ℕ

pub record Registry : Type 0 where
  pub by_id : GoMap (Option Session)
  pub by_harness : GoMap (Option Session)

unfoldable pub new_registry : Registry
new_registry = record { by_id = λ _. none; by_harness = λ _. none }

unfoldable pub get : Registry → String → Option Session
get r internal_id = r.by_id internal_id

unfoldable pub get_by_harness : Registry → String → Option Session
get_by_harness r harness_id = if str_eq harness_id "" then none else r.by_harness harness_id

-- The part of `Open` before the identifier is made: the session of that harness, if one is live.
unfoldable pub open_probe : Registry → String → Option Session
open_probe r harness_id = if str_eq harness_id "" then none else r.by_harness harness_id

unfoldable pub new_session : String → String → String → ℕ → Session
new_session sid harness_id role now = record {
  id = sid;
  harness_id = harness_id;
  role = role;
  created_at = now;
  ended_at = none;
}

unfoldable pub insert : Registry → Session → Registry
insert r s = record {
  by_id = put r.by_id s.id (some s);
  by_harness =
      if str_eq s.harness_id "" then r.by_harness else put r.by_harness s.harness_id (some s);
}

-- The part of `Open` after the identifier is made, under the lock taken anew: the second look at
-- the harness map, then the insertion. Other calls may have run since `open_probe`.
unfoldable pub open_commit : Registry → String → String → String → ℕ → Registry × Session
unfolding open_probe new_session
open_commit r sid harness_id role now = elim (open_probe r harness_id) [
  | some existing ↦ (r, existing)
  | none ↦ let s = new_session sid harness_id role now in (insert r s, s)
]

-- `Open` with nothing between its two parts; `new_id` is the result of the identifier generator.
unfoldable pub open_session :
    Registry → Option String → String → String → ℕ → Registry × Option Session
unfolding open_probe open_commit
open_session r new_id harness_id role now = elim (open_probe r harness_id) [
  | some existing ↦ (r, some existing)
  | none ↦ elim new_id [
    | none ↦ (r, none)
    | some sid ↦ let (r', s) = open_commit r sid harness_id role now in (r', some s)
  ]
]

remove : GoMap (Option Session) → String → GoMap (Option Session)
remove m k = put m k none

-- The registry after `End`, and whether the session existed.
unfoldable pub end : Registry → String → Registry × Bool
unfolding remove
end r internal_id = elim (r.by_id internal_id) [
  | none ↦ (r, false)
  | some s ↦ (
    record {
      by_id = remove r.by_id internal_id;
      by_harness =
          if str_eq s.harness_id "" then r.by_harness else remove r.by_harness s.harness_id;
    },
    true,
  )
]

unfoldable pub primary_id : Session → String
primary_id s = if str_eq s.harness_id "" then s.id else s.harness_id
