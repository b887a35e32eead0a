-- ===== src/Supervise/Loop.antt =====
-- internal/supervise/loop.go: `CrashLoop`. One step is one process at one tick; what the callbacks
-- answer at that tick, and the random number that a backoff draws, are the step's observation.
use pmmcp.Prelude.{
  String, Bool, true, false, not, ◌&&◌, Option, none, some, List, [], ◌∷◌, ◌++◌, map, str_eq, ltb,
  if◌then◌else◌, GoMap, put,
}
use pmmcp.Prelude.Int.{ℤ, pos, leb_ℤ}
use pmmcp.Prelude.Time.{Time, time_add}
use pmmcp.Supervise.{
  Floats, RestartPolicy, RestartCounter, should_restart, new_restart_counter, observe_healthy,
  observe_unhealthy, record_restart, next_backoff,
}

-- What `Monitor` and `Desired` report for a process; `none` stands for no `Desired` callback.
pub record Obs (F : Type 0) : Type 0 where
  pub running : Bool
  pub healthy : Bool
  pub failed : Bool
  pub desired : Option String
  pub rnd : F

-- The calls that a step makes.
pub data Action : Type 0 where
  restart : Action
  on_exhausted : Action

pub record Config (F : Type 0) : Type 0 where
  pub policy : RestartPolicy F
  pub has_on_exhausted : Bool

-- The entries of one process in the three maps of the loop.
pub record IdState (F : Type 0) : Type 0 where
  pub counter : Option (RestartCounter F)
  pub next_attempt : Option Time
  pub exhausted : Bool

unfoldable pub init : {F : Type 0} → IdState F
init = record { counter = none; next_attempt = none; exhausted = false }

unfoldable pub counter_of : {F : Type 0} → Config F → IdState F → RestartCounter F
counter_of cfg s = elim s.counter [ none ↦ new_restart_counter cfg.policy | some c ↦ c ]

abbrev pub is_up : {F : Type 0} → Obs F → Bool
is_up o = not o.failed && (o.running && o.healthy)

-- The gate of an intentional stop.
abbrev pub is_stopped : {F : Type 0} → Obs F → Bool
is_stopped o = elim o.desired [ none ↦ false | some d ↦ not (str_eq d "running") ]

abbrev pub is_waiting : Option Time → Time → Bool
is_waiting none now = false
is_waiting (some deadline) now = ltb now deadline

module _ (fl : Floats) where
  open fl use {Float}

  attempt : Config Float → Time → Obs Float → RestartCounter Float → IdState Float → IdState Float
  attempt cfg now o c s =
      let c' = record_restart c in
      record s {
        counter = some c';
        next_attempt = some (time_add now (next_backoff fl cfg.policy c'.count o.rnd));
      }

  give_up : Config Float → RestartCounter Float → IdState Float → IdState Float × List Action
  give_up cfg c s = (
    record s { counter = some c; exhausted = true },
    if not s.exhausted && cfg.has_on_exhausted then on_exhausted ∷ [] else [],
  )

  -- What a tick does with a process that is not up and not stopped on purpose.
  unfoldable pub down :
      Config Float
      → Time
      → Obs Float
      → RestartCounter Float
      → IdState Float
      → IdState Float × List Action
  unfolding attempt give_up
  down cfg now o c s =
      if not (should_restart c.policy c.count)
      then give_up cfg c s
      else if is_waiting s.next_attempt now
      then (record s { counter = some c }, [])
      else (attempt cfg now o c s, restart ∷ [])

  up : Time → RestartCounter Float → IdState Float → IdState Float
  up now c s =
      let c' = observe_healthy c now in
      record s {
        counter = some c';
        exhausted = if leb_ℤ c'.count (pos 0) && leb_ℤ (pos 0) c'.count then false else s.exhausted;
      }

  unfoldable pub step :
      Config Float → Time → Obs Float → IdState Float → IdState Float × List Action
  unfolding down up
  step cfg now o s =
      let c = counter_of cfg s in
      if is_up o
      then (up now c s, [])
      else if is_stopped o
      then (record s { counter = some c }, [])
      else down cfg now o (observe_unhealthy c now) s

  -- One tick: every process of the list in turn.
  unfoldable pub tick :
      Config Float
      → Time
      → List (String × Obs Float)
      → GoMap (IdState Float)
      → GoMap (IdState Float) × List (String × Action)
  tick cfg now [] m = (m, [])
  tick cfg now ((id, o) ∷ rest) m =
      let (s, acts) = step cfg now o (m id) in
      let (m', more) = tick cfg now rest (put m id s) in (m', map (λ a. (id, a)) acts ++ more)

  -- The ticks of one process in order.
  unfoldable pub run :
      Config Float → List (Time × Obs Float) → IdState Float → IdState Float × List Action
  run cfg [] s = (s, [])
  run cfg ((now, o) ∷ rest) s =
      let (s', acts) = step cfg now o s in let (s'', more) = run cfg rest s' in (s'', acts ++ more)

-- `MapStatus` and `MapStatusExit`.
unfoldable pub map_status : Bool → Bool → String
map_status running healthy =
    if not running then "exited" else if not healthy then "unhealthy" else "running"

unfoldable pub map_status_exit : Bool → Bool → Option ℤ → String
map_status_exit running healthy exit_code =
    if running then if not healthy then "unhealthy" else "running" else elim exit_code [
      | none ↦ "exited"
      | some code ↦ if leb_ℤ code (pos 0) && leb_ℤ (pos 0) code then "exited" else "crashed"
    ]

-- `EligibleForRelaunch`: whether a stored process is started when the daemon boots. The policy is
-- not asked.
unfoldable pub eligible_for_relaunch : {F : Type 0} → String → RestartPolicy F → Bool
eligible_for_relaunch desired policy = if not (str_eq desired "running") then false else true
