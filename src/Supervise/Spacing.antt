-- ===== src/Supervise/Spacing.antt =====
-- The time between two restarts of a process.
use pmmcp.Prelude.{◌≤◌, ◌<◌, ◌≡◌, refl, ◌⊎◌, false, some, List, [], ◌∷◌, arith}
use pmmcp.Prelude.Time.{Time, time_add}
use pmmcp.Supervise.{Floats, next_backoff}
use pmmcp.Supervise.Budget.{restarts, restarts-append}
use pmmcp.Supervise.Loop.{Obs, Config, IdState, counter_of, is_waiting, step, run, down}

module _ (fl : Floats) where
  open fl use {Float}

  -- A restart sets the deadline; a step without one leaves it.
  step-deadline :
      (cfg : Config Float) (now : Time) (o : Obs Float) (s : IdState Float)
      → let (s', acts) = step fl cfg now o s in
        ((restarts acts ≡ 0) × (s'.next_attempt ≡ s.next_attempt))
        ⊎ ((restarts acts ≡ 1)
            × (is_waiting s.next_attempt now ≡ false)
            × (s'.next_attempt
                ≡ some (time_add now (next_backoff fl cfg.policy (counter_of cfg s').count o.rnd))))
  unfolding step down restarts counter_of
  step-deadline cfg now o s = ground arith

  run-deadline :
      (cfg : Config Float) (ticks : List (Time × Obs Float)) (s : IdState Float)
      → restarts (run fl cfg ticks s).1 ≡ 0
      → (run fl cfg ticks s).0.next_attempt ≡ s.next_attempt
  unfolding run
  run-deadline cfg [] s h = refl
  run-deadline cfg ((now, o) ∷ rest) s h =
      let (s', acts) = step fl cfg now o s in
      ground (
        arith,
        run-deadline cfg rest s',
        restarts-append acts (run fl cfg rest s').1,
        step-deadline cfg now o s,
      )

  -- Between a restart of a process and the next one at least the backoff passes that the counter
  -- gives after the first of them, however many ticks without a restart lie between.
  pub restart_spacing :
      (cfg : Config Float) (t t' : Time) (o o' : Obs Float) (quiet : List (Time × Obs Float))
      (s : IdState Float)
      → let s1 = (step fl cfg t o s).0 in
        let s2 = (run fl cfg quiet s1).0 in
        0 < restarts (step fl cfg t o s).1
        → restarts (run fl cfg quiet s1).1 ≡ 0
        → 0 < restarts (step fl cfg t' o' s2).1
        → time_add t (next_backoff fl cfg.policy (counter_of cfg s1).count o.rnd) ≤ t'
  restart_spacing cfg t t' o o' quiet s first between second =
      let s1 = (step fl cfg t o s).0 in
      let s2 = (run fl cfg quiet s1).0 in
      ground (
        arith,
        step-deadline cfg t o s,
        run-deadline cfg quiet s1 between,
        step-deadline cfg t' o' s2,
      )
