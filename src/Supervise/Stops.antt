-- ===== src/Supervise/Stops.antt =====
-- Intentional stops, and the healthy time that they add.
use pmmcp.Prelude.{
  ℕ, ◌+◌, ◌-◌, ◌^◌, ◌≤◌, ◌<◌, ◌≡◌, refl, true, false, some, List, [], ◌∷◌, arith, All,
}
use pmmcp.Prelude.Int.{pos, add64, add64-pos}
use pmmcp.Prelude.Time.{Time, time_sub}
use pmmcp.Supervise.{Floats, RestartCounter, observe_healthy, healthy_delta}
use pmmcp.Supervise.Loop.{Obs, Config, IdState, counter_of, is_up, is_stopped, step, run}

module _ (fl : Floats) where
  open fl use {Float}

  -- At every tick the process is down, and `Desired` says that it was stopped on purpose.
  abbrev pub AllStopped : List (Time × Obs Float) → Type 0
  AllStopped = All (λ t. (is_up t.1 ≡ false) × (is_stopped t.1 ≡ true))

  -- While a process is stopped on purpose, the loop neither restarts it nor reports it, and leaves
  -- its counter, its deadline and its mark as they are.
  pub run_stopped :
      (cfg : Config Float) (ticks : List (Time × Obs Float)) (s : IdState Float)
      (c : RestartCounter Float)
      → AllStopped ticks
      → s.counter ≡ some c
      → run fl cfg ticks s ≡ (s, [])
  unfolding run
  run_stopped cfg [] s c h e = refl
  run_stopped cfg ((now, o) ∷ rest) s c h e = rw same (rw (run_stopped cfg rest s c h.1 e) refl)
    where
      same : step fl cfg now o s ≡ (s, [])
      same = unfold step counter_of in ground arith

  -- Because the counter is left as it is, the time that a process was stopped on purpose counts as
  -- healthy time: if it was healthy at `t0`, then stopped, and is healthy again at `t`, its
  -- restarts are forgotten as soon as the stable window has passed since `t0`.
  pub stopped_time_credited :
      (cfg : Config Float) (ticks : List (Time × Obs Float)) (s : IdState Float)
      (c : RestartCounter Float) (t : Time) (o : Obs Float) (h w : ℕ)
      → s.counter ≡ some c
      → c.initialized ≡ true
      → c.healthy_for ≡ pos h
      → c.policy.stable_window ≡ pos w
      → AllStopped ticks
      → is_up o ≡ true
      → c.last_tick + w ≤ t
      → h + (t - c.last_tick) < 2 ^ 63
      → (counter_of cfg (step fl cfg t o (run fl cfg ticks s).0).0).count ≡ pos 0
  stopped_time_credited cfg ticks s c t o h w e i f g stopped running late small =
      rw (run_stopped cfg ticks s c stopped e) (unfold step counter_of in rw (e, running) forgotten)
    where
      gap : healthy_delta t c.last_tick ≡ pos (t - c.last_tick)
      gap = unfold healthy_delta time_sub in ground arith

      total : add64 c.healthy_for (healthy_delta t c.last_tick) ≡ pos (h + (t - c.last_tick))
      total = rw (f, gap) (add64-pos h (t - c.last_tick) small)

      forgotten : (observe_healthy c t).count ≡ pos 0
      forgotten = unfold observe_healthy in rw total (ground arith)
