-- ===== src/Supervise/Budget.antt =====
-- How often `CrashLoop` restarts a process, how often it reports an exhausted budget, and when it
-- does neither.
use pmmcp.Prelude.{
  ℕ, suc, ◌+◌, ◌-◌, ◌*◌, ◌^◌, ◌≤◌, ◌<◌, ◌≡◌, refl, ap, ◌⊎◌, inl, inr, Bool, true, not, ◌&&◌, some,
  List, [], ◌∷◌, ◌++◌, arith, ltb, if◌then◌else◌, Bool-cases,
}
use pmmcp.Prelude.Int.{ℤ, pos, negsuc, pos_part, neg_part, add64, add64-pos}
use pmmcp.Prelude.Time.{Time}
use pmmcp.Supervise.{
  Floats, RestartCounter, should_restart, new_restart_counter, observe_healthy, observe_unhealthy,
  record_restart,
}
use pmmcp.Supervise.Loop.{
  Obs, Action, restart, on_exhausted, Config, IdState, init, counter_of, is_up, is_stopped,
  is_waiting, step, run, down,
}

unfoldable pub restarts : List Action → ℕ
restarts [] = 0
restarts (restart ∷ acts) = suc (restarts acts)
restarts (on_exhausted ∷ acts) = restarts acts

pub restarts-append : (xs ys : List Action) → restarts (xs ++ ys) ≡ restarts xs + restarts ys
unfolding restarts
restarts-append [] ys = omega arith
restarts-append (restart ∷ xs) ys = omega (arith, restarts-append xs ys)
restarts-append (on_exhausted ∷ xs) ys = restarts-append xs ys

-- The restarts that the counter of a process holds.
unfoldable pub held : {F : Type 0} → Config F → IdState F → ℕ
held cfg s = pos_part (counter_of cfg s).count

nat_of : (z : ℤ) → neg_part z ≡ 0 → z ≡ pos (pos_part z)
nat_of (pos n) e = refl
nat_of (negsuc n) e = absurd (omega arith)

add64-one :
    (z : ℤ) → neg_part z ≡ 0 → pos_part z < 2 ^ 63 - 1 → add64 z (pos 1) ≡ pos (suc (pos_part z))
add64-one (pos n) e h = rw (add64-pos n 1 (omega arith)) (ap pos (omega arith))
add64-one (negsuc n) e h = absurd (omega arith)

-- A counter within a budget of m.
pub record IsWithin {F : Type 0} (m : ℕ) (c : RestartCounter F) : Type 0 where
  pub kept : c.policy.max ≡ pos m
  pub natural : neg_part c.count ≡ 0
  pub bounded : pos_part c.count ≤ m

module _ {F : Type 0} (m : ℕ) (c : RestartCounter F) (w : IsWithin m c) where
  healthy-IsWithin :
      (now : Time)
      → IsWithin m (observe_healthy c now)
        × (((observe_healthy c now).count ≡ c.count) ⊎ ((observe_healthy c now).count ≡ pos 0))
  unfolding observe_healthy
  healthy-IsWithin now = ground arith

  unhealthy-IsWithin : (now : Time) → IsWithin m (observe_unhealthy c now)
  unfolding observe_unhealthy
  unhealthy-IsWithin now = record { kept = w.kept; natural = w.natural; bounded = w.bounded }

  restart-IsWithin :
      m < 2 ^ 63
      → 0 < m
      → should_restart c.policy c.count ≡ true
      → IsWithin m (record_restart c) × (pos_part (record_restart c).count ≡ suc (pos_part c.count))
  unfolding should_restart record_restart
  restart-IsWithin small some_budget allowed =
      rw counted (record { kept = w.kept; natural = refl; bounded = below }, refl)
    where
      below : pos_part c.count < m
      below = ground (arith, w.kept, w.natural)

      counted : add64 c.count (pos 1) ≡ pos (suc (pos_part c.count))
      counted = add64-one c.count w.natural (omega (arith, below))

-- A process whose counter, made at the first tick if need be, lies within a budget of m.
abbrev pub IsBudgeted : {F : Type 0} → Config F → ℕ → IdState F → Type 0
IsBudgeted cfg m s = IsWithin m (counter_of cfg s)

init-IsBudgeted :
    {F : Type 0} (cfg : Config F) (m : ℕ) → cfg.policy.max ≡ pos m → IsBudgeted cfg m (init {F = F})
unfolding init counter_of new_restart_counter
init-IsBudgeted cfg m e = record { kept = e; natural = refl; bounded = omega arith }

module _ (fl : Floats) where
  open fl use {Float}

  -- The ticks of a run at which the counter falls.
  unfoldable pub resets : Config Float → List (Time × Obs Float) → IdState Float → ℕ
  resets cfg [] s = 0
  resets cfg ((now, o) ∷ rest) s =
      let s' = (step fl cfg now o s).0 in
      let n = resets cfg rest s' in if ltb (held cfg s') (held cfg s) then suc n else n

  record StepKeeps (cfg : Config Float) (m : ℕ) (s s' : IdState Float) (acts : List Action)
      : Type 0 where
    within : IsBudgeted cfg m s'
    moved : (restarts acts + held cfg s ≡ held cfg s') ⊎ ((held cfg s' ≡ 0) × (restarts acts ≡ 0))

  counter-StepKeeps :
      (cfg : Config Float) (m : ℕ) (s s' : IdState Float) (c : RestartCounter Float)
      (acts : List Action)
      → s'.counter ≡ some c
      → IsWithin m c
      → (restarts acts + held cfg s ≡ pos_part c.count)
        ⊎ ((pos_part c.count ≡ 0) × (restarts acts ≡ 0))
      → StepKeeps cfg m s s' acts
  unfolding held
  counter-StepKeeps cfg m s s' c acts e w h = record { within = rw same w; moved = rw same h }
    where
      same : counter_of cfg s' ≡ c
      same = unfold counter_of in rw e

  notices_only : (b : Bool) → restarts (if b then on_exhausted ∷ [] else []) ≡ 0
  unfolding restarts
  notices_only b = ground arith

  down-StepKeeps :
      (cfg : Config Float) (m : ℕ) (now : Time) (o : Obs Float) (s : IdState Float)
      (c : RestartCounter Float)
      → 0 < m
      → m < 2 ^ 63
      → pos_part c.count ≡ held cfg s
      → IsWithin m c
      → StepKeeps cfg m s (down fl cfg now o c s).0 (down fl cfg now o c s).1
  unfolding down
  down-StepKeeps cfg m now o s c lo hi e w = elim (Bool-cases (should_restart c.policy c.count)) [
    | inr spent ↦
        rw (spent, down)
          (counter-StepKeeps cfg m s _ c _ refl w
            (inl (omega (arith, notices_only (not s.exhausted && cfg.has_on_exhausted)))))
    | inl allowed ↦ elim (Bool-cases (is_waiting s.next_attempt now)) [
      | inl waits ↦
          rw (allowed, waits, down)
            (counter-StepKeeps cfg m s _ c _ refl w (inl (unfold restarts in omega arith)))
      | inr due ↦
          let (w', grown) = restart-IsWithin m c w hi lo allowed in
          rw (allowed, due, down)
            (counter-StepKeeps cfg m s _ (record_restart c) _ refl w'
              (inl (unfold restarts in omega arith)))
    ]
  ]

  step-StepKeeps :
      (cfg : Config Float) (m : ℕ) (now : Time) (o : Obs Float) (s : IdState Float)
      → 0 < m
      → m < 2 ^ 63
      → IsBudgeted cfg m s
      → StepKeeps cfg m s (step fl cfg now o s).0 (step fl cfg now o s).1
  unfolding step held restarts observe_unhealthy
  step-StepKeeps cfg m now o s lo hi w =
      let c = counter_of cfg s in
      let (h, moved) = healthy-IsWithin m c w now in
      elim (Bool-cases (is_up o)) [
        | inl running ↦
            rw (running, step)
              (counter-StepKeeps cfg m s _ (observe_healthy c now) [] refl h (ground arith))
        | inr fails ↦ elim (Bool-cases (is_stopped o)) [
          | inl stopped ↦
              rw (fails, stopped, step)
                (counter-StepKeeps cfg m s _ c [] refl w (inl (omega arith)))
          | inr wanted ↦
              rw (fails, wanted, step)
                (down-StepKeeps cfg m now o s (observe_unhealthy c now) lo hi refl
                  (unhealthy-IsWithin m c w now))
        ]
      ]

  run-budget :
      (cfg : Config Float) (m : ℕ) (ticks : List (Time × Obs Float)) (s : IdState Float)
      → 0 < m
      → m < 2 ^ 63
      → IsBudgeted cfg m s
      → restarts (run fl cfg ticks s).1 + held cfg s ≤ m * (1 + resets cfg ticks s)
  unfolding run resets
  run-budget cfg m [] s lo hi w = unfold restarts held in omega (arith, w.bounded)
  run-budget cfg m ((now, o) ∷ rest) s lo hi w =
      let (s', acts) = step fl cfg now o s in
      let k = step-StepKeeps cfg m now o s lo hi w in
      let later = run-budget cfg m rest s' lo hi k.within in
      let small : held cfg s ≤ m = unfold held in w.bounded in
      ground (arith, later, restarts-append acts (run fl cfg rest s').1, k.moved, small)

  -- With a positive budget `Max`, a process is restarted at most `Max` times, and `Max` times more
  -- for each tick at which its counter falls: whatever the callbacks answer, and however often the
  -- restarts themselves fail.
  pub restart_budget :
      (cfg : Config Float) (m : ℕ) (ticks : List (Time × Obs Float))
      → cfg.policy.max ≡ pos m
      → 0 < m
      → m < 2 ^ 63
      → restarts (run fl cfg ticks init).1 ≤ m * (1 + resets cfg ticks init)
  restart_budget cfg m ticks e lo hi =
      omega (arith, run-budget cfg m ticks init lo hi (init-IsBudgeted cfg m e))
