-- ===== src/Supervise.antt =====
-- internal/supervise/supervise.go: the restart policy, its backoff schedule and the counter of
-- restarts. `float64` is a parameter: the library has no floats.
pub mod Loop
pub mod Backoff
pub mod Budget
pub mod Spacing
pub mod Notices
pub mod Isolation
pub mod Stops
pub mod Probe
pub mod Health
mod Tests
use pmmcp.Prelude.{ℕ, zero, suc, Bool, true, false, not, ◌&&◌, if◌then◌else◌}
use pmmcp.Prelude.Int.{ℤ, pos, negsuc, ltb_ℤ, leb_ℤ, add64, mul64}
use pmmcp.Prelude.Time.{Time, time_sub}

-- `float64` and the operations on it that the schedule uses. `ltf` and `lef` are Go's `<` and `<=`.
pub record Floats : Type 1 where
  pub Float : Type 0
  pub of_int : ℤ → Float
  pub to_int : Float → ℤ
  pub ltf : Float → Float → Bool
  pub lef : Float → Float → Bool
  pub mulf : Float → Float → Float
  pub addf : Float → Float → Float
  pub subf : Float → Float → Float

pub record RestartPolicy (F : Type 0) : Type 0 where
  pub enabled : Bool
  pub max : ℤ
  pub backoff : ℤ
  pub stable_window : ℤ
  pub multiplier : F
  pub max_backoff : ℤ
  pub jitter : F

pub record RestartCounter (F : Type 0) : Type 0 where
  pub policy : RestartPolicy F
  pub count : ℤ
  pub healthy_for : ℤ
  pub last_tick : Time
  pub initialized : Bool

unfoldable pub should_restart : {F : Type 0} → RestartPolicy F → ℤ → Bool
should_restart policy restarts =
    if not policy.enabled
    then false
    else if ltb_ℤ restarts (pos 0)
    then false
    else if leb_ℤ policy.max (pos 0)
    then true
    else ltb_ℤ restarts policy.max

-- `NewRestartCounter`: a window that is not positive is 30 seconds.
unfoldable pub new_restart_counter : {F : Type 0} → RestartPolicy F → RestartCounter F
new_restart_counter policy = record {
  policy = record policy {
    stable_window =
        if leb_ℤ policy.stable_window (pos 0) then pos 30000000000 else policy.stable_window;
  };
  count = pos 0;
  healthy_for = pos 0;
  last_tick = 0;
  initialized = false;
}

-- The time since the last tick, not below 0.
unfoldable pub healthy_delta : Time → Time → ℤ
healthy_delta now last = let d = time_sub now last in if ltb_ℤ d (pos 0) then pos 0 else d

unfoldable pub observe_healthy : {F : Type 0} → RestartCounter F → Time → RestartCounter F
observe_healthy c now =
    let healthy = add64 c.healthy_for (healthy_delta now c.last_tick) in
    if not c.initialized
    then record c { last_tick = now; initialized = true }
    else if leb_ℤ c.policy.stable_window healthy
    then record c { last_tick = now; count = pos 0; healthy_for = pos 0 }
    else record c { last_tick = now; healthy_for = healthy }

unfoldable pub observe_unhealthy : {F : Type 0} → RestartCounter F → Time → RestartCounter F
observe_unhealthy c now = record c { healthy_for = pos 0; last_tick = now; initialized = false }

unfoldable pub record_restart : {F : Type 0} → RestartCounter F → RestartCounter F
record_restart c = record c {
  count = add64 c.count (pos 1);
  healthy_for = pos 0;
  initialized = false;
}

module _ (fl : Floats) where
  open fl use {Float, of_int, to_int, ltf, lef, mulf, addf, subf}

  -- `for range n` of the exponential schedule, with its early `break` at the cap.
  unfoldable pub grow : RestartPolicy Float → Float → ℕ → Float → Float
  grow policy mult zero d = d
  grow policy mult (suc n) d =
      let d' = mulf d mult in
      let capped = of_int policy.max_backoff in
      let rest = grow policy mult n d' in
      if ltb_ℤ (pos 0) policy.max_backoff && lef capped d' then capped else rest

  -- The schedule before the jitter.
  unfoldable pub exponential : RestartPolicy Float → ℕ → Float
  exponential policy n =
      let one = of_int (pos 1) in
      let mult = if ltf policy.multiplier one then one else policy.multiplier in
      let d = grow policy mult n (of_int policy.backoff) in
      let capped = of_int policy.max_backoff in
      if ltb_ℤ (pos 0) policy.max_backoff && ltf capped d then capped else d

  -- `rnd` is the value of `rand.Float64()`.
  unfoldable pub jittered : RestartPolicy Float → Float → Float → Float
  jittered policy rnd d =
      let one = of_int (pos 1) in
      let j = if ltf one policy.jitter then one else policy.jitter in
      if ltf (of_int (pos 0)) policy.jitter
      then addf d (mulf (mulf d j) (subf (mulf rnd (of_int (pos 2))) one))
      else d

  unfoldable pub is_linear : RestartPolicy Float → Bool
  is_linear policy =
      lef policy.multiplier (of_int (pos 1))
      && (leb_ℤ policy.max_backoff (pos 0) && lef policy.jitter (of_int (pos 0)))

  -- The restarts that count: a negative number of them is none.
  abbrev pub restarts_done : ℤ → ℕ
  restarts_done (pos n) = n
  restarts_done (negsuc n) = 0

  unfoldable pub next_backoff : RestartPolicy Float → ℤ → Float → ℤ
  unfolding exponential jittered is_linear
  next_backoff policy restarts rnd =
      let n = restarts_done restarts in
      if leb_ℤ policy.backoff (pos 0)
      then pos 0
      else if is_linear policy
      then mul64 policy.backoff (add64 (pos n) (pos 1))
      else to_int (jittered policy rnd (exponential policy n))
