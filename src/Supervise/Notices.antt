-- ===== src/Supervise/Notices.antt =====
-- How often `CrashLoop` reports an exhausted budget.
use pmmcp.Prelude.{
  ℕ, suc, ◌+◌, ◌≤◌, ◌≡◌, ◌⊎◌, Bool, true, false, not, ◌&&◌, List, [], ◌∷◌, ◌++◌, arith,
  if◌then◌else◌,
}
use pmmcp.Prelude.Time.{Time}
use pmmcp.Supervise.{Floats}
use pmmcp.Supervise.Loop.{
  Obs, Action, restart, on_exhausted, Config, IdState, init, step, run, down,
}

unfoldable pub notices : List Action → ℕ
notices [] = 0
notices (restart ∷ acts) = notices acts
notices (on_exhausted ∷ acts) = suc (notices acts)

notices-append : (xs ys : List Action) → notices (xs ++ ys) ≡ notices xs + notices ys
unfolding notices
notices-append [] ys = omega arith
notices-append (restart ∷ xs) ys = notices-append xs ys
notices-append (on_exhausted ∷ xs) ys = omega (arith, notices-append xs ys)

abbrev flag : Bool → ℕ
flag true = 1
flag false = 0

module _ (fl : Floats) where
  open fl use {Float}

  -- The ticks of a run at which the mark of an exhausted budget is taken off.
  unfoldable pub rearms : Config Float → List (Time × Obs Float) → IdState Float → ℕ
  rearms cfg [] s = 0
  rearms cfg ((now, o) ∷ rest) s =
      let s' = (step fl cfg now o s).0 in
      let n = rearms cfg rest s' in if s.exhausted && not s'.exhausted then suc n else n

  step-notices :
      (cfg : Config Float) (now : Time) (o : Obs Float) (s : IdState Float)
      → (notices (step fl cfg now o s).1 + flag s.exhausted
          ≤ flag (step fl cfg now o s).0.exhausted)
        ⊎ ((flag (step fl cfg now o s).0.exhausted ≡ 0) × (notices (step fl cfg now o s).1 ≡ 0))
  unfolding step down notices
  step-notices cfg now o s = ground arith

  run-notices :
      (cfg : Config Float) (ticks : List (Time × Obs Float)) (s : IdState Float)
      → notices (run fl cfg ticks s).1 + flag s.exhausted ≤ 1 + rearms cfg ticks s
  unfolding run rearms
  run-notices cfg [] s = unfold notices in ground arith
  run-notices cfg ((now, o) ∷ rest) s =
      let (s', acts) = step fl cfg now o s in
      ground (
        arith,
        run-notices cfg rest s',
        notices-append acts (run fl cfg rest s').1,
        step-notices cfg now o s,
      )

  -- A run reports an exhausted budget at most once, and once more for each tick at which the mark
  -- of it is taken off.
  pub notice_once :
      (cfg : Config Float) (ticks : List (Time × Obs Float))
      → notices (run fl cfg ticks init).1 ≤ 1 + rearms cfg ticks init
  notice_once cfg ticks = omega (arith, run-notices cfg ticks init)
