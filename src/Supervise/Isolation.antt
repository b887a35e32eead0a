-- ===== src/Supervise/Isolation.antt =====
-- The processes of one tick of `CrashLoop` in internal/supervise/loop.go do not affect one another.
use pmmcp.Prelude.{
  String, ◌≡◌, refl, ap, ◌∙◌, false, List, [], ◌∷◌, ◌++◌, map, arith, str_eq, eq_iff, if◌then◌else◌,
  GoMap, put,
}
use pmmcp.Prelude.Time.{Time}
use pmmcp.Prelude.Occurs.{occ}
use mathlib.Core.List.{append-nil}
use pmmcp.Supervise.{Floats}
use pmmcp.Supervise.Loop.{Obs, Action, Config, IdState, step, tick}

-- The processes that a tick looks at.
abbrev pub ids_of : {F : Type 0} → List (String × Obs F) → List String
ids_of obs = map (λ p. p.0) obs

-- What a tick does to one process.
unfoldable pub actions_of : String → List (String × Action) → List Action
actions_of i [] = []
actions_of i ((j, a) ∷ acts) = let rest = actions_of i acts in if str_eq i j then a ∷ rest else rest

actions_of-append :
    (i : String) (xs ys : List (String × Action))
    → actions_of i (xs ++ ys) ≡ actions_of i xs ++ actions_of i ys
unfolding actions_of
actions_of-append i [] ys = refl
actions_of-append i ((j, a) ∷ xs) ys = ground (arith, actions_of-append i xs ys)

actions_of-own : (i : String) (acts : List Action) → actions_of i (map (λ a. (i, a)) acts) ≡ acts
unfolding actions_of
actions_of-own i [] = refl
actions_of-own i (a ∷ acts) = ground (arith, eq_iff i i, actions_of-own i acts)

actions_of-other :
    (i j : String) (acts : List Action)
    → str_eq i j ≡ false
    → actions_of i (map (λ a. (j, a)) acts) ≡ []
unfolding actions_of
actions_of-other i j [] n = refl
actions_of-other i j (a ∷ acts) n = ground (arith, n, actions_of-other i j acts n)

module _ (fl : Floats) where
  open fl use {Float}

  tick-absent :
      (cfg : Config Float) (now : Time) (i : String) (obs : List (String × Obs Float))
      (m : GoMap (IdState Float))
      → occ i (ids_of obs) ≡ 0
      → ((tick fl cfg now obs m).0 i ≡ m i) × (actions_of i (tick fl cfg now obs m).1 ≡ [])
  unfolding tick occ put actions_of
  tick-absent cfg now i [] m h = (refl, refl)
  tick-absent cfg now i ((j, o) ∷ obs) m h =
      let (s, acts) = step fl cfg now o (m j) in
      let other : str_eq i j ≡ false = ground arith in
      let (same, quiet) = tick-absent cfg now i obs (put m j s) (ground arith) in
      (
        same ∙ ground (arith, other),
        rw
            (
              actions_of-append i (map (λ a. (j, a)) acts) (tick fl cfg now obs (put m j s)).1,
              actions_of-other i j acts other,
            )
            quiet,
      )

  -- One tick treats each process as if it were alone: its state after the tick, and the calls that the
  -- tick makes for it, are those of one step from its own state, whatever the other processes do, as
  -- long as it is listed once.
  pub tick-isolated :
      (cfg : Config Float) (now : Time) (before after : List (String × Obs Float)) (i : String)
      (o : Obs Float) (m : GoMap (IdState Float))
      → occ i (ids_of before) ≡ 0
      → occ i (ids_of after) ≡ 0
      → let (m', acts) = tick fl cfg now (before ++ (i, o) ∷ after) m in
        (m' i ≡ (step fl cfg now o (m i)).0) × (actions_of i acts ≡ (step fl cfg now o (m i)).1)
  unfolding tick occ put
  tick-isolated cfg now [] after i o m hb ha =
      let (s, acts) = step fl cfg now o (m i) in
      let (same, quiet) = tick-absent cfg now i after (put m i s) ha in
      (
        same ∙ ground (arith, eq_iff i i),
        rw
            (
              actions_of-append i (map (λ a. (i, a)) acts) (tick fl cfg now after (put m i s)).1,
              actions_of-own i acts,
              quiet,
            )
            (append-nil acts),
      )
  tick-isolated cfg now ((j, p) ∷ before) after i o m hb ha =
      let (s, acts) = step fl cfg now p (m j) in
      let other : str_eq i j ≡ false = ground arith in
      let (own, calls) = tick-isolated cfg now before after i o (put m j s) (ground arith) ha in
      let kept : put m j s i ≡ m i = ground (arith, other) in
      (
        own ∙ ap (λ x. (step fl cfg now o x).0) kept,
        rw
            (
              actions_of-append i (map (λ a. (j, a)) acts)
                  (tick fl cfg now (before ++ (i, o) ∷ after) (put m j s)).1,
              actions_of-other i j acts other,
            )
            (calls ∙ ap (λ x. (step fl cfg now o x).1) kept),
      )
