-- ===== src/Watch/Emission.antt =====
-- The second loop of `tick` in internal/watch/watch.go: what it does to one path and to the channel.
use pmmcp.Prelude.{
  ℕ, suc, ◌+◌, String, ◌≡◌, refl, sym, ap, ◌∙◌, ◌⊎◌, inl, inr, true, none, some, List, [], ◌∷◌,
  ◌++◌, arith, str_eq, eq_iff, ltb, if◌then◌else◌, Bool-cases, Option-cases, length, put,
}
use pmmcp.Prelude.Time.{Time}
use pmmcp.Watch.{PendingChange, Event, Watcher, is_due, emit_one, emit, event_capacity}

-- The events of a path in the channel.
unfoldable pub told : String → List Event → ℕ
told p [] = 0
told p (e ∷ es) = let n = told p es in if str_eq e.path p then suc n else n

told-append : (p : String) (xs ys : List Event) → told p (xs ++ ys) ≡ told p xs + told p ys
unfolding told
told-append p [] ys = omega arith
told-append p (x ∷ xs) ys = ground (arith, told-append p xs ys)

abbrev pub SameClock : Watcher → Watcher → Type 0
SameClock w w' = (w'.debounce ≡ w.debounce) × (w'.max_wait ≡ w.max_wait) × (w'.closed ≡ w.closed)

-- A round of the second loop leaves a path alone, or tells of it once, when it is due.
abbrev pub Emits : Time → String → Watcher → Watcher → Type 0
Emits now p w w' =
    ((w'.pending p ≡ w.pending p) × (told p w'.events ≡ told p w.events))
    ⊎ ((pc : PendingChange) × (w.pending p ≡ some pc)
        × (is_due w now pc ≡ true)
        × (w'.pending p ≡ none)
        × (told p w'.events ≡ suc (told p w.events)))

told-one :
    (p q : String) (now : Time)
    → told p (record { path = q; at = now } ∷ []) ≡ (if str_eq q p then 1 else 0)
unfolding told
told-one p q now = ground arith

emit_one-Emits :
    (now : Time) (p q : String) (w : Watcher)
    → Emits now p w (emit_one now q w) × SameClock w (emit_one now q w)
unfolding emit_one put
emit_one-Emits now p q w = elim (Option-cases (w.pending q)) [
  | inl e ↦ rw (e, emit_one) (inl (refl, refl), (refl, refl, refl))
  | inr (pc, e) ↦ elim (Bool-cases (is_due w now pc)) [
    | inr early ↦ rw (e, early, emit_one) (inl (refl, refl), (refl, refl, refl))
    | inl due ↦ elim (Bool-cases (ltb (length w.events) event_capacity)) [
      | inr full ↦ rw (e, due, full, emit_one) (inl (refl, refl), (refl, refl, refl))
      | inl room ↦
          rw (e, due, room, emit_one)
            (
              elim (Bool-cases (str_eq p q)) [
                | inl same ↦ inr (
                  pc,
                  rw (eq_of same) e,
                  due,
                  ground (arith, same),
                  ground (
                    arith,
                    told-append p w.events (record { path = q; at = now } ∷ []),
                    told-one p q now,
                    eq_iff p q,
                    eq_iff q p,
                    same,
                  ),
                )
                | inr other ↦ inl (
                  ground (arith, other),
                  ground (
                    arith,
                    told-append p w.events (record { path = q; at = now } ∷ []),
                    told-one p q now,
                    eq_iff p q,
                    eq_iff q p,
                    other,
                  ),
                )
              ],
              (refl, refl, refl),
            )
    ]
  ]
]
  where
    eq_of : str_eq p q ≡ true → p ≡ q
    eq_of = (eq_iff p q).0

pub is_due-clock :
    (w w' : Watcher) (now : Time) (pc : PendingChange)
    → SameClock w w'
    → is_due w' now pc ≡ is_due w now pc
unfolding is_due
is_due-clock w w' now pc (d, m, c) = rw (d, m)

pub SameClock-trans : (a b c : Watcher) → SameClock a b → SameClock b c → SameClock a c
SameClock-trans a b c (x, y, z) (x', y', z') = (x' ∙ x, y' ∙ y, z' ∙ z)

Emits-trans :
    (now : Time) (p : String) (a b c : Watcher)
    → SameClock a b
    → Emits now p a b
    → Emits now p b c
    → Emits now p a c
Emits-trans now p a b c s (inl (k, t)) (inl (k', t')) = inl (k' ∙ k, t' ∙ t)
Emits-trans now p a b c s (inl (k, t)) (inr (pc, e, due, gone, t')) =
    inr (pc, sym k ∙ e, sym (is_due-clock a b now pc s) ∙ due, gone, t' ∙ ap suc t)
Emits-trans now p a b c s (inr (pc, e, due, gone, t)) (inl (k', t')) =
    inr (pc, e, due, k' ∙ gone, t' ∙ t)
Emits-trans now p a b c s (inr (pc, e, due, gone, t)) (inr (pc', e', d', g', t')) = cc

pub emit-Emits :
    (now : Time) (p : String) (visit : List String) (w : Watcher)
    → Emits now p w (emit now visit w) × SameClock w (emit now visit w)
unfolding emit
emit-Emits now p [] w = (inl (refl, refl), (refl, refl, refl))
emit-Emits now p (q ∷ visit) w =
    let w1 = emit_one now q w in
    let w2 = emit now visit w1 in
    let (first, clock) = emit_one-Emits now p q w in
    let (later, clock') = emit-Emits now p visit w1 in
    (Emits-trans now p w w1 w2 clock first later, SameClock-trans w w1 w2 clock clock')
