-- ===== src/Logcap/Rotation.antt =====
-- What a rotation does to the backups of a stream (capturer.go of internal/logcap).
use pmmcp.Prelude.{
  ℕ, zero, suc, ◌-◌, ◌≤◌, ◌<◌, ◌≡◌, refl, ap, ◌∙◌, inl, inr, none, some, arith, leb, ◌==◌,
  if◌then◌else◌, Bool-cases, Option-cases,
}
use pmmcp.Logcap.{Bytes, Slots, set_slot, Files, Capturer, move_up, shift, make_room, rotate_now}

move_up-slot :
    (i : ℕ) (s : Slots)
    → s (suc i) ≡ none
    → (j : ℕ) → move_up i s j ≡ (if j == suc i then s i else if j == i then none else s j)
unfolding move_up set_slot
move_up-slot i s h j = elim (Option-cases (s i)) [
  | inl e ↦ rw (e, move_up) (ground (arith, e, h, ap s))
  | inr (b, e) ↦ rw (e, move_up) (ground arith)
]

-- The backups 1 to i move up by one, and the first place is free.
shift-slot :
    (i : ℕ) (s : Slots)
    → s (suc i) ≡ none
    → (j : ℕ) → shift i s (suc j) ≡ (if leb j i then (if j == 0 then none else s j) else s (suc j))
unfolding shift
shift-slot zero s h zero = h
shift-slot zero s h (suc j) = ground arith
shift-slot (suc i) s h j =
    let moved = move_up-slot (suc i) s h in
    let rest = shift-slot i (move_up (suc i) s) (moved (suc i) ∙ ground arith) j in
    elim (Bool-cases (j == suc i)) [
      | inl e ↦
          let same : j ≡ suc i = ground arith in
          rest ∙ rw same (ground (arith, moved (suc (suc i))))
      | inr n ↦ ground (arith, rest, moved j, moved (suc j), n)
    ]

make_room-slot :
    (n : ℕ) (s : Slots)
    → (j : ℕ)
    → make_room (suc n) s (suc j) ≡ (if leb j n then (if j == 0 then none else s j) else s (suc j))
unfolding make_room set_slot
make_room-slot n s j =
    let one : suc n - 1 ≡ n = omega arith in
    rw one (shift-slot n (set_slot (suc n) none s) (ground arith) j ∙ ground arith)

make_room-moved : (n : ℕ) (s : Slots) (i : ℕ) → 0 < i → i ≤ n → make_room (suc n) s (suc i) ≡ s i
make_room-moved n s i lo hi = ground (arith, make_room-slot n s i)

make_room-first : (n : ℕ) (s : Slots) → make_room (suc n) s 1 ≡ none
make_room-first n s = ground (arith, make_room-slot n s 0)

make_room-beyond : (n : ℕ) (s : Slots) (i : ℕ) → suc n < i → make_room (suc n) s i ≡ s i
make_room-beyond n s zero h = absurd (omega arith)
make_room-beyond n s (suc j) h = ground (arith, make_room-slot n s j)

-- A rotation with n + 1 backups and an active file moves the active file to the first place, in the
-- form that the capturer asks for, and every backup below the last place up by one, in its form.
-- The backup at the last place is dropped, and what lies beyond is left alone.
pub rotate_now-slots :
    (c : Capturer) (f : Files) (n : ℕ) (a : Bytes)
    → c.max_files ≡ suc n
    → f.active ≡ some a
    → let f' = rotate_now c f in
      (f'.active ≡ none)
      × ((if c.compress then f'.gz 1 else f'.plain 1) ≡ some a)
      × ((if c.compress then f'.plain 1 else f'.gz 1) ≡ none)
      × ((i : ℕ) → 0 < i → i ≤ n → (f'.plain (suc i) ≡ f.plain i) × (f'.gz (suc i) ≡ f.gz i))
      × ((i : ℕ) → suc n < i → (f'.plain i ≡ f.plain i) × (f'.gz i ≡ f.gz i))
unfolding rotate_now set_slot
rotate_now-slots c f n a files held = elim (Bool-cases c.compress) [
  | inl z ↦
      rw (held, files, z, rotate_now)
        (
          refl,
          refl,
          refl,
          (λ i lo hi. (
            ground (arith, make_room-moved n f.plain i lo hi),
            ground (arith, make_room-moved n f.gz i lo hi),
          )),
          (λ i far. (
            ground (arith, make_room-beyond n f.plain i far),
            ground (arith, make_room-beyond n f.gz i far),
          )),
        )
  | inr z ↦
      rw (held, files, z, rotate_now)
        (
          refl,
          refl,
          make_room-first n f.gz,
          (λ i lo hi. (
            ground (arith, make_room-moved n f.plain i lo hi),
            ground (arith, make_room-moved n f.gz i lo hi),
          )),
          (λ i far. (
            ground (arith, make_room-beyond n f.plain i far),
            ground (arith, make_room-beyond n f.gz i far),
          )),
        )
]
