-- ===== src/Event/Cursor.antt =====
-- `QuerySince` as a resumable stream: a cursor neither skips nor repeats an event.
use pmmcp.Prelude.{
  ℕ, zero, suc, ◌+◌, String, ◌≡◌, refl, sym, ap, ◌∙◌, inl, inr, Bool, true, false, ◌&&◌, List, [],
  ◌∷◌, ◌++◌, arith, Bool-cases, length, take, drop, length-append, keep, All,
}
use pmmcp.Prelude.Int.{ℤ, pos, ltb_ℤ}
use mathlib.Core.Path.{subst}
use pmmcp.Event.{Event, Bus, is_of, collect, query_since}

abbrev after : ℤ → String → Event → Bool
after since pid e = ltb_ℤ since e.seq && is_of pid e

-- The sequence numbers of a list rise strictly.
abbrev pub IsAscending : List Event → Type 0
IsAscending [] = Unit
IsAscending (e ∷ es) = All (λ x. ltb_ℤ e.seq x.seq ≡ true) es × IsAscending es

append_assoc_one {ℓ} : {A : Type ℓ} (xs ys : List A) (x : A) → (xs ++ x ∷ []) ++ ys ≡ xs ++ x ∷ ys
append_assoc_one [] ys x = refl
append_assoc_one (y ∷ xs) ys x = rw (append_assoc_one xs ys x)

append-nil' {ℓ} : {A : Type ℓ} (xs : List A) → xs ++ [] ≡ xs
append-nil' [] = refl
append-nil' (x ∷ xs) = rw (append-nil' xs)

-- The loop of `QuerySince` is a filter cut to the limit; k + 1 is the room left.
collect_lem :
    (since : ℤ) (pid : String) (limit k : ℕ) (es out : List Event)
    → length out + suc k ≡ limit
    → collect since pid limit es out ≡ out ++ take (suc k) (keep (after since pid) es)
unfolding collect
collect_lem since pid limit k [] out h = sym (append-nil' out)
collect_lem since pid limit zero (e ∷ es) out h =
    ground (arith, collect_lem since pid limit zero es out h, length-append out (e ∷ []))
collect_lem since pid limit (suc k) (e ∷ es) out h = ground (
  arith,
  collect_lem since pid limit (suc k) es out h,
  collect_lem since pid limit k es (out ++ e ∷ []) (omega (arith, length-append out (e ∷ []))),
  append_assoc_one out (take (suc k) (keep (after since pid) es)) e,
  length-append out (e ∷ []),
)

-- A list whose events all come after `e` shows the same to both cursors.
keep-later :
    (since : ℤ) (pid : String) (e : Event) (es : List Event)
    → ltb_ℤ since e.seq ≡ true
    → All (λ x. ltb_ℤ e.seq x.seq ≡ true) es
    → keep (after e.seq pid) es ≡ keep (after since pid) es
keep-later since pid e [] h a = refl
keep-later since pid e (x ∷ es) h a =
    let later : ltb_ℤ since x.seq ≡ true = ground (arith, a.0) in
    rw (a.0, later, keep-later since pid e es h a.1) refl

-- An event that a filter keeps is one of the list.
keep-above :
    (n : ℤ) (p : Event → Bool) (es xs ys : List Event) (e : Event)
    → All (λ x. ltb_ℤ n x.seq ≡ true) es
    → keep p es ≡ xs ++ e ∷ ys
    → ltb_ℤ n e.seq ≡ true
keep-above n p [] [] ys e a h = cc
keep-above n p [] (x ∷ xs) ys e a h = cc
keep-above n p (y ∷ es) [] ys e a h = elim (Bool-cases (p y)) [
  | inl kept ↦ ground (arith, kept)
  | inr gone ↦ keep-above n p es [] ys e a.1 (ground (arith, gone))
]
keep-above n p (y ∷ es) (x ∷ xs) ys e a h = elim (Bool-cases (p y)) [
  | inl kept ↦ keep-above n p es xs ys e a.1 (ground (arith, kept))
  | inr gone ↦ keep-above n p es (x ∷ xs) ys e a.1 (ground (arith, gone))
]

-- What follows an event of the filtered list is what a cursor on that event shows.
keep-cursor :
    (since : ℤ) (pid : String) (es xs ys : List Event) (e : Event)
    → IsAscending es
    → keep (after since pid) es ≡ xs ++ e ∷ ys
    → keep (after e.seq pid) es ≡ ys
keep-cursor since pid [] [] ys e a h = cc
keep-cursor since pid [] (x ∷ xs) ys e a h = cc
keep-cursor since pid (y ∷ es) [] ys e a h = elim (Bool-cases (after since pid y)) [
  | inr skipped ↦
      let h' : keep (after since pid) es ≡ e ∷ ys = ground (arith, skipped) in
      ground (
        arith,
        keep-cursor since pid es [] ys e a.1 h',
        keep-above y.seq (after since pid) es [] ys e a.0 h',
      )
  | inl kept ↦
      let same : y ≡ e = ground (arith, kept) in
      let rest : keep (after since pid) es ≡ ys = ground (arith, kept) in
      let later : ltb_ℤ since y.seq ≡ true = ground arith in
      let self : after y.seq pid y ≡ false = ground arith in
      subst (λ z. keep (after z.seq pid) (y ∷ es) ≡ ys) same
        (rw self (keep-later since pid y es later a.0 ∙ rest))
]
keep-cursor since pid (y ∷ es) (x ∷ xs) ys e a h = elim (Bool-cases (after since pid y)) [
  | inr skipped ↦
      let h' : keep (after since pid) es ≡ x ∷ (xs ++ e ∷ ys) = ground (arith, skipped) in
      ground (
        arith,
        keep-cursor since pid es (x ∷ xs) ys e a.1 h',
        keep-above y.seq (after since pid) es (x ∷ xs) ys e a.0 h',
      )
  | inl kept ↦
      let h' : keep (after since pid) es ≡ xs ++ e ∷ ys = ground (arith, kept) in
      ground (
        arith,
        keep-cursor since pid es xs ys e a.1 h',
        keep-above y.seq (after since pid) es xs ys e a.0 h',
      )
]

query_since_lem :
    (b : Bus) (since : ℤ) (pid : String) (k : ℕ)
    → query_since b since pid (pos (suc k)) ≡ take (suc k) (keep (after since pid) b.events)
unfolding query_since
query_since_lem b since pid k =
    ground (arith, collect_lem since pid (suc k) k b.events [] (omega arith))

-- Two pages of a list are one page.
take-add {ℓ} :
    {A : Type ℓ} (m n : ℕ) (xs : List A)
    → take m xs ++ take (suc n) (drop m xs) ≡ take (m + suc n) xs
take-add zero n xs = let e : suc n ≡ 0 + suc n = omega arith in rw (← e)
take-add (suc m) n [] = let e : suc m + suc n ≡ suc (m + suc n) = omega arith in rw e
take-add (suc m) n (x ∷ xs) =
    let e : suc m + suc n ≡ suc (m + suc n) = omega arith in rw (e, take-add m n xs) refl

take-append-drop {ℓ} : {A : Type ℓ} (n : ℕ) (xs : List A) → take n xs ++ drop n xs ≡ xs
take-append-drop zero xs = refl
take-append-drop (suc n) [] = refl
take-append-drop (suc n) (x ∷ xs) = rw (take-append-drop n xs)

-- A consumer that asks again from the sequence number of the last event that it was given gets
-- exactly the events that one larger request would have given after that one: no gap and no
-- duplicate, whatever the limits and the process asked for. (The log is in ascending order.)
pub query_since-resume :
    (b : Bus) (since : ℤ) (pid : String) (k n : ℕ) (page : List Event) (last : Event)
    → IsAscending b.events
    → query_since b since pid (pos (suc k)) ≡ page ++ last ∷ []
    → query_since b since pid (pos (suc k)) ++ query_since b last.seq pid (pos (suc n))
      ≡ query_since b since pid (pos (suc (k + suc n)))
query_since-resume b since pid k n page last asc e =
    rw
      (
        query_since_lem b since pid k,
        query_since_lem b last.seq pid n,
        query_since_lem b since pid (k + suc n),
        rest,
      )
      (take-add (suc k) n kept ∙ ap (λ m. take m kept) {y = suc (k + suc n)} (omega arith))
  where
    kept : List Event
    kept = keep (after since pid) b.events

    split : kept ≡ page ++ last ∷ drop (suc k) kept
    split =
        sym (take-append-drop (suc k) kept)
        ∙ ap (λ xs. xs ++ drop (suc k) kept) (sym (query_since_lem b since pid k) ∙ e)
        ∙ append_assoc_one page (drop (suc k) kept) last

    rest : keep (after last.seq pid) b.events ≡ drop (suc k) kept
    rest = keep-cursor since pid b.events page (drop (suc k) kept) last asc split
