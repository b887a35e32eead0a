-- ===== src/Event/Retention.antt =====
-- What the bus keeps: the newest events of its whole history, in ascending order.
use pmmcp.Prelude.{
  ℕ, zero, suc, ◌+◌, ◌-◌, ◌^◌, ◌≤◌, ◌<◌, String, ◌≡◌, refl, sym, ap, ◌∙◌, inl, inr, true, Option,
  none, some, List, [], ◌∷◌, ◌++◌, arith, ltb, Bool-cases, Option-cases, length, drop, length-drop,
  All,
}
use pmmcp.Prelude.Int.{ℤ, pos, ltb_ℤ, add64, add64-pos}
use pmmcp.Prelude.Time.{Time}
use pmmcp.Prelude.Newest.{last_n, last_n-snoc, drop-zero, drop-nil}
use pmmcp.Event.{Event, Bus, new_bus, stamp, store, append}
use mathlib.Core.List.{append-nil, append_assoc}
use pmmcp.Event.Cursor.{IsAscending}

-- The calls of `Append` in order, each with the identifier generator's answer and the time; a call
-- that fails appends nothing. The second result is every event that was stored.
pub record Call : Type 0 where
  pub event : Event
  pub new_id : Option String
  pub now : Time

unfoldable pub append_all : Bus → List Call → Bus × List Event
append_all b [] = (b, [])
append_all b (c ∷ cs) = elim (append b c.new_id c.now c.event) [
  | none ↦ append_all b cs
  | some (b', e) ↦ let (b'', es) = append_all b' cs in (b'', e ∷ es)
]

-- The list holds the numbers that follow n, in order, up to m.
abbrev pub Numbered : ℕ → ℕ → List Event → Type 0
Numbered n m [] = n ≡ m
Numbered n m (e ∷ es) = (e.seq ≡ pos (suc n)) × Numbered (suc n) m es

Numbered-snoc :
    (n m : ℕ) (es : List Event) (e : Event)
    → Numbered n m es
    → e.seq ≡ pos (suc m)
    → Numbered n (suc m) (es ++ e ∷ [])
Numbered-snoc n m [] e h s = (rw h s, ap suc h)
Numbered-snoc n m (x ∷ es) e h s = (h.0, Numbered-snoc (suc n) m es e h.1 s)

Numbered-drop :
    (n m k : ℕ) (es : List Event) → Numbered n m es → (n' : ℕ) × Numbered n' m (drop k es)
Numbered-drop n m zero es h = (n, h)
Numbered-drop n m (suc k) [] h = (n, h)
Numbered-drop n m (suc k) (x ∷ es) h = Numbered-drop (suc n) m k es h.1

Numbered-above :
    (k n m : ℕ) (es : List Event)
    → k ≤ n
    → Numbered n m es
    → All (λ x. ltb_ℤ (pos k) x.seq ≡ true) es
Numbered-above k n m [] le h = tt
Numbered-above k n m (e ∷ es) le h =
    (rw h.0 (ground arith), Numbered-above k (suc n) m es (omega arith) h.1)

Numbered-IsAscending : (n m : ℕ) (es : List Event) → Numbered n m es → IsAscending es
Numbered-IsAscending n m [] h = tt
Numbered-IsAscending n m (e ∷ es) h = (
  rw h.0 (Numbered-above (suc n) (suc n) m es (omega arith) h.1),
  Numbered-IsAscending (suc n) m es h.1,
)

-- The numbers of the bus: its events carry consecutive numbers up to the counter, which is m.
record IsNumbered (b : Bus) (m : ℕ) : Type 0 where
  counter : b.seq_ctr ≡ pos m
  numbered : (n : ℕ) × Numbered n m b.events

seq-stamp :
    (b : Bus) (c : Call) (e : Event)
    → stamp b c.new_id c.now c.event ≡ some e
    → e.seq ≡ add64 b.seq_ctr (pos 1)
unfolding stamp
seq-stamp b c e h = ground arith

store-IsNumbered :
    (b : Bus) (m : ℕ) (e : Event)
    → IsNumbered b m
    → e.seq ≡ pos (suc m)
    → IsNumbered (store b e) (suc m)
unfolding store
store-IsNumbered b m e w s =
    let (n, h) = w.numbered in
    let all = Numbered-snoc n m b.events e h s in
    record {
      counter = s;
      numbered = elim (Bool-cases (ltb b.max_keep (length (b.events ++ e ∷ [])))) [
        | inl full ↦ rw full (Numbered-drop n (suc m) _ (b.events ++ e ∷ []) all)
        | inr room ↦ rw room (n, all)
      ];
    }

-- The bus holds the newest `max_keep` events of the history h.
record Holds (b : Bus) (h : List Event) : Type 0 where
  capacity : 0 < b.max_keep
  newest : b.events ≡ last_n b.max_keep h

store-Holds : (b : Bus) (h : List Event) (e : Event) → Holds b h → Holds (store b e) (h ++ e ∷ [])
unfolding store
store-Holds b h e w = record {
  capacity = w.capacity;
  newest = elim (Bool-cases (ltb b.max_keep (length (b.events ++ e ∷ [])))) [
    | inl full ↦ rw (full, w.newest) (last_n-snoc b.max_keep h e w.capacity)
    | inr room ↦
        let whole : last_n b.max_keep (b.events ++ e ∷ []) ≡ b.events ++ e ∷ [] =
          drop-zero _ (b.events ++ e ∷ []) (ground arith) in
        rw room (
          sym whole
          ∙ ap (λ es. last_n b.max_keep (es ++ e ∷ [])) w.newest
          ∙ last_n-snoc b.max_keep h e w.capacity)
  ];
}

record Kept (b : Bus) (h : List Event) : Type 0 where
  holds : Holds b h
  last : ℕ
  numbers : IsNumbered b last

append_all-Kept :
    (b : Bus) (cs : List Call) (h : List Event) (m : ℕ)
    → Holds b h
    → IsNumbered b m
    → m + length cs < 2 ^ 63
    → Kept (append_all b cs).0 (h ++ (append_all b cs).1)
unfolding append_all
append_all-Kept b [] h m w n small = rw (append-nil h) (record { holds = w; last = m; numbers = n })
append_all-Kept b (c ∷ cs) h m w n small = elim (Option-cases (stamp b c.new_id c.now c.event)) [
  | inl fails ↦
      let skipped : append b c.new_id c.now c.event ≡ none = unfold append in rw (fails, append) in
      rw (skipped, append_all) (append_all-Kept b cs h m w n (omega arith))
  | inr (e, made) ↦
      let stored : append b c.new_id c.now c.event ≡ some (store b e, e) =
        unfold append in rw (made, append) in
      let next : e.seq ≡ pos (suc m) =
        seq-stamp b c e made ∙ rw n.counter (add64-pos m 1 (omega arith) ∙ ap pos (omega arith)) in
      let later =
        append_all-Kept (store b e) cs (h ++ e ∷ []) (suc m) (store-Holds b h e w)
          (store-IsNumbered b m e n next) (omega arith) in
      rw (stored, append_all) (rw append_assoc at later)
]

new_bus-Kept : (k : ℤ) → Holds (new_bus k) [] × IsNumbered (new_bus k) 0
unfolding new_bus
new_bus-Kept k = (
  record { capacity = ground arith; newest = sym (drop-nil _) },
  record { counter = refl; numbered = (0, refl) },
)

-- From a new bus, whatever is appended (fewer than 2^63 calls, some of which may fail): the bus
-- holds the newest `max_keep` of the events stored so far, no more than that many, in ascending
-- order of their sequence numbers.
pub append_all-newest :
    (k : ℤ) (cs : List Call)
    → length cs < 2 ^ 63
    → let (b, stored) = append_all (new_bus k) cs in
      (b.events ≡ last_n b.max_keep stored) × (length b.events ≤ b.max_keep) × IsAscending b.events
append_all-newest k cs small =
    let (b, stored) = append_all (new_bus k) cs in
    let (w, n) = new_bus-Kept k in
    let kept = append_all-Kept (new_bus k) cs [] 0 w n (omega arith) in
    let (first, numbered) = kept.numbers.numbered in
    (
      kept.holds.newest,
      rw kept.holds.newest (omega (arith, length-drop (length stored - b.max_keep) stored)),
      Numbered-IsAscending first kept.last b.events numbered,
    )
