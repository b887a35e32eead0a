-- ===== src/Logcap/Chunks.antt =====
-- How the bytes of a stream are cut into writes does not matter (writer.go of internal/logcap).
use pmmcp.Prelude.{
  ℕ, ◌≤◌, ◌≡◌, refl, sym, ◌∙◌, inl, inr, false, ◌||◌, none, some, [], ◌∷◌, ◌++◌, arith, ltb, ◌==◌,
  if◌then◌else◌, Bool-cases, length,
}
use mathlib.Core.List.{append-nil, append_assoc}
use pmmcp.Logcap.{Bytes, Writer, emit, max_partial_bytes, keep_partial, write_lines, write}
use pmmcp.Prelude.Runes.{contains}
use pmmcp.Logcap.Stream.{emit-kept}

-- The line that is unfinished after the bytes.
unfoldable pub pending : Bytes → Bytes → Bytes
pending line [] = line
pending line (c ∷ cs) =
    let rest = pending [] cs in
    let more = pending (line ++ c ∷ []) cs in if c == b'\n' then rest else more

contains-append : (c : ℕ) (s t : Bytes) → contains c (s ++ t) ≡ (contains c s || contains c t)
unfolding contains
contains-append c [] t = refl
contains-append c (x ∷ s) t = ground (arith, contains-append c s t)

pending-newline :
    (line p : Bytes) → contains b'\n' line ≡ false → contains b'\n' (pending line p) ≡ false
unfolding pending contains
pending-newline line [] h = h
pending-newline line (c ∷ p) h = ground (
  arith,
  pending-newline [] p,
  pending-newline (line ++ c ∷ []) p,
  contains-append b'\n' line (c ∷ []),
)

module _ (redact : Bytes → Bytes) where
  write_lines-absorb :
      (line t q : Bytes) (w : Writer)
      → contains b'\n' t ≡ false
      → write_lines redact line (t ++ q) w ≡ write_lines redact (line ++ t) q w
  unfolding write_lines contains
  write_lines-absorb line [] q w h = λ i. write_lines redact (sym (append-nil line) i) q w
  write_lines-absorb line (c ∷ t) q w h =
      let plain : (c == b'\n') ≡ false = ground arith in
      let rest = write_lines-absorb (line ++ c ∷ []) t q w (ground arith) in
      rw plain (rest ∙ (λ i. write_lines redact (append_assoc line (c ∷ []) t i) q w))

  write_lines-through :
      (line p q b : Bytes) (w : Writer)
      → length (pending line p) ≤ max_partial_bytes
      → w.partial ≡ b
      → write_lines redact line (p ++ q) w
        ≡ write_lines redact
            (pending line p)
            q
            (record (write_lines redact line p w) { partial = b })
  unfolding write_lines keep_partial pending
  write_lines-through line [] q b w short e =
      let fits : ltb max_partial_bytes (length line) ≡ false = ground arith in
      rw fits (λ i. write_lines redact line q (record w { partial = e i }))
  write_lines-through line (c ∷ p) q b w short e = elim (Bool-cases (c == b'\n')) [
    | inl end ↦
        let w' = emit (redact line ++ b'\n' ∷ []) w in
        rw end (
          write_lines-through [] p q b w' (ground (arith, end))
            ((emit-kept redact (redact line ++ b'\n' ∷ []) w).0 ∙ e))
    | inr other ↦ rw other (write_lines-through (line ++ c ∷ []) p q b w (ground (arith, other)) e)
  ]

  write_lines-left :
      (line p : Bytes) (w : Writer)
      → length (pending line p) ≤ max_partial_bytes
      → ((write_lines redact line p w).partial ≡ pending line p)
        × ((write_lines redact line p w).closed ≡ w.closed)
  unfolding write_lines keep_partial pending
  write_lines-left line [] w short =
      let fits : ltb max_partial_bytes (length line) ≡ false = ground arith in rw fits (refl, refl)
  write_lines-left line (c ∷ p) w short = elim (Bool-cases (c == b'\n')) [
    | inl end ↦
        let s = redact line ++ b'\n' ∷ [] in
        let (l, k) = write_lines-left [] p (emit s w) (ground (arith, end)) in
        rw end (l, k ∙ (emit-kept redact s w).1)
    | inr other ↦ rw other (write_lines-left (line ++ c ∷ []) p w (ground (arith, other)))
  ]

  write_going :
      (p : Bytes) (w : Writer)
      → w.closed ≡ false
      → write redact p w ≡ some (write_lines redact [] (w.partial ++ p) (record w { partial = [] }))
  unfolding write
  write_going p w e = λ i.
      if e i
      then none
      else some (write_lines redact [] (w.partial ++ p) (record w { partial = [] }))

  -- One write of two pieces does the same as two writes of one piece each, to the files and to all
  -- that the writer keeps, as long as the line that is unfinished between them is not so long that it
  -- is flushed.
  pub write-append :
      (p q : Bytes) (w : Writer)
      → length (pending [] (w.partial ++ p)) ≤ max_partial_bytes
      → write redact (p ++ q) w
        ≡ elim (write redact p w) [ none ↦ none | some w' ↦ write redact q w' ]
  unfolding contains
  write-append p q w short = elim (Bool-cases w.closed) [
    | inl e ↦ unfold write in rw e refl
    | inr e ↦
        let w0 = record w { partial = [] } in
        let w1 = write_lines redact [] (w.partial ++ p) w0 in
        let rest = pending [] (w.partial ++ p) in
        let (left, kept) = write_lines-left [] (w.partial ++ p) w0 short in
        let start : Writer = record w1 { partial = [] } in
        let twice : write redact q w1 ≡ some (write_lines redact [] (w1.partial ++ q) start) =
          write_going q w1 (kept ∙ e) in
        let split : write_lines redact [] (w.partial ++ (p ++ q)) w0
            ≡ write_lines redact rest q start =
          (λ i. write_lines redact [] (sym (append_assoc w.partial p q) i) w0)
          ∙ write_lines-through [] (w.partial ++ p) q [] w0 short refl in
        let joined : write_lines redact [] (w1.partial ++ q) start
            ≡ write_lines redact rest q start =
          (λ i. write_lines redact [] (left i ++ q) start)
          ∙ write_lines-absorb [] rest q start (pending-newline [] (w.partial ++ p) refl) in
        write_going (p ++ q) w e
        ∙ (λ i. some (split i))
        ∙ (λ i. some (sym joined i))
        ∙ sym twice
        ∙ (λ i. elim (sym (write_going p w e) i) [ none ↦ none | some w' ↦ write redact q w' ])
  ]
