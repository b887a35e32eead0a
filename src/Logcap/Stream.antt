-- ===== src/Logcap/Stream.antt =====
-- What is on disk after writes through a `RotatingWriter` (writer.go of internal/logcap): the newest
-- files of a log of the redacted texts.
use pmmcp.Prelude.{
  ℕ, suc, ◌≡◌, refl, sym, ◌∙◌, inl, inr, false, Option, none, some, List, [], ◌∷◌, ◌++◌, arith, ltb,
  ◌==◌, if◌then◌else◌, Bool-cases, length,
}
use pmmcp.Prelude.Int.{ℤ}
use mathlib.Core.List.{append-nil}
use mathlib.Core.Path.{subst}
use pmmcp.Logcap.{
  Bytes, Files, Capturer, Writer, active_bytes, open_file, open_writer, rotate, emit,
  max_partial_bytes, keep_partial, write_lines, write,
}
use pmmcp.Logcap.Endless.{log_all, in_order, joined, in_order-log_all}
use pmmcp.Logcap.Retained.{kept, IsOpen, Carries, Carries-trans, kept-open_file, emit-Carries}

module _ (redact : Bytes → Bytes) where
  -- The redacted texts that a `Write` of `data` puts out after the unfinished line `line`, and the
  -- line that it leaves unfinished.
  unfoldable pub texts : Bytes → Bytes → List Bytes × Bytes
  texts line [] = if ltb max_partial_bytes (length line) then (redact line ∷ [], []) else ([], line)
  texts line (c ∷ cs) =
      let (out, left) = texts [] cs in
      let more = texts (line ++ c ∷ []) cs in
      if c == b'\n' then ((redact line ++ b'\n' ∷ []) ∷ out, left) else more

  unfoldable pub texts_all : Bytes → List Bytes → List Bytes × Bytes
  texts_all line [] = ([], line)
  texts_all line (p ∷ ps) =
      let (out, left) = texts [] (line ++ p) in
      let (more, last) = texts_all left ps in (out ++ more, last)

  -- The writes in order; `none` as soon as one fails.
  unfoldable pub write_all : List Bytes → Writer → Option Writer
  write_all [] w = some w
  write_all (p ∷ ps) w = elim (write redact p w) [ none ↦ none | some w' ↦ write_all ps w' ]

  record Writes (max : ℤ) (n : ℕ) (w w' : Writer) (out : List Bytes) (left : Bytes) : Type 0 where
    carried : Carries max n out w w'
    opened : IsOpen max n w'
    unfinished : w'.partial ≡ left
    going : w'.closed ≡ w.closed

  pub emit-kept :
      (s : Bytes) (w : Writer) → ((emit s w).partial ≡ w.partial) × ((emit s w).closed ≡ w.closed)
  unfolding emit rotate
  emit-kept s w = ground arith

  none-Carries :
      (max : ℤ) (n : ℕ) (w : Writer) (line : Bytes)
      → Carries max n [] w (record w { partial = line })
  unfolding log_all
  none-Carries max n w line older = (older, refl)

  write_lines-Writes :
      (max : ℤ) (n : ℕ) (line cs : Bytes) (w : Writer)
      → IsOpen max n w
      → Writes max n w (write_lines redact line cs w) (texts line cs).0 (texts line cs).1
  unfolding write_lines keep_partial texts
  write_lines-Writes max n line [] w o = elim (Bool-cases (ltb max_partial_bytes (length line))) [
    | inl long ↦
        let (c, o') = emit-Carries max n w (redact line) o in
        rw long (record {
          carried = c;
          opened = record {
            limit = o'.limit;
            files_kept = o'.files_kept;
            active = o'.active;
            sized = o'.sized;
          };
          unfinished = refl;
          going = (emit-kept (redact line) w).1;
        })
    | inr short ↦ rw short (record {
      carried = none-Carries max n w line;
      opened = record {
        limit = o.limit;
        files_kept = o.files_kept;
        active = o.active;
        sized = o.sized;
      };
      unfinished = refl;
      going = refl;
    })
  ]
  write_lines-Writes max n line (c ∷ cs) w o = elim (Bool-cases (c == b'\n')) [
    | inr other ↦ rw other (write_lines-Writes max n (line ++ c ∷ []) cs w o)
    | inl end ↦
        let s = redact line ++ b'\n' ∷ [] in
        let (d, o') = emit-Carries max n w s o in
        let r = write_lines-Writes max n [] cs (emit s w) o' in
        rw end (record {
          carried =
              Carries-trans max n (s ∷ []) (texts [] cs).0 w (emit s w)
                (write_lines redact [] cs (emit s w)) d r.carried;
          opened = r.opened;
          unfinished = r.unfinished;
          going = r.going ∙ (emit-kept s w).1;
        })
  ]

  write-Writes :
      (max : ℤ) (n : ℕ) (p : Bytes) (w : Writer)
      → IsOpen max n w
      → w.closed ≡ false
      → (w' : Writer) × (write redact p w ≡ some w')
        × Writes max n w w' (texts [] (w.partial ++ p)).0 (texts [] (w.partial ++ p)).1
  unfolding write
  write-Writes max n p w o going =
      let start = record w { partial = [] } in
      let r = write_lines-Writes max n [] (w.partial ++ p) start (record {
        limit = o.limit;
        files_kept = o.files_kept;
        active = o.active;
        sized = o.sized;
      }) in
      (
        write_lines redact [] (w.partial ++ p) start,
        rw going refl,
        record {
          carried = r.carried;
          opened = r.opened;
          unfinished = r.unfinished;
          going = r.going;
        },
      )

  write_all-Writes :
      (max : ℤ) (n : ℕ) (ps : List Bytes) (w : Writer)
      → IsOpen max n w
      → w.closed ≡ false
      → (w' : Writer) × (write_all ps w ≡ some w')
        × Writes max n w w' (texts_all w.partial ps).0 (texts_all w.partial ps).1
  unfolding write_all texts_all
  write_all-Writes max n [] w o going = (
    w,
    refl,
    record {
      carried = none-Carries max n w w.partial;
      opened = o;
      unfinished = refl;
      going = refl;
    },
  )
  write_all-Writes max n (p ∷ ps) w o going =
      let (w1, wrote, r) = write-Writes max n p w o going in
      let (w2, rest, q) = write_all-Writes max n ps w1 r.opened (r.going ∙ going) in
      let left = (texts [] (w.partial ++ p)).1 in
      let out = (texts [] (w.partial ++ p)).0 in
      let carried : Carries max n (texts_all left ps).0 w1 w2 =
        subst (λ l. Carries max n (texts_all l ps).0 w1 w2) r.unfinished q.carried in
      let unfinished : w2.partial ≡ (texts_all left ps).1 =
        subst (λ l. w2.partial ≡ (texts_all l ps).1) r.unfinished q.unfinished in
      (
        w2,
        rw (wrote, write_all) rest,
        record {
          carried = Carries-trans max n out (texts_all left ps).0 w w1 w2 r.carried carried;
          opened = q.opened;
          unfinished = unfinished;
          going = q.going ∙ r.going;
        },
      )

  -- What is on disk after writes through a writer with at least one backup. The writes all succeed;
  -- the line that is not finished is kept for the next one, and the size that the writer keeps is that
  -- of the active file. Take the log that keeps every file, with the files that were there before,
  -- and give it the redacted texts of the writes under the writer's limit: the active file and the
  -- backups are the newest files of that log, each with its bytes, as many as are kept. The log
  -- itself has all the bytes that were there before and the redacted texts behind them, in order; so
  -- all that rotation drops is whole files, the oldest ones beyond the number that is kept.
  pub write_all-kept :
      (c : Capturer) (f : Files) (n : ℕ) (ps : List Bytes)
      → c.max_files ≡ suc n
      → let (out, left) = texts_all [] ps in
        let log = log_all c.max_file_bytes out (kept (suc n) f) in
        (w : Writer) × (write_all ps (open_writer c f) ≡ some w)
        × (w.partial ≡ left)
        × (w.size ≡ length (active_bytes w.files))
        × (in_order log ≡ in_order (kept (suc n) f) ++ joined out)
        × ((older : List Bytes) × (log ≡ kept (suc n) w.files ++ older))
  unfolding open_writer open_file
  write_all-kept c f n ps files =
      let w = open_writer c f in
      let max = c.max_file_bytes in
      let o : IsOpen max n w = record {
        limit = refl;
        files_kept = files;
        active = (active_bytes f, refl);
        sized = refl;
      } in
      let (w', wrote, r) = write_all-Writes max n ps w o refl in
      let (older, carried) = r.carried [] in
      let out = (texts_all [] ps).0 in
      (
        w',
        wrote,
        r.unfinished,
        r.opened.sized,
        in_order-log_all max out (kept (suc n) f),
        (
          older,
          (λ t.
                log_all max out
                  (sym (append-nil (kept (suc n) w.files) ∙ kept-open_file (suc n) f) t))
              ∙ carried,
        ),
      )
