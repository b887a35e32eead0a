-- ===== src/Logcap/Tests.antt =====
-- Runs of internal/logcap and the theorems about it at concrete streams; redaction leaves the bytes
-- alone, or puts a star in the place of each.
use pmmcp.Prelude.{
  ◌≡◌, refl, true, none, some, List, [], ◌∷◌, ◌++◌, map, arith, ◌==◌, if◌then◌else◌, length,
}
use pmmcp.Prelude.Int.{mul64, int64, pos}
use pmmcp.Logcap.{
  Bytes, Files, Capturer, Writer, new_capturer, set_slot, move_up, shift, make_room, rotate_now,
  active_bytes, open_file, open_writer, rotate, append_active, is_over, emit, keep_partial,
  write_lines, write,
}
use pmmcp.Logcap.Endless.{log_all, in_order, joined}
use pmmcp.Logcap.Retained.{kept}
use pmmcp.Logcap.Stream.{texts_all, write_all, write_all-kept}
use pmmcp.Logcap.Chunks.{pending, write-append}

abbrev small : Capturer
small = record { max_file_bytes = pos 4; max_files = 2; compress = true }

abbrev empty : Files
empty = record { active = none; plain = λ _. none; gz = λ _. none }

abbrev full : Files
full = record {
  active = some (1 ∷ []);
  plain = λ _. none;
  gz = λ i. if i == 1 then some (2 ∷ []) else if i == 2 then some (3 ∷ []) else none;
}

abbrev starred : Bytes → Bytes
starred s = map (λ _. b'*') s

capturer_default : (new_capturer (pos 0) (pos 0)).max_file_bytes ≡ pos 10485760
unfolding new_capturer mul64 int64
capturer_default = refl

rotate_now_drops : (rotate_now small full).gz 2 ≡ some (2 ∷ [])
unfolding rotate_now move_up shift make_room set_slot
rotate_now_drops = refl

-- Three lines of three bytes each, written in two pieces: the first line has rotated out twice.
abbrev pieces : List Bytes
pieces = (1 ∷ 2 ∷ b'\n' ∷ 3 ∷ []) ∷ (4 ∷ b'\n' ∷ 5 ∷ 6 ∷ b'\n' ∷ 7 ∷ []) ∷ []

kept-pieces :
    map {B = Bytes × List Bytes}
      (λ w. (w.partial, kept 2 w.files))
      (elim (write_all starred pieces (open_writer small empty)) [ none ↦ [] | some w ↦ w ∷ [] ])
    ≡ (
      (7 ∷ []),
      (b'*' ∷ b'*' ∷ b'\n' ∷ []) ∷ (b'*' ∷ b'*' ∷ b'\n' ∷ []) ∷ (b'*' ∷ b'*' ∷ b'\n' ∷ []) ∷ [],
    )
      ∷ []
unfolding write_all write write_lines keep_partial emit rotate rotate_now move_up shift make_room
    set_slot open_writer open_file append_active is_over
kept-pieces = refl

write_all-kept_example :
    let (out, left) = texts_all starred [] pieces in
    let log = log_all (pos 4) out (kept 2 full) in
    (w : Writer) × (write_all starred pieces (open_writer small full) ≡ some w)
    × (w.partial ≡ left)
    × (w.size ≡ length (active_bytes w.files))
    × (in_order log ≡ in_order (kept 2 full) ++ joined out)
    × ((older : List Bytes) × (log ≡ kept 2 w.files ++ older))
write_all-kept_example = write_all-kept starred small full 1 pieces refl

write-append_example :
    write starred (1 ∷ b'\n' ∷ 2 ∷ 3 ∷ []) (open_writer small empty)
    ≡ elim (write starred (1 ∷ b'\n' ∷ 2 ∷ []) (open_writer small empty)) [
      | none ↦ none
      | some w ↦ write starred (3 ∷ []) w
    ]
unfolding pending open_writer
write-append_example =
    write-append starred (1 ∷ b'\n' ∷ 2 ∷ []) (3 ∷ []) (open_writer small empty) (omega arith)
