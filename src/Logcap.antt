-- ===== src/Logcap.antt =====
-- internal/logcap: capturer.go (rotation of the files of a stream) and writer.go (the writer that
-- redacts each line and rotates at the size cap). A file is its bytes, a compressed archive the
-- bytes that it expands to, and the calls of the operating system succeed. `redact` is
-- `secret.RedactLine`.
pub mod Rotation
mod Endless
mod Retained
pub mod Stream
pub mod Chunks
mod Tests
use pmmcp.Prelude.{
  ℕ, zero, suc, ◌+◌, ◌-◌, Bool, true, false, ◌&&◌, Option, none, some, List, [], ◌∷◌, ◌++◌, ltb,
  ◌==◌, if◌then◌else◌, length,
}
use pmmcp.Prelude.Int.{mul64, ℤ, pos, pos_part, ltb_ℤ, leb_ℤ}

abbrev pub Bytes : Type 0
Bytes = List ℕ

-- The backups of a stream by their number, in one of the two forms.
abbrev pub Slots : Type 0
Slots = ℕ → Option Bytes

unfoldable pub set_slot : ℕ → Option Bytes → Slots → Slots
set_slot i v s j = if j == i then v else s j

-- The files of one stream: NAME, NAME.i and NAME.i.gz.
pub record Files : Type 0 where
  pub active : Option Bytes
  pub plain : Slots
  pub gz : Slots

pub record Capturer : Type 0 where
  pub max_file_bytes : ℤ
  pub max_files : ℕ
  pub compress : Bool

-- `New` of a directory that can be made.
unfoldable pub new_capturer : ℤ → ℤ → Capturer
new_capturer max_file_mb max_files = record {
  max_file_bytes =
      mul64 (mul64 (if leb_ℤ max_file_mb (pos 0) then pos 10 else max_file_mb) (pos 1024))
        (pos 1024);
  max_files = if leb_ℤ max_files (pos 0) then 5 else pos_part max_files;
  compress = true;
}

-- `os.Rename` of backup i to backup i + 1; a missing backup is left alone.
unfoldable pub move_up : ℕ → Slots → Slots
move_up i s = elim (s i) [ none ↦ s | some b ↦ set_slot i none (set_slot (suc i) (some b) s) ]

-- The loop over the backups from i down to 1.
unfoldable pub shift : ℕ → Slots → Slots
shift zero s = s
shift (suc i) s = shift i (move_up (suc i) s)

-- Drop the oldest backup and shift the others, for one of the two forms.
unfoldable pub make_room : ℕ → Slots → Slots
make_room max_files s = shift (max_files - 1) (set_slot max_files none s)

unfoldable pub rotate_now : Capturer → Files → Files
unfolding make_room
rotate_now c f =
    let plain = make_room c.max_files f.plain in
    let gz = make_room c.max_files f.gz in
    elim f.active [
      | none ↦ record { active = none; plain = plain; gz = gz }
      | some a ↦
          if c.compress
          then record { active = none; plain = set_slot 1 none plain; gz = set_slot 1 (some a) gz }
          else record { active = none; plain = set_slot 1 (some a) plain; gz = gz }
    ]

unfoldable pub rotate_one : Capturer → Files → Files
rotate_one c f = elim f.active [
  | none ↦ f
  | some a ↦ if ltb_ℤ (pos (length a)) c.max_file_bytes then f else rotate_now c f
]

-- `RotatingWriter`; while it is open its active file is there.
pub record Writer : Type 0 where
  pub cap : Capturer
  pub files : Files
  pub size : ℕ
  pub partial : Bytes
  pub closed : Bool

abbrev pub active_bytes : Files → Bytes
active_bytes f = elim f.active [ none ↦ [] | some a ↦ a ]

-- O_CREATE and O_APPEND.
unfoldable pub open_file : Files → Files
open_file f = record f { active = some (active_bytes f) }

unfoldable pub open_writer : Capturer → Files → Writer
open_writer c f = record {
  cap = c;
  files = open_file f;
  size = length (active_bytes f);
  partial = [];
  closed = false;
}

unfoldable pub rotate : Writer → Writer
rotate w =
    let f = open_file (rotate_now w.cap w.files) in
    record w { files = f; size = length (active_bytes f) }

unfoldable pub append_active : Bytes → Files → Files
append_active s f = record f { active = some (active_bytes f ++ s) }

-- The test of `emit`.
unfoldable pub is_over : Writer → Bytes → Bool
is_over w s =
    ltb_ℤ (pos 0) w.cap.max_file_bytes
    && (ltb 0 w.size && ltb_ℤ w.cap.max_file_bytes (pos (w.size + length s)))

unfoldable pub emit : Bytes → Writer → Writer
emit s w =
    let w' = if is_over w s then rotate w else w in
    record w' { files = append_active s w'.files; size = w'.size + length s }

abbrev pub max_partial_bytes : ℕ
max_partial_bytes = 262144

module _ (redact : Bytes → Bytes) where
  -- What is left when no newline is left.
  unfoldable pub keep_partial : Bytes → Writer → Writer
  keep_partial data' w =
      if ltb max_partial_bytes (length data')
      then record (emit (redact data') w) { partial = [] }
      else record w { partial = data' }

  -- The loop of `Write`, one byte at a time; `line` is what stands before the next newline.
  unfoldable pub write_lines : Bytes → Bytes → Writer → Writer
  write_lines line [] w = keep_partial line w
  write_lines line (c ∷ cs) w =
      let rest = write_lines [] cs (emit (redact line ++ b'\n' ∷ []) w) in
      let more = write_lines (line ++ c ∷ []) cs w in if c == b'\n' then rest else more

  -- `none` is the error on a closed writer.
  unfoldable pub write : Bytes → Writer → Option Writer
  write p w =
      if w.closed then none else some (write_lines [] (w.partial ++ p) (record w { partial = [] }))

  -- Without a partial line nothing is flushed; the size is no longer kept.
  unfoldable pub close : Writer → Writer
  close w =
      if w.closed
      then w
      else if length w.partial == 0
      then record w { closed = true }
      else record w {
        closed = true;
        partial = [];
        files = append_active (redact w.partial) w.files;
      }
