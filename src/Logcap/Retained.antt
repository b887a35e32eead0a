-- ===== src/Logcap/Retained.antt =====
-- The files that internal/logcap keeps of a stream (writer.go), beside a log that keeps every file.
use pmmcp.Prelude.{
  ℕ, zero, suc, List, ◌∷◌, ◌&&◌, ltb, ap, ◌+◌, ◌≤◌, ◌<◌, ◌≡◌, refl, sym, ◌∙◌, inl, inr, Option,
  none, some, [], ◌++◌, arith, Bool-cases, length, length-append,
}
use pmmcp.Prelude.Int.{ℤ, pos, ltb_ℤ}
use mathlib.Core.List.{append-nil, append_assoc}
use pmmcp.Logcap.{
  Bytes, Files, Capturer, Writer, rotate_now, active_bytes, open_file, rotate, append_active,
  is_over, emit,
}
use pmmcp.Logcap.Endless.{log_text, log_all, log_all-append}
use pmmcp.Logcap.Rotation.{rotate_now-slots}

abbrev pub bytes_of : Option Bytes → Bytes
bytes_of none = []
bytes_of (some b) = b

abbrev pub content : Files → ℕ → Bytes
content f i = bytes_of (f.gz i) ++ bytes_of (f.plain i)

-- The backups 1 to n, the newest first.
abbrev pub backups : ℕ → Files → List Bytes
backups zero f = []
backups (suc n) f = backups n f ++ content f (suc n) ∷ []

-- All that is kept of a stream: the active file and the backups, the newest first.
abbrev pub kept : ℕ → Files → List Bytes
kept n f = active_bytes f ∷ backups n f

rotated-content :
    (c : Capturer) (f : Files) (n : ℕ) (a : Bytes)
    → c.max_files ≡ suc n
    → f.active ≡ some a
    → (content (rotate_now c f) 1 ≡ a)
      × ((i : ℕ) → 0 < i → i ≤ n → content (rotate_now c f) (suc i) ≡ content f i)
rotated-content c f n a files held =
    let (gone, first, other, moved, beyond) = rotate_now-slots c f n a files held in
    (
      elim (Bool-cases c.compress) [
        | inl z ↦ ground (arith, z, first, other, append-nil a)
        | inr z ↦ ground (arith, z, first, other)
      ],
      λ i lo hi. let (p, g) = moved i lo hi in λ t. bytes_of (g t) ++ bytes_of (p t),
    )

rotated-backups :
    (c : Capturer) (f : Files) (n : ℕ) (a : Bytes)
    → c.max_files ≡ suc n
    → f.active ≡ some a
    → (k : ℕ) → k ≤ n
    → backups (suc k) (rotate_now c f) ≡ a ∷ backups k f
rotated-backups c f n a files held zero h =
    let (first, moved) = rotated-content c f n a files held in λ t. first t ∷ []
rotated-backups c f n a files held (suc k) h =
    let (first, moved) = rotated-content c f n a files held in
    let rest = rotated-backups c f n a files held k (omega arith) in
    λ t. rest t ++ moved (suc k) (omega arith) (omega arith) t ∷ []

-- A writer with n + 1 backups and that limit, whose active file is there and has the size that the
-- writer keeps.
pub record IsOpen (max : ℤ) (n : ℕ) (w : Writer) : Type 0 where
  pub limit : w.cap.max_file_bytes ≡ max
  pub files_kept : w.cap.max_files ≡ suc n
  pub active : (a : Bytes) × (w.files.active ≡ some a)
  pub sized : w.size ≡ length (active_bytes w.files)

-- If w keeps the newest files of a log, w' keeps those of that log with the texts behind it.
abbrev pub Carries : ℤ → ℕ → List Bytes → Writer → Writer → Type 0
Carries max n ss w w' =
    (older : List Bytes)
    → (older' : List Bytes) × (log_all max ss (kept (suc n) w.files ++ older)
        ≡ kept (suc n) w'.files ++ older')

pub Carries-trans :
    (max : ℤ) (n : ℕ) (ss ts : List Bytes) (a b c : Writer)
    → Carries max n ss a b
    → Carries max n ts b c
    → Carries max n (ss ++ ts) a c
Carries-trans max n ss ts a b c p q older =
    let (mid, e) = p older in
    let (last, e') = q mid in
    (
      last,
      log_all-append max ss ts (kept (suc n) a.files ++ older) ∙ (λ t. log_all max ts (e t)) ∙ e',
    )

backups-active :
    (n : ℕ) (f : Files) (a : Option Bytes) → backups n (record f { active = a }) ≡ backups n f
backups-active zero f a = refl
backups-active (suc n) f a = λ t. backups-active n f a t ++ content f (suc n) ∷ []

pub kept-open_file : (n : ℕ) (f : Files) → kept n (open_file f) ≡ kept n f
unfolding open_file
kept-open_file n f = λ t. active_bytes f ∷ backups-active n f (some (active_bytes f)) t

kept-append_active :
    (n : ℕ) (f : Files) (s : Bytes)
    → kept n (append_active s f) ≡ (active_bytes f ++ s) ∷ backups n f
unfolding append_active
kept-append_active n f s =
    λ t. (active_bytes f ++ s) ∷ backups-active n f (some (active_bytes f ++ s)) t

rotate-kept :
    (max : ℤ) (n : ℕ) (w : Writer)
    → IsOpen max n w
    → (kept (suc n) (rotate w).files ≡ [] ∷ kept n w.files) × IsOpen max n (rotate w)
unfolding rotate open_file
rotate-kept max n w o =
    let (a, held) = o.active in
    let (gone, first, other, moved, beyond) =
      rotate_now-slots w.cap w.files n a o.files_kept held in
    let back = rotated-backups w.cap w.files n a o.files_kept held n (omega arith) in
    let f' = rotate_now w.cap w.files in
    let empty : active_bytes f' ≡ [] = ground (arith, gone) in
    let was : a ≡ active_bytes w.files = ground (arith, held) in
    (
      kept-open_file (suc n) f' ∙ (λ t. empty t ∷ back t) ∙ (λ t. [] ∷ was t ∷ backups n w.files),
      record {
        limit = o.limit;
        files_kept = o.files_kept;
        active = (active_bytes f', refl);
        sized = refl;
      },
    )

abbrev added : Bytes → Writer → Writer
added s w = record w { files = append_active s w.files; size = w.size + length s }

added-IsOpen :
    (max : ℤ) (n : ℕ) (w : Writer) (s : Bytes) → IsOpen max n w → IsOpen max n (added s w)
added-IsOpen max n w s o = record {
  limit = o.limit;
  files_kept = o.files_kept;
  active = (active_bytes w.files ++ s, unfold append_active in refl);
  sized = unfold append_active in omega (arith, length-append (active_bytes w.files) s, o.sized);
}

-- The test of `emit` is that of the log.
is_over-same :
    (max : ℤ) (n : ℕ) (w : Writer) (s : Bytes)
    → IsOpen max n w
    → is_over w s ≡ (
        ltb_ℤ (pos 0) max
        && (ltb 0 (length (active_bytes w.files))
            && ltb_ℤ max (pos (length (active_bytes w.files) + length s))))
unfolding is_over
is_over-same max n w s o = rw (o.limit, o.sized) refl

-- The text behind the newest file.
abbrev onto : Bytes → List Bytes → List Bytes
onto s [] = s ∷ []
onto s (a ∷ old) = (a ++ s) ∷ old

emit-log :
    (max : ℤ) (n : ℕ) (w : Writer) (s : Bytes) (older : List Bytes)
    → IsOpen max n w
    → (older' : List Bytes) × (log_text max s (kept (suc n) w.files ++ older)
        ≡ kept (suc n) (emit s w).files ++ older')
unfolding emit log_text
emit-log max n w s older o = elim (Bool-cases (is_over w s)) [
  | inr room ↦
      let test = sym (is_over-same max n w s o) ∙ room in
      rw (room, test) (older, λ t. sym (kept-append_active (suc n) w.files s) t ++ older)
  | inl over ↦
      let test = sym (is_over-same max n w s o) ∙ over in
      let (shifted, o') = rotate-kept max n w o in
      let after : kept (suc n) (append_active s (rotate w).files) ≡ s ∷ kept n w.files =
        kept-append_active (suc n) (rotate w).files s ∙ ap (onto s) shifted in
      rw (over, test)
        (
          content w.files (suc n) ∷ older,
          (λ t.
                s
                ∷ active_bytes w.files
                ∷ append_assoc (backups n w.files) (content w.files (suc n) ∷ []) older t)
              ∙ (λ t. sym after t ++ content w.files (suc n) ∷ older),
        )
]

pub emit-Carries :
    (max : ℤ) (n : ℕ) (w : Writer) (s : Bytes)
    → IsOpen max n w
    → Carries max n (s ∷ []) w (emit s w) × IsOpen max n (emit s w)
unfolding emit log_all
emit-Carries max n w s o = (
  (λ older. emit-log max n w s older o),
  elim (Bool-cases (is_over w s)) [
    | inr room ↦ rw room (added-IsOpen max n w s o)
    | inl over ↦ rw over (added-IsOpen max n (rotate w) s (rotate-kept max n w o).1)
  ],
)
