-- ===== src/Logcap/Endless.antt =====
-- A log of texts that is split into files as the `RotatingWriter` of internal/logcap (writer.go)
-- splits it, and of which no file is ever dropped.
use pmmcp.Prelude.{
  List, ◌∷◌, ◌&&◌, ltb, if◌then◌else◌, ◌+◌, ◌≡◌, refl, sym, ◌∙◌, inl, inr, [], ◌++◌, Bool-cases,
  length,
}
use pmmcp.Prelude.Int.{ℤ, pos, ltb_ℤ}
use mathlib.Core.List.{append-nil, append_assoc}
use pmmcp.Logcap.{Bytes}

-- A log that keeps every file, the newest first. A text goes behind the newest file, or into a new one
-- if it would take a newest file that is not empty over the limit; a limit of 0 is none.
unfoldable pub log_text : ℤ → Bytes → List Bytes → List Bytes
log_text max s [] = s ∷ []
log_text max s (a ∷ old) =
    if ltb_ℤ (pos 0) max && (ltb 0 (length a) && ltb_ℤ max (pos (length a + length s)))
    then s ∷ a ∷ old
    else (a ++ s) ∷ old

unfoldable pub log_all : ℤ → List Bytes → List Bytes → List Bytes
log_all max [] l = l
log_all max (s ∷ ss) l = log_all max ss (log_text max s l)

-- The bytes of such a log in the order in which they were written.
abbrev pub in_order : List Bytes → Bytes
in_order [] = []
in_order (a ∷ old) = in_order old ++ a

abbrev pub joined : List Bytes → Bytes
joined [] = []
joined (s ∷ ss) = s ++ joined ss

in_order-log_text :
    (max : ℤ) (s : Bytes) (l : List Bytes) → in_order (log_text max s l) ≡ in_order l ++ s
unfolding log_text
in_order-log_text max s [] = refl
in_order-log_text max s (a ∷ old) =
    elim (Bool-cases
      (ltb_ℤ (pos 0) max && (ltb 0 (length a) && ltb_ℤ max (pos (length a + length s))))) [
        | inl over ↦ rw over refl
        | inr room ↦ rw room (sym (append_assoc (in_order old) a s))
      ]

-- Such a log loses nothing.
pub in_order-log_all :
    (max : ℤ) (ss l : List Bytes) → in_order (log_all max ss l) ≡ in_order l ++ joined ss
unfolding log_all
in_order-log_all max [] l = sym (append-nil (in_order l))
in_order-log_all max (s ∷ ss) l =
    in_order-log_all max ss (log_text max s l)
    ∙ (λ t. in_order-log_text max s l t ++ joined ss)
    ∙ append_assoc (in_order l) s (joined ss)

pub log_all-append :
    (max : ℤ) (ss ts l : List Bytes) → log_all max (ss ++ ts) l ≡ log_all max ts (log_all max ss l)
unfolding log_all
log_all-append max [] ts l = refl
log_all-append max (s ∷ ss) ts l = log_all-append max ss ts (log_text max s l)
