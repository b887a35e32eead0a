-- ===== src/Declare/Contain.antt =====
-- Which paths a document may watch (policy.go of internal/declare), by the elements of the paths.
use pmmcp.Prelude.{
  ◌≡◌, refl, sym, ap, ◌∙◌, ◌↔◌, ◌⊎◌, inl, inr, true, false, some, List, [], ◌∷◌, ◌++◌, arith,
  if◌then◌else◌, Bool-cases, length, drop, get_or,
}
use pmmcp.Prelude.Runes.{
  Runes, contains, codes, eq_runes, eq_runes_iff, has_prefix, has_prefix_iff, is_empty, trim_space,
}
use pmmcp.Path.{is_abs, words, slashed, relative, climb, way, rel, clean, join}
use pmmcp.Path.Words.{
  is_name, is_plain, all_plain, words-plain, words-clean, is_abs-clean, is_abs-full,
}
use pmmcp.Path.Under.{StartsWith, Ends, name-has_prefix}
use pmmcp.Declare.{leads_out, path_outside_project}
use mathlib.Core.List.{append_assoc}

parent-leads_out : (ws : List Runes) → leads_out (codes ".." ++ slashed ws) ≡ true
unfolding leads_out codes slashed eq_runes has_prefix
parent-leads_out [] = refl
parent-leads_out (w ∷ ws) = refl

climb-leads_out :
    (b : Runes) (bs rest : List Runes) → leads_out (relative (climb (b ∷ bs) rest)) ≡ true
unfolding climb
climb-leads_out b bs rest = parent-leads_out (climb bs rest)

-- With a separator behind it, a path that leads out begins with a parent directory.
leads_out-prefix :
    (s : Runes) → leads_out s ≡ true → has_prefix (s ++ codes "/") (codes "../") ≡ true
unfolding leads_out
leads_out-prefix s h = elim (Bool-cases (eq_runes s (codes ".."))) [
  | inl e ↦
      let same = (eq_runes_iff s (codes "..")).0 e in
      (λ i. has_prefix (same i ++ codes "/") (codes "../")) ∙ (unfold codes has_prefix in refl)
  | inr n ↦
      let (r, e) = (has_prefix_iff s (codes "../")).0 (ground (arith, h, n)) in
      (has_prefix_iff (s ++ codes "/") (codes "../")).1
        (r ++ codes "/", (λ i. e i ++ codes "/") ∙ append_assoc (codes "../") r (codes "/"))
]

plain-stays : (ws : List Runes) → all_plain ws ≡ true → leads_out (relative ws) ≡ false
plain-stays [] h = unfold leads_out codes eq_runes has_prefix in refl
plain-stays (w ∷ ws) h = elim (Bool-cases (leads_out (w ++ slashed ws))) [
  | inr n ↦ n
  | inl y ↦
      let begins =
        (λ i. has_prefix (sym (append_assoc w (slashed ws) (codes "/")) i) (codes "../"))
        ∙ leads_out-prefix (w ++ slashed ws) y in
      let (same, _) =
        name-has_prefix w (codes "..") (slashed ws ++ codes "/") []
          (unfold all_plain is_plain in ground arith) (unfold is_name contains codes in refl)
          (ends ws) (unfold codes in begins) in
      absurd (unfold all_plain is_plain in ground (arith, (eq_runes_iff w (codes "..")).1 same))
]
  where
    ends : (vs : List Runes) → Ends (slashed vs ++ codes "/")
    ends [] = unfold slashed codes in refl
    ends (v ∷ vs) = unfold slashed in refl

-- The way from one list of plain elements to another leads out unless the one begins the other.
way-cases :
    (bs ts : List Runes)
    → all_plain bs ≡ true
    → all_plain ts ≡ true
    → (ws : List Runes) × (way bs ts ≡ some ws)
      × ((leads_out (relative ws) ≡ false) ↔ StartsWith ts bs)
unfolding way all_plain is_plain
way-cases [] ts hb ht = (ts, refl, ((λ h. (ts, refl)), (λ h. plain-stays ts ht)))
way-cases (b ∷ bs) [] hb ht = (
  climb (b ∷ bs) [],
  ground arith,
  (
    (λ h. absurd (ground (arith, h, climb-leads_out b bs []))),
    (λ (es, e). absurd (omega (arith, ap length e))),
  ),
)
way-cases (b ∷ bs) (t ∷ ts) hb ht = elim (Bool-cases (eq_runes b t)) [
  | inl y ↦
      let (ws, found, split) = way-cases bs ts (ground arith) (ground arith) in
      let same = (eq_runes_iff b t).0 y in
      (
        ws,
        rw y found,
        (
          (λ h. let (es, e) = split.0 h in (es, λ i. sym same i ∷ e i)),
          (λ (es, e). split.1 (es, ap (drop 1) e)),
        ),
      )
  | inr n ↦ (
    climb (b ∷ bs) (t ∷ ts),
    rw n (ground arith),
    (
      (λ h. absurd (ground (arith, h, climb-leads_out b bs (t ∷ ts)))),
      (λ (es, e).
          let same : t ≡ b = ap (λ l. get_or l 0 []) e in
          absurd (ground (arith, n, (eq_runes_iff b t).1 (sym same)))),
    ),
  )
]

-- A path as it is taken: from the project root, unless it is rooted itself.
abbrev pub from_root : Runes → Runes → Runes
from_root root p = if is_abs p then p else root ++ b'/' ∷ p

is_abs-from_root : (p root : Runes) → is_abs root ≡ true → is_abs (from_root root p) ≡ true
is_abs-from_root p root h = elim (Bool-cases (is_abs p)) [
  | inl y ↦ rw (y) y
  | inr n ↦ rw n (begins root h)
]
  where
    begins : (r : Runes) → is_abs r ≡ true → is_abs (r ++ b'/' ∷ p) ≡ true
    begins [] h = unfold is_abs has_prefix codes in refl
    begins (c ∷ r) h = unfold is_abs has_prefix codes in ground (arith, h)

-- The path that the code compares with the root has the elements of the path as it is taken.
settle :
    (p root : Runes)
    → is_abs root ≡ true
    → is_empty (trim_space p) ≡ false
    → (is_abs (clean (if is_abs p then p else join root p)) ≡ true)
      × (words (clean (if is_abs p then p else join root p)) ≡ words (from_root root p))
settle p root h there = elim (Bool-cases (is_abs p)) [
  | inl y ↦ rw y (is_abs-clean p y, words-clean p y)
  | inr n ↦
      let x = root ++ b'/' ∷ p in
      let whole : is_abs x ≡ true =
        (λ i. is_abs (if sym n i then p else x)) ∙ is_abs-from_root p root h in
      let joined : join root p ≡ clean x =
        unfold join in rw (is_abs-full root h, full p there) refl in
      let again = is_abs-clean x whole in
      rw (n, joined)
        (is_abs-clean (clean x) again, words-clean (clean x) again ∙ words-clean x whole)
]
  where
    full : (q : Runes) → is_empty (trim_space q) ≡ false → is_empty q ≡ false
    full [] e = unfold trim_space in e
    full (c ∷ q) e = refl

-- With a rooted project root, a path is inside the project exactly when it is blank or its elements,
-- taken from the root and with the current and parent directories in it resolved, begin with the
-- root's.
pub path_outside_project_iff :
    (p root : Runes)
    → is_abs root ≡ true
    → (path_outside_project p root ≡ false)
      ↔ ((is_empty (trim_space p) ≡ true) ⊎ StartsWith (words (from_root root p)) (words root))
path_outside_project_iff p root hr = elim (Bool-cases (is_empty (trim_space p))) [
  | inl blank ↦ ((λ h. inl blank), (λ h. unfold path_outside_project in rw blank refl))
  | inr there ↦
      let (rooted, same) = settle p root hr there in
      let (ws, found, split) =
        way-cases (words root) (words (from_root root p)) (words-plain root hr)
          (words-plain (from_root root p) (is_abs-from_root p root hr)) in
      let meant : path_outside_project p root ≡ leads_out (relative ws) =
        unfold path_outside_project rel in
        rw
          (
            there,
            is_abs-full root hr,
            is_abs-clean root hr,
            rooted,
            words-clean root hr,
            same,
            found,
          )
          refl in
      (
        (λ h. inr (split.0 (sym meant ∙ h))),
        (λ h. elim h [ inl y ↦ absurd (ground (arith, y, there)) | inr w ↦ meant ∙ split.1 w ]),
      )
]
