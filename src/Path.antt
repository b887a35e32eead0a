-- ===== src/Path.antt =====
-- Go's path/filepath on a host whose separator is '/', on paths as lists of code points: what the
-- program uses of it. A relative path is resolved by its caller.
pub mod Words
pub mod Under
pub mod Parent
use pmmcp.Prelude.{
  ℕ, Bool, not, ◌&&◌, ◌||◌, Option, none, some, List, [], ◌∷◌, ◌++◌, ◌==◌, if◌then◌else◌,
}
use pmmcp.Prelude.Runes.{Runes, codes, eq_runes, has_prefix, contains, is_empty}
use mathlib.Core.List.{reverse}

abbrev pub cons_head : ℕ → List Runes → List Runes
cons_head c [] = (c ∷ []) ∷ []
cons_head c (w ∷ ws) = (c ∷ w) ∷ ws

-- What stands between the separators.
unfoldable pub split : Runes → List Runes
split [] = [] ∷ []
split (c ∷ cs) = let rest = split cs in if c == b'/' then [] ∷ rest else cons_head c rest

abbrev pub back : Bool → List Runes → List Runes
back rooted [] = if rooted then [] else codes ".." ∷ []
back rooted (top ∷ stack) = if eq_runes top (codes "..") then codes ".." ∷ top ∷ stack else stack

-- One element of a path on the stack of those before it, the last first.
unfoldable pub push_word : Bool → List Runes → Runes → List Runes
push_word rooted stack p =
    if is_empty p || eq_runes p (codes ".")
    then stack
    else if eq_runes p (codes "..")
    then back rooted stack
    else p ∷ stack

unfoldable pub walk : Bool → List Runes → List Runes → List Runes
walk rooted stack [] = stack
walk rooted stack (p ∷ ps) = walk rooted (push_word rooted stack p) ps

-- `filepath.IsAbs`.
unfoldable pub is_abs : Runes → Bool
is_abs s = has_prefix s (codes "/")

-- The elements that are left of a path.
unfoldable pub words : Runes → List Runes
words s = reverse (walk (is_abs s) [] (split s))

unfoldable pub slashed : List Runes → Runes
slashed [] = []
slashed (p ∷ ps) = b'/' ∷ (p ++ slashed ps)

abbrev pub absolute : List Runes → Runes
absolute [] = codes "/"
absolute (p ∷ ps) = slashed (p ∷ ps)

abbrev pub relative : List Runes → Runes
relative [] = codes "."
relative (p ∷ ps) = p ++ slashed ps

-- `filepath.Clean`.
unfoldable pub clean : Runes → Runes
clean s = if is_abs s then absolute (words s) else relative (words s)

-- `filepath.Join` of a directory and a name.
unfoldable pub join : Runes → Runes → Runes
join dir name =
    if is_empty dir
    then if is_empty name then [] else clean name
    else if is_empty name
    then clean dir
    else clean (dir ++ b'/' ∷ name)

last_full : Runes → List Runes → Runes
last_full found [] = found
last_full found (w ∷ ws) = if is_empty w then last_full found ws else last_full w ws

-- `filepath.Base`.
unfoldable pub base : Runes → Runes
unfolding last_full
base s = if is_empty s then codes "." else last_full (codes "/") (split s)

-- As many parents as there are elements, and the path behind them.
unfoldable pub climb : List Runes → List Runes → List Runes
climb [] rest = rest
climb (w ∷ ws) rest = codes ".." ∷ climb ws rest

-- The way from one list of elements to another; none out of a parent directory.
unfoldable pub way : List Runes → List Runes → Option (List Runes)
way [] ts = some ts
way (b ∷ bs) [] = if eq_runes b (codes "..") then none else some (climb (b ∷ bs) [])
way (b ∷ bs) (t ∷ ts) =
    let rest = way bs ts in
    if eq_runes b t
    then rest
    else if eq_runes b (codes "..")
    then none
    else some (climb (b ∷ bs) (t ∷ ts))

-- `filepath.Rel`; none for its error.
unfoldable pub rel : Runes → Runes → Option Runes
rel from to =
    let found = way (words from) (words to) in
    let both = (is_abs from && is_abs to) || (not (is_abs from) && not (is_abs to)) in
    if both then elim found [ none ↦ none | some ws ↦ some (relative ws) ] else none

-- A path up to its last separator.
unfoldable pub dir_part : Runes → Runes
dir_part [] = []
dir_part (c ∷ cs) = let rest = dir_part cs in if contains b'/' (c ∷ cs) then c ∷ rest else []

-- `filepath.Dir`.
unfoldable pub dir : Runes → Runes
dir s = clean (dir_part s)
