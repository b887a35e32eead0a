-- ===== src/Secret.antt =====
-- internal/secret: references to secrets (uri.go) and the file keyring (keyring.go). The keyring's
-- lock is held for the whole of each operation, so an operation is one step.
mod Schemes
mod Refs
mod Names
pub mod Resolve
mod Inside
mod Tests
use pmmcp.Prelude.{ℕ, Bool, not, ◌||◌, Option, none, some, [], ◌∷◌, map, ◌==◌, if◌then◌else◌}
use pmmcp.Prelude.Runes.{
  Runes, codes, eq_runes, has_prefix, has_part, contains, is_empty, trim_space, trim_prefix,
  lower_rune,
}
use pmmcp.Prelude.Result.{Result, ok, err}

pub record Ref : Type 0 where
  pub scheme : Runes
  pub path : Runes
  pub key : Runes
  pub raw : Runes

pub data SecretError : Type 0 where
  empty_ref not_a_ref empty_secret_ref invalid_ref unknown_scheme invalid_keyring_name : SecretError
  env_not_set no_keyring keyring_read empty_path relative_needs_root needs_root outside_root :
      SecretError
  file_read sops_failed : SecretError

abbrev pub behind : ℕ → Option (Runes × Runes) → Option (Runes × Runes)
behind x none = none
behind x (some (before, after)) = some (x ∷ before, after)

-- `strings.IndexByte` of one character, with the text before it and behind it.
unfoldable pub cut : ℕ → Runes → Option (Runes × Runes)
cut c [] = none
cut c (x ∷ xs) = let rest = cut c xs in if x == c then some ([], xs) else behind x rest

unfoldable pub validate_keyring_name : Runes → Bool
validate_keyring_name name =
    not
      (is_empty name || (contains b'/' name || (contains b'\\' name || has_part name (codes ".."))))

unfoldable pub is_scheme : Runes → Bool
is_scheme s =
    eq_runes s (codes "keyring")
    || (eq_runes s (codes "sops") || (eq_runes s (codes "file") || eq_runes s (codes "env")))

unfoldable pub looks_like_ref : Runes → Bool
looks_like_ref s = has_prefix (trim_space s) (codes "secret://")

-- The fragment behind `#`, if any, and what is before it.
unfoldable pub split_key : Runes → Runes × Runes
split_key rest = elim (cut b'#' rest) [ none ↦ (rest, []) | some (before, key) ↦ (before, key) ]

-- The forms scheme:path and scheme/path.
unfoldable pub split_scheme : Runes → Option (Runes × Runes)
split_scheme rest = elim (cut b':' rest) [
  | none ↦ cut b'/' rest
  | some (scheme, path) ↦ if contains b'/' scheme then cut b'/' rest else some (scheme, path)
]

-- The path of a reference to the keyring is a name in it.
unfoldable pub named_ref : Runes → Runes → Runes → Runes → Result SecretError Ref
named_ref raw scheme path key =
    let name = trim_prefix (trim_prefix path (codes "pmmcp/")) (codes "/") in
    if is_empty scheme || is_empty path
    then err invalid_ref
    else if not (is_scheme scheme)
    then err unknown_scheme
    else if not (eq_runes scheme (codes "keyring"))
    then ok (record { scheme = scheme; path = path; key = key; raw = raw })
    else if validate_keyring_name name
    then ok (record { scheme = scheme; path = name; key = key; raw = raw })
    else err invalid_keyring_name

-- `lower_wide` is `unicode.ToLower` of a rune that is not ASCII.
module _ (lower_wide : ℕ → ℕ) where
  unfoldable pub parse_ref : Runes → Result SecretError Ref
  parse_ref given =
      let raw = trim_space given in
      let all = trim_prefix raw (codes "secret://") in
      let (rest, key) = split_key all in
      if is_empty raw
      then err empty_ref
      else if not (has_prefix raw (codes "secret://"))
      then err not_a_ref
      else if is_empty all
      then err empty_secret_ref
      else elim (split_scheme rest) [
        | none ↦ err invalid_ref
        | some (scheme, path) ↦
            named_ref raw (trim_space (map (lower_rune lower_wide) scheme)) (trim_space path) key
      ]
