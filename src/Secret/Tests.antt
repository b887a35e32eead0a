-- ===== src/Secret/Tests.antt =====
-- References parsed at concrete texts, and the witnesses.
use pmmcp.Prelude.{
  ◌≢◌, ◌≡◌, refl, ap, ◌↔◌, inl, inr, false, Option, none, some, [], arith, if◌then◌else◌,
  Bool-cases, length,
}
use pmmcp.Prelude.Runes.{
  Runes, lower_rune, codes, eq_runes, has_prefix, has_part, contains, is_space, trim_left,
  trim_space, trim_prefix,
}
use pmmcp.Prelude.Result.{ok, err}
use pmmcp.Secret.{
  Ref, invalid_keyring_name, validate_keyring_name, is_scheme, split_key, split_scheme, cut,
  named_ref, parse_ref,
}
use pmmcp.Path.{is_abs, clean, join, words, walk, push_word, split, slashed}
use pmmcp.Path.Under.{StartsWith}
use pmmcp.Secret.Resolve.{
  PathOptions, outside_root, eval_elements, eval_existing, resolved_root, placed, resolve_path,
}
use pmmcp.Secret.Inside.{IsClean, CleanLinks, resolve_path_iff}
use mathlib.Core.Path.{subst}
use pmmcp.Secret.Names.{starts_clean, ends_clean}
use pmmcp.Secret.Refs.{print_ref, IsKnown, IsBareName, parse_ref-print, parse_ref-IsSafe}

abbrev keyring_ref : Ref
keyring_ref = record {
  scheme = codes "keyring";
  path = codes "db";
  key = [];
  raw = codes "secret://Keyring/pmmcp/db";
}

parses_keyring : parse_ref (λ c. c) (codes " secret://Keyring/pmmcp/db ") ≡ ok keyring_ref
unfolding parse_ref named_ref split_key split_scheme cut lower_rune is_scheme validate_keyring_name
    codes eq_runes has_prefix has_part contains is_space trim_left trim_space trim_prefix
parses_keyring = refl

refuses_traversal :
    parse_ref (λ c. c) (codes "secret://keyring/../../etc") ≡ err invalid_keyring_name
unfolding parse_ref named_ref split_key split_scheme cut lower_rune is_scheme validate_keyring_name
    codes eq_runes has_prefix has_part contains is_space trim_left trim_space trim_prefix
refuses_traversal = refl

parse_ref-print_example :
    parse_ref (λ c. c) (print_ref b':' (codes "sops") (codes "env/a:b.yaml") (codes "db.url"))
    ≡ ok (record {
      scheme = codes "sops";
      path = codes "env/a:b.yaml";
      key = codes "db.url";
      raw = print_ref b':' (codes "sops") (codes "env/a:b.yaml") (codes "db.url");
    })
unfolding is_scheme eq_runes codes starts_clean ends_clean is_space contains
parse_ref-print_example =
    parse_ref-print (λ c. c) b':' (codes "sops") (codes "env/a:b.yaml") (codes "db.url") (inl refl)
      (record {
        known = refl;
        starts = refl;
        ends = refl;
        no_hash = refl;
        key_ends = inr refl;
        named = λ e. absurd (omega (arith, ap length e));
      })

parse_ref-IsSafe_example :
    IsKnown (codes "keyring")
    × (codes "db" ≢ [])
    × (keyring_ref.raw ≡ trim_space (codes " secret://Keyring/pmmcp/db "))
    × (codes "keyring" ≡ codes "keyring" → IsBareName (codes "db"))
parse_ref-IsSafe_example =
    parse_ref-IsSafe (λ c. c) (codes " secret://Keyring/pmmcp/db ") keyring_ref parses_keyring

-- One link, out of the project.
abbrev one_link : Runes → Option Runes
one_link s = if eq_runes s (codes "/w/link") then some (codes "/etc") else none

one_link-CleanLinks : CleanLinks one_link
unfolding is_abs has_prefix codes clean words walk push_word split slashed eq_runes
one_link-CleanLinks s r e = elim (Bool-cases (eq_runes s (codes "/w/link"))) [
  | inr n ↦ absurd (ground (arith, e, n))
  | inl y ↦ let same : codes "/etc" ≡ r = ground (arith, e, y) in subst IsClean same (refl, refl)
]

abbrev in_project : PathOptions
in_project = record { project_root = codes "/w"; allow_file_outside_project = false }

refuses_link : resolve_path one_link (codes "link/passwd") in_project ≡ err outside_root
unfolding resolve_path eval_existing eval_elements resolved_root trim_space trim_left is_space
    is_abs has_prefix codes clean join words walk push_word split slashed eq_runes
refuses_link = refl

resolve_path_iff_example :
    let path = placed one_link in_project (trim_space (codes "sub/key")) in
    (resolve_path one_link (codes "sub/key") in_project ≡ ok path)
    ↔ StartsWith (words (eval_existing one_link path)) (words (resolved_root one_link in_project))
unfolding resolved_root trim_space trim_left is_space is_abs has_prefix codes clean words walk
    push_word split slashed eq_runes
resolve_path_iff_example =
    resolve_path_iff one_link one_link-CleanLinks (codes "sub/key") in_project refl refl refl
      (λ e. absurd (omega (arith, ap length e)))
