-- ===== src/Sandbox/Tests.antt =====
-- Runs of the policy at concrete paths, and the witnesses.
use pmmcp.Prelude.{◌≡◌, refl, ◌≢◌, ◌↔◌, true, false, none, [], ◌∷◌, elem}
use pmmcp.Prelude.Runes.{
  Runes, codes, eq_runes, has_prefix, has_suffix, has_part, trim_space, trim_left, is_space,
}
use pmmcp.Prelude.Result.{ok, err}
use pmmcp.Path.{is_abs, clean, words, walk, push_word, split, slashed}
use pmmcp.Sandbox.{
  Policy, unknown_profile, is_valid, is_under, allows_read, allows_write, default_policy, roots_of,
  contains_path, root_prefix, normalize_path, is_ssh_style_path, slashy, is_denied,
  path_matches_deny,
}
use pmmcp.Sandbox.Grants.{Above, allows_write_iff, allows_read-no_ssh}

abbrev tmp : Runes
tmp = codes "/tmp"

abbrev strict_policy : Policy
strict_policy = record {
  profile = "strict";
  writable_roots = codes "/w/app" ∷ tmp ∷ [];
  read_deny = codes "/.ssh" ∷ codes "/docker.sock" ∷ [];
}

clean-dots : clean (codes "//a/./b/../../c/") ≡ codes "/c"
unfolding clean is_abs has_prefix codes words walk push_word split slashed eq_runes
clean-dots = refl

clean-outside : clean (codes "a/../../b") ≡ codes "../b"
unfolding clean is_abs has_prefix codes words walk push_word split slashed eq_runes
clean-outside = refl

default_policy-unknown : default_policy tmp none "loose" (codes "/w") ≡ err unknown_profile
unfolding default_policy is_valid elem
default_policy-unknown = refl

default_policy-strict :
    elim (default_policy tmp none "strict" (codes " /w/app/ ")) [
      | ok p ↦ p.writable_roots
      | err e ↦ []
    ]
    ≡ codes "/w/app" ∷ tmp ∷ []
unfolding default_policy is_valid elem trim_space trim_left is_space codes clean is_abs has_prefix
    words walk push_word split slashed eq_runes roots_of contains_path
default_policy-strict = refl

is_under_sibling : is_under (codes "/w/apple") (codes "/w/app") ≡ false
unfolding is_under root_prefix has_suffix clean is_abs has_prefix codes words walk push_word split
    slashed eq_runes
is_under_sibling = refl

abbrev climbing : Runes
climbing = codes " /w/app/../../etc/passwd"

allows_write_iff_example : (allows_write strict_policy climbing ≡ true) ↔ (
    (is_valid "strict" ≡ true)
    × (allows_read strict_policy (clean (trim_space climbing)) ≡ true)
    × Above (trim_space climbing) strict_policy.writable_roots)
unfolding is_abs has_prefix codes trim_space trim_left is_space
allows_write_iff_example = allows_write_iff strict_policy climbing refl refl (refl, (refl, tt))

allows_read-no_ssh_example :
    words (trim_space (codes "/etc/hosts")) ≢ codes "etc" ∷ codes ".ssh" ∷ []
unfolding is_abs has_prefix codes trim_space trim_left is_space allows_read is_valid elem
    normalize_path is_ssh_style_path slashy has_part has_suffix eq_runes is_denied path_matches_deny
    is_under root_prefix clean words walk push_word split slashed
allows_read-no_ssh_example =
    allows_read-no_ssh strict_policy (codes "/etc/hosts") refl refl refl (codes "etc" ∷ []) []
