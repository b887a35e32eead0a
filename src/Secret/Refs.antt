-- ===== src/Secret/Refs.antt =====
-- References that are written out and parsed again (uri.go of internal/secret), and what a parsed
-- reference to the keyring can name.
use pmmcp.Prelude.{
  ℕ, ◌≡◌, ◌≢◌, refl, ap, ◌∙◌, ◌⊎◌, inl, inr, true, false, [], ◌∷◌, ◌++◌, map, arith, ◌==◌,
  Bool-cases, Option-cases, length,
}
use pmmcp.Prelude.Runes.{
  lower_rune, Runes, codes, eq_runes, eq_runes_iff, has_prefix_iff, contains, has_part,
  has_part-append, is_empty, is_space, trim_space, trim_prefix,
}
use pmmcp.Prelude.Result.{ok}
use pmmcp.Secret.{
  Ref, validate_keyring_name, is_scheme, split_key, split_scheme, named_ref, parse_ref,
}
use pmmcp.Secret.Schemes.{plain_scheme}
use pmmcp.Secret.Names.{
  starts_clean, ends_clean, trim_space-clean, ends_clean-append, contains-append, contains-middle,
  cut-absent, cut-append, split_scheme-append, trim_prefix-absent, trim_prefix-append,
}
use mathlib.Core.List.{append-nil}

abbrev pub fragment : Runes → Runes
fragment [] = []
fragment (c ∷ key) = b'#' ∷ c ∷ key

-- `sep` stands between the scheme and the path.
abbrev pub print_ref : ℕ → Runes → Runes → Runes → Runes
print_ref sep scheme path key = codes "secret://" ++ ((scheme ++ sep ∷ path) ++ fragment key)

-- A known scheme; a path without spaces around it and without `#`; a key that does not end in a
-- space; and a valid name if the scheme is the keyring's.
pub record IsWritten (scheme path key : Runes) : Type 0 where
  pub known : is_scheme scheme ≡ true
  pub starts : starts_clean path ≡ true
  pub ends : ends_clean path ≡ true
  pub no_hash : contains b'#' path ≡ false
  pub key_ends : (key ≡ []) ⊎ (ends_clean key ≡ true)
  pub named : (scheme ≡ codes "keyring") → validate_keyring_name path ≡ true

-- A name of a file in a directory: not empty, and nowhere in it a separator or `..`.
abbrev pub IsBareName : Runes → Type 0
IsBareName name =
    (name ≢ [])
    × ((before after : Runes) → name ≢ before ++ b'/' ∷ after)
    × ((before after : Runes) → name ≢ before ++ b'\\' ∷ after)
    × ((before after : Runes) → name ≢ before ++ b'.' ∷ b'.' ∷ after)

full-ne : (s : Runes) → is_empty s ≡ false → s ≢ []
full-ne [] h e = absurd (ground (arith, h))
full-ne (c ∷ s) h e = absurd (omega (arith, ap length e))

validate_keyring_name-IsBareName :
    (name : Runes) → validate_keyring_name name ≡ true → IsBareName name
unfolding validate_keyring_name codes
validate_keyring_name-IsBareName name h = (
  full-ne name (ground arith),
  (λ before after e. ground (arith, ap (contains b'/') e, contains-middle b'/' before after)),
  (λ before after e. ground (arith, ap (contains b'\\') e, contains-middle b'\\' before after)),
  (λ before after e.
      ground
        (arith, ap (λ x. has_part x (codes "..")) e, has_part-append before (codes "..") after)),
)

-- The scheme is one of the four.
abbrev pub IsKnown : Runes → Type 0
IsKnown s = (s ≡ codes "keyring") ⊎ (s ≡ codes "sops") ⊎ (s ≡ codes "file") ⊎ (s ≡ codes "env")

is_scheme-IsKnown : (s : Runes) → is_scheme s ≡ true → IsKnown s
unfolding is_scheme
is_scheme-IsKnown s h = ground (
  arith,
  eq_runes_iff s (codes "keyring"),
  eq_runes_iff s (codes "sops"),
  eq_runes_iff s (codes "file"),
  eq_runes_iff s (codes "env"),
)

named_ref-IsSafe :
    (raw scheme path key : Runes) (r : Ref)
    → named_ref raw scheme path key ≡ ok r
    → IsKnown r.scheme
      × (r.path ≢ [])
      × (r.raw ≡ raw)
      × (r.scheme ≡ codes "keyring" → IsBareName r.path)
unfolding named_ref
named_ref-IsSafe raw scheme path key r h = (
  is_scheme-IsKnown r.scheme (ground (arith, h)),
  full-ne r.path (unfold validate_keyring_name in ground (arith, h)),
  ground (arith, h),
  λ ring.
      validate_keyring_name-IsBareName r.path
        (ground (arith, h, (eq_runes_iff r.scheme (codes "keyring")).1 ring)),
)

module _ (lower_wide : ℕ → ℕ) where
  split_key-print :
      (rest key : Runes)
      → contains b'#' rest ≡ false
      → split_key (rest ++ fragment key) ≡ (rest, key)
  unfolding split_key
  split_key-print rest [] h =
      (λ i. split_key (append-nil rest i)) ∙ rw (split_key, cut-absent b'#' rest h) refl
  split_key-print rest (c ∷ key) h = rw (split_key, cut-append b'#' rest (c ∷ key) h) refl

  path-ends :
      (sep : ℕ) (scheme path key : Runes)
      → IsWritten scheme path key
      → ends_clean (scheme ++ sep ∷ path) ≡ true
  path-ends sep scheme path key w =
      ends_clean-append scheme (sep ∷ path) (ends_clean-append (sep ∷ []) path w.ends)

  rest-ends :
      (sep : ℕ) (scheme path key : Runes)
      → IsWritten scheme path key
      → ends_clean ((scheme ++ sep ∷ path) ++ fragment key) ≡ true
  rest-ends sep scheme path [] w =
      ap ends_clean (append-nil (scheme ++ sep ∷ path)) ∙ path-ends sep scheme path [] w
  rest-ends sep scheme path (c ∷ key) w = elim w.key_ends [
    | inl e ↦ absurd (omega (arith, ap length e))
    | inr h ↦
        ends_clean-append (scheme ++ sep ∷ path) (b'#' ∷ c ∷ key)
          (ends_clean-append (b'#' ∷ []) (c ∷ key) h)
  ]

  print_ref-trimmed :
      (sep : ℕ) (scheme path key : Runes)
      → IsWritten scheme path key
      → trim_space (print_ref sep scheme path key) ≡ print_ref sep scheme path key
  unfolding codes starts_clean is_space
  print_ref-trimmed sep scheme path key w = trim_space-clean (print_ref sep scheme path key) refl (
      ends_clean-append (codes "secret://") ((scheme ++ sep ∷ path) ++ fragment key)
        (rest-ends sep scheme path key w))

  starts-full : (s : Runes) → starts_clean s ≡ true → is_empty s ≡ false
  unfolding starts_clean
  starts-full [] h = absurd (ground (arith, h))
  starts-full (c ∷ s) h = refl

  ends-full : (s : Runes) → ends_clean s ≡ true → is_empty s ≡ false
  unfolding ends_clean starts_clean
  ends-full [] h = absurd (ground (arith, h))
  ends-full (c ∷ s) h = refl

  print_ref-full :
      (sep : ℕ) (scheme path key : Runes) → is_empty (print_ref sep scheme path key) ≡ false
  unfolding codes
  print_ref-full sep scheme path key = refl

  -- A name in the keyring has no prefix that is taken off.
  valid-untrimmed :
      (path : Runes)
      → validate_keyring_name path ≡ true
      → trim_prefix (trim_prefix path (codes "pmmcp/")) (codes "/") ≡ path
  unfolding codes contains validate_keyring_name
  valid-untrimmed path h =
      let free : contains b'/' path ≡ false = ground arith in
      rw (trim_prefix-absent b'/' path (codes "pmmcp/") free refl)
        (trim_prefix-absent b'/' path (codes "/") free refl)

  named_ref-written :
      (raw scheme path key : Runes)
      → IsWritten scheme path key
      → named_ref raw scheme path key
        ≡ ok (record { scheme = scheme; path = path; key = key; raw = raw })
  unfolding named_ref
  named_ref-written raw scheme path key w =
      let p = plain_scheme lower_wide scheme w.known in
      elim (Bool-cases (eq_runes scheme (codes "keyring"))) [
        | inr other ↦ rw (p.full, starts-full path w.starts, w.known, other) refl
        | inl ring ↦
            let valid = w.named ((eq_runes_iff scheme (codes "keyring")).0 ring) in
            rw (p.full, starts-full path w.starts, w.known, ring, valid-untrimmed path valid, valid)
              refl
      ]

  -- A reference `secret://scheme:path#key` or `secret://scheme/path#key` (without `#` if the key is
  -- empty) is parsed back to that scheme, path and key, with its text, given that: the scheme is a
  -- known one, in lower case; the path is not empty, neither begins nor ends with a space and has no
  -- `#` in it; the key is empty or does not end in a space; and, if the scheme is the keyring's, the
  -- path is a valid bare name of the keyring, so without the prefix `pmmcp/`.
  pub parse_ref-print :
      (sep : ℕ) (scheme path key : Runes)
      → (sep ≡ b':') ⊎ (sep ≡ b'/')
      → IsWritten scheme path key
      → parse_ref lower_wide (print_ref sep scheme path key)
        ≡ ok (record {
          scheme = scheme;
          path = path;
          key = key;
          raw = print_ref sep scheme path key;
        })
  unfolding parse_ref
  parse_ref-print sep scheme path key h w =
      let p = plain_scheme lower_wide scheme w.known in
      let sep_other : (sep == b'#') ≡ false = elim h [
        | inl e ↦ ground (arith, e)
        | inr e ↦ ground (arith, e)
      ] in
      let no_hash : contains b'#' (scheme ++ sep ∷ path) ≡ false =
        contains-append b'#' scheme (sep ∷ path)
        ∙ (unfold contains in ground (arith, p.no_hash, w.no_hash, sep_other)) in
      let all = (scheme ++ sep ∷ path) ++ fragment key in
      rw
        (
          print_ref-trimmed sep scheme path key w,
          trim_prefix-append (codes "secret://") all,
          split_key-print (scheme ++ sep ∷ path) key no_hash,
          print_ref-full sep scheme path key,
          (has_prefix_iff (print_ref sep scheme path key) (codes "secret://")).1 (all, refl),
          ends-full all (rest-ends sep scheme path key w),
          split_scheme-append sep scheme path h p.no_colon p.no_slash,
          p.lower,
          p.trimmed,
          print_ref-trimmed sep scheme path key w,
          trim_prefix-append (codes "secret://") all,
          split_key-print (scheme ++ sep ∷ path) key no_hash,
          trim_space-clean path w.starts w.ends,
        )
        (named_ref-written (print_ref sep scheme path key) scheme path key w)

  -- Every reference that parses has one of the four schemes and a path that is not empty, keeps the
  -- text without the spaces around it, and, if it is to the keyring, its path is a bare name: `/`, `\`
  -- and `..` stand nowhere in it.
  pub parse_ref-IsSafe :
      (given : Runes) (r : Ref)
      → parse_ref lower_wide given ≡ ok r
      → IsKnown r.scheme
        × (r.path ≢ [])
        × (r.raw ≡ trim_space given)
        × (r.scheme ≡ codes "keyring" → IsBareName r.path)
  unfolding parse_ref
  parse_ref-IsSafe given r h =
      let raw = trim_space given in
      let (rest, key) = split_key (trim_prefix raw (codes "secret://")) in
      elim (Option-cases (split_scheme rest)) [
        | inl e ↦ absurd (ground (arith, h, e))
        | inr ((scheme, path), e) ↦
            named_ref-IsSafe raw (trim_space (map (lower_rune lower_wide) scheme)) (trim_space path)
              key r (ground (arith, h, e))
      ]
