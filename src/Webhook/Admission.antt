-- ===== src/Webhook/Admission.antt =====
-- What it takes for a webhook URL to be admitted.
use pmmcp.Prelude.{
  ◌≡◌, refl, ap, ◌≢◌, ◌↔◌, ◌⊎◌, inl, inr, true, false, ◌||◌, none, some, List, [], ◌∷◌, ◌++◌, arith,
  Bool-cases, Option-cases,
}
use pmmcp.Prelude.Runes.{
  Runes, codes, eq_runes, eq_runes_iff, has_prefix, has_prefix_iff, has_suffix, has_suffix_iff,
  contains, trim_space,
}
use mathlib.Core.Path.{subst}
use pmmcp.Webhook.{
  Net, Url, to_lower, parse_http_url, pattern_lists, allowlisted, is_blocked_hostname,
  is_blocked_ip, validate_host, admit,
}

module _ (net : Net) where
  open net use {Ip, parse_url, parse_ip, resolve}

  -- A pattern with a slash is the start of the URL; "*.d" is d or what ends in ".d"; any other
  -- pattern is the host. A pattern that is empty names nothing.
  abbrev pub Names : Runes → Runes → Runes → Type 0
  Names host low_raw p =
      (p ≢ [])
      × (((contains b'/' p ≡ true) × ((r : Runes) × (low_raw ≡ p ++ r)))
          ⊎ ((contains b'/' p ≡ false)
              × (((d : Runes) × (p ≡ b'*' ∷ b'.' ∷ d)
                    × ((host ≡ d) ⊎ ((r : Runes) × (host ≡ r ++ b'.' ∷ d))))
                  ⊎ ((has_prefix p (codes "*.") ≡ false) × (host ≡ p)))))

  -- Some pattern of the list names the URL.
  abbrev pub Listed : Runes → Runes → List Runes → Type 0
  Listed host low_raw allow =
      (before : List Runes) × (p : Runes) × (after : List Runes) × (allow ≡ before ++ p ∷ after)
      × Names host low_raw (to_lower net (trim_space p))

  -- A pattern that begins with "*." and has no slash.
  star_value :
      (host low_raw d : Runes)
      → contains b'/' (b'*' ∷ b'.' ∷ d) ≡ false
      → pattern_lists net host low_raw (b'*' ∷ b'.' ∷ d)
        ≡ (eq_runes host d || has_suffix host (b'.' ∷ d))
  unfolding pattern_lists codes has_prefix
  star_value host low_raw d plain = rw plain (ground arith)

  star_lists :
      (host low_raw p d : Runes)
      → p ≡ b'*' ∷ b'.' ∷ d
      → contains b'/' p ≡ false
      → (pattern_lists net host low_raw p ≡ true)
        ↔ ((host ≡ d) ⊎ ((r : Runes) × (host ≡ r ++ b'.' ∷ d)))
  star_lists host low_raw p d e plain =
      let value = star_value host low_raw d (subst (λ q. contains b'/' q ≡ false) e plain) in
      rw (e, value)
        (
          (λ h. elim (Bool-cases (eq_runes host d)) [
            | inl same ↦ inl ((eq_runes_iff host d).0 same)
            | inr other ↦ inr ((has_suffix_iff host (b'.' ∷ d)).0 (ground (arith, other)))
          ]),
          (λ w. elim w [
            | inl same ↦ let yes = (eq_runes_iff host d).1 same in ground (arith, yes)
            | inr ends ↦ let yes = (has_suffix_iff host (b'.' ∷ d)).1 ends in ground (arith, yes)
          ]),
        )

  pattern_lists-Names :
      (host low_raw p : Runes) → pattern_lists net host low_raw p ≡ true → Names host low_raw p
  unfolding pattern_lists codes
  pattern_lists-Names host low_raw [] h = cc
  pattern_lists-Names host low_raw (c ∷ p) h = elim (Bool-cases (contains b'/' (c ∷ p))) [
    | inl slash ↦
        ((λ e. cc), inl (slash, (has_prefix_iff low_raw (c ∷ p)).0 (ground (arith, slash))))
    | inr plain ↦ elim (Bool-cases (has_prefix (c ∷ p) (codes "*."))) [
      | inr other ↦ (
        (λ e. cc),
        inr (plain, inr (other, (eq_runes_iff host (c ∷ p)).0 (ground (arith, plain, other)))),
      )
      | inl star ↦
          let (d, e) = (has_prefix_iff (c ∷ p) (codes "*.")).0 star in
          ((λ x. cc), inr (plain, inl (d, e, (star_lists host low_raw (c ∷ p) d e plain).0 h)))
    ]
  ]

  Names-pattern_lists :
      (host low_raw p : Runes) → Names host low_raw p → pattern_lists net host low_raw p ≡ true
  unfolding pattern_lists
  Names-pattern_lists host low_raw [] (n, w) = absurd (n refl)
  Names-pattern_lists host low_raw (c ∷ p) (n, inl (slash, w)) =
      let start = (has_prefix_iff low_raw (c ∷ p)).1 w in ground (arith, slash, start)
  Names-pattern_lists host low_raw (c ∷ p) (n, inr (plain, inl (d, e, w))) =
      (star_lists host low_raw (c ∷ p) d e plain).1 w
  Names-pattern_lists host low_raw (c ∷ p) (n, inr (plain, inr (other, same))) =
      let whole = (eq_runes_iff host (c ∷ p)).1 same in ground (arith, plain, other, whole)

  allowlisted-Listed :
      (host low_raw : Runes) (allow : List Runes)
      → allowlisted net host low_raw allow ≡ true
      → Listed host low_raw allow
  unfolding allowlisted
  allowlisted-Listed host low_raw [] h = absurd cc
  allowlisted-Listed host low_raw (p ∷ allow) h =
      elim (Bool-cases (pattern_lists net host low_raw (to_lower net (trim_space p)))) [
        | inl e ↦ ([], p, allow, refl, pattern_lists-Names host low_raw _ e)
        | inr e ↦
            let (b, q, c, same, named) =
              allowlisted-Listed host low_raw allow (ground (arith, e)) in
            (p ∷ b, q, c, ap (λ z. p ∷ z) same, named)
      ]

  Listed-allowlisted :
      (host low_raw : Runes) (before after : List Runes) (p : Runes)
      → Names host low_raw (to_lower net (trim_space p))
      → allowlisted net host low_raw (before ++ p ∷ after) ≡ true
  unfolding allowlisted
  Listed-allowlisted host low_raw [] after p w =
      let named = Names-pattern_lists host low_raw (to_lower net (trim_space p)) w in
      ground (arith, named)
  Listed-allowlisted host low_raw (q ∷ before) after p w =
      ground (arith, Listed-allowlisted host low_raw before after p w)

  -- The URL has a web scheme and a host that is not empty, and parses as u.
  abbrev pub IsWebUrl : Runes → Url → Type 0
  IsWebUrl raw u =
      (raw ≢ [])
      × (parse_url raw ≡ some u)
      × ((to_lower net u.scheme ≡ codes "http") ⊎ (to_lower net u.scheme ≡ codes "https"))
      × (u.host ≢ [])

  -- The host is no blocked name and no literal of a blocked address.
  abbrev pub IsSafeHost : Runes → Type 0
  IsSafeHost host =
      (is_blocked_hostname net host ≡ false)
      × ((ip : Ip) → parse_ip host ≡ some ip → is_blocked_ip net (some ip) ≡ false)

  pub parse_http_url-IsWebUrl :
      (raw : Runes) (u : Url) → (parse_http_url net raw (parse_url raw) ≡ inr u) ↔ IsWebUrl raw u
  unfolding parse_http_url
  parse_http_url-IsWebUrl raw u = (
    (λ h. elim (Option-cases (parse_url raw)) [
      | inl e ↦ absurd (ground (arith, e))
      | inr (v, e) ↦ (
        ground (arith, e),
        ground (arith, e),
        ground (
          arith,
          e,
          eq_runes_iff (to_lower net u.scheme) (codes "http"),
          eq_runes_iff (to_lower net u.scheme) (codes "https"),
        ),
        ground (arith, e),
      )
    ]),
    (λ (n, e, web, full). ground (
      arith,
      n,
      e,
      web,
      full,
      eq_runes_iff (to_lower net u.scheme) (codes "http"),
      eq_runes_iff (to_lower net u.scheme) (codes "https"),
    )),
  )

  pub validate_host-IsSafeHost : (u : Url) → (validate_host net u ≡ none) ↔ IsSafeHost u.host
  unfolding validate_host
  validate_host-IsSafeHost u = (
    (λ h. ((ground arith), (λ ip e. ground (arith, e)))),
    (λ (b, s). elim (Option-cases (parse_ip u.host)) [
      | inl e ↦ ground (arith, e, b)
      | inr (ip, e) ↦ let safe = s ip e in ground (arith, e, b, safe)
    ]),
  )

  pub parsed-cases : {A B : Type 0} (r : A ⊎ B) → ((a : A) × (r ≡ inl a)) ⊎ ((b : B) × (r ≡ inr b))
  parsed-cases (inl a) = inl (a, refl)
  parsed-cases (inr b) = inr (b, refl)

  -- A webhook URL is admitted exactly if it parses as a URL with a web scheme and a host, a pattern
  -- of the allowlist names it, and its host is neither a blocked name nor the literal of a blocked
  -- address. So an empty allowlist admits nothing.
  pub admit_iff :
      (raw : Runes) (allow : List Runes)
      → (admit net raw allow ≡ none) ↔ (
          (u : Url) × IsWebUrl raw u
          × Listed (to_lower net u.host) (to_lower net raw) allow
          × IsSafeHost u.host)
  unfolding admit
  admit_iff raw allow = (
    (λ h. elim (parsed-cases (parse_http_url net raw (parse_url raw))) [
      | inl (x, fails) ↦ absurd (ground (arith, fails))
      | inr (u, e) ↦ (
        u,
        (parse_http_url-IsWebUrl raw u).0 e,
        allowlisted-Listed (to_lower net u.host) (to_lower net raw) allow (ground (arith, e)),
        (validate_host-IsSafeHost u).0 (ground (arith, e)),
      )
    ]),
    (λ (u, web, (b, p, c, same, named), safe).
        let e = (parse_http_url-IsWebUrl raw u).1 web in
        let listed = Listed-allowlisted (to_lower net u.host) (to_lower net raw) b c p named in
        let passes = (validate_host-IsSafeHost u).1 safe in
        rw same (ground (arith, e, listed, passes))),
  )
