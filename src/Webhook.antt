-- ===== src/Webhook.antt =====
-- internal/webhook/webhook.go: the registry of outbound webhooks and the checks on their URLs.
pub mod Admission
pub mod Dial
pub mod Registry
pub mod Resolution
mod Tests
use pmmcp.Prelude.{
  ℕ, ◌+◌, String, ◌⊎◌, inl, inr, Bool, true, false, not, ◌&&◌, ◌||◌, Option, none, some, List, [],
  ◌∷◌, map, leb, ◌==◌, if◌then◌else◌, length, drop, elem,
}
use pmmcp.Prelude.Runes.{Runes, codes, eq_runes, has_prefix, has_suffix, contains, trim_space}

-- What `url.Parse` tells of a URL: its scheme, and its host name without the port.
pub record Url : Type 0 where
  pub scheme : Runes
  pub host : Runes

-- Go's net and unicode packages: URL and IP parsing, the classes of addresses, the resolver, and
-- the lower case of a rune that is not ASCII.
pub record Net : Type 1 where
  pub Ip : Type 0
  pub parse_url : Runes → Option Url
  pub parse_ip : Runes → Option Ip
  pub is_loopback : Ip → Bool
  pub is_link_local_unicast : Ip → Bool
  pub is_link_local_multicast : Ip → Bool
  pub is_unspecified : Ip → Bool
  pub is_metadata : Ip → Bool
  pub resolve : Runes → Option (List (Option Ip))
  pub lower_wide : ℕ → ℕ

pub record Hook : Type 0 where
  pub id : String
  pub url : Runes
  pub events : List String
  pub secret : String

pub data WebhookError : Type 0 where
  empty_id empty_url bad_url empty_host : WebhookError
  scheme_denied not_allowlisted blocked_host blocked_address blocked_resolved : WebhookError
  not_found : WebhookError

unfoldable pub matches : Hook → String → Bool
matches h event_type = if length h.events == 0 then true else elem event_type h.events

abbrev pub names_blocked : List Runes
names_blocked =
    codes "localhost"
    ∷ codes "localhost.localdomain"
    ∷ codes "metadata"
    ∷ codes "metadata.google.internal"
    ∷ []

unfoldable pub is_one_of : Runes → List Runes → Bool
is_one_of h [] = false
is_one_of h (n ∷ ns) = if eq_runes h n then true else is_one_of h ns

module _ (net : Net) where
  open net use {
    Ip, parse_url, parse_ip, is_loopback, is_link_local_unicast, is_link_local_multicast,
    is_unspecified, is_metadata, resolve, lower_wide,
  }

  unfoldable pub lower_rune : ℕ → ℕ
  lower_rune c = if leb 0x80 c then lower_wide c else if leb 0x41 c && leb c 0x5A then c + 32 else c

  -- `strings.ToLower`.
  unfoldable pub to_lower : Runes → Runes
  to_lower s = map lower_rune s

  unfoldable pub parse_http_url : Runes → Option Url → WebhookError ⊎ Url
  parse_http_url raw parsed = if length raw == 0 then inl empty_url else elim parsed [
    | none ↦ inl bad_url
    | some u ↦
        let scheme = to_lower u.scheme in
        if not (eq_runes scheme (codes "http") || eq_runes scheme (codes "https"))
        then inl scheme_denied
        else if length u.host == 0
        then inl empty_host
        else inr u
  ]

  -- One pattern, in lower case and without the space around it.
  unfoldable pub pattern_lists : Runes → Runes → Runes → Bool
  pattern_lists host low_raw p =
      if length p == 0
      then false
      else if contains b'/' p
      then has_prefix low_raw p
      else if has_prefix p (codes "*.")
      then eq_runes host (drop 2 p) || has_suffix host (drop 1 p)
      else eq_runes host p

  unfoldable pub allowlisted : Runes → Runes → List Runes → Bool
  allowlisted host low_raw [] = false
  allowlisted host low_raw (p ∷ allow) =
      if pattern_lists host low_raw (to_lower (trim_space p))
      then true
      else allowlisted host low_raw allow

  unfoldable pub is_blocked_hostname : Runes → Bool
  is_blocked_hostname host =
      let h = to_lower (trim_space host) in
      if is_one_of h names_blocked then true else has_suffix h (codes ".localhost")

  -- `none` is the nil address.
  unfoldable pub is_blocked_ip : Option Ip → Bool
  is_blocked_ip none = true
  is_blocked_ip (some ip) =
      if is_loopback ip
        || (is_link_local_unicast ip || (is_link_local_multicast ip || is_unspecified ip))
      then true
      else if is_metadata ip
      then true
      else false

  -- `none` is the nil error.
  unfoldable pub validate_host : Url → Option WebhookError
  validate_host u =
      if is_blocked_hostname u.host then some blocked_host else elim (parse_ip u.host) [
        | none ↦ none
        | some ip ↦ if is_blocked_ip (some ip) then some blocked_address else none
      ]

  unfoldable pub admit : Runes → List Runes → Option WebhookError
  admit raw allow = elim (parse_http_url raw (parse_url raw)) [
    | inl e ↦ some e
    | inr u ↦
        if not (allowlisted (to_lower u.host) (to_lower raw) allow)
        then some not_allowlisted
        else validate_host u
  ]

  unfoldable pub check_resolved : List (Option Ip) → Option WebhookError
  check_resolved [] = none
  check_resolved (ip ∷ ips) = if is_blocked_ip ip then some blocked_resolved else check_resolved ips

  unfoldable pub validate_url : Runes → Option WebhookError
  validate_url raw = elim (parse_http_url raw (parse_url raw)) [
    | inl e ↦ some e
    | inr u ↦ elim (validate_host u) [
      | some e ↦ some e
      | none ↦ elim (parse_ip u.host) [
        | some ip ↦ none
        | none ↦ elim (resolve u.host) [ none ↦ none | some ips ↦ check_resolved ips ]
      ]
    ]
  ]
