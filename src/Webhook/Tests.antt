-- ===== src/Webhook/Tests.antt =====
-- Runs of internal/webhook and the theorems about it at concrete URLs, on a network in which names
-- are written out.
use pmmcp.Prelude.{
  ◌≡◌, refl, ◌↔◌, inr, true, false, Option, none, some, List, [], ◌∷◌, ◌++◌, if◌then◌else◌, drop,
  All,
}
use pmmcp.Prelude.Runes.{
  Runes, codes, eq_runes, has_prefix, has_suffix, contains, trim_space, trim_left, is_space,
}
use pmmcp.Webhook.{
  Net, Url, Hook, matches, to_lower, admit, is_blocked_ip, validate_url, not_allowlisted,
  parse_http_url, pattern_lists, allowlisted, is_blocked_hostname, validate_host, lower_rune,
  is_one_of,
}
use pmmcp.Webhook.Registry.{
  creates, deletes, Call, new_registry, after_calls, IsAdmitted, after_calls-IsAdmitted,
}
use pmmcp.Webhook.Admission.{IsWebUrl, Listed, IsSafeHost, admit_iff}
use pmmcp.Webhook.Dial.{
  Deliverer, blocked, check_redirect, too_many_redirects, resolve_host, dial_context,
  dial_context-IsPermitted,
}
use pmmcp.Webhook.Resolution.{validate_url_iff}

-- A URL is "https://" and a host; "10.0.0.1" is the one address, and names resolve to nothing.
abbrev web : Net
web = record {
  Ip = Unit {0};
  parse_url = λ s.
      if has_prefix s (codes "https://")
      then some (record { scheme = codes "https"; host = drop 8 s })
      else none;
  parse_ip = λ s. if eq_runes s (codes "10.0.0.1") then some tt else none;
  is_loopback = λ _. false;
  is_link_local_unicast = λ _. false;
  is_link_local_multicast = λ _. false;
  is_unspecified = λ _. false;
  is_metadata = λ _. false;
  resolve = λ _. none;
  lower_wide = λ c. c;
}

abbrev hook : Hook
hook = record { id = "hook_1"; url = codes "https://ci.example.com"; events = []; secret = "" }

abbrev allowlist : List Runes
allowlist = codes " *.Example.com" ∷ []

admit_subdomain : admit web hook.url allowlist ≡ none
unfolding admit parse_http_url to_lower lower_rune allowlisted pattern_lists validate_host
    is_blocked_hostname is_one_of codes eq_runes has_prefix has_suffix contains trim_space trim_left
    is_space
admit_subdomain = refl

admit_other : admit web (codes "https://badexample.com") allowlist ≡ some not_allowlisted
unfolding admit parse_http_url to_lower lower_rune allowlisted pattern_lists validate_host
    is_blocked_hostname is_one_of codes eq_runes has_prefix has_suffix contains trim_space trim_left
    is_space
admit_other = refl

matches_all : matches hook "process.started" ≡ true
unfolding matches
matches_all = refl

admit_iff_example : (admit web hook.url allowlist ≡ none) ↔ (
    (u : Url) × IsWebUrl web hook.url u
    × Listed web (to_lower web u.host) (to_lower web hook.url) allowlist
    × IsSafeHost web u.host)
admit_iff_example = admit_iff web hook.url allowlist

validate_url_iff_example : (validate_url web hook.url ≡ none) ↔ (
    (u : Url) × IsWebUrl web hook.url u
    × IsSafeHost web u.host
    × (web.parse_ip u.host ≡ none
        → (ips : List (Option (Unit {0}))) → web.resolve u.host ≡ some ips
        → All (λ ip. is_blocked_ip web ip ≡ false) ips))
validate_url_iff_example = validate_url_iff web hook.url

abbrev history : List Call
history = creates hook ∷ deletes "hook_2" ∷ []

after_calls-IsAdmitted_example : IsAdmitted web (after_calls web history (new_registry allowlist))
after_calls-IsAdmitted_example = after_calls-IsAdmitted web allowlist history

abbrev deliverer : Deliverer
deliverer = record { allowlist = []; allow_loopback = false }

-- The tenth redirect of a chain is one too many.
redirect_limit : check_redirect web deliverer 10 hook.url ≡ some too_many_redirects
unfolding check_redirect
redirect_limit = refl

dial_context-IsPermitted_example :
    let (dialled, conn) = dial_context web (λ _. true) deliverer (some (codes "10.0.0.1")) in
    All (λ ip. blocked web deliverer (some ip) ≡ false) dialled
    × ((ip : Unit {0}) → conn ≡ inr ip → (true ≡ true) × (blocked web deliverer (some ip) ≡ false))
    × ((before after : List (Option (Unit {0}))) (ip : Unit {0})
        → some tt ∷ [] ≡ before ++ some ip ∷ after
        → blocked web deliverer (some ip) ≡ false
        → true ≡ true
        → (ip' : Unit {0}) × (conn ≡ inr ip'))
unfolding resolve_host codes eq_runes
dial_context-IsPermitted_example =
    dial_context-IsPermitted web (λ _. true) deliverer (codes "10.0.0.1") (some tt ∷ []) refl
