-- ===== src/Webhook/Resolution.antt =====
-- What the check of a webhook URL without an allowlist promises about the addresses of its host.
use pmmcp.Prelude.{
  ◌≡◌, refl, ◌↔◌, inl, inr, false, Option, none, some, List, [], ◌∷◌, arith, Option-cases, All,
}
use pmmcp.Prelude.Runes.{Runes}
use pmmcp.Webhook.{Net, Url, is_blocked_ip, check_resolved, validate_url, parse_http_url}
use pmmcp.Webhook.Admission.{
  IsWebUrl, IsSafeHost, parse_http_url-IsWebUrl, validate_host-IsSafeHost, parsed-cases,
}

module _ (net : Net) where
  open net use {Ip, parse_url, parse_ip, resolve}

  check_resolved-All :
      (ips : List (Option Ip))
      → check_resolved net ips ≡ none
      → All (λ ip. is_blocked_ip net ip ≡ false) ips
  unfolding check_resolved
  check_resolved-All [] h = tt
  check_resolved-All (ip ∷ ips) h = (ground arith, check_resolved-All ips (ground arith))

  All-check_resolved :
      (ips : List (Option Ip))
      → All (λ ip. is_blocked_ip net ip ≡ false) ips
      → check_resolved net ips ≡ none
  unfolding check_resolved
  All-check_resolved [] h = refl
  All-check_resolved (ip ∷ ips) h = ground (arith, All-check_resolved ips h.1)

  -- A webhook URL passes the check without an allowlist exactly if it parses as a URL with a web
  -- scheme and a host, the host is neither a blocked name nor the literal of a blocked address, and
  -- no address that a name resolves to is blocked. A name that does not resolve passes.
  pub validate_url_iff :
      (raw : Runes)
      → (validate_url net raw ≡ none) ↔ (
          (u : Url) × IsWebUrl net raw u
          × IsSafeHost net u.host
          × (parse_ip u.host ≡ none
              → (ips : List (Option Ip)) → resolve u.host ≡ some ips
              → All (λ ip. is_blocked_ip net ip ≡ false) ips))
  unfolding validate_url
  validate_url_iff raw = (
    (λ h. elim (parsed-cases net (parse_http_url net raw (parse_url raw))) [
      | inl (x, fails) ↦ absurd (ground (arith, fails))
      | inr (u, e) ↦ (
        u,
        (parse_http_url-IsWebUrl net raw u).0 e,
        (validate_host-IsSafeHost net u).0 (ground (arith, e)),
        λ name ips found. check_resolved-All ips (ground (arith, e, name, found)),
      )
    ]),
    (λ (u, web, safe, clean).
        let e = (parse_http_url-IsWebUrl net raw u).1 web in
        let passes = (validate_host-IsSafeHost net u).1 safe in
        elim (Option-cases (parse_ip u.host)) [
          | inr (ip, lit) ↦ ground (arith, e, passes, lit)
          | inl name ↦ elim (Option-cases (resolve u.host)) [
            | inl lost ↦ ground (arith, e, passes, name, lost)
            | inr (ips, found) ↦
                let none_blocked = All-check_resolved ips (clean name ips found) in
                ground (arith, e, passes, name, found, none_blocked)
          ]
        ]),
  )
