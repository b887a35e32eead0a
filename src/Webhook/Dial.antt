-- ===== src/Webhook/Dial.antt =====
-- The guards of internal/webhook/deliver.go: the check of each URL of a delivery, and the dial that
-- picks the address itself.
use pmmcp.Prelude.{
  ℕ, ◌≡◌, refl, ◌⊎◌, inl, inr, Bool, true, false, not, ◌&&◌, Option, none, some, List, [], ◌∷◌,
  ◌++◌, arith, leb, ◌==◌, if◌then◌else◌, Bool-cases, Option-cases, is_some, length, All,
}
use pmmcp.Prelude.Runes.{Runes}
use pmmcp.Webhook.{
  Net, WebhookError, not_allowlisted, blocked_host, blocked_address, to_lower, parse_http_url,
  allowlisted, is_blocked_hostname, is_blocked_ip,
}

pub record Deliverer : Type 0 where
  pub allowlist : List Runes
  pub allow_loopback : Bool

abbrev pub max_redirects : ℕ
max_redirects = 10

pub data RedirectError : Type 0 where
  too_many_redirects : RedirectError
  denied : WebhookError → RedirectError

pub data DialError : Type 0 where
  bad_address unresolved none_permitted : DialError

module _ (net : Net) where
  open net use {Ip, parse_url, parse_ip, is_loopback, resolve}

  -- A nil address is no loopback address.
  abbrev is_loopback_ip : Option Ip → Bool
  is_loopback_ip none = false
  is_loopback_ip (some ip) = is_loopback ip

  unfoldable pub blocked : Deliverer → Option Ip → Bool
  blocked d ip = if d.allow_loopback && is_loopback_ip ip then false else is_blocked_ip net ip

  unfoldable pub check_literal : Deliverer → Option Ip → Option WebhookError
  check_literal d none = none
  check_literal d (some ip) = if blocked d (some ip) then some blocked_address else none

  unfoldable pub validate : Deliverer → Runes → Option WebhookError
  unfolding check_literal
  validate d raw = elim (parse_http_url net raw (parse_url raw)) [
    | inl e ↦ some e
    | inr u ↦
        if not (length d.allowlist == 0)
          && not (allowlisted net (to_lower net u.host) (to_lower net raw) d.allowlist)
        then some not_allowlisted
        else if is_blocked_hostname net u.host
        then some blocked_host
        else check_literal d (parse_ip u.host)
  ]

  -- On the redirect after `via` requests.
  unfoldable pub check_redirect : Deliverer → ℕ → Runes → Option RedirectError
  unfolding validate
  check_redirect d via raw =
      if leb max_redirects via
      then some too_many_redirects
      else elim (validate d raw) [ none ↦ none | some e ↦ some (denied e) ]

  unfoldable pub resolve_host : Runes → Option (List (Option Ip))
  resolve_host host = elim (parse_ip host) [ some ip ↦ some (some ip ∷ []) | none ↦ resolve host ]

  -- The loop of `dialContext`: the addresses that were dialled, and the one that answered. The nil
  -- address is always blocked.
  unfoldable pub dial_each : (Ip → Bool) → Deliverer → List (Option Ip) → List Ip × Option Ip
  dial_each connects d [] = ([], none)
  dial_each connects d (none ∷ ips) = dial_each connects d ips
  dial_each connects d (some ip ∷ ips) =
      let (dialled, conn) = dial_each connects d ips in
      if blocked d (some ip)
      then (dialled, conn)
      else if connects ip
      then (ip ∷ [], some ip)
      else (ip ∷ dialled, conn)

  -- `split` is the host of the address, if it has a port.
  unfoldable pub dial_context : (Ip → Bool) → Deliverer → Option Runes → List Ip × (DialError ⊎ Ip)
  unfolding resolve_host
  dial_context connects d none = ([], inl bad_address)
  dial_context connects d (some host) = elim (resolve_host host) [
    | none ↦ ([], inl unresolved)
    | some ips ↦
        let (dialled, conn) = dial_each connects d ips in
        (dialled, elim conn [ none ↦ inl none_permitted | some ip ↦ inr ip ])
  ]

  abbrev IsPermitted : Deliverer → Ip → Type 0
  IsPermitted d ip = blocked d (some ip) ≡ false

  dial_each-IsPermitted :
      (connects : Ip → Bool) (d : Deliverer) (ips : List (Option Ip))
      → All (IsPermitted d) (dial_each connects d ips).0
        × ((ip : Ip)
            → (dial_each connects d ips).1 ≡ some ip
            → (connects ip ≡ true) × IsPermitted d ip)
  unfolding dial_each
  dial_each-IsPermitted connects d [] = (tt, λ ip e. cc)
  dial_each-IsPermitted connects d (none ∷ ips) = dial_each-IsPermitted connects d ips
  dial_each-IsPermitted connects d (some ip ∷ ips) =
      let (permitted, answered) = dial_each-IsPermitted connects d ips in
      elim (Bool-cases (blocked d (some ip))) [
        | inl b ↦ rw b (permitted, answered)
        | inr f ↦ elim (Bool-cases (connects ip)) [
          | inl c ↦ rw (f, c) ((f, tt), λ ip' e. ground (arith, c, f))
          | inr c ↦ rw (f, c) ((f, permitted), answered)
        ]
      ]

  dial_each-finds :
      (connects : Ip → Bool) (d : Deliverer) (before after : List (Option Ip)) (ip : Ip)
      → IsPermitted d ip
      → connects ip ≡ true
      → is_some (dial_each connects d (before ++ some ip ∷ after)).1 ≡ true
  unfolding dial_each
  dial_each-finds connects d [] after ip f c = rw (f, c) refl
  dial_each-finds connects d (none ∷ before) after ip f c =
      dial_each-finds connects d before after ip f c
  dial_each-finds connects d (some j ∷ before) after ip f c =
      ground (arith, dial_each-finds connects d before after ip f c)

  -- Whatever a host resolves to at the time of the dial, only addresses that are not blocked are
  -- dialled, and the connection is to one of those, which answered. The dial does not fail where one
  -- of the addresses is not blocked and answers.
  pub dial_context-IsPermitted :
      (connects : Ip → Bool) (d : Deliverer) (host : Runes) (ips : List (Option Ip))
      → resolve_host host ≡ some ips
      → let (dialled, conn) = dial_context connects d (some host) in
        All (IsPermitted d) dialled
        × ((ip : Ip) → conn ≡ inr ip → (connects ip ≡ true) × IsPermitted d ip)
        × ((before after : List (Option Ip)) (ip : Ip)
            → ips ≡ before ++ some ip ∷ after
            → IsPermitted d ip
            → connects ip ≡ true
            → (ip' : Ip) × (conn ≡ inr ip'))
  unfolding dial_context
  dial_context-IsPermitted connects d host ips e =
      let (permitted, answered) = dial_each-IsPermitted connects d ips in
      rw (e, dial_context)
        (
          permitted,
          (λ ip c. answered ip (ground (arith, c))),
          (λ before after ip same f c.
              let found : is_some (dial_each connects d ips).1 ≡ true =
                rw same (dial_each-finds connects d before after ip f c) in
              elim (Option-cases (dial_each connects d ips).1) [
                | inl lost ↦ absurd (ground (arith, lost))
                | inr (ip', got) ↦ (ip', ground (arith, got))
              ]),
        )
