-- ===== src/Supervise/Probe.antt =====
-- The loopback guard of the health probes in internal/supervise/supervise.go. URL parsing, IP
-- parsing and name resolution belong to Go's `net` packages and are parameters.
use pmmcp.Prelude.{
  ℕ, String, ◌≡◌, refl, ◌≢◌, ◌↔◌, ◌⊎◌, inl, inr, Bool, true, false, not, ◌||◌, Option, none, some,
  List, [], ◌∷◌, arith, str_eq, eq_iff, leb, if◌then◌else◌, All,
}

pub record Net : Type 1 where
  pub Ip : Type 0
  pub parse_ip : String → Option Ip
  pub is_loopback : Ip → Bool
  pub resolve : String → Option (List Ip)

-- A parsed URL: its scheme in lower case, and its host name without the port.
pub record Url : Type 0 where
  pub scheme : String
  pub host : String

-- Why a probe target is refused; all are `ErrSSRF`.
pub data Ssrf : Type 0 where
  scheme_not_allowed empty_host not_loopback unresolved no_addresses resolves_elsewhere dial : Ssrf

module _ (net : Net) where
  open net use {Ip, parse_ip, is_loopback, resolve}

  unfoldable pub all_loopback : List Ip → Bool
  all_loopback [] = true
  all_loopback (ip ∷ ips) = if not (is_loopback ip) then false else all_loopback ips

  unfoldable pub check_addresses : Option (List Ip) → Option Ssrf
  check_addresses none = some unresolved
  check_addresses (some []) = some no_addresses
  check_addresses (some (ip ∷ ips)) =
      if all_loopback (ip ∷ ips) then none else some resolves_elsewhere

  unfoldable pub check_host : String → Option Ip → Option Ssrf
  check_host host (some ip) = if not (is_loopback ip) then some not_loopback else none
  check_host host none = check_addresses (resolve host)

  -- `none` is the nil error.
  unfoldable pub validate_loopback_url : Url → Option Ssrf
  unfolding check_host check_addresses
  validate_loopback_url u =
      if str_eq u.scheme "http" || str_eq u.scheme "https"
      then if str_eq u.host "" then some empty_host else check_host u.host (parse_ip u.host)
      else some scheme_not_allowed

  -- The check when a connection is made; `split_host` is the host of the address, if it has a port.
  unfoldable pub dial_control : Bool → String → Option String → Option Ssrf
  dial_control allow address split_host =
      let host : String = elim split_host [ none ↦ address | some h ↦ h ] in
      if allow then none else elim (parse_ip host) [
        | none ↦ some dial
        | some ip ↦ if not (is_loopback ip) then some dial else none
      ]

  -- `CheckRedirect` on the n-th redirect; `none` allows it, and `inl` is the limit on their number.
  unfoldable pub check_redirect : Bool → ℕ → Url → Option (Unit {0} ⊎ Ssrf)
  unfolding validate_loopback_url
  check_redirect allow via u =
      if leb 10 via
      then some (inl tt)
      else if allow
      then none
      else elim (validate_loopback_url u) [ none ↦ none | some e ↦ some (inr e) ]

  -- Every address of the list is a loopback address.
  abbrev pub AllLoopback : List Ip → Type 0
  AllLoopback = All (λ ip. is_loopback ip ≡ true)

  -- The host stands for loopback addresses only: it is one, or it resolves to at least one address
  -- and to loopback addresses alone.
  abbrev pub IsLocal : String → Type 0
  IsLocal host =
      ((ip : Ip) × (parse_ip host ≡ some ip) × (is_loopback ip ≡ true))
      ⊎ ((parse_ip host ≡ none)
          × ((ip : Ip) × (ips : List Ip) × (resolve host ≡ some (ip ∷ ips))
              × AllLoopback (ip ∷ ips)))

  all_loopback-AllLoopback : (ips : List Ip) → all_loopback ips ≡ true → AllLoopback ips
  unfolding all_loopback
  all_loopback-AllLoopback [] h = tt
  all_loopback-AllLoopback (ip ∷ ips) h =
      (ground arith, all_loopback-AllLoopback ips (ground arith))

  AllLoopback-all_loopback : (ips : List Ip) → AllLoopback ips → all_loopback ips ≡ true
  unfolding all_loopback
  AllLoopback-all_loopback [] h = refl
  AllLoopback-all_loopback (ip ∷ ips) h = ground (arith, AllLoopback-all_loopback ips h.1)

  check_addresses-none :
      (r : Option (List Ip))
      → check_addresses r ≡ none
      → (ip : Ip) × (ips : List Ip) × (r ≡ some (ip ∷ ips)) × AllLoopback (ip ∷ ips)
  unfolding check_addresses
  check_addresses-none none h = cc
  check_addresses-none (some []) h = cc
  check_addresses-none (some (ip ∷ ips)) h =
      (ip, ips, refl, all_loopback-AllLoopback (ip ∷ ips) (ground arith))

  -- A probe target passes the guard exactly if its scheme is http or https, its host is not empty,
  -- and the host stands for loopback addresses only.
  pub validate_loopback_url_iff :
      (u : Url)
      → (validate_loopback_url u ≡ none)
        ↔ (((u.scheme ≡ "http") ⊎ (u.scheme ≡ "https")) × (u.host ≢ "") × IsLocal u.host)
  validate_loopback_url_iff u = (passes, allowed)
    where
      local : (r : Option Ip) → parse_ip u.host ≡ r → check_host u.host r ≡ none → IsLocal u.host
      local none e h = inr (e, check_addresses-none (resolve u.host) (unfold check_host in h))
      local (some ip) e h = inl (ip, e, unfold check_host in ground arith)

      passes :
          validate_loopback_url u ≡ none
          → ((u.scheme ≡ "http") ⊎ (u.scheme ≡ "https")) × (u.host ≢ "") × IsLocal u.host
      passes h = (
        unfold validate_loopback_url in
            ground (arith, eq_iff u.scheme "http", eq_iff u.scheme "https"),
        unfold validate_loopback_url in ground (arith, eq_iff u.host ""),
        local (parse_ip u.host) refl (unfold validate_loopback_url in ground arith),
      )

      allowed :
          ((u.scheme ≡ "http") ⊎ (u.scheme ≡ "https")) × (u.host ≢ "") × IsLocal u.host
          → validate_loopback_url u ≡ none
      allowed (s, n, inl (ip, e, l)) =
          unfold validate_loopback_url check_host in
          ground (arith, eq_iff u.scheme "http", eq_iff u.scheme "https", eq_iff u.host "")
      allowed (s, n, inr (e, (ip, ips, r, l))) =
          unfold validate_loopback_url check_host check_addresses in
          ground (
            arith,
            eq_iff u.scheme "http",
            eq_iff u.scheme "https",
            eq_iff u.host "",
            AllLoopback-all_loopback (ip ∷ ips) l,
          )
