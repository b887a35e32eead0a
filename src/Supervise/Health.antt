-- ===== src/Supervise/Health.antt =====
-- `ProbeHTTPOpts` of internal/supervise/supervise.go. What Go's net/http does with the guards that
-- it is given is a parameter.
use pmmcp.Prelude.{
  ℕ, ◌≤◌, ◌<◌, String, ◌≡◌, ◌⊎◌, inl, inr, Bool, false, not, ◌&&◌, Option, none, some, arith,
  str_eq, ltb, leb, if◌then◌else◌, Option-cases,
}
use pmmcp.Supervise.Probe.{
  Net, Url, Ssrf, validate_loopback_url, validate_loopback_url_iff, IsLocal, dial_control,
  check_redirect,
}

-- The outcome of a probe; the texts of the messages are left out.
pub data ProbeResult : Type 0 where
  probe_ok : ℕ → ProbeResult
  empty_url bad_url bad_request request_failed : ProbeResult
  target_refused : Ssrf → ProbeResult
  bad_status : ℕ → ProbeResult

-- `url.Parse`, `http.NewRequestWithContext`, and `client.Do` with its guards on connections and on
-- redirects; the last answers with the status of the response.
pub record Http : Type 0 where
  pub parse_url : String → Option Url
  pub can_request : String → Bool
  pub send :
      (String → Option String → Option Ssrf)
      → (ℕ → Url → Option (Unit {0} ⊎ Ssrf))
      → String
      → Option ℕ

unfoldable pub classify : Option ℕ → ProbeResult
classify none = request_failed
classify (some status) =
    if leb 200 status && ltb status 400 then probe_ok status else bad_status status

module _ (net : Net) (http : Http) where
  open http use {parse_url, can_request, send}

  -- The request, once the target has passed the guard.
  unfoldable pub request : Bool → String → ProbeResult
  request allow raw =
      if not (can_request raw)
      then bad_request
      else classify (send (dial_control net allow) (check_redirect net allow) raw)

  unfoldable pub guard_url : Bool → Url → Option Ssrf
  guard_url allow u = if not allow then validate_loopback_url net u else none

  unfoldable pub probe : Bool → String → ProbeResult
  unfolding guard_url request
  probe allow raw = if str_eq raw "" then empty_url else elim (parse_url raw) [
    | none ↦ bad_url
    | some u ↦ elim (guard_url allow u) [ some e ↦ target_refused e | none ↦ request allow raw ]
  ]

  request-probe_ok :
      (allow : Bool) (raw : String) (status : ℕ)
      → request allow raw ≡ probe_ok status
      → (send (dial_control net allow) (check_redirect net allow) raw ≡ some status)
        × (200 ≤ status)
        × (status < 400)
  unfolding request classify
  request-probe_ok allow raw status h =
      elim (Option-cases (send (dial_control net allow) (check_redirect net allow) raw)) [
        | inl e ↦ absurd (ground (arith, e))
        | inr (n, e) ↦ (ground (arith, e), ground (arith, e), ground (arith, e))
      ]

  -- A healthy probe has an answer with a status from 200 to 399, which was asked for under the guards
  -- on connections and on redirects. Unless probes of other hosts are allowed, its URL has a web
  -- scheme, and its host stands for loopback addresses only.
  pub probe-IsLocal :
      (allow : Bool) (raw : String) (status : ℕ)
      → probe allow raw ≡ probe_ok status
      → (u : Url) × (parse_url raw ≡ some u)
        × (send (dial_control net allow) (check_redirect net allow) raw ≡ some status)
        × (200 ≤ status)
        × (status < 400)
        × (allow ≡ false → ((u.scheme ≡ "http") ⊎ (u.scheme ≡ "https")) × IsLocal net u.host)
  unfolding probe guard_url
  probe-IsLocal allow raw status h = elim (Option-cases (parse_url raw)) [
    | inl e ↦ absurd (ground (arith, e))
    | inr (u, e) ↦ elim (Option-cases (guard_url allow u)) [
      | inr (x, f) ↦ absurd (ground (arith, e, f))
      | inl f ↦
          let (sent, low, high) = request-probe_ok allow raw status (ground (arith, e, f)) in
          (
            u,
            e,
            sent,
            low,
            high,
            λ strict.
                let (web, full, local) =
                  (validate_loopback_url_iff net u).0 (ground (arith, f, strict)) in
                (web, local),
          )
    ]
  ]
