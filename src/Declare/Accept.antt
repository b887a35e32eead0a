-- ===== src/Declare/Accept.antt =====
-- What `Validate` (internal/declare) accepts, described without its errors and their order.
use pmmcp.Prelude.{
  ℕ, suc, ◌≡◌, refl, ap, ◌↔◌, ◌⊎◌, inl, inr, Bool, true, false, not, ◌&&◌, Option, none, some, List,
  [], ◌∷◌, ◌++◌, map, arith, if◌then◌else◌, Bool-cases, length, All,
}
use pmmcp.Prelude.Int.{pos, ltb_ℤ}
use pmmcp.Prelude.Runes.{Runes}
use pmmcp.Declare.{
  PortSpec, host_facing_port, ServiceSpec, Spec, Document, Place, ValidateConfig, Net, UnitAt,
  is_off, check_ports, check_ports_from, check_paths, check_watch, path_outside_project,
}
use pmmcp.Declare.Check.{shell_risk_argv, webhook_denied, check_urls, check_unit, check_units}

pub append-nil_iff : {A : Type 0} (xs ys : List A) → (xs ++ ys ≡ []) ↔ ((xs ≡ []) × (ys ≡ []))
append-nil_iff [] ys = ((λ h. (refl, h)), (λ (a, b). b))
append-nil_iff (x ∷ xs) ys =
    ((λ h. absurd (omega (arith, ap length h))), (λ (a, b). absurd (omega (arith, ap length a))))

-- A loop that puts an error in front of the rest when a test holds finds none when it never does.
cons-nil_iff :
    {A P : Type 0} (b : Bool) (x : A) (rest : List A)
    → (rest ≡ []) ↔ P
    → ((if b then x ∷ rest else rest) ≡ []) ↔ ((b ≡ false) × P)
cons-nil_iff true x rest (out, back) =
    ((λ h. absurd (omega (arith, ap length h))), (λ (a, b). absurd (ground (arith, a))))
cons-nil_iff false x rest (out, back) = ((λ h. (refl, out h)), (λ (a, b). back b))

pub one-nil_iff : {A : Type 0} (b : Bool) (x : A) → ((if b then x ∷ [] else []) ≡ []) ↔ (b ≡ false)
one-nil_iff true x = ((λ h. absurd (omega (arith, ap length h))), (λ a. absurd (ground (arith, a))))
one-nil_iff false x = ((λ h. refl), (λ h. refl))

-- The host-facing port needs no privileges.
abbrev pub IsOpenPort : PortSpec → Type 0
IsOpenPort p = (ltb_ℤ (pos 0) (host_facing_port p) && ltb_ℤ (host_facing_port p) (pos 1024)) ≡ false

abbrev pub IsWatched : Runes → Option (List Runes) → Type 0
IsWatched root none = Unit
IsWatched root (some paths) = All (λ p. path_outside_project p root ≡ false) paths

abbrev pub members_of : List (List ServiceSpec) → List ServiceSpec
members_of [] = []
members_of (g ∷ gs) = g ++ members_of gs

abbrev pub units_of : Option Spec → List ServiceSpec
units_of none = []
units_of (some s) = members_of s.groups ++ s.jobs

-- Every service, group member and job of a document.
abbrev pub specs : Document → List ServiceSpec
specs d = map (λ (key, s). s) d.services ++ units_of d.spec

abbrev pub default_is_on : Option Spec → Bool
default_is_on none = true
default_is_on (some s) = elim s.default_sandbox [ none ↦ true | some x ↦ not (is_off x) ]

abbrev pub webhooks_of : Option Spec → List Runes
webhooks_of none = []
webhooks_of (some s) = s.webhooks

check_ports_from-nil :
    (path : Place) (i : ℕ) (ps : List PortSpec)
    → (check_ports_from path i ps ≡ []) ↔ All IsOpenPort ps
unfolding check_ports_from
check_ports_from-nil path i [] = ((λ h. tt), (λ h. refl))
check_ports_from-nil path i (p ∷ ps) =
    cons-nil_iff (ltb_ℤ (pos 0) (host_facing_port p) && ltb_ℤ (host_facing_port p) (pos 1024)) _
      (check_ports_from path (suc i) ps) (check_ports_from-nil path (suc i) ps)

check_paths-nil :
    (root : Runes) (path : Place) (i : ℕ) (ps : List Runes)
    → (check_paths root path i ps ≡ []) ↔ All (λ p. path_outside_project p root ≡ false) ps
unfolding check_paths
check_paths-nil root path i [] = ((λ h. tt), (λ h. refl))
check_paths-nil root path i (p ∷ ps) =
    cons-nil_iff (path_outside_project p root) _ (check_paths root path (suc i) ps)
      (check_paths-nil root path (suc i) ps)

module _ (net : Net) (cfg : ValidateConfig) where
  -- No unit of a safe document turns its sandbox off, runs an inline command of a shell, takes a
  -- privileged port of the host, or watches a path outside the project, unless the options allow it.
  pub record IsSafe (s : ServiceSpec) : Type 0 where
    pub sandboxed : (not cfg.allow_sandbox_off && is_off s.sandbox) ≡ false
    pub no_shell : (not cfg.allow_shell_argv && shell_risk_argv net s.argv) ≡ false
    pub open_ports : (cfg.allow_priv_ports ≡ true) ⊎ All IsOpenPort s.ports
    pub watched : IsWatched cfg.project_root s.watch_paths

  pub check_urls-nil :
      (i : ℕ) (ws : List Runes)
      → (check_urls net cfg.webhook_allowlist i ws ≡ [])
        ↔ All (λ w. webhook_denied net w cfg.webhook_allowlist ≡ false) ws
  unfolding check_urls
  check_urls-nil i [] = ((λ h. tt), (λ h. refl))
  check_urls-nil i (w ∷ ws) =
      cons-nil_iff (webhook_denied net w cfg.webhook_allowlist) _
        (check_urls net cfg.webhook_allowlist (suc i) ws) (check_urls-nil (suc i) ws)

  check_ports-nil :
      (u : UnitAt)
      → (check_ports cfg u ≡ []) ↔ ((cfg.allow_priv_ports ≡ true) ⊎ All IsOpenPort u.spec.ports)
  unfolding check_ports
  check_ports-nil u =
      let (out, back) = check_ports_from-nil u.path 0 u.spec.ports in
      elim (Bool-cases cfg.allow_priv_ports) [
        | inl free ↦ rw (check_ports, free) ((λ h. inl refl), (λ h. refl))
        | inr strict ↦
            rw (check_ports, strict)
              (
                (λ h. inr (out h)),
                (λ h. elim h [ inl e ↦ absurd (ground (arith, e)) | inr o ↦ back o ]),
              )
      ]

  check_watch-nil :
      (u : UnitAt) → (check_watch cfg u ≡ []) ↔ IsWatched cfg.project_root u.spec.watch_paths
  unfolding check_watch
  check_watch-nil u = of u.spec.watch_paths
    where
      of :
          (w : Option (List Runes))
          → (elim w [ none ↦ [] | some paths ↦ check_paths cfg.project_root u.path 0 paths ] ≡ [])
            ↔ IsWatched cfg.project_root w
      of none = ((λ h. tt), (λ h. refl))
      of (some paths) = check_paths-nil cfg.project_root u.path 0 paths

  check_unit-nil : (u : UnitAt) → (check_unit net cfg u ≡ []) ↔ IsSafe u.spec
  unfolding check_unit
  check_unit-nil u =
      let (off, off_back) = one-nil_iff (not cfg.allow_sandbox_off && is_off u.spec.sandbox) _ in
      let (shell, shell_back) =
        one-nil_iff (not cfg.allow_shell_argv && shell_risk_argv net u.spec.argv) _ in
      let (ports, ports_back) = check_ports-nil u in
      let (watch, watch_back) = check_watch-nil u in
      (
        (λ h.
            let (a, rest) = (append-nil_iff _ _).0 h in
            let (b, more) = (append-nil_iff _ _).0 rest in
            let (c, d) = (append-nil_iff (check_ports cfg u) (check_watch cfg u)).0 more in
            record {
              sandboxed = off a;
              no_shell = shell b;
              open_ports = ports c;
              watched = watch d;
            }),
        (λ s. (append-nil_iff _ _).1 (
          off_back s.sandboxed,
          (append-nil_iff _ _).1 (
            shell_back s.no_shell,
            (append-nil_iff (check_ports cfg u) (check_watch cfg u)).1
                (ports_back s.open_ports, watch_back s.watched),
          ),
        )),
      )

  pub check_units-nil :
      (us : List UnitAt) → (check_units net cfg us ≡ []) ↔ All (λ u. IsSafe u.spec) us
  unfolding check_units
  check_units-nil [] = ((λ h. tt), (λ h. refl))
  check_units-nil (u ∷ us) =
      let (out, back) = check_units-nil us in
      let (first, first_back) = check_unit-nil u in
      let (split, joined) = append-nil_iff (check_unit net cfg u) (check_units net cfg us) in
      ((λ h. let (a, b) = split h in (first a, out b)), (λ (a, b). joined (first_back a, back b)))
