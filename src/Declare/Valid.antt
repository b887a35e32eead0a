-- ===== src/Declare/Valid.antt =====
-- When `Validate` (internal/declare) returns no error.
use pmmcp.Prelude.{
  ℕ, suc, String, ◌≡◌, refl, sym, ap, ◌∙◌, ◌↔◌, ◌⊎◌, inl, inr, true, false, Option, none, some,
  List, [], ◌∷◌, ◌++◌, map, arith, Bool-cases, Option-cases, All,
}
use pmmcp.Prelude.Runes.{codes, eq_runes, eq_runes_iff, is_empty, is_space, trim_left, trim_space}
use pmmcp.Declare.{
  ServiceSpec, Spec, Document, Place, ValidationError, ValidateConfig, canonical_api_version, Net,
  UnitAt, units, members_at, groups_at, members_place, top, field, check_sandbox_defaults, is_off,
  sandbox_required,
}
use pmmcp.Declare.Check.{
  keys_of, validate_services, webhook_denied, check_webhooks, check_units, policy_check, validate,
}
use pmmcp.Declare.Accept.{
  append-nil_iff, one-nil_iff, members_of, units_of, specs, default_is_on, webhooks_of, IsSafe,
  check_units-nil, check_urls-nil,
}
use pmmcp.Declare.Runnable.{IsRunnable, validate_each-none}
use mathlib.Core.List.{map-append}
use mathlib.Core.Path.{subst}

members_at-specs :
    (path : Place) (i : ℕ) (ms : List ServiceSpec) → map (λ u. u.spec) (members_at path i ms) ≡ ms
unfolding members_at
members_at-specs path i [] = refl
members_at-specs path i (m ∷ ms) = ap (λ r. m ∷ r) (members_at-specs path (suc i) ms)

groups_at-specs :
    (i : ℕ) (gs : List (List ServiceSpec)) → map (λ u. u.spec) (groups_at i gs) ≡ members_of gs
unfolding groups_at
groups_at-specs i [] = refl
groups_at-specs i (g ∷ gs) =
    map-append (λ (u : UnitAt). u.spec) (members_at (members_place i) 0 g) (groups_at (suc i) gs)
    ∙ (λ t. members_at-specs (members_place i) 0 g t ++ groups_at-specs (suc i) gs t)

services-specs :
    (services : List (String × ServiceSpec)) (f : String → Place)
    → map {B = ServiceSpec}
        (λ u. u.spec)
        (map {B = UnitAt} (λ (key, s). record { path = f key; spec = s }) services)
      ≡ map (λ (key, s). s) services
services-specs [] f = refl
services-specs ((key, s) ∷ rest) f = ap (λ r. s ∷ r) (services-specs rest f)

-- The nodes that are checked are all of the document's.
units-specs : (d : Document) → map (λ u. u.spec) (units d) ≡ specs d
unfolding units
units-specs d =
    map-append (λ (u : UnitAt). u.spec)
      (map {B = UnitAt} (λ (key, s). record { path = field (field top "services") key; spec = s })
        d.services)
      (in_spec d.spec)
    ∙ (λ t. services-specs d.services (field (field top "services")) t ++ of d.spec t)
  where
    in_spec : Option Spec → List UnitAt
    in_spec o = elim o [
      | none ↦ []
      | some s ↦ groups_at 0 s.groups ++ members_at (field (field top "spec") "jobs") 0 s.jobs
    ]

    of : (o : Option Spec) → map (λ u. u.spec) (in_spec o) ≡ units_of o
    of none = refl
    of (some s) =
        map-append (λ (u : UnitAt). u.spec) (groups_at 0 s.groups)
          (members_at (field (field top "spec") "jobs") 0 s.jobs)
        ∙ (λ t.
            groups_at-specs 0 s.groups t
            ++ members_at-specs (field (field top "spec") "jobs") 0 s.jobs t)

All-map :
    {A B : Type 0} (P : B → Type 0) (f : A → B) (xs : List A)
    → All P (map f xs) ↔ All (λ x. P (f x)) xs
All-map P f [] = ((λ h. tt), (λ h. tt))
All-map P f (x ∷ xs) =
    let (out, back) = All-map P f xs in ((λ (a, b). (a, out b)), (λ (a, b). (a, back b)))

List-cases : {A : Type 0} (xs : List A) → (xs ≡ []) ⊎ ((x : A) × (rest : List A) × (xs ≡ x ∷ rest))
List-cases [] = inl refl
List-cases (x ∷ rest) = inr (x, rest, refl)

abbrev default_error : ValidationError
default_error = record {
  code = sandbox_required;
  path = field (field (field top "spec") "defaults") "sandbox";
}

defaults-nil :
    (cfg : ValidateConfig) (d : Document)
    → (check_sandbox_defaults cfg d ≡ [])
      ↔ ((cfg.allow_sandbox_off ≡ true) ⊎ (default_is_on d.spec ≡ true))
unfolding check_sandbox_defaults
defaults-nil cfg d = elim (Bool-cases cfg.allow_sandbox_off) [
  | inl free ↦ rw (check_sandbox_defaults, free) ((λ h. inl refl), (λ h. refl))
  | inr strict ↦ elim (Option-cases d.spec) [
    | inl e ↦ rw (check_sandbox_defaults, strict, e) ((λ h. inr refl), (λ h. refl))
    | inr (s, e) ↦ elim (Option-cases s.default_sandbox) [
      | inl f ↦ rw (check_sandbox_defaults, strict, e, f) ((λ h. inr refl), (λ h. refl))
      | inr (x, f) ↦
          let (out, back) = one-nil_iff (is_off x) default_error in
          rw (check_sandbox_defaults, strict, e, f)
            (
              (λ h. inr (ground (arith, out h))),
              (λ h.
                  back (elim h [ inl y ↦ absurd (ground (arith, y)) | inr y ↦ ground (arith, y) ])),
            )
    ]
  ]
]

webhooks-nil :
    (net : Net) (cfg : ValidateConfig) (d : Document)
    → (check_webhooks net cfg d ≡ [])
      ↔ All (λ w. webhook_denied net w cfg.webhook_allowlist ≡ false) (webhooks_of d.spec)
unfolding check_webhooks
webhooks-nil net cfg d = elim (Option-cases d.spec) [
  | inl e ↦ rw (check_webhooks, e) ((λ h. tt), (λ h. refl))
  | inr (s, e) ↦ rw (check_webhooks, e) (check_urls-nil net cfg 0 s.webhooks)
]

validate-parts :
    (net : Net) (cfg : ValidateConfig) (d : Document)
    → validate net cfg d ≡ none
    → (eq_runes d.api_version canonical_api_version ≡ true)
      × (eq_runes d.kind (codes "Project") ≡ true)
      × (validate_services d ≡ none)
      × (policy_check net cfg d ≡ [])
unfolding validate
validate-parts net cfg d h = (
  ground (arith, h),
  ground (arith, h),
  elim (Option-cases (validate_services d)) [
    | inl e ↦ e
    | inr (x, e) ↦ absurd (ground (arith, h, e))
  ],
  elim (List-cases (policy_check net cfg d)) [
    | inl e ↦ e
    | inr (x, rest, e) ↦ absurd (ground (arith, h, e))
  ],
)

parts-validate :
    (net : Net) (cfg : ValidateConfig) (d : Document)
    → d.api_version ≡ canonical_api_version
    → d.kind ≡ codes "Project"
    → validate_services d ≡ none
    → policy_check net cfg d ≡ []
    → validate net cfg d ≡ none
unfolding validate codes trim_space trim_left is_space
parts-validate net cfg d v k s p =
    let version : is_empty (trim_space d.api_version) ≡ false =
      ap (λ x. is_empty (trim_space x)) v in
    let kind : is_empty (trim_space d.kind) ≡ false = ap (λ x. is_empty (trim_space x)) k in
    ground (
      arith,
      version,
      kind,
      s,
      p,
      (eq_runes_iff d.api_version canonical_api_version).1 v,
      (eq_runes_iff d.kind (codes "Project")).1 k,
    )

module _ (net : Net) (cfg : ValidateConfig) where
  pub record IsAccepted (d : Document) : Type 0 where
    pub versioned : d.api_version ≡ canonical_api_version
    pub project : d.kind ≡ codes "Project"
    pub runnable : All (λ (key, s). IsRunnable (keys_of d.services) key s) d.services
    pub defaulted : (cfg.allow_sandbox_off ≡ true) ⊎ (default_is_on d.spec ≡ true)
    pub safe : All (IsSafe net cfg) (specs d)
    pub permitted :
        All (λ w. webhook_denied net w cfg.webhook_allowlist ≡ false) (webhooks_of d.spec)

  policy_check-nil :
      (d : Document)
      → (policy_check net cfg d ≡ []) ↔ (
          ((cfg.allow_sandbox_off ≡ true) ⊎ (default_is_on d.spec ≡ true))
          × All (IsSafe net cfg) (specs d)
          × All (λ w. webhook_denied net w cfg.webhook_allowlist ≡ false) (webhooks_of d.spec))
  unfolding policy_check
  policy_check-nil d =
      let us = check_units net cfg (units d) in
      let (defaults, defaults_back) = defaults-nil cfg d in
      let (safe, safe_back) = check_units-nil net cfg (units d) in
      let (each, each_back) = All-map (IsSafe net cfg) (λ (u : UnitAt). u.spec) (units d) in
      let (hooks, hooks_back) = webhooks-nil net cfg d in
      (
        (λ h.
            let (a, rest) =
              (append-nil_iff (check_sandbox_defaults cfg d) (us ++ check_webhooks net cfg d)).0
                h in
            let (b, c) = (append-nil_iff us (check_webhooks net cfg d)).0 rest in
            (
              defaults a,
              subst (All (IsSafe net cfg)) (units-specs d) (each_back (safe b)),
              hooks c,
            )),
        (λ (a, b, c).
            (append-nil_iff (check_sandbox_defaults cfg d) (us ++ check_webhooks net cfg d)).1 (
              defaults_back a,
              (append-nil_iff us (check_webhooks net cfg d)).1 (
                safe_back (each (subst (All (IsSafe net cfg)) (sym (units-specs d)) b)),
                hooks_back c,
              ),
            )),
      )

  -- A document is accepted exactly when it has the one supported version and kind, its services are
  -- named, can be started and depend on each other only, no service, group member, job or default
  -- breaks the policy that the options leave, and no webhook is denied.
  pub validate_iff : (d : Document) → (validate net cfg d ≡ none) ↔ IsAccepted d
  unfolding validate_services
  validate_iff d =
      let version = eq_runes_iff d.api_version canonical_api_version in
      let kind = eq_runes_iff d.kind (codes "Project") in
      let (each, each_back) = validate_each-none (keys_of d.services) d.services in
      let (policy, policy_back) = policy_check-nil d in
      (
        (λ h.
            let (v, k, s, p) = validate-parts net cfg d h in
            let (defaulted, safe, permitted) = policy p in
            record {
              versioned = version.0 v;
              project = kind.0 k;
              runnable = each s;
              defaulted = defaulted;
              safe = safe;
              permitted = permitted;
            }),
        (λ a.
            parts-validate net cfg d a.versioned a.project (each_back a.runnable)
              (policy_back (a.defaulted, a.safe, a.permitted))),
      )
