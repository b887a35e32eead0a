-- ===== src/Declare/Runnable.antt =====
-- The structural checks of the services map (declare.go of internal/declare).
use pmmcp.Prelude.{
  String, ◌≡◌, refl, ◌↔◌, inl, inr, true, false, ◌&&◌, ◌||◌, none, List, [], ◌∷◌, arith, str_eq,
  ◌==◌, Bool-cases, Option-cases, length, All, elem,
}
use pmmcp.Prelude.Runes.{codes, eq_runes, is_empty, trim_space}
use pmmcp.Declare.{ServiceSpec}
use pmmcp.Declare.Check.{first_unknown, validate_service, validate_each}

-- A service of the services map, whose names are `keys`, is named, can be started on its runtime, and
-- depends on services of the map.
pub record IsRunnable (keys : List String) (key : String) (s : ServiceSpec) : Type 0 where
  pub named : (str_eq s.name "" && str_eq key "") ≡ false
  pub startable :
      ((is_empty (trim_space s.runtime) || eq_runes (trim_space s.runtime) (codes "local"))
        && (length s.argv == 0 && is_empty s.image))
      ≡ false
  pub has_image :
      ((eq_runes (trim_space s.runtime) (codes "podman")
          || (eq_runes (trim_space s.runtime) (codes "docker")
              || eq_runes (trim_space s.runtime) (codes "container")))
        && is_empty s.image)
      ≡ false
  pub known : All (λ dep. elem dep keys ≡ true) s.depends_on

first_unknown-none :
    (keys deps : List String)
    → (first_unknown keys deps ≡ none) ↔ All (λ dep. elem dep keys ≡ true) deps
unfolding first_unknown
first_unknown-none keys [] = ((λ h. tt), (λ h. refl))
first_unknown-none keys (dep ∷ deps) =
    let (out, back) = first_unknown-none keys deps in
    elim (Bool-cases (elem dep keys)) [
      | inl y ↦ rw y ((λ h. (refl, out h)), (λ (a, b). back b))
      | inr n ↦ rw n ((λ h. absurd (ground (arith, h))), (λ (a, b). absurd (ground (arith, a))))
    ]

validate_service-none :
    (keys : List String) (key : String) (s : ServiceSpec)
    → (validate_service keys key s ≡ none) ↔ IsRunnable keys key s
unfolding validate_service
validate_service-none keys key s =
    let (out, back) = first_unknown-none keys s.depends_on in
    (
      (λ h. record {
        named = ground (arith, h);
        startable = ground (arith, h);
        has_image = ground (arith, h);
        known = out (elim (Option-cases (first_unknown keys s.depends_on)) [
          | inl e ↦ e
          | inr (dep, e) ↦ absurd (ground (arith, h, e))
        ]);
      }),
      (λ r. ground (arith, r.named, r.startable, r.has_image, back r.known)),
    )

pub validate_each-none :
    (keys : List String) (services : List (String × ServiceSpec))
    → (validate_each keys services ≡ none) ↔ All (λ (key, s). IsRunnable keys key s) services
unfolding validate_each
validate_each-none keys [] = ((λ h. tt), (λ h. refl))
validate_each-none keys ((key, s) ∷ rest) =
    let (out, back) = validate_each-none keys rest in
    let (one, one_back) = validate_service-none keys key s in
    elim (Option-cases (validate_service keys key s)) [
      | inl e ↦ rw (validate_each, e) ((λ h. (one e, out h)), (λ (a, b). back b))
      | inr (x, e) ↦
          rw (validate_each, e)
            ((λ h. absurd (ground (arith, h))), (λ (a, b). absurd (ground (arith, e, one_back a))))
    ]
