-- ===== src/Declare/Check.antt =====
-- internal/declare/policy.go and declare.go: the checks of a document that need the host's URLs and
-- addresses, and `Validate`.
use pmmcp.Prelude.{
  ℕ, suc, ◌-◌, String, Bool, true, false, not, ◌&&◌, ◌||◌, Option, none, some, List, [], ◌∷◌, ◌++◌,
  map, str_eq, ltb, ◌==◌, if◌then◌else◌, length, take, elem,
}
use pmmcp.Prelude.Runes.{
  Runes, codes, eq_runes, has_prefix, has_suffix, contains, is_empty, trim_space, lower_rune,
}
use pmmcp.Path.{base}
use pmmcp.Declare.{
  ServiceSpec, Document, sandbox_required, argv_shell_risk, webhook_url_denied, top, field, item,
  ValidationError, ValidateConfig, DeclareError, missing_api_version, unsupported_api_version,
  missing_kind, unsupported_kind, empty_name, argv_or_image_required, image_required,
  unknown_dependency, violations, canonical_api_version, Net, UnitAt, units, is_off,
  check_sandbox_defaults, check_ports, check_watch,
}

unfoldable pub elem_runes : Runes → List Runes → Bool
elem_runes a [] = false
elem_runes a (x ∷ xs) = if eq_runes x a then true else elem_runes a xs

abbrev pub shells : List Runes
shells =
    codes "sh"
    ∷ codes "bash"
    ∷ codes "dash"
    ∷ codes "zsh"
    ∷ codes "ksh"
    ∷ codes "ash"
    ∷ codes "fish"
    ∷ []

unfoldable pub some_of : (Runes → Bool) → List Runes → Bool
some_of p [] = false
some_of p (x ∷ xs) = if p x then true else some_of p xs

unfoldable pub trim_suffix : Runes → Runes → Runes
trim_suffix s t = if has_suffix s t then take (length s - length t) s else s

-- A combined short flag that carries a command.
unfoldable pub is_shell_flag : Runes → Bool
is_shell_flag a = has_prefix a (codes "-") && contains b'c' a

-- The structural part of one service; `keys` are the names of the services map.
unfoldable pub first_unknown : List String → List String → Option String
first_unknown keys [] = none
first_unknown keys (dep ∷ deps) = if elem dep keys then first_unknown keys deps else some dep

unfoldable pub validate_service : List String → String → ServiceSpec → Option DeclareError
validate_service keys key s =
    let name = if str_eq s.name "" then key else s.name in
    let runtime = trim_space s.runtime in
    let container =
      eq_runes runtime (codes "podman")
      || (eq_runes runtime (codes "docker") || eq_runes runtime (codes "container")) in
    if str_eq name ""
    then some (empty_name key)
    else if (is_empty runtime || eq_runes runtime (codes "local"))
        && (length s.argv == 0 && is_empty s.image)
    then some (argv_or_image_required name)
    else if container && is_empty s.image
    then some (image_required name)
    else elim (first_unknown keys s.depends_on) [
      | none ↦ none
      | some dep ↦ some (unknown_dependency dep)
    ]

unfoldable pub validate_each : List String → List (String × ServiceSpec) → Option DeclareError
validate_each keys [] = none
validate_each keys ((key, s) ∷ rest) = elim (validate_service keys key s) [
  | some e ↦ some e
  | none ↦ validate_each keys rest
]

abbrev pub keys_of : List (String × ServiceSpec) → List String
keys_of services = map (λ (key, s). key) services

unfoldable pub validate_services : Document → Option DeclareError
validate_services d = validate_each (keys_of d.services) d.services

module _ (net : Net) where
  open net use {
    Ip, parse_url, parse_ip, is_loopback, is_link_local_unicast, is_link_local_multicast,
    is_private, is_unspecified, is_multicast, lower_wide,
  }

  -- `strings.ToLower`.
  unfoldable pub to_lower : Runes → Runes
  to_lower s = map (lower_rune lower_wide) s

  unfoldable pub is_powershell_flag : Runes → Bool
  is_powershell_flag a =
      has_prefix (to_lower a) (codes "-c") || has_prefix (to_lower a) (codes "-enc")

  unfoldable pub is_cmd_flag : Runes → Bool
  is_cmd_flag a = eq_runes (to_lower a) (codes "/c") || eq_runes (to_lower a) (codes "/k")

  unfoldable pub shell_risk_argv : List Runes → Bool
  shell_risk_argv [] = false
  shell_risk_argv (program ∷ rest) =
      let name = trim_suffix (to_lower (base program)) (codes ".exe") in
      if elem_runes name shells
      then some_of is_shell_flag rest
      else if eq_runes name (codes "powershell") || eq_runes name (codes "pwsh")
      then some_of is_powershell_flag rest
      else if eq_runes name (codes "cmd")
      then some_of is_cmd_flag rest
      else false

  unfoldable pub is_denied_ip : Ip → Bool
  is_denied_ip ip =
      is_loopback ip
      || (is_link_local_unicast ip
          || (is_link_local_multicast ip
              || (is_private ip || (is_unspecified ip || is_multicast ip))))

  -- A host that no allowlist speaks of.
  unfoldable pub is_denied_host : Runes → Bool
  is_denied_host host = elim (parse_ip host) [
    | some ip ↦ is_denied_ip ip
    | none ↦
        let lower = to_lower host in
        eq_runes lower (codes "localhost")
        || (has_suffix lower (codes ".localhost")
            || eq_runes lower (codes "metadata.google.internal"))
  ]

  unfoldable pub webhook_denied : Runes → List Runes → Bool
  webhook_denied raw allowlist = elim (parse_url (trim_space raw)) [
    | none ↦ true
    | some u ↦
        if is_empty u.host
        then true
        else if not (eq_runes u.scheme (codes "http")) && not (eq_runes u.scheme (codes "https"))
        then true
        else if ltb 0 (length allowlist)
        then not (elem_runes u.hostname allowlist)
        else is_denied_host u.hostname
  ]

  unfoldable pub check_urls : List Runes → ℕ → List Runes → List ValidationError
  check_urls allowlist i [] = []
  check_urls allowlist i (w ∷ ws) =
      let rest = check_urls allowlist (suc i) ws in
      if webhook_denied w allowlist
      then record {
        code = webhook_url_denied;
        path = field (item (field (field top "spec") "webhooks") i) "url";
      }
        ∷ rest
      else rest

  unfoldable pub check_webhooks : ValidateConfig → Document → List ValidationError
  check_webhooks cfg d = elim d.spec [
    | none ↦ []
    | some s ↦ check_urls cfg.webhook_allowlist 0 s.webhooks
  ]

  unfoldable pub check_unit : ValidateConfig → UnitAt → List ValidationError
  check_unit cfg u =
      (if not cfg.allow_sandbox_off && is_off u.spec.sandbox
        then record { code = sandbox_required; path = field u.path "sandbox" } ∷ []
        else [])
      ++ ((if not cfg.allow_shell_argv && shell_risk_argv u.spec.argv
            then record { code = argv_shell_risk; path = field u.path "argv" } ∷ []
            else [])
          ++ (check_ports cfg u ++ check_watch cfg u))

  unfoldable pub check_units : ValidateConfig → List UnitAt → List ValidationError
  check_units cfg [] = []
  check_units cfg (u ∷ us) = check_unit cfg u ++ check_units cfg us

  unfoldable pub policy_check : ValidateConfig → Document → List ValidationError
  policy_check cfg d =
      check_sandbox_defaults cfg d ++ (check_units cfg (units d) ++ check_webhooks cfg d)

  -- `Validate`: none for no error.
  unfoldable pub validate : ValidateConfig → Document → Option DeclareError
  validate cfg d =
      if is_empty (trim_space d.api_version)
      then some missing_api_version
      else if not (eq_runes d.api_version canonical_api_version)
      then some unsupported_api_version
      else if is_empty (trim_space d.kind)
      then some missing_kind
      else if not (eq_runes d.kind (codes "Project"))
      then some unsupported_kind
      else elim (validate_services d) [
        | some e ↦ some e
        | none ↦ elim (policy_check cfg d) [ [] ↦ none | e ∷ es ↦ some (violations (e ∷ es)) ]
      ]
