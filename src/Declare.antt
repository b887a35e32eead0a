-- ===== src/Declare.antt =====
-- internal/declare: a project document after it is decoded (declare.go), and its validation
-- (declare.go, policy.go). A map is the list of its entries in the order in which a loop meets them;
-- metadata, descriptions and the texts of errors are left out.
pub mod Check
mod Contain
mod Accept
mod Runnable
mod Valid
mod Tests
use pmmcp.Prelude.{
  ℕ, suc, ◌+◌, String, Bool, true, false, ◌&&◌, ◌||◌, Option, none, some, List, [], ◌∷◌, ◌++◌, map,
  leb, if◌then◌else◌,
}
use pmmcp.Prelude.Int.{ℤ, pos, ltb_ℤ}
use pmmcp.Prelude.Runes.{Runes, codes, eq_runes, has_prefix, is_empty, trim_space}
use pmmcp.Path.{is_abs, clean, join, rel}

pub record PortSpec : Type 0 where
  pub port : ℤ
  pub host : ℤ
  pub host_port : ℤ

unfoldable pub host_facing_port : PortSpec → ℤ
host_facing_port p =
    if ltb_ℤ (pos 0) p.host
    then p.host
    else if ltb_ℤ (pos 0) p.host_port
    then p.host_port
    else if ltb_ℤ (pos 0) p.port
    then p.port
    else pos 0

-- `watch_paths` is `Watch.Paths`, with none for the nil pointer; `depends_on` is the keys of the map.
pub record ServiceSpec : Type 0 where
  pub name : String
  pub argv : List Runes
  pub image : Runes
  pub runtime : Runes
  pub depends_on : List String
  pub sandbox : Runes
  pub ports : List PortSpec
  pub watch_paths : Option (List Runes)

-- `default_sandbox` is `Defaults.Sandbox`, `groups` the members of each group, `webhooks` the URLs.
pub record Spec : Type 0 where
  pub default_sandbox : Option Runes
  pub groups : List (List ServiceSpec)
  pub jobs : List ServiceSpec
  pub webhooks : List Runes

pub record Document : Type 0 where
  pub api_version : Runes
  pub kind : Runes
  pub services : List (String × ServiceSpec)
  pub spec : Option Spec

pub data Code : Type 0 where
  sandbox_required argv_shell_risk path_outside_proj port_privileged webhook_url_denied : Code

-- The document path of a violation.
pub data Place : Type 0 where
  top : Place
  field : Place → String → Place
  item : Place → ℕ → Place

pub record ValidationError : Type 0 where
  pub code : Code
  pub path : Place

pub record ValidateConfig : Type 0 where
  pub project_root : Runes
  pub allow_sandbox_off : Bool
  pub allow_shell_argv : Bool
  pub allow_priv_ports : Bool
  pub webhook_allowlist : List Runes

pub data DeclareError : Type 0 where
  missing_api_version unsupported_api_version missing_kind unsupported_kind : DeclareError
  empty_name argv_or_image_required image_required unknown_dependency : String → DeclareError
  violations : List ValidationError → DeclareError

abbrev pub canonical_api_version : Runes
canonical_api_version = codes "pmmcp.dev/v1alpha1"

-- Go's net/url, net and unicode packages: URL and IP parsing, the classes of addresses, and the
-- lower case of a rune that is not ASCII.
pub record Url : Type 0 where
  pub scheme : Runes
  pub host : Runes
  pub hostname : Runes

pub record Net : Type 1 where
  pub Ip : Type 0
  pub parse_url : Runes → Option Url
  pub parse_ip : Runes → Option Ip
  pub is_loopback : Ip → Bool
  pub is_link_local_unicast : Ip → Bool
  pub is_link_local_multicast : Ip → Bool
  pub is_private : Ip → Bool
  pub is_unspecified : Ip → Bool
  pub is_multicast : Ip → Bool
  pub lower_wide : ℕ → ℕ

-- A service-like node with its document path.
pub record UnitAt : Type 0 where
  pub path : Place
  pub spec : ServiceSpec

unfoldable pub members_at : Place → ℕ → List ServiceSpec → List UnitAt
members_at path i [] = []
members_at path i (m ∷ ms) = record { path = item path i; spec = m } ∷ members_at path (suc i) ms

abbrev pub members_place : ℕ → Place
members_place i = field (item (field (field top "spec") "groups") i) "members"

unfoldable pub groups_at : ℕ → List (List ServiceSpec) → List UnitAt
groups_at i [] = []
groups_at i (g ∷ gs) = members_at (members_place i) 0 g ++ groups_at (suc i) gs

unfoldable pub units : Document → List UnitAt
units d =
    map (λ (key, s). record { path = field (field top "services") key; spec = s }) d.services
    ++ elim d.spec [
      | none ↦ []
      | some s ↦ groups_at 0 s.groups ++ members_at (field (field top "spec") "jobs") 0 s.jobs
    ]

unfoldable pub lower_ascii : ℕ → ℕ
lower_ascii c = if leb 0x41 c && leb c 0x5A then c + 32 else c

-- `strings.EqualFold(strings.TrimSpace(s), "off")`; no letter of "off" has another case outside ASCII.
unfoldable pub is_off : Runes → Bool
is_off s = eq_runes (map lower_ascii (trim_space s)) (codes "off")

unfoldable pub check_sandbox_defaults : ValidateConfig → Document → List ValidationError
check_sandbox_defaults cfg d = if cfg.allow_sandbox_off then [] else elim d.spec [
  | none ↦ []
  | some s ↦ elim s.default_sandbox [
    | none ↦ []
    | some sandbox ↦
        if is_off sandbox
        then record {
          code = sandbox_required;
          path = field (field (field top "spec") "defaults") "sandbox";
        }
          ∷ []
        else []
  ]
]

unfoldable pub check_ports_from : Place → ℕ → List PortSpec → List ValidationError
check_ports_from path i [] = []
check_ports_from path i (p ∷ ps) =
    let rest = check_ports_from path (suc i) ps in
    let host = host_facing_port p in
    if ltb_ℤ (pos 0) host && ltb_ℤ host (pos 1024)
    then record { code = port_privileged; path = field (item (field path "ports") i) "port" } ∷ rest
    else rest

unfoldable pub check_ports : ValidateConfig → UnitAt → List ValidationError
check_ports cfg u = if cfg.allow_priv_ports then [] else check_ports_from u.path 0 u.spec.ports

-- `rel` of the two clean paths, and whether it leads out.
unfoldable pub leads_out : Runes → Bool
leads_out path = eq_runes path (codes "..") || has_prefix path (codes "../")

unfoldable pub path_outside_project : Runes → Runes → Bool
path_outside_project p root =
    let abs = if is_abs p then p else join root p in
    if is_empty (trim_space p)
    then false
    else if is_empty root
    then is_abs p || leads_out (clean p)
    else elim (rel (clean root) (clean abs)) [ none ↦ true | some way ↦ leads_out way ]

unfoldable pub check_paths : Runes → Place → ℕ → List Runes → List ValidationError
check_paths root path i [] = []
check_paths root path i (p ∷ ps) =
    let rest = check_paths root path (suc i) ps in
    if path_outside_project p root
    then record { code = path_outside_proj; path = item (field (field path "watch") "paths") i }
      ∷ rest
    else rest

unfoldable pub check_watch : ValidateConfig → UnitAt → List ValidationError
check_watch cfg u = elim u.spec.watch_paths [
  | none ↦ []
  | some paths ↦ check_paths cfg.project_root u.path 0 paths
]
