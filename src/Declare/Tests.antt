-- ===== src/Declare/Tests.antt =====
-- Documents validated at concrete values, and the witnesses.
use pmmcp.Prelude.{◌≡◌, refl, ◌↔◌, false, none, some, List, [], ◌∷◌}
use pmmcp.Prelude.Int.{pos}
use pmmcp.Prelude.Runes.{
  Runes, codes, eq_runes, has_prefix, has_suffix, contains, is_space, trim_left, trim_space,
  lower_rune,
}
use pmmcp.Path.{is_abs, words, clean, join, walk, push_word, split, slashed, way, climb, rel, base}
use pmmcp.Declare.{
  PortSpec, ServiceSpec, Document, ValidateConfig, violations, argv_shell_risk, port_privileged,
  path_outside_proj, canonical_api_version, Net, top, field, item, units, is_off, lower_ascii,
  host_facing_port, check_sandbox_defaults, check_ports, check_ports_from, check_watch, check_paths,
  leads_out, path_outside_project,
}
use pmmcp.Declare.Check.{
  validate, policy_check, check_units, check_unit, check_webhooks, shell_risk_argv, is_shell_flag,
  some_of, elem_runes, trim_suffix, to_lower, validate_services, validate_each, validate_service,
  first_unknown,
}
use pmmcp.Declare.Valid.{IsAccepted, validate_iff}

-- Every text is an https URL of itself, and no text is an address.
abbrev web : Net
web = record {
  Ip = Unit {0};
  parse_url = λ s. some (record { scheme = codes "https"; host = s; hostname = s });
  parse_ip = λ _. none;
  is_loopback = λ _. false;
  is_link_local_unicast = λ _. false;
  is_link_local_multicast = λ _. false;
  is_private = λ _. false;
  is_unspecified = λ _. false;
  is_multicast = λ _. false;
  lower_wide = λ c. c;
}

abbrev defaults : ValidateConfig
defaults = record {
  project_root = codes "/w";
  allow_sandbox_off = false;
  allow_shell_argv = false;
  allow_priv_ports = false;
  webhook_allowlist = [];
}

abbrev service : List Runes → List PortSpec → List Runes → ServiceSpec
service argv ports paths = record {
  name = "api";
  argv = argv;
  image = [];
  runtime = [];
  depends_on = [];
  sandbox = [];
  ports = ports;
  watch_paths = some paths;
}

abbrev document : ServiceSpec → Document
document s = record {
  api_version = canonical_api_version;
  kind = codes "Project";
  services = ("api", s) ∷ [];
  spec = none;
}

abbrev calm : Document
calm = document (service (codes "node" ∷ codes "-c" ∷ []) [] (codes "src" ∷ []))

abbrev hostile : Document
hostile = document (
    service (codes "/bin/Bash" ∷ codes "-lc" ∷ codes "rm" ∷ [])
      (record { port = pos 80; host = pos 0; host_port = pos 0 } ∷ []) (codes "../x" ∷ []))

accepts_calm : validate web defaults calm ≡ none
unfolding validate policy_check check_units check_unit check_webhooks shell_risk_argv elem_runes
    trim_suffix to_lower lower_rune validate_services validate_each validate_service first_unknown
    check_sandbox_defaults units check_ports check_ports_from check_watch check_paths leads_out
    path_outside_project is_off lower_ascii codes eq_runes has_prefix has_suffix is_space trim_left
    trim_space is_abs words clean join walk push_word split slashed way climb rel base
accepts_calm = refl

refuses_hostile :
    validate web defaults hostile
    ≡ some (
        violations (
          record {
            code = argv_shell_risk;
            path = field (field (field top "services") "api") "argv";
          }
          ∷ record {
            code = port_privileged;
            path = field (item (field (field (field top "services") "api") "ports") 0) "port";
          }
          ∷ record {
            code = path_outside_proj;
            path = item (field (field (field (field top "services") "api") "watch") "paths") 0;
          }
          ∷ []))
unfolding validate policy_check check_units check_unit check_webhooks shell_risk_argv is_shell_flag
    some_of elem_runes trim_suffix to_lower lower_rune validate_services validate_each
    validate_service first_unknown check_sandbox_defaults units check_ports check_ports_from
    host_facing_port check_watch check_paths leads_out path_outside_project is_off lower_ascii codes
    eq_runes has_prefix has_suffix contains is_space trim_left trim_space is_abs words clean join
    walk push_word split slashed way climb rel base
refuses_hostile = refl

validate_iff_example : (validate web defaults hostile ≡ none) ↔ IsAccepted web defaults hostile
validate_iff_example = validate_iff web defaults hostile
