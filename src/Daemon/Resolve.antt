-- ===== src/Daemon/Resolve.antt =====
-- internal/daemon/server.go: `resolveID`, from an identifier or a name to the record.
use pmmcp.Prelude.{String, Bool, false, not, none, some, List, [], ◌∷◌, str_eq, if◌then◌else◌, keep}
use pmmcp.Prelude.Result.{Result, ok, err}
use pmmcp.Domain.{Process}
use pmmcp.Store.{Table, get, list}
use pmmcp.Daemon.{Failure, domain_error, record_not_found, Server, name_scope_key}
use pmmcp.Daemon.Guard.{is_terminal}

unfoldable pub find_record : String → Table → Result Failure (String × Process)
find_record i t = elim (get i t) [ none ↦ err record_not_found | some p ↦ ok (i, p) ]

-- The records of that name in the project, or in any project if it has none.
unfoldable pub named_records : String → String → Table → List Process
named_records name project t =
    elim (list (record { project_id = project; status = ""; name = name }) t) [
      | [] ↦ list (record { project_id = ""; status = ""; name = name }) t
      | p ∷ ps ↦ p ∷ ps
    ]

abbrev pub is_live : Process → Bool
is_live r = not (is_terminal r.status)

-- The choice among the live records, with the first of all the records to fall back on.
unfoldable pub choose : Process → List Process → Result Failure (String × Process)
choose first [] = ok (first.id, first)
choose first (r ∷ []) = ok (r.id, r)
choose first (r ∷ r' ∷ rest) = err (domain_error "invalid_argument" false)

unfoldable pub pick : List Process → Result Failure (String × Process)
pick [] = err record_not_found
pick (r ∷ rs) = choose r (keep is_live (r ∷ rs))

unfoldable pub resolve_id : Server → String → String → String → Result Failure (String × Process)
resolve_id s id_or_name name project =
    if not (str_eq id_or_name "")
    then find_record id_or_name s.store
    else if str_eq name ""
    then err (domain_error "invalid_argument" false)
    else if not (str_eq (s.by_name (name_scope_key project "" name)) "")
    then find_record (s.by_name (name_scope_key project "" name)) s.store
    else pick (named_records name project s.store)
