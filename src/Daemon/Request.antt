-- ===== src/Daemon/Request.antt =====
-- internal/daemon/server.go: what `doStart` is asked for: the guard of the sandbox, the place, the
-- look for the holder of the name, and the replacement of that holder.
use pmmcp.Prelude.{
  ℕ, String, Bool, false, not, none, some, List, [], ◌∷◌, str_eq, ltb, if◌then◌else◌, put,
}
use pmmcp.Prelude.Int.{pos, mul64}
use pmmcp.Prelude.Time.{second}
use pmmcp.Prelude.Result.{ok, err}
use pmmcp.Domain.{Process}
use pmmcp.Store.{Table, get, list, delete}
use pmmcp.Daemon.{Host, Server}
use pmmcp.Daemon.Guard.{is_terminal}
use pmmcp.Daemon.Control.{call_stop}

-- The maps of the payload are lists of pairs, in the order of the range over them.
pub record StartPayload : Type 0 where
  pub name : String
  pub command : List String
  pub cwd : String
  pub env : List (String × String)
  pub env_files : List String
  pub sandbox : String
  pub project : String
  pub stop_on_disconnect : Bool
  pub health_url : String
  pub auto_restart : Bool
  pub ports : List String
  pub runtime : String
  pub image : String
  pub profile : String
  pub memory_bytes : ℕ
  pub replace : Bool

unfoldable pub sandbox_rank : Host → String → ℕ
sandbox_rank h profile =
    let p = h.to_lower profile in
    if str_eq p "strict"
    then 0
    else if str_eq p "standard"
    then 1
    else if str_eq p "permissive"
    then 2
    else if str_eq p "off"
    then 3
    else 0

unfoldable pub sandbox_is_relaxation : Host → String → String → Bool
sandbox_is_relaxation h cfg_default requested =
    ltb (sandbox_rank h cfg_default) (sandbox_rank h requested)

unfoldable pub sandbox_of : Host → StartPayload → String
sandbox_of h pl = if str_eq pl.sandbox "" then h.sandbox_default else pl.sandbox

-- The project and the working directory of the process.
unfoldable pub placement : Host → StartPayload → String × String
placement h pl =
    let cwd = if str_eq pl.cwd "" then h.getwd else pl.cwd in
    if not (str_eq pl.project "") then (pl.project, cwd) else elim (h.detect_project cwd) [
      | none ↦ ("", cwd)
      | some (root, key) ↦ (key, if str_eq pl.cwd "" then root else cwd)
    ]

-- The process that the map names, and the map without a terminal one.
unfoldable pub holder_in_map : String → Server → String × Server
holder_in_map key s =
    if str_eq (s.by_name key) "" then ("", s) else elim (get (s.by_name key) s.store) [
      | none ↦ (s.by_name key, s)
      | some rec ↦
          if is_terminal rec.status
          then ("", record s { by_name = put s.by_name key "" })
          else (s.by_name key, s)
    ]

unfoldable pub first_live : String → List Process → String
first_live profile [] = ""
first_live profile (r ∷ rs) =
    let rest = first_live profile rs in
    if not (str_eq r.profile profile) then rest else if is_terminal r.status then rest else r.id

unfoldable pub name_holder : String → StartPayload → String → Server → String × Server
name_holder project pl key s =
    let (i, s') = holder_in_map key s in
    if str_eq i ""
    then (
      first_live pl.profile
          (list (record { project_id = project; status = ""; name = pl.name }) s'.store),
      s',
    )
    else (i, s')

-- The table after `_ = s.store.Delete(…)`.
unfoldable pub dropped : String → Table → Table
dropped i t = elim (delete i t) [ ok t' ↦ t' | err e ↦ t ]

unfoldable pub replace_existing : String → String → Server → Server
replace_existing key i s0 =
    let s = call_stop i (mul64 (pos 5) second) s0 in
    record s {
      store = dropped i s.store;
      by_name = put s.by_name key "";
      proc_env = put s.proc_env i [];
      auto_restart = put s.auto_restart i false;
      ports = put s.ports i [];
      health_url = put s.health_url i "";
      stop_on_disconnect = put s.stop_on_disconnect i "";
      start_times = put s.start_times i none;
    }
