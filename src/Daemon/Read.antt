-- ===== src/Daemon/Read.antt =====
-- internal/daemon/server.go: `doList` and `doStatus`, which read only.
use pmmcp.Prelude.{
  ℕ, zero, suc, String, Bool, true, false, not, ◌&&◌, Option, none, some, List, [], ◌∷◌, str_eq,
  ltb, if◌then◌else◌,
}
use pmmcp.Prelude.Int.{ℤ, pos, pos_part, leb_ℤ}
use pmmcp.Prelude.Result.{Result, ok, err}
use pmmcp.Domain.{Process}
use pmmcp.Store.{list}
use pmmcp.Daemon.{
  ProcessView, to_view, view, views, Response, answer, err_from, Handle, Host, Server, Failure,
}
use pmmcp.Daemon.Guard.{is_terminal}
use pmmcp.Daemon.Resolve.{resolve_id}
use pmmcp.Daemon.Control.{IdPayload}

pub record ListPayload : Type 0 where
  pub project : String
  pub cwd : String
  pub status : String
  pub include_exited : Bool
  pub runtime : String
  pub profile : String
  pub cursor : String
  pub limit : ℤ
  pub all : Bool

unfoldable pub list_project : Host → ListPayload → String
list_project h pl =
    if str_eq pl.project "" && not pl.all
    then elim (h.detect_project (if str_eq pl.cwd "" then h.getwd else pl.cwd)) [
      | none ↦ pl.project
      | some (root, key) ↦ key
    ]
    else pl.project

-- The record passes the filters of the loop.
unfoldable pub is_shown : ListPayload → Process → Bool
is_shown pl p =
    if not pl.include_exited && (str_eq pl.status "" && is_terminal p.status)
    then false
    else if not (str_eq pl.runtime "") && not (str_eq p.runtime pl.runtime)
    then false
    else if not (str_eq pl.profile "") && not (str_eq p.profile pl.profile)
    then false
    else true

-- The loop, with the number of views still wanted; `past` tells that the cursor lies behind.
unfoldable pub collect_views : ListPayload → ℕ → Bool → List Process → List ProcessView
collect_views pl n past [] = []
collect_views pl zero past (p ∷ ps) = []
collect_views pl (suc n) false (p ∷ ps) = collect_views pl (suc n) (str_eq p.id pl.cursor) ps
collect_views pl (suc n) true (p ∷ ps) =
    let fewer = collect_views pl n true ps in
    let as_many = collect_views pl (suc n) true ps in
    if is_shown pl p then to_view p ∷ fewer else as_many

unfoldable pub list_limit : ListPayload → ℕ
list_limit pl = if leb_ℤ pl.limit (pos 0) then 1000 else pos_part pl.limit

unfoldable pub do_list : Host → ListPayload → Server → Server × Response
do_list h pl s = (
  s,
  answer (
      views (
        collect_views pl (list_limit pl) (str_eq pl.cursor "") (
          list (record { project_id = list_project h pl; status = pl.status; name = "" })
            s.store))),
)

-- The record with what `Inspect` tells.
unfoldable pub inspected : Result Failure (Option Handle) → Process → Process
inspected (err e) rec = rec
inspected (ok none) rec = rec
inspected (ok (some g)) rec = record rec {
  pid = g.pid;
  status = if str_eq g.status "" then rec.status else g.status;
  exit_code = g.exit_code;
}

unfoldable pub do_status : Host → IdPayload → Server → Server × Response
do_status h pl s = elim (resolve_id s pl.id pl.name pl.project) [
  | err e ↦ (s, err_from e)
  | ok (i, rec) ↦
      let rec' = inspected (h.inspect_answer s.calls rec.id) rec in
      (
        s,
        answer (
            view (record (to_view rec') {
              ports = s.ports rec.id;
              discovered = if ltb 0 rec'.pid then h.listening_ports rec'.pid else [];
            })),
      )
]
