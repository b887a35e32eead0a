-- ===== src/Daemon/Edit.antt =====
-- internal/daemon/handlers_ext.go: `doUpdate` and `doEnable`, which enables and disables, and
-- `doShare`.
use pmmcp.Prelude.{
  String, Bool, false, ◌||◌, Option, none, some, List, map, str_eq, ◌==◌, if◌then◌else◌, length,
  put,
}
use Prim.Native.String.{◌++◌ as concat}
use pmmcp.Prelude.Int.{pos, mul64}
use pmmcp.Prelude.Time.{second}
use pmmcp.Prelude.Result.{Result, ok, err}
use pmmcp.Domain.{Process, validate_command, desired_running, desired_stopped}
use pmmcp.Authz.{Principal}
use pmmcp.Authz.Share.{share, unshare}
use pmmcp.Store.{update}
use pmmcp.Daemon.{
  Failure, view, to_view, shared, unshared, Response, answer, refusal, err_from, store_failure,
  Handle, Host, Server,
}
use pmmcp.Daemon.Guard.{audited, deed, save}
use pmmcp.Daemon.Resolve.{resolve_id}
use pmmcp.Daemon.Control.{IdPayload, call_stop}
use pmmcp.Daemon.Restart.{do_restart}

-- What `Inspect` tells is that the process runs.
unfoldable pub is_running : Result Failure (Option Handle) → Bool
is_running (err e) = false
is_running (ok none) = false
is_running (ok (some g)) = str_eq g.status "running"

-- The part of disabling behind the first update: the process is stopped if it still runs.
unfoldable pub stop_disabled : Host → String → Process → Server → Server × Process
stop_disabled h i rec s =
    let rec' = record rec { status = "exited"; exited_at = some h.now } in
    if is_running (h.inspect_answer s.calls i)
    then (save h rec' (call_stop i (mul64 (pos 10) second) s), rec')
    else (s, rec)

unfoldable pub enable_record : Host → Principal → String → Process → Server → Server × Response
enable_record h p i rec s = elim (update h.now rec s.store) [
  | err e ↦ (s, err_from (store_failure e))
  | ok t ↦ (
    audited h (deed p "process.enable" i "") (record s { store = t }),
    answer (view (to_view rec)),
  )
]

unfoldable pub disable_record : Host → Principal → String → Process → Server → Server × Response
disable_record h p i rec s = elim (update h.now rec s.store) [
  | err e ↦ (s, err_from (store_failure e))
  | ok t ↦
      let (s', rec') = stop_disabled h i rec (record s { store = t }) in
      (audited h (deed p "process.disable" i "") s', answer (view (to_view rec')))
]

unfoldable pub do_enable : Host → Principal → IdPayload → Bool → Server → Server × Response
do_enable h p pl is_enable s = elim (resolve_id s pl.id pl.name pl.project) [
  | err e ↦ (s, err_from e)
  | ok (i, rec) ↦
      if is_enable
      then enable_record h p i (record rec { desired = desired_running }) s
      else disable_record h p i (record rec { desired = desired_stopped }) s
]

-- `env` is `none` for the nil map; otherwise its pairs, in the order of the range over it.
pub record UpdatePayload : Type 0 where
  pub id : String
  pub name : String
  pub project : String
  pub command : List String
  pub cwd : String
  pub env : Option (List (String × String))
  pub restart : Bool

unfoldable pub key_value : String × String → String
key_value (k, v) = concat k (concat "=" v)

-- The record with the fields that the payload sets.
unfoldable pub edited : UpdatePayload → Process → Process
edited pl rec = record rec {
  command = if length pl.command == 0 then rec.command else pl.command;
  cwd = if str_eq pl.cwd "" then rec.cwd else pl.cwd;
}

unfoldable pub put_env : UpdatePayload → String → Server → Server
put_env pl i s = elim pl.env [
  | none ↦ s
  | some env ↦ record s { proc_env = put s.proc_env i (map key_value env) }
]

abbrev pub by_id : String → IdPayload
by_id i = record {
  id = i;
  name = "";
  project = "";
  timeout_sec = pos 0;
  force = false;
  purge_logs = false;
}

unfoldable pub update_target :
    Host → Principal → UpdatePayload → String → Process → Server → Server × Response
update_target h p pl i rec s0 =
    let s = put_env pl i s0 in
    elim (update h.now (edited pl rec) s.store) [
      | err e ↦ (s, err_from (store_failure e))
      | ok t ↦
          let s' = audited h (deed p "process.update" i "") (record s { store = t }) in
          if pl.restart
          then do_restart h p (by_id i) s'
          else (s', answer (view (to_view (edited pl rec))))
    ]

-- The payload is `none` if it cannot be decoded.
unfoldable pub do_update : Host → Principal → Option UpdatePayload → Server → Server × Response
do_update h p none s = (s, refusal "invalid_argument" false)
do_update h p (some pl) s = elim (resolve_id s pl.id pl.name pl.project) [
  | err e ↦ (s, err_from e)
  | ok (i, rec) ↦
      if length pl.command == 0
      then update_target h p pl i rec s
      else elim (validate_command pl.command) [
        | some e ↦ (s, refusal "invalid_argument" false)
        | none ↦ update_target h p pl i rec s
      ]
]

pub record SharePayload : Type 0 where
  pub target : String
  pub to_session : String
  pub cap : String

unfoldable pub do_share : Host → Principal → Option SharePayload → Bool → Server → Server × Response
do_share h p none is_grant s = (s, refusal "invalid_argument" false)
do_share h p (some pl) is_grant s =
    if str_eq pl.target "" || str_eq pl.to_session ""
    then (s, refusal "invalid_argument" false)
    else if is_grant
    then (
      audited h (deed p "session.share" pl.target pl.to_session) (record s {
        shares =
            share
              (record {
                target = pl.target;
                cap = pl.cap;
                to_session = pl.to_session;
                grantor = "";
              })
              s.shares;
      }),
      answer shared,
    )
    else (
      audited h (deed p "session.unshare" pl.target pl.to_session)
          (record s { shares = (unshare pl.target pl.to_session pl.cap s.shares).0 }),
      answer (unshared (unshare pl.target pl.to_session pl.cap s.shares).1),
    )
