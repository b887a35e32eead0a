-- ===== src/Daemon/Replace.antt =====
-- internal/daemon/server.go: whom `doStart` stops when it replaces.
use pmmcp.Prelude.{String, ◌≡◌, refl, sym, true, false, none, some, ◌∷◌, str_eq}
use pmmcp.Prelude.Int.{pos, mul64}
use pmmcp.Prelude.Time.{second}
use pmmcp.Prelude.Result.{ok}
use mathlib.Core.Path.{subst}
use pmmcp.Domain.{Process, validate_command}
use pmmcp.Authz.{Principal, allow}
use pmmcp.Daemon.{Host, Server, stop_call, refusal, name_scope_key}
use pmmcp.Daemon.Guard.{deny, audited, denial}
use pmmcp.Daemon.Resolve.{resolve_id}
use pmmcp.Daemon.Control.{IdPayload, call_stop, do_stop, do_remove}
use pmmcp.Daemon.Request.{
  StartPayload, sandbox_is_relaxation, sandbox_of, placement, name_holder, replace_existing,
}
use pmmcp.Daemon.Start.{start_sandboxed, start_new, do_start}
use pmmcp.Daemon.Dispatch.{start_request, stop_request, remove_request, dispatch}
use pmmcp.Daemon.Names.{start_named-replaces, name_holder-keeps}
use pmmcp.Daemon.Settled.{StartEnds}
use pmmcp.Daemon.Settled.Start.{start_new-StartEnds}
use pmmcp.Daemon.Tenancy.{MayAct, guarded-refused, guarded-passes, authorize_target-refuses}

-- The name that a payload asks for is held by that process, after the guards on the payload have
-- passed: its command is valid, it gives a name, and its sandbox is no relaxation of the default one.
abbrev pub HeldBy : Host → StartPayload → Server → String → Type 0
HeldBy h pl s i =
    (validate_command pl.command ≡ none)
    × (str_eq pl.name "" ≡ false)
    × (sandbox_is_relaxation h h.sandbox_default (sandbox_of h pl) ≡ false)
    × ((name_holder (placement h pl).0 pl (name_scope_key (placement h pl).0 pl.profile pl.name)
          s).0
        ≡ i)
    × (str_eq i "" ≡ false)

do_start-replaces :
    (h : Host) (p : Principal) (pl : StartPayload) (s : Server) (i : String)
    → HeldBy h pl s i
    → pl.replace ≡ true
    → StartEnds h (stop_call i (mul64 (pos 5) second) ∷ s.calls) (do_start h p (some pl) s).0
unfolding do_start start_sandboxed replace_existing call_stop
do_start-replaces h p pl s i (fine, named, strict, held, used) replaces =
    let (project, cwd) = placement h pl in
    let key = name_scope_key project pl.profile pl.name in
    let (j, s1) = name_holder project pl key s in
    let (store, calls) = name_holder-keeps project pl key s in
    let taken : str_eq j "" ≡ false = subst (λ k. str_eq k "" ≡ false) (sym held) used in
    let one = start_named-replaces h p pl (sandbox_of h pl) project cwd s taken replaces in
    let before : (replace_existing key j s1).calls ≡ stop_call i (mul64 (pos 5) second) ∷ s.calls =
      λ t. stop_call (held t) (mul64 (pos 5) second) ∷ calls t in
    rw (do_start, fine, named, strict)
      (subst (λ x. StartEnds h (stop_call i (mul64 (pos 5) second) ∷ s.calls) x.0) (sym one)
        (subst
          (λ c.
            StartEnds h c
              (start_new h p pl (sandbox_of h pl) project cwd key (replace_existing key j s1)).0)
          before
          (start_new-StartEnds h p pl (sandbox_of h pl) project cwd key
            (replace_existing key j s1))))

-- A principal that may neither stop nor remove the process that holds a name, and whose role has
-- `process:start`, can have that process stopped by a start that replaces it. The process is not the
-- principal's, nor shared with it for a stop or a remove; so its requests to stop and to remove it
-- are denied, and change only the audit log. But if it asks for a start with `replace` under that
-- name, the first thing that the manager is asked for is to stop the process, and the start then goes
-- on. The payload of that start must have passed its checks: the command is valid, a name is given,
-- and the sandbox is no relaxation of the default one.
pub replace-unguarded :
    (h : Host) (q : Principal) (pl : StartPayload) (target : IdPayload) (s : Server) (i : String)
    (rec : Process)
    → resolve_id s target.id target.name target.project ≡ ok (i, rec)
    → ¬ MayAct q "process:stop" rec s.shares
    → ¬ MayAct q "process:remove" rec s.shares
    → allow q "process:start" ≡ true
    → HeldBy h pl s i
    → pl.replace ≡ true
    → (dispatch h q (stop_request target) s
        ≡ (audited h (denial q "process.stop" "process:stop") s, refusal "permission_denied" false))
      × (dispatch h q (remove_request target) s ≡ (
        audited h (denial q "process.remove" "process:remove") s,
        refusal "permission_denied" false,
      ))
      × StartEnds h
          (stop_call i (mul64 (pos 5) second) ∷ s.calls)
          (dispatch h q (start_request (some pl)) s).0
unfolding dispatch do_stop do_remove deny audited
replace-unguarded h q pl target s i rec found stop remove starts held replaces = (
  guarded-refused h q "process.stop" "process:stop" s (do_stop h q target s) (
      rw (do_stop, found, authorize_target-refuses h q "process.stop" "process:stop" rec s stop)
        refl),
  guarded-refused h q "process.remove" "process:remove" s (do_remove h q target s) (
      rw
        (
          do_remove,
          found,
          authorize_target-refuses h q "process.remove" "process:remove" rec s remove,
        )
        refl),
  rw (guarded-passes h q "process.start" "process:start" s (do_start h q (some pl) s) starts)
      (do_start-replaces h q pl s i held replaces),
)
