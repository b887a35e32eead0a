-- ===== src/Daemon/Dispatch.antt =====
-- internal/daemon: the capability that the dispatch of a request asks for (`handle` of server.go and
-- `dispatchExtra` of handlers_ext.go), for the requests on processes but process.ports, and on shares.
use pmmcp.Prelude.{String, true, false, Option, none, some}
use pmmcp.Authz.{Principal, Role}
use pmmcp.Daemon.{Response, Host, Server}
use pmmcp.Daemon.Guard.{require, principal}
use pmmcp.Daemon.Control.{IdPayload, do_stop, do_remove}
use pmmcp.Daemon.Restart.{do_restart}
use pmmcp.Daemon.Edit.{UpdatePayload, SharePayload, do_enable, do_update, do_share}
use pmmcp.Daemon.Request.{StartPayload}
use pmmcp.Daemon.Start.{do_start}
use pmmcp.Daemon.Run.{RunPayload, do_run, do_wait, do_health_check}
use pmmcp.Daemon.Read.{ListPayload, do_list, do_status}

-- The method of a request and its payload, decoded.
pub data Request : Type 0 where
  start_request : Option StartPayload → Request
  run_request : Option RunPayload → Request
  stop_request restart_request remove_request status_request wait_request health_request :
      IdPayload → Request
  enable_request disable_request : IdPayload → Request
  list_request : ListPayload → Request
  update_request : Option UpdatePayload → Request
  share_request unshare_request : Option SharePayload → Request

-- The handler is run unless its guard has denied.
unfoldable pub guarded : Option (Server × Response) → Server × Response → Server × Response
guarded (some denied) answered = denied
guarded none answered = answered

unfoldable pub dispatch : Host → Principal → Request → Server → Server × Response
dispatch h p (start_request pl) s =
    guarded (require h p "process.start" "process:start" s) (do_start h p pl s)
dispatch h p (stop_request pl) s =
    guarded (require h p "process.stop" "process:stop" s) (do_stop h p pl s)
dispatch h p (restart_request pl) s =
    guarded (require h p "process.restart" "process:restart" s) (do_restart h p pl s)
dispatch h p (list_request pl) s =
    guarded (require h p "process.list" "process:list" s) (do_list h pl s)
dispatch h p (status_request pl) s =
    guarded (require h p "process.status" "process:read" s) (do_status h pl s)
dispatch h p (remove_request pl) s =
    guarded (require h p "process.remove" "process:remove" s) (do_remove h p pl s)
dispatch h p (update_request pl) s =
    guarded (require h p "process.update" "process:restart" s) (do_update h p pl s)
dispatch h p (run_request pl) s =
    guarded (require h p "process.run" "process:start" s) (do_run h p pl s)
dispatch h p (wait_request pl) s =
    guarded (require h p "process.wait" "process:read" s) (do_wait h p pl s)
dispatch h p (health_request pl) s =
    guarded (require h p "process.health_check" "process:read" s) (do_health_check h p pl s)
dispatch h p (enable_request pl) s =
    guarded (require h p "process.enable" "process:start" s) (do_enable h p pl true s)
dispatch h p (disable_request pl) s =
    guarded (require h p "process.disable" "process:stop" s) (do_enable h p pl false s)
dispatch h p (share_request pl) s =
    guarded (require h p "session.share" "session:share" s) (do_share h p pl true s)
dispatch h p (unshare_request pl) s =
    guarded (require h p "session.unshare" "session:share" s) (do_share h p pl false s)

-- `handle` behind the check of the client's version.
unfoldable pub handle : Host → String → Role → String → Request → Server → Server × Response
handle h uid role session req s = dispatch h (principal uid role session) req s
