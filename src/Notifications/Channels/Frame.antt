-- ===== src/Notifications/Channels/Frame.antt =====
-- The tables that `send_bot_dm` writes.
use lantern_task_manager.Base.{◌≡◌, String, arith}
use lantern_task_manager.Config.{World}
use lantern_task_manager.Storage.Orm.{Db}
use lantern_task_manager.Notifications.Channels.{send_bot_dm}

pub send_bot_dm_frame :
    (world : World) (user name text : String) (db : Db)
    → (send_bot_dm world user name text db).1
      ≡ record db { bindings = (send_bot_dm world user name text db).1.bindings }
unfolding send_bot_dm
send_bot_dm_frame world user name text db = ground arith
