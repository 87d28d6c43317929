-- ===== src/Mcayb/Slash.antt =====
-- mcayb/src/bot.rs: `AllCommands::run`, the commands that are typed in. `Test` and `DebugEndPoll` are left
-- out.
pub mod Refresh
use mind_craft.Base.{ℕ, Text, codes, Bool, true, false, Option, none, some, List, [], ◌∷◌, ◌++◌}
use mind_craft.Yapper.Types.{
  NetCommand, list_servers, server_command, ServerCommand, Response, ServerStatus, Status,
}
use mind_craft.Yapper.Escape.{escape_discord, pretty_status}
use mind_craft.Mcayb.Menus.{MenuHistory, new_menu, page_url}
use mind_craft.Mcayb.Embeds.{CreateMessage, empty_message, message}
use mind_craft.Mcayb.Replies.{result_menu, send_unknown, send_err, unknown_server}
use mind_craft.Mcayb.Chat.{
  Env, Bot, Act, pure, ◌>>=◌, Reply, response, failed, send_command, with_config_mut,
}
use mind_craft.Mcayb.Polls.{null_history, with_content}
use mind_craft.Mcayb.Pages.{dashboard_menu, mod_menu}

pub data AllCommands : Type 0 where
  dashboard servers update_me : AllCommands
  status start stop reboot mods : Text → AllCommands
  command : Text → Text → AllCommands

-- The menu that `Mods` starts with.
unfoldable pub mods_start : Text → MenuHistory
mods_start server = record { history = []; current = page_url (codes "mods") (server ∷ []) }

module _ {V : Type 0} (env : Env V) (show_status : Status → Text) where
  list_text : List ServerStatus → Text
  list_text [] = []
  list_text (s ∷ statuses) =
      codes "Server: "
      ++ env.debug s.name
      ++ codes ", Status: "
      ++ show_status s.status
      ++ codes ", Path: "
      ++ env.debug s.path
      ++ codes "\n"
      ++ list_text statuses

  servers_reply : Reply V → CreateMessage
  unfolding list_text send_unknown send_err message new_menu
  servers_reply (response (Response.list statuses)) = with_content (list_text statuses)
  servers_reply (response _) = message (send_unknown null_history)
  servers_reply (failed e) = message (send_err env null_history e)

  status_reply : Text → Reply V → CreateMessage
  unfolding result_menu unknown_server send_unknown send_err message pretty_status new_menu
  status_reply server (response (Response.status s)) =
      message (result_menu null_history true (codes "Server is " ++ pretty_status s.status))
  status_reply server (response Response.unknown_server) =
      message (unknown_server env null_history server)
  status_reply server (response _) = message (send_unknown null_history)
  status_reply server (failed e) = message (send_err env null_history e)

  -- `start`, `stop` and `reboot`.
  done_reply : Text → Text → Reply V → CreateMessage
  unfolding result_menu unknown_server send_unknown send_err message new_menu
  done_reply text server (response Response.ok) = message (result_menu null_history true text)
  done_reply text server (response Response.unknown_server) =
      message (unknown_server env null_history server)
  done_reply text server (response _) = message (send_unknown null_history)
  done_reply text server (failed e) = message (send_err env null_history e)

  command_reply : Text → Text → Reply V → CreateMessage
  unfolding escape_discord unknown_server send_unknown send_err message new_menu
  command_reply server cmd (response (Response.command_output output)) =
      with_content
        (codes "`/" ++ escape_discord cmd ++ codes "` => `" ++ escape_discord output ++ codes "`")
  command_reply server cmd (response Response.unknown_server) =
      message (unknown_server env null_history server)
  command_reply server cmd (response _) = message (send_unknown null_history)
  command_reply server cmd (failed e) = message (send_err env null_history e)

  asking : NetCommand V → (Reply V → CreateMessage) → Act V CreateMessage
  unfolding send_command
  asking cmd reply = do r ← send_command env cmd; pure (reply r)

  update_reply : Option (Unit {0}) → CreateMessage
  unfolding result_menu message new_menu
  update_reply (some _) = message (result_menu null_history true (codes "Success!"))
  update_reply none =
      message (result_menu null_history true (codes "Internal error. This is a bug!"))

  abbrev set_channel : ℕ → Bot V → Unit {0} × Bot V
  set_channel channel b = (tt, record b { notifications = channel })

  unfoldable pub run : AllCommands → ℕ → Act V CreateMessage
  unfolding dashboard_menu mod_menu mods_start message new_menu servers_reply status_reply
      done_reply command_reply asking with_config_mut update_reply
  run dashboard channel = do
    menu ← dashboard_menu env (new_menu (codes "dashboard"))
    pure (message menu)
  run servers channel = asking list_servers servers_reply
  run (mods server) channel = do
    menu ← mod_menu env (mods_start server) server 0
    pure (message menu)
  run (status server) channel =
      asking (server_command server ServerCommand.status) (status_reply server)
  run (start server) channel =
      asking (server_command server ServerCommand.start)
        (done_reply (codes "Server started!") server)
  run (stop server) channel =
      asking (server_command server ServerCommand.stop)
        (done_reply (codes "Server stopped.") server)
  run (reboot server) channel =
      asking (server_command server ServerCommand.reboot)
        (done_reply (codes "Server is rebooting!") server)
  run (command server cmd) channel =
      asking (server_command server (ServerCommand.console cmd)) (command_reply server cmd)
  run update_me channel = do r ← with_config_mut env (set_channel channel); pure (update_reply r)
