-- ===== src/Mcayb/Presses.antt =====
-- mcayb/src/bot.rs: `interaction_create` of the handler, for a button that is pressed and a form that is
-- sent in. A missing argument of a page is a panic.
pub mod Numbers
pub mod Ways
pub mod Evolution
pub mod Replies
pub mod Reach
use mind_craft.Base.{
  ℕ, zero, suc, Text, codes, text_eq, starts_with, Bool, true, false, ◌&&◌, Option, none, some,
  List, [], ◌∷◌, ◌++◌, if◌then◌else◌, map, ltb, leb, ◌+◌,
}
use mind_craft.Yapper.Types.{NetCommand, server_command, ServerCommand, Response, ModInfo}
use mind_craft.Yapper.Escape.{escape_discord}
use mind_craft.Mcayb.Menus.{MenuUrlKind, page, action, MenuUrl, MenuHistory}
use mind_craft.Mcayb.Embeds.{CreateMessage, ProcessedMenu, message}
use mind_craft.Mcayb.Replies.{
  result_menu, outdated, send_unknown, send_err, unknown_server, wtf_bad_bot,
}
use mind_craft.Mcayb.Chat.{
  Env, Bot, Act, pure, ◌>>=◌, ◌>>◌, note, deleted, spawned, Fetched, Reply, response, failed,
  mod_poll, remove, send_command, say, get_message,
}
use mind_craft.Mcayb.Polls.{with_content}
use mind_craft.Mcayb.Polls.Create.{create_poll}
use mind_craft.Mcayb.Pages.{
  dashboard_menu, server_menu, install_mod_menu, mod_menu, single_mod_menu,
}
use mind_craft.Mcayb.Arguments.{
  Answer, Handler, acknowledge, argument, ask_to_type, confirm, confirm_backup, confirm_restore,
  match_url, modal, new_message, on_argument, update_message, updated, with_argument,
}

module _ {V : Type 0} (env : Env V) (h : MenuHistory) where
  -- The end of both matches.
  unfoldable pub other_url : Handler V
  unfolding outdated wtf_bad_bot starts_with message
  other_url =
      if starts_with h.current.url (codes "broken-")
      then pure (updated outdated)
      else pure (updated (wtf_bad_bot env h))

  show_single : ProcessedMenu × Option (List ℕ) → Option Answer
  unfolding message
  show_single (menu, logo) = some (update_message (record (message menu) { file = logo }))

  mods_page : Text → Option ℕ → Handler V
  unfolding mod_menu message
  mods_page server none = pure none
  mods_page server (some n) = do menu ← mod_menu env h server n; pure (updated menu)

  -- The arms for the pages.
  page_arms : List (Text × Handler V)
  unfolding with_argument argument dashboard_menu server_menu install_mod_menu mods_page
      single_mod_menu show_single message
  page_arms =
      let args = h.current.arguments in
      ((codes "dashboard", (do menu ← dashboard_menu env h; pure (updated menu)))
        ∷ (
          codes "menu",
          with_argument 0 args
              (λ server. (do menu ← server_menu env h server; pure (updated menu))),
        )
        ∷ (
          codes "install",
          with_argument 0 args (λ channel_id. with_argument 0 args (λ message_id. (do
            menu ← install_mod_menu env h channel_id message_id
            pure (updated menu)))),
        )
        ∷ (
          codes "mods",
          with_argument 0 args
              (λ server. with_argument 1 args (λ number. mods_page server (env.parse_u64 number))),
        )
        ∷ (
          codes "mod",
          with_argument 0 args (λ server. with_argument 1 args (λ mod_id. (do
            shown ← single_mod_menu env h server mod_id
            pure (show_single shown)))),
        )
        ∷ [])

  -- A button that leads to a page.
  unfoldable pub page_press : Handler V
  unfolding match_url page_arms other_url
  page_press = match_url h.current.url page_arms other_url

  -- The answer to a command that the daemon acknowledges or not.
  unfoldable pub acknowledged : Text → Reply V → Option Answer
  unfolding result_menu send_unknown send_err message
  acknowledged text (response Response.ok) = updated (result_menu h true text)
  acknowledged text (response _) = updated (send_unknown h)
  acknowledged text (failed e) = updated (send_err env h e)

  -- `start`, `stop`, `reboot` and `zip`.
  unfoldable pub simple_action : ServerCommand V → Text → Text → Handler V
  unfolding send_command acknowledged
  simple_action cmd text server = do
    r ← send_command env (server_command server cmd)
    pure (acknowledged text r)

  changed_message : ℕ → Act V (Unit {0})
  unfolding say
  changed_message channel = do
    say env channel (with_content (codes "You changed the message while i was processing it"))
    say env channel (with_content (codes "https://tenor.com/view/blm-gif-25815938"))

  start_download : Text → ℕ → Option Fetched → Act V (Unit {0})
  unfolding note changed_message
  start_download server channel found = elim found [
    | some m ↦ elim m.attachments [
      | a ∷ rest ↦ elim rest [ [] ↦ note (spawned server a.0 a.1) | _ ↦ changed_message channel ]
      | [] ↦ changed_message channel
    ]
    | none ↦ changed_message channel
  ]

  -- The message with the file is fetched and the one with the button, `comp`, deleted.
  unfoldable pub install_press : ℕ × ℕ → Text → Text → Text → Handler V
  unfolding get_message note start_download
  install_press comp server channel_id msg_id = elim (env.decode_id channel_id) [
    | none ↦ pure none
    | some channel ↦ elim (env.decode_id msg_id) [
      | none ↦ pure none
      | some id ↦ do
        found ← get_message env channel id
        note (deleted comp.0 comp.1)
        start_download server channel found
        pure (some acknowledge)
    ]
  ]

  uninstall_known : Text → Reply V → Handler V
  unfolding create_poll send_unknown send_err message
  uninstall_known server (response (Response.mod_found info)) = do
    create_poll env (mod_poll server info.mod_id) (remove server info)
    pure (some acknowledge)
  uninstall_known server (response _) = pure (updated (send_unknown h))
  uninstall_known server (failed e) = pure (updated (send_err env h e))

  unfoldable pub uninstall_press : Text → Text → Handler V
  unfolding send_command uninstall_known
  uninstall_press server mod_id = do
    r ← send_command env (server_command server (ServerCommand.query_mod mod_id))
    uninstall_known server r

  form : Text → Text → Text → List Text → Handler V
  unfolding escape_discord
  form before server after labels =
      pure (some (modal h (before ++ escape_discord server ++ after) labels))

  -- The arms for the actions.
  action_arms : ℕ × ℕ → List (Text × Handler V)
  unfolding with_argument argument simple_action form install_press uninstall_press
  action_arms comp =
      let args = h.current.arguments in
      ((
        codes "start",
        with_argument 0 args (simple_action ServerCommand.start (codes "Server started!")),
      )
        ∷ (
          codes "stop",
          with_argument 0 args (simple_action ServerCommand.stop (codes "Server stopped.")),
        )
        ∷ (
          codes "reboot",
          with_argument 0 args (simple_action ServerCommand.reboot (codes "Server is rebooting!")),
        )
        ∷ (
          codes "command",
          with_argument 0 args (λ server.
              form (codes "Input command for `") server (codes "`") (codes "command" ∷ [])),
        )
        ∷ (
          codes "backup",
          with_argument 0 args (λ server. form (codes "Backup `") server (codes "`?") (
              ask_to_type confirm
              ∷ ask_to_type confirm_backup
              ∷ codes "type the name of the server"
              ∷ [])),
        )
        ∷ (
          codes "restore",
          with_argument 0 args (λ server. form (codes "Restore `") server (codes "`?") (
              ask_to_type confirm
              ∷ ask_to_type confirm_restore
              ∷ codes "type the name of the server"
              ∷ [])),
        )
        ∷ (
          codes "install",
          with_argument 0 args (λ server. with_argument 1 args (λ channel_id.
              with_argument 2 args (λ msg_id. install_press comp server channel_id msg_id))),
        )
        ∷ (
          codes "uninstall",
          with_argument 0 args
              (λ server. with_argument 1 args (λ mod_id. uninstall_press server mod_id)),
        )
        ∷ (
          codes "zip",
          with_argument 0 args (
              simple_action ServerCommand.generate_mods_zip (codes "Mods zip file is generating!")),
        )
        ∷ [])

  -- A button that does something.
  unfoldable pub action_press : ℕ × ℕ → Handler V
  unfolding match_url action_arms other_url
  action_press comp = match_url h.current.url (action_arms comp) other_url

  unfoldable pub press_of : MenuUrlKind → ℕ × ℕ → Handler V
  unfolding page_press action_press
  press_of page comp = page_press
  press_of action comp = action_press comp

  unfoldable pub press : ℕ × ℕ → Handler V
  unfolding press_of
  press comp = press_of h.current.kind comp
