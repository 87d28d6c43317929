-- ===== src/Mcayb/Pages.antt =====
-- mcayb/src/bot.rs: the pages of the bot, each from the answer of the daemon.
use mind_craft.Base.{
  ℕ, ◌+◌, ◌-◌, ◌%◌, ◌^◌, Text, codes, Bool, true, false, Option, none, some, List, [], ◌∷◌, ◌++◌,
  if◌then◌else◌, ◌==◌, unwrap_or,
}
use mind_craft.Yapper.Types.{
  ModInfo, reserved_mod_id, list_servers, server_command, ServerCommand, Response, ServerStatus,
  Status, idle, starting, running, stopping, modding,
}
use mind_craft.Yapper.Escape.{escape_discord, pretty_status}
use mind_craft.SvManage.Status.{status_eq}
use mind_craft.Mcayb.Menus.{
  MenuUrlKind, page, action, MenuUrl, MenuHistory, page_url, action_url, enter_page,
}
use mind_craft.Mcayb.Embeds.{
  Button, ButtonStyle, primary, secondary, success, danger, ProcessedMenu, make_menu, from_embed,
  with_fields, with_buttons, build,
}
use mind_craft.Mcayb.Replies.{send_unknown, send_err, mod_embed}
use mind_craft.Mcayb.Chat.{Env, Act, pure, ◌>>=◌, Reply, response, failed, send_command}

abbrev pub button : MenuHistory → Text → Option ℕ → ButtonStyle → Button
button target label emoji style = record {
  target = target;
  label = label;
  emoji = emoji;
  style = style;
}

abbrev pub url_of : MenuUrlKind → Text → List Text → MenuUrl
url_of page name args = page_url name args
url_of action name args = action_url name args

unfoldable pub selection_fields : List ServerStatus → List (Text × Text × Bool)
unfolding escape_discord pretty_status
selection_fields [] = []
selection_fields (s ∷ statuses) =
    (codes "> `" ++ escape_discord s.name ++ codes "`", pretty_status s.status, true)
    ∷ selection_fields statuses

unfoldable pub selection_buttons :
    MenuHistory → Text → MenuUrlKind → List Text → List ServerStatus → List Button
unfolding enter_page
selection_buttons history url kind args [] = []
selection_buttons history url kind args (s ∷ statuses) =
    button (enter_page (url_of kind url (s.name ∷ args)) history) s.name none success
    ∷ selection_buttons history url kind args statuses

-- The buttons of `server_menu`.
unfoldable pub start_stop : MenuHistory → Text → Status → List Button
unfolding enter_page
start_stop history server status =
    let start =
      button (enter_page (action_url (codes "start") (server ∷ [])) history) (codes "Start")
        (some 0x25B6) success in
    let stop =
      button (enter_page (action_url (codes "stop") (server ∷ [])) history) (codes "Stop")
        (some 0x1F6D1) danger in
    elim status [
      | idle ↦ start ∷ []
      | stopping ↦ start ∷ []
      | running ↦ stop ∷ []
      | starting ↦ stop ∷ []
      | _ ↦ []
    ]

unfoldable pub server_buttons : (ℕ → Text) → MenuHistory → Text → Status → List Button
unfolding enter_page start_stop
server_buttons show_u64 history server status =
    let to = λ (u : MenuUrl). enter_page u history in
    start_stop history server status
    ++ button (to (action_url (codes "reboot") (server ∷ []))) (codes "Reboot") (some 0x1F504)
        success
      ∷ (if status_eq status running
          then button (to (action_url (codes "command") (server ∷ []))) (codes "Command")
              (some 0x1F511) secondary
            ∷ []
          else [])
    ++ (if status_eq status idle
        then button (to (page_url (codes "mods") (server ∷ show_u64 0 ∷ []))) (codes "Mods")
            (some 0x1F3B2) primary
          ∷ button (to (action_url (codes "backup") (server ∷ []))) (codes "Backup") (some 0x1F4BE)
              danger
          ∷ button (to (action_url (codes "restore") (server ∷ []))) (codes "Restore") (some 0x21A9)
              danger
          ∷ []
        else [])
    ++ (if status_eq status modding
        then []
        else button (to (action_url (codes "zip") (server ∷ []))) (codes "Package mods")
            (some 0x1F4E6) danger
          ∷ [])

abbrev pub shown_name : {V : Type 0} → ModInfo V → Text
shown_name m = unwrap_or m.name m.mod_id

unfoldable pub mod_buttons : {V : Type 0} → MenuHistory → Text → List (ModInfo V) → List Button
unfolding enter_page
mod_buttons history server [] = []
mod_buttons history server (m ∷ mods) =
    button (enter_page (page_url (codes "mod") (server ∷ m.mod_id ∷ [])) history) (shown_name m)
      none success
    ∷ mod_buttons history server mods

unfoldable pub mod_fields : {V : Type 0} → List (ModInfo V) → List (Text × Text × Bool)
mod_fields [] = []
mod_fields (m ∷ mods) = (m.mod_id, shown_name m, true) ∷ mod_fields mods

-- The way to the page before and the next one, in the place of the current page.
unfoldable pub turn_buttons : (ℕ → Text) → MenuHistory → Text → ℕ → Bool → List Button
turn_buttons show_u64 history server number finished =
    let to =
      λ (n : ℕ). record history { current = page_url (codes "mods") (server ∷ show_u64 n ∷ []) } in
    (if number == 0 then [] else button (to (number - 1)) (codes "Previous") none primary ∷ [])
    ++ (if finished
        then []
        else button (to ((number + 1) % 2 ^ 64)) (codes "Next") none primary ∷ [])

module _ {V : Type 0} (env : Env V) where
  unfoldable pub show_servers :
      MenuHistory
      → ℕ × ℕ × ℕ
      → Text
      → Option Text
      → Text
      → MenuUrlKind
      → List Text
      → Bool
      → Reply V
      → ProcessedMenu
  unfolding selection_fields selection_buttons make_menu with_fields with_buttons build send_unknown
      send_err
  show_servers history color title description url kind args refresh
        (response (Response.list statuses)) =
      build history true refresh (
        with_buttons (selection_buttons history url kind args statuses)
          (with_fields (selection_fields statuses) (make_menu color title description)))
  show_servers history color title description url kind args refresh (response _) =
      send_unknown history
  show_servers history color title description url kind args refresh (failed e) =
      send_err env history e

  unfoldable pub dashboard_menu : MenuHistory → Act V ProcessedMenu
  unfolding send_command show_servers
  dashboard_menu history = do
    r ← send_command env list_servers
    pure (
        show_servers history (3, 227, 252) (codes "Server dashboard")
          (some (codes "Pick which server you want to interact with")) (codes "menu") page [] true
          r)

  unfoldable pub install_mod_menu : MenuHistory → Text → Text → Act V ProcessedMenu
  unfolding send_command show_servers
  install_mod_menu history channel_id message_id = do
    r ← send_command env list_servers
    pure (
        show_servers history (3, 227, 252) (codes "Install mod for...") none (codes "install")
          action (channel_id ∷ message_id ∷ []) false r)

  unfoldable pub show_server : MenuHistory → Text → Reply V → ProcessedMenu
  unfolding server_buttons pretty_status escape_discord make_menu with_fields with_buttons build
      send_unknown send_err
  show_server history server (response (Response.status s)) = build history true true (
      with_buttons (server_buttons env.show_u64 history server s.status) (
        with_fields
          ((codes "Status", pretty_status s.status, false)
            ∷ (codes "Path", escape_discord s.path, false)
            ∷ [])
          (make_menu (245, 167, 66) server none)))
  show_server history server (response _) = send_unknown history
  show_server history server (failed e) = send_err env history e

  unfoldable pub server_menu : MenuHistory → Text → Act V ProcessedMenu
  unfolding send_command show_server
  server_menu history server = do
    r ← send_command env (server_command server ServerCommand.status)
    pure (show_server history server r)

  unfoldable pub show_mods : MenuHistory → Text → ℕ → Reply V → ProcessedMenu
  unfolding turn_buttons mod_buttons mod_fields make_menu with_fields with_buttons build
      send_unknown send_err
  show_mods history server number (response (Response.mods mods finished)) =
      build history true true (
        with_buttons
          (turn_buttons env.show_u64 history server number finished
            ++ mod_buttons history server mods)
          (with_fields (mod_fields mods) (make_menu (192, 63, 196) server none)))
  show_mods history server number (response _) = send_unknown history
  show_mods history server number (failed e) = send_err env history e

  unfoldable pub mod_menu : MenuHistory → Text → ℕ → Act V ProcessedMenu
  unfolding send_command show_mods
  mod_menu history server number = do
    r ← send_command env (server_command server (ServerCommand.list_mods 10 number))
    pure (show_mods history server number r)

  unfoldable pub show_one_mod :
      MenuHistory → Text → Text → Reply V → ProcessedMenu × Option (List ℕ)
  unfolding enter_page reserved_mod_id mod_embed from_embed with_buttons build send_unknown send_err
  show_one_mod history server mod_id (response (Response.mod_found m)) =
      let uninstall =
        button (enter_page (action_url (codes "uninstall") (server ∷ mod_id ∷ [])) history)
          (codes "Uninstall") (some 0x1F5D1) danger in
      (
        build history true false (
            with_buttons (if reserved_mod_id mod_id then [] else uninstall ∷ [])
              (from_embed (mod_embed env m))),
        m.logo,
      )
  show_one_mod history server mod_id (response _) = (send_unknown history, none)
  show_one_mod history server mod_id (failed e) = (send_err env history e, none)

  unfoldable pub single_mod_menu :
      MenuHistory → Text → Text → Act V (ProcessedMenu × Option (List ℕ))
  unfolding send_command show_one_mod
  single_mod_menu history server mod_id = do
    r ← send_command env (server_command server (ServerCommand.query_mod mod_id))
    pure (show_one_mod history server mod_id r)
