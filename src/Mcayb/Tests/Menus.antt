-- ===== src/Mcayb/Tests/Menus.antt =====
-- mcayb/src/bot.rs: the theorems on pages, presses and forms at concrete inputs.
use mind_craft.Base.{
  Text, codes, text_eq, true, none, some, List, [], ◌∷◌, ◌++◌, ◌≡◌, refl, ◌+◌, ◌/◌, length, All,
}
use mind_craft.Yapper.Types.{Response}
use mind_craft.Mcayb.Menus.{
  MenuHistory, new_menu, page, page_url, action_url, enter_page, exit_page,
}
use mind_craft.Mcayb.Embeds.{
  Button, message, put_back, put_refresh, success, primary, ProcessedMenu,
}
use mind_craft.Mcayb.Embeds.Rows.{all_buttons, IsRow, message-rows}
use mind_craft.Mcayb.Pages.{show_server, show_servers, dashboard_menu}
use mind_craft.Mcayb.Presses.{press, page_press}
use mind_craft.Mcayb.Arguments.{Answer, update_message, match_url}
use mind_craft.Mcayb.Presses.Reach.{Reach, begun, pressed, press-Reach}
use mind_craft.Mcayb.Forms.{submit}
use mind_craft.Mcayb.Forms.Guards.{Outcome, submit-Outcome}
use mind_craft.Mcayb.Slash.{mods, run}
use mind_craft.Mcayb.Slash.Refresh.{run_mods_panics}
use mind_craft.Mcayb.Chat.{response, send_command}
use mind_craft.Mcayb.Tests.{env, env-HasNumbers, server, bot}

-- The page of an idle server.
abbrev server_page : MenuHistory
server_page = record {
  history = page_url (codes "dashboard") [] ∷ [];
  current = page_url (codes "menu") (codes "s" ∷ []);
}

message-rows_example :
    let p = show_server env server_page (codes "s") (response (Response.status server)) in
    let buttons = put_back p (put_refresh p p.menu.buttons) in
    let rows = (message p).components in
    (all_buttons rows ≡ buttons) × All IsRow rows × (length rows ≡ (length buttons + 4) / 5)
message-rows_example =
    message-rows (show_server env server_page (codes "s") (response (Response.status server)))

-- The dashboard with its refresh and one server.
abbrev dashboard_page : ProcessedMenu
dashboard_page =
    show_servers env (new_menu (codes "dashboard")) (3, 227, 252) (codes "Server dashboard")
      (some (codes "Pick which server you want to interact with")) (codes "menu") page [] true
      (response (Response.list (server ∷ [])))

abbrev refresh : Button
refresh = record {
  target = new_menu (codes "dashboard");
  label = codes "Refresh";
  emoji = some 0x1F504;
  style = primary;
}

abbrev server_button : Button
server_button = record { target = server_page; label = codes "s"; emoji = none; style = success }

dashboard_press :
    (press env (new_menu (codes "dashboard")) (7, 9) bot).0
    ≡ some (update_message (message dashboard_page))
unfolding press page_press match_url text_eq new_menu dashboard_menu send_command
dashboard_press = refl

dashboard_buttons :
    all_buttons (message dashboard_page).components ≡ (refresh ∷ []) ++ server_button ∷ []
unfolding all_buttons message show_servers new_menu exit_page enter_page
dashboard_buttons = refl

server_page-Reach : Reach env (new_menu (codes "dashboard")) server_page
server_page-Reach =
    pressed (new_menu (codes "dashboard")) (7, 9) bot (message dashboard_page) (refresh ∷ [])
      server_button [] begun dashboard_press dashboard_buttons

press-Reach_example : (a : Answer) × ((press env server_page (7, 9) bot).0 ≡ some a)
press-Reach_example = press-Reach env server_page (7, 9) bot env-HasNumbers server_page-Reach

abbrev backup_form : MenuHistory
backup_form = record {
  history = page_url (codes "menu") (codes "s" ∷ []) ∷ [];
  current = action_url (codes "backup") (codes "s" ∷ []);
}

abbrev inputs : List Text
inputs = codes "Yes, I confirm" ∷ codes "the last backup will be lost" ∷ codes "s" ∷ []

submit-Outcome_example : Outcome env backup_form bot inputs (submit env backup_form inputs bot).1
submit-Outcome_example = submit-Outcome env backup_form inputs bot

run_mods_panics_example :
    (x : Button) × (rest : List Button) × (all_buttons
        (run env (λ _. codes "Idle") (mods (codes "s")) 7 bot).0.components
      ≡ x ∷ rest)
    × (x.label ≡ codes "Refresh")
    × ((press env x.target (7, 9) bot).0 ≡ none)
run_mods_panics_example =
    run_mods_panics env (λ _. codes "Idle") (codes "s") 7 bot bot (7, 9) [] true refl
