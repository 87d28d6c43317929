-- ===== src/Mcayb/Slash/Refresh.antt =====
-- mcayb/src/bot.rs: the listing of mods that the command `Mods` shows cannot be refreshed.
use mind_craft.Base.{ℕ, Text, codes, text_eq, Bool, none, some, List, ◌∷◌, ◌≡◌, refl, ap, ◌∙◌}
use mind_craft.Yapper.Types.{Status, server_command, ServerCommand, Response, ModInfo}
use mind_craft.Mcayb.Menus.{exit_page}
use mind_craft.Mcayb.Embeds.{Button, primary, message, put_back, put_refresh}
use mind_craft.Mcayb.Pages.{show_mods, mod_menu}
use mind_craft.Mcayb.Embeds.Rows.{all_buttons, message-rows}
use mind_craft.Mcayb.Chat.{Env, Bot, response, send_command}
use mind_craft.Mcayb.Presses.{press, page_press}
use mind_craft.Mcayb.Arguments.{match_url, with_argument, argument}
use mind_craft.Mcayb.Slash.{mods, run, mods_start}

abbrev refresh_button : Text → Button
refresh_button server = record {
  target = mods_start server;
  label = codes "Refresh";
  emoji = some 0x1F504;
  style = primary;
}

press-mods_start :
    {V : Type 0} (env : Env V) (server : Text) (comp : ℕ × ℕ) (b : Bot V)
    → (press env (mods_start server) comp b).0 ≡ none
unfolding press page_press match_url with_argument argument mods_start text_eq
press-mods_start env server comp b = refl

put_refresh-mods_start :
    {V : Type 0} (env : Env V) (server : Text) (the_mods : List (ModInfo V)) (finished : Bool)
    → let p =
        show_mods env (mods_start server) server 0 (response (Response.mods the_mods finished)) in
      put_back p (put_refresh p p.menu.buttons) ≡ refresh_button server ∷ p.menu.buttons
unfolding put_back put_refresh show_mods mods_start exit_page
put_refresh-mods_start env server the_mods finished = refl

-- If the daemon lists mods, the first button of the answer to the command `Mods` is Refresh, and a press
-- of it makes the handler panic, whatever is done in between.
pub run_mods_panics :
    {V : Type 0} (env : Env V) (show_status : Status → Text) (server : Text) (channel : ℕ)
    (b b' : Bot V) (comp : ℕ × ℕ) (the_mods : List (ModInfo V)) (finished : Bool)
    → env.ask b.log (server_command server (ServerCommand.list_mods 10 0))
      ≡ response (Response.mods the_mods finished)
    → (x : Button) × (rest : List Button) × (all_buttons
          (run env show_status (mods server) channel b).0.components
        ≡ x ∷ rest)
      × (x.label ≡ codes "Refresh")
      × ((press env x.target comp b').0 ≡ none)
unfolding run mod_menu send_command
run_mods_panics env show_status server channel b b' comp the_mods finished e =
    let shown = show_mods env (mods_start server) server 0 in
    let p = shown (response (Response.mods the_mods finished)) in
    (
      refresh_button server,
      p.menu.buttons,
      ap (λ r. all_buttons (message (shown r)).components) e
          ∙ (message-rows p).0
          ∙ put_refresh-mods_start env server the_mods finished,
      refl,
      press-mods_start env server comp b',
    )
