-- ===== src/Mcayb/Replies.antt =====
-- mcayb/src/bot.rs: the menus that the bot answers with, and the picture of a mod.
use mind_craft.Base.{
  Text, codes, Bool, true, false, none, some, List, [], ◌∷◌, ◌++◌, if◌then◌else◌, is_some,
  unwrap_or,
}
use mind_craft.Yapper.Types.{ModInfo}
use mind_craft.Yapper.Escape.{escape_discord}
use mind_craft.Mcayb.Menus.{MenuHistory, new_menu}
use mind_craft.Mcayb.Embeds.{Embed, ProcessedMenu, make_menu, with_fields, build}
use mind_craft.Mcayb.Chat.{
  Env, CommError, io_error, other_error, ErrorKind, timed_out, connection_refused,
  connection_aborted, connection_reset, other_kind,
}

unfoldable pub result_menu : MenuHistory → Bool → Text → ProcessedMenu
unfolding make_menu build
result_menu history success text =
    let title = if success then codes ":white_check_mark: Success" else codes ":x: Error" in
    let color = if success then (144, 245, 66) else (235, 64, 66) in
    build history true false (make_menu color title (some text))

unfoldable pub info_menu : Text → ProcessedMenu
unfolding make_menu build new_menu
info_menu text =
    build (new_menu (codes "info_menu")) false false (make_menu (36, 146, 224) text none)

unfoldable pub outdated : ProcessedMenu
unfolding make_menu build new_menu
outdated =
    build (new_menu (codes "null")) false false
      (make_menu (235, 64, 66) (codes "Menu is outdated (the bot was restarted maybe?)") none)

unfoldable pub send_unknown : MenuHistory → ProcessedMenu
unfolding result_menu
send_unknown h = result_menu h false (codes "Server sent an invalid response. This is a bug")

unfoldable pub no_such_mod : Text → Text → ProcessedMenu
unfolding info_menu escape_discord
no_such_mod mod_id server = info_menu (
    codes "Can't remove \""
    ++ escape_discord mod_id
    ++ codes "\" because it's not installed on \""
    ++ escape_discord server
    ++ codes "\"!")

unfoldable pub already_installed : Text → Text → ProcessedMenu
unfolding info_menu escape_discord
already_installed mod_id server = info_menu (
    codes "Mod \""
    ++ escape_discord mod_id
    ++ codes "\" is already installed for \""
    ++ escape_discord server
    ++ codes "\"!")

-- Whether a kind of error is one of a connection.
abbrev pub is_connection_error : ErrorKind → Bool
is_connection_error timed_out = true
is_connection_error connection_refused = true
is_connection_error connection_aborted = true
is_connection_error connection_reset = true
is_connection_error other_kind = false

-- The authors, with a comma between them.
unfoldable pub join_authors : Bool → List Text → Text
join_authors first [] = []
join_authors first (x ∷ xs) = (if first then x else codes ", " ++ x) ++ join_authors false xs

module _ {V : Type 0} (env : Env V) where
  unfoldable pub error_content : CommError → Text
  error_content (other_error e) = codes "WHOOPS! An error occurred: " ++ e
  error_content (io_error kind) =
      if is_connection_error kind
      then codes "Couldn't connect to server: " ++ env.show_kind kind
      else codes "Server communication error: " ++ env.show_kind kind

  unfoldable pub send_err : MenuHistory → CommError → ProcessedMenu
  unfolding result_menu error_content
  send_err h error = result_menu h false (error_content error)

  unfoldable pub unknown_server : MenuHistory → Text → ProcessedMenu
  unfolding result_menu
  unknown_server h server = result_menu h false (codes "Unknown server: " ++ env.debug server)

  unfoldable pub wtf_bad_bot : MenuHistory → ProcessedMenu
  unfolding make_menu build
  wtf_bad_bot h =
      build h false false (make_menu (0, 0, 0) (codes "Wtf bad bot") (some (env.show_history h)))

  unfoldable pub mod_embed : ModInfo V → Embed
  unfolding make_menu with_fields join_authors
  mod_embed info =
      let fields =
        (codes "Mod ID", info.mod_id, true)
        ∷ (codes "Version", env.versions.show info.version, true)
        ∷ [] in
      let m =
        with_fields fields
          (make_menu (106, 72, 161) (unwrap_or info.name info.mod_id) info.description) in
      record m.embed {
        image = if is_some info.logo then some (codes "attachment://logo.png") else none;
        author = elim info.authors [
          | none ↦ none
          | some authors ↦ some (join_authors true authors)
        ];
        url = info.url;
        footer = info.credits;
      }
