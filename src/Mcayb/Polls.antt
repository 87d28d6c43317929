-- ===== src/Mcayb/Polls.antt =====
-- mcayb/src/bot.rs: the polls, `create_poll`, `poll_deleted` and `check_poll`.
pub mod Keys
pub mod Table
pub mod Create
pub mod Check
use mind_craft.Base.{
  ℕ, Text, codes, text_eq, Bool, true, false, ◌&&◌, ◌==◌, Option, none, some, List, [], ◌∷◌, ◌++◌,
  if◌then◌else◌,
}
use mind_craft.Yapper.Types.{
  ModInfo, mod_name, NetCommand, server_command, Response, idle, Status, ServerCommand,
}
use mind_craft.Yapper.Escape.{escape_discord}
use mind_craft.SvManage.Status.{status_eq}
use mind_craft.Mcayb.Menus.{MenuHistory, new_menu}
use mind_craft.Mcayb.Embeds.{CreateMessage, empty_message, ProcessedMenu, message, make_menu, build}
use mind_craft.Mcayb.Replies.{send_err, send_unknown}
use mind_craft.Mcayb.Chat.{
  Env, Bot, Act, gets, pure, ◌>>=◌, ◌>>◌, Effect, ended, pinned, unpinned, deleted, note, Reply,
  response, failed, PollKey, PollKind, install, remove, restore, OngoingPoll, Polls, poll_at,
  remove_poll, send_command, say, get_message, with_config_mut, drop_file,
}

abbrev pub null_history : MenuHistory
unfolding new_menu
null_history = new_menu (codes "null")

abbrev pub referring : ℕ → CreateMessage → CreateMessage
referring id m = record m { reference = some id }

abbrev pub with_content : Text → CreateMessage
with_content text = record empty_message { content = some text }

module _ {V : Type 0} where
  -- The file that belongs to a poll.
  unfoldable pub install_file : PollKind V → Option Text
  install_file (install _ info) = some info.path
  install_file (remove _ _) = none
  install_file (restore _) = none

  -- The search for the poll of a message, with its key.
  unfoldable pub find_poll : ℕ → ℕ → Polls V → Option (PollKey × OngoingPoll V)
  find_poll the_channel the_poll [] = none
  find_poll the_channel the_poll ((k, p) ∷ polls) =
      if p.channel == the_channel && p.poll == the_poll
      then some (k, p)
      else find_poll the_channel the_poll polls

  abbrev pub forget : PollKey → Bot V → Unit {0} × Bot V
  forget key b = (tt, record b { polls = remove_poll key b.polls })

module _ {V : Type 0} (env : Env V) where
  unfoldable pub reboot_server : Text → Act V (Unit {0})
  unfolding send_command say message send_unknown send_err new_menu
  reboot_server server = do
    r ← send_command env (server_command server ServerCommand.status)
    elim r [
      | response (Response.status status) ↦
          if status_eq status.status idle
          then pure tt
          else (send_command env (server_command server ServerCommand.reboot) >> pure tt)
      | response any ↦ do
        channel ← gets (λ b. b.notifications)
        say env channel (message (send_unknown null_history))
      | failed any ↦ do
        channel ← gets (λ b. b.notifications)
        say env channel (message (send_err env null_history any))
    ]

  cancelled : PollKind V → Text
  unfolding escape_discord mod_name
  cancelled (install server info) =
      codes "Cancelled poll to add \""
      ++ escape_discord (mod_name info)
      ++ codes "\" to \""
      ++ escape_discord server
      ++ codes "\""
  cancelled (remove server info) =
      codes "Cancelled poll to remove \""
      ++ escape_discord (mod_name info)
      ++ codes "\" from \""
      ++ escape_discord server
      ++ codes "\""
  cancelled (restore server) =
      codes "Cancelled poll to restore backup for \"" ++ escape_discord server ++ codes "\""

  -- A poll whose message is gone: the poll is forgotten, and its file removed at the end.
  unfoldable pub cancel_poll : ℕ → PollKey → OngoingPoll V → Act V (Unit {0})
  unfolding with_config_mut say message cancelled make_menu build new_menu drop_file install_file
  cancel_poll channel key poll = do
    with_config_mut env (forget key)
    say env channel (
        message (
          build (new_menu (codes "poll_deleted")) false false
            (make_menu (50, 58, 194) (cancelled poll.kind) none)))
    drop_file (install_file poll.kind)

  unfoldable pub poll_deleted : ℕ → ℕ → Act V Bool
  unfolding find_poll get_message cancel_poll
  poll_deleted the_channel deleted_poll = do
    channel ← gets (λ b. b.notifications)
    found ← gets (λ b. find_poll the_channel deleted_poll b.polls)
    elim found [
      | none ↦ pure true
      | some (key, poll) ↦ do
        msg ← get_message env poll.channel poll.poll
        elim msg [ some _ ↦ pure false | none ↦ cancel_poll channel key poll >> pure true ]
    ]
