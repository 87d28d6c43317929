-- ===== src/Mcayb/Polls/Create.antt =====
-- mcayb/src/bot.rs: `create_poll`, in its parts.
pub mod Adds
pub mod Evolution
pub mod Files
pub mod Quiet
use mind_craft.Base.{
  ℕ, Text, codes, text_eq, Bool, true, false, Option, none, some, List, [], ◌∷◌, ◌++◌,
  if◌then◌else◌, any, is_some,
}
use mind_craft.Yapper.Types.{ModInfo, mod_name, NetCommand, server_command, Response, ServerCommand}
use mind_craft.Yapper.Escape.{escape_discord}
use mind_craft.Mcayb.Menus.{new_menu}
use mind_craft.Mcayb.Embeds.{CreateMessage, empty_message, message, make_menu, build}
use mind_craft.Mcayb.Replies.{send_err, send_unknown, info_menu, result_menu, mod_embed}
use mind_craft.Mcayb.Chat.{
  Env, Bot, Act, gets, pure, ◌>>=◌, ◌>>◌, pinned, note, Reply, response, failed, PollKey, PollKind,
  Fetched, install, remove, restore, OngoingPoll, poll_at, send_command, send_message, say,
  get_message, with_config_mut, drop_file,
}
use mind_craft.Mcayb.Polls.{null_history, referring, install_file}

module _ {V : Type 0} where
  unfoldable pub already_polled : PollKind V → Text
  unfolding escape_discord mod_name
  already_polled (install server info) =
      codes "A poll involving \""
      ++ escape_discord (mod_name info)
      ++ codes "\" in \""
      ++ escape_discord server
      ++ codes "\" has already been made!"
  already_polled (remove server info) =
      codes "A poll involving \""
      ++ escape_discord (mod_name info)
      ++ codes "\" in \""
      ++ escape_discord server
      ++ codes "\" has already been made!"
  already_polled (restore server) =
      codes "A poll involving server \""
      ++ escape_discord server
      ++ codes "\" has already been made!"

  unfoldable pub poll_title : PollKind V → Text
  unfolding mod_name
  poll_title (install server info) =
      codes "Install \"" ++ mod_name info ++ codes "\" to \"" ++ server ++ codes "\"?"
  poll_title (remove server info) =
      codes "Remove \"" ++ mod_name info ++ codes "\" from \"" ++ server ++ codes "\"?"
  poll_title (restore server) = codes "Restore backup for \"" ++ server ++ codes "\"?"

  -- The change that puts a poll in the configuration, unless there is one for the key.
  unfoldable pub add_poll : PollKey → OngoingPoll V → Bot V → Bool × Bot V
  unfolding poll_at
  add_poll key poll b =
      if is_some (poll_at key b.polls)
      then (false, b)
      else (true, record b { polls = (key, poll) ∷ b.polls })

  -- The question of a poll.
  abbrev pub poll_message : PollKind V → CreateMessage
  unfolding poll_title mod_name
  poll_message kind = record empty_message { poll = some (poll_title kind) }

  unfoldable pub declined : PollKind V → ℕ → CreateMessage
  unfolding message make_menu build already_polled new_menu
  declined kind the_poll = referring the_poll (
      message (
        build (new_menu (codes "already_polled")) false false
          (make_menu (196, 196, 116) (codes "Poll ongoing!") (some (already_polled kind)))))

module _ {V : Type 0} (env : Env V) where
  -- The update of a mod that is installed already.
  unfoldable pub update_instead : Text → ModInfo V → Act V CreateMessage
  unfolding send_command message info_menu result_menu send_unknown send_err escape_discord new_menu
  update_instead server info = do
    r ← send_command env (server_command server (ServerCommand.update_mod info.path info.filename))
    elim r [
      | response Response.ok ↦ pure (
          message (
            info_menu (
              codes "Mod \""
              ++ escape_discord info.mod_id
              ++ codes "\" updated for \""
              ++ escape_discord server
              ++ codes "\"!")))
      | response Response.no_such_mod ↦ pure (
          message (
            result_menu null_history false (
              codes "Mod \""
              ++ escape_discord info.mod_id
              ++ codes "\" was already installed for \""
              ++ escape_discord server
              ++ codes
                  "\", so i tried to update it instead, but the server said it can't be updated because the mod isn't installed... WTF????")))
      | response _ ↦ pure (message (send_unknown null_history))
      | failed e ↦ pure (message (send_err env null_history e))
    ]

  -- The message that stands in the way of a poll to install a mod.
  unfoldable pub error_msg : Text → ModInfo V → Act V (Option CreateMessage)
  unfolding send_command message send_unknown send_err new_menu update_instead
  error_msg server info = do
    r ← send_command env (server_command server (ServerCommand.list_mods 0 0))
    elim r [
      | response (Response.mods mods _) ↦
          if any (λ m. text_eq m.mod_id info.mod_id) mods
          then (do msg ← update_instead server info; pure (some msg))
          else pure none
      | response _ ↦ pure (some (message (send_unknown null_history)))
      | failed e ↦ pure (some (message (send_err env null_history e)))
    ]

  unfoldable pub precheck : PollKind V → Act V (Option CreateMessage)
  unfolding error_msg
  precheck (install server info) = error_msg server info
  precheck (remove _ _) = pure none
  precheck (restore _) = pure none

  unfoldable pub show_mod : ℕ → PollKind V → Act V (Unit {0})
  unfolding say mod_embed
  show_mod channel (install _ info) =
      say env channel (record empty_message { embed = some (mod_embed env info); file = info.logo })
  show_mod channel (remove _ info) =
      say env channel (record empty_message { embed = some (mod_embed env info); file = info.logo })
  show_mod channel (restore _) = pure tt

  -- The `try` block: `none` where it succeeds, else the error.
  unfoldable pub store_poll : ℕ → PollKey → PollKind V → Act V (Option Text)
  unfolding send_message with_config_mut add_poll note poll_title mod_name
  store_poll channel key kind = do
    sent ← send_message env channel (poll_message kind)
    elim sent [
      | none ↦ pure (some (codes "Failed to create poll"))
      | some id ↦ do
        note (pinned channel id)
        stored ←
            with_config_mut env
              (add_poll key (record { channel = channel; poll = id; kind = kind }))
        elim stored [
          | none ↦ pure (some (codes "Failed to flush config"))
          | some false ↦ pure (some (codes "Poll created twice for same mod_id and same server"))
          | some true ↦ pure none
        ]
    ]

  -- A poll that is not made, with its reason; the file of the mod is removed.
  unfoldable pub give_up : ℕ → PollKind V → CreateMessage → Act V (Unit {0})
  unfolding say drop_file install_file
  give_up channel kind msg = say env channel msg >> drop_file (install_file kind)

  -- The end of `create_poll`, after the `try` block.
  unfoldable pub settle : ℕ → PollKind V → Option Text → Act V (Unit {0})
  unfolding give_up message result_menu new_menu
  settle channel kind none = pure tt
  settle channel kind (some err) = give_up channel kind (
      message
        (result_menu (new_menu (codes "poll_error")) false (codes "Error creating poll: " ++ err)))

  unfoldable pub ask_guild : ℕ → PollKey → PollKind V → Act V (Unit {0})
  unfolding show_mod store_poll settle
  ask_guild channel key kind = do
    show_mod channel kind
    r ← store_poll channel key kind
    settle channel kind r

  after_precheck : ℕ → PollKey → PollKind V → Option CreateMessage → Act V (Unit {0})
  unfolding give_up ask_guild
  after_precheck channel key kind none = ask_guild channel key kind
  after_precheck channel key kind (some msg) = give_up channel kind msg

  -- From the point where `del` holds the file of the mod.
  unfoldable pub open_poll : ℕ → PollKey → PollKind V → Act V (Unit {0})
  unfolding precheck after_precheck
  open_poll channel key kind = do stopped ← precheck kind; after_precheck channel key kind stopped

  unfoldable pub decline_poll : ℕ → PollKind V → ℕ → Act V (Unit {0})
  unfolding say declined
  decline_poll channel kind the_poll = say env channel (declined kind the_poll)

  -- Whether the message of a poll for the same key is still there.
  after_fetch : ℕ → PollKey → PollKind V → OngoingPoll V → Option Fetched → Act V (Unit {0})
  unfolding decline_poll open_poll
  after_fetch channel key kind poll none = open_poll channel key kind
  after_fetch channel key kind poll (some the_poll) = decline_poll channel poll.kind the_poll.id

  after_lookup : ℕ → PollKey → PollKind V → Option (OngoingPoll V) → Act V (Unit {0})
  unfolding get_message open_poll after_fetch
  after_lookup channel key kind none = open_poll channel key kind
  after_lookup channel key kind (some poll) = do
    found ← get_message env poll.channel poll.poll
    after_fetch channel key kind poll found

  unfoldable pub create_poll : PollKey → PollKind V → Act V (Unit {0})
  unfolding poll_at after_lookup
  create_poll key kind = do
    existing ← gets (λ b. poll_at key b.polls)
    channel ← gets (λ b. b.notifications)
    after_lookup channel key kind existing
