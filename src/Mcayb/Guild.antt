-- ===== src/Mcayb/Guild.antt =====
-- mcayb/src/bot.rs: `guild_loop`, which turns what the daemon tells into messages. The list of the mods
-- that are being installed is an `AllocVec` of the crate allocvec.
pub mod Events
pub mod Safe
pub mod Groups
use mind_craft.Base.{
  ℕ, ◌+◌, Text, codes, text_eq, Bool, true, false, not, ◌&&◌, ◌==◌, Option, none, some, List, [],
  ◌∷◌, ◌++◌, if◌then◌else◌, if◌then◌else◌, find, any, Assoc, lookup, insert, contains_key,
  unwrap_or, map, is_some,
}
use mind_craft.Yapper.Types.{
  ModInfo, NetCommand, list_servers, Response, ServerStatus, Status, backing_up, restoring,
  Notification, backup_failed, restore_failed, status_changed, backup_progress, restore_progress,
  zip_progress, zip_failed, zip_file, ZipProgress, zipping, uploading,
}
use mind_craft.Yapper.Escape.{escape_discord, pretty_status}
use mind_craft.SvManage.Status.{status_eq}
use mind_craft.Mcayb.Embeds.{CreateMessage, message}
use mind_craft.Mcayb.Replies.{info_menu}
use mind_craft.Mcayb.Chat.{
  Env, Bot, Act, gets, pure, ◌>>=◌, ◌>>◌, note, edited, deleted, Reply, response, failed, PollKey,
  mod_poll, PollKind, install, NotifServer, NotifGroup, Notifs, send_command, send_message, say,
  with_config_mut,
}
use mind_craft.Mcayb.Polls.Create.{create_poll}
use mind_craft.Mcayb.Notices.{
  Run, then_run, when_running, set_msgs, amount, clear, delete_known, delete_msg, edit_or_send,
  forget_message, message_in, new_notifs, notif_server, notif_text, put_server, send_msg, sent_msg,
  set_messages, the_groups, zip_text,
}

-- `Event`.
pub data Event : Type 0 where
  server_deleted server_created : Text → Event
  path_changed : Text → Text → Text → Event

event_text : Event → Text
unfolding escape_discord
event_text (server_deleted name) =
    codes "Server `" ++ escape_discord name ++ codes "` was **deleted**"
event_text (server_created name) =
    codes "New server was **created**: `" ++ escape_discord name ++ codes "`"
event_text (path_changed name old_path new_path) =
    codes "Server `"
    ++ escape_discord name
    ++ codes "` changed its path from `"
    ++ escape_discord old_path
    ++ codes "` to `"
    ++ escape_discord new_path
    ++ codes "`"

-- A server of the listing by its name.
unfoldable pub server_named : Text → List ServerStatus → Option ServerStatus
server_named name [] = none
server_named name (s ∷ statuses) =
    if text_eq s.name name then some s else server_named name statuses

-- What a server that was known has become.
unfoldable pub event_of : ServerStatus → Option ServerStatus → List Event
event_of old (some new) =
    if text_eq old.path new.path then [] else path_changed old.name old.path new.path ∷ []
event_of old none = server_deleted old.name ∷ []

unfoldable pub old_events : List ServerStatus → List ServerStatus → List Event
unfolding server_named event_of
old_events new_status [] = []
old_events new_status (old ∷ olds) =
    event_of old (server_named old.name new_status) ++ old_events new_status olds

unfoldable pub new_events : List ServerStatus → List ServerStatus → List Event
unfolding server_named
new_events last_status [] = []
new_events last_status (status ∷ news) =
    if is_some (server_named status.name last_status)
    then new_events last_status news
    else server_created status.name ∷ new_events last_status news

unfoldable pub events : List ServerStatus → List ServerStatus → List Event
unfolding old_events new_events
events last_status new_status =
    old_events new_status last_status ++ new_events last_status new_status

unfoldable pub statuses_eq : List ServerStatus → List ServerStatus → Bool
statuses_eq [] [] = true
statuses_eq (a ∷ as') (b ∷ bs) =
    text_eq a.name b.name
    && text_eq a.path b.path
    && status_eq a.status b.status
    && statuses_eq as' bs
statuses_eq [] (_ ∷ _) = false
statuses_eq (_ ∷ _) [] = false

module _ {V : Type 0} (env : Env V) where
  -- The message for a notification.
  unfoldable pub show_notif : ℕ → Notification → Run V (Unit {0})
  unfolding then_run send_msg notif_text clear say message info_menu
  show_notif channel (backup_progress server copied total) =
      send_msg env (codes "restore") server channel
        (notif_text env (backup_progress server copied total))
  show_notif channel (restore_progress server copied total) =
      send_msg env (codes "backup") server channel
        (notif_text env (restore_progress server copied total))
  show_notif channel (zip_progress server progress) =
      send_msg env (codes "zip") server channel (notif_text env (zip_progress server progress))
  show_notif channel (zip_failed server error) =
      then_run
        (send_msg env (codes "zip") server channel (notif_text env (zip_failed server error)))
        λ _. clear env (codes "zip") server
  show_notif channel (zip_file server url) =
      then_run (send_msg env (codes "zip") server channel (notif_text env (zip_file server url)))
        λ _. clear env (codes "zip") server
  show_notif channel (backup_failed server error) =
      say env channel (message (info_menu (notif_text env (backup_failed server error))))
      >> pure (some tt)
  show_notif channel (restore_failed server error) =
      say env channel (message (info_menu (notif_text env (restore_failed server error))))
      >> pure (some tt)
  show_notif channel (status_changed server old new) =
      say env channel (message (info_menu (notif_text env (status_changed server old new))))
      >> pure (some tt)

  clear_unless : Status → Status → Text → Text → Run V (Unit {0})
  unfolding clear
  clear_unless new status group server =
      if status_eq new status then pure (some tt) else clear env group server

  -- A status that is not that of a job any more ends its message.
  unfoldable pub reset_messages : Notification → Run V (Unit {0})
  unfolding then_run clear_unless
  reset_messages (status_changed server _ new) =
      then_run (clear_unless new backing_up (codes "backup") server)
        λ _. clear_unless new restoring (codes "restore") server
  reset_messages _ = pure (some tt)

  unfoldable pub show_notifs : ℕ → List Notification → Run V (Unit {0})
  unfolding then_run show_notif reset_messages
  show_notifs channel [] = pure (some tt)
  show_notifs channel (n ∷ notifs) =
      then_run (show_notif channel n)
        λ _. then_run (reset_messages n) λ _. show_notifs channel notifs

  unfoldable pub say_events : ℕ → List Event → Act V (Unit {0})
  unfolding say message info_menu event_text
  say_events channel [] = pure tt
  say_events channel (e ∷ es) = do
    say env channel (message (info_menu (event_text e)))
    say_events channel es

  abbrev save_status : List ServerStatus → Bot V → Unit {0} × Bot V
  save_status new_status b = (tt, record b { saved_status = new_status })

  save_if_new : Bool → List ServerStatus → Act V (Unit {0})
  unfolding with_config_mut
  save_if_new true new_status = pure tt
  save_if_new false new_status = with_config_mut env (save_status new_status) >> pure tt

  -- The listing that came, against a copy of the one that is kept.
  unfoldable pub compare_status : ℕ → List ServerStatus → List ServerStatus → Act V (Unit {0})
  unfolding statuses_eq save_if_new say_events events
  compare_status channel last_status new_status = do
    save_if_new (statuses_eq new_status last_status) new_status
    say_events channel (events last_status new_status)

  see_listing : ℕ → List ServerStatus → Reply V → Act V (Unit {0})
  unfolding compare_status
  see_listing channel last_status (response (Response.list new_status)) =
      compare_status channel last_status new_status
  see_listing channel last_status _ = pure tt

  see_notifs : ℕ → Reply V → Run V (Unit {0})
  unfolding show_notifs
  see_notifs channel (response (Response.notifications notifs)) = show_notifs channel notifs
  see_notifs channel _ = pure (some tt)

  -- The first part of `guild_loop`: the events.
  unfoldable pub watch_servers : ℕ → Act V (Unit {0})
  unfolding send_command see_listing
  watch_servers channel = do
    last_status ← gets (λ b. b.last_status)
    r ← send_command env list_servers
    see_listing channel last_status r

  -- The second part: the notifications of the daemon.
  unfoldable pub watch_notifs : ℕ → Run V (Unit {0})
  unfolding send_command see_notifs
  watch_notifs channel = do r ← send_command env NetCommand.notifications; see_notifs channel r
