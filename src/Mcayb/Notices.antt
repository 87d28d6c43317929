-- ===== src/Mcayb/Notices.antt =====
-- mcayb/src/bot.rs: `Notifs`, the messages of a guild that are edited, and the texts of notifications.
use mind_craft.Base.{
  ℕ, Text, codes, ◌==◌, Option, none, some, List, [], ◌∷◌, ◌++◌, if◌then◌else◌, if◌then◌else◌,
  lookup, insert, unwrap_or,
}
use mind_craft.Yapper.Types.{
  Notification, backup_failed, restore_failed, status_changed, backup_progress, restore_progress,
  zip_progress, zip_failed, zip_file, ZipProgress, zipping, uploading,
}
use mind_craft.Yapper.Escape.{escape_discord, pretty_status}
use mind_craft.Mcayb.Embeds.{CreateMessage, message}
use mind_craft.Mcayb.Replies.{info_menu}
use mind_craft.Mcayb.Chat.{
  Env, Act, gets, pure, ◌>>=◌, ◌>>◌, note, edited, deleted, NotifServer, Notifs, send_message,
}

-- The message that is edited in a channel.
unfoldable pub message_in : ℕ → NotifServer → Option ℕ
message_in channel [] = none
message_in channel ((c, m) ∷ messages) =
    if c == channel then some m else message_in channel messages

unfoldable pub forget_message : ℕ → NotifServer → NotifServer
forget_message channel [] = []
forget_message channel ((c, m) ∷ messages) =
    if c == channel
    then forget_message channel messages
    else (c, m) ∷ forget_message channel messages

-- `msgs.get(group).get(server)`: `Notifs::get` panics for a group that is not there, and
-- `NotifGroup::get` gives a new server where there is none.
unfoldable pub notif_server : Text → Text → Notifs → Option NotifServer
unfolding lookup
notif_server group server msgs = elim (lookup group msgs) [
  | none ↦ none
  | some g ↦ some (unwrap_or (lookup server g) [])
]

-- A write through the same reference.
unfoldable pub put_server : Text → Text → NotifServer → Notifs → Option Notifs
unfolding lookup insert
put_server group server messages msgs = elim (lookup group msgs) [
  | none ↦ none
  | some g ↦ some (insert group (insert server messages g) msgs)
]

-- `Notifs::new` with the names of the groups.
unfoldable pub new_notifs : List Text → Notifs
unfolding insert
new_notifs [] = []
new_notifs (group ∷ groups) = insert group [] (new_notifs groups)

abbrev pub the_groups : List Text
the_groups =
    codes "backup"
    ∷ codes "restore"
    ∷ codes "install_mod"
    ∷ codes "uninstall_mod"
    ∷ codes "zip"
    ∷ []

-- An action that can panic, as `none`.
abbrev pub Run : Type 0 → Type 0 → Type 0
Run V A = Act V (Option A)

module _ {V A B : Type 0} where
  -- What follows on a value, and nothing after a panic.
  unfoldable pub when_running : Option A → (A → Run V B) → Run V B
  when_running none f = pure none
  when_running (some a) f = f a

  unfoldable pub then_run : Run V A → (A → Run V B) → Run V B
  unfolding when_running
  then_run m f = do o ← m; when_running o f

-- The messages after a write, if it did not panic.
unfoldable pub set_msgs : {V : Type 0} → Option Notifs → Run V (Unit {0})
set_msgs none b = (none, b)
set_msgs (some msgs) b = (some tt, record b { msgs = msgs })

module _ {V : Type 0} (env : Env V) where
  abbrev pub amount : ℕ → ℕ → Text
  amount copied total =
      env.show_mb copied
      ++ codes "Mb copied out of "
      ++ env.show_mb total
      ++ codes "Mb ("
      ++ env.show_percent copied total
      ++ codes "%)"

  -- `Display` of `ZipProgress`, with `{:.2}` of the two kinds of number given.
  unfoldable pub zip_text : ZipProgress → Text
  zip_text (zipping copied total) =
      env.show_mb copied
      ++ codes "Mb packaged out of "
      ++ env.show_mb total
      ++ codes "Mb ("
      ++ env.show_percent copied total
      ++ codes "%)"
  zip_text (uploading copied total) =
      env.show_mb copied
      ++ codes "Mb uploaded out of "
      ++ env.show_mb total
      ++ codes "Mb ("
      ++ env.show_percent copied total
      ++ codes "%)"

  -- `Display` of `Notification`.
  unfoldable pub notif_text : Notification → Text
  unfolding escape_discord pretty_status zip_text
  notif_text (backup_failed server error) =
      codes "Backup failed for `" ++ escape_discord server ++ codes "` with error: " ++ error
  notif_text (restore_failed server error) =
      codes "Restore failed for `" ++ escape_discord server ++ codes "` with error: " ++ error
  notif_text (status_changed server _ new_status) =
      codes "Server `" ++ escape_discord server ++ codes "` is " ++ pretty_status new_status
  notif_text (backup_progress server copied total) =
      codes "Server `"
      ++ escape_discord server
      ++ codes "` backup progress: "
      ++ amount copied total
  notif_text (restore_progress server copied total) =
      codes "Server `"
      ++ escape_discord server
      ++ codes "` restore progress: "
      ++ amount copied total
  notif_text (zip_progress server progress) =
      codes "Server `" ++ escape_discord server ++ codes "` package progress: " ++ zip_text progress
  notif_text (zip_failed server error) =
      codes "Package failed for  `" ++ escape_discord server ++ codes "` with error: " ++ error
  notif_text (zip_file server url) =
      codes "Download ready for `" ++ escape_discord server ++ codes "`'s mod-pack: " ++ url

  -- `msgs.get(group).get(server)` with a change of what it gives.
  unfoldable pub set_messages : Text → Text → NotifServer → Run V (Unit {0})
  unfolding put_server set_msgs
  set_messages group server messages b = set_msgs (put_server group server messages b.msgs) b

  unfoldable pub sent_msg : Text → Text → ℕ → NotifServer → Option ℕ → Run V (Unit {0})
  unfolding set_messages
  sent_msg group server channel messages none = set_messages group server messages
  sent_msg group server channel messages (some id) =
      set_messages group server ((channel, id) ∷ messages)

  unfoldable pub edit_or_send :
      Text → Text → ℕ → CreateMessage → NotifServer → Option ℕ → Run V (Unit {0})
  unfolding note set_messages send_message sent_msg
  edit_or_send group server channel msg messages (some m) = do
    note (edited channel m msg)
    set_messages group server messages
  edit_or_send group server channel msg messages none = do
    id ← send_message env channel msg
    sent_msg group server channel messages id

  -- `NotifServer::send_msg`, of the messages of a group and a server.
  unfoldable pub send_msg : Text → Text → ℕ → Text → Run V (Unit {0})
  unfolding notif_server when_running message_in edit_or_send message info_menu
  send_msg group server channel text = do
    messages ← gets (λ b. notif_server group server b.msgs)
    when_running messages λ known.
        edit_or_send group server channel (message (info_menu text)) known
          (message_in channel known)

  unfoldable pub delete_known : ℕ → Option ℕ → Act V (Unit {0})
  unfolding note
  delete_known channel none = pure tt
  delete_known channel (some m) = note (deleted channel m)

  -- `NotifServer::delete_msg`.
  unfoldable pub delete_msg : Text → Text → ℕ → Run V (Unit {0})
  unfolding notif_server when_running message_in delete_known set_messages forget_message
  delete_msg group server channel = do
    messages ← gets (λ b. notif_server group server b.msgs)
    when_running messages λ known. (do
      delete_known channel (message_in channel known)
      set_messages group server (forget_message channel known))

  -- `NotifServer::clear`.
  unfoldable pub clear : Text → Text → Run V (Unit {0})
  unfolding set_messages
  clear group server = set_messages group server []
