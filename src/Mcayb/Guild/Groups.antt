-- ===== src/Mcayb/Guild/Groups.antt =====
-- mcayb/src/bot.rs: the groups of messages stay, and the listing that is compared with stays the same.
use mind_craft.Base.{
  ℕ, Text, codes, Bool, true, false, Bool-cases, Option-cases, subst, Option, none, some, List, [],
  ◌∷◌, ◌≡◌, inl, inr, arith, insert, is_some, lookup, contains_key,
}
use mind_craft.Yapper.Types.{
  NetCommand, list_servers, ServerStatus, Response, Notification, Status, backup_failed,
  restore_failed, status_changed, backup_progress, restore_progress, zip_progress, zip_failed,
  zip_file, backing_up, restoring,
}
use mind_craft.SvManage.Status.{status_eq}
use mind_craft.Mcayb.Embeds.{CreateMessage}
use mind_craft.Mcayb.Chat.{
  Env, Bot, Reply, response, failed, NotifServer, Notifs, send_message, note, edited,
}
use mind_craft.Mcayb.Guild.{
  Event, events, statuses_eq, save_if_new, show_notif, clear_unless, reset_messages, show_notifs,
  say_events, compare_status, see_listing, see_notifs, watch_servers, watch_notifs,
}
use mind_craft.Mcayb.Notices.{
  notif_text, put_server, set_messages, sent_msg, edit_or_send, send_msg, delete_known, delete_msg,
  clear, notif_server, message_in,
}
use mind_craft.Mcayb.Polls.Table.{Evolves-of_same}
use mind_craft.Mcayb.Guild.Safe.{
  IsSteady, IsSteady-refl, IsSteady-trans, IsSteady-of_quiet, IsKnown, backup-IsKnown,
  restore-IsKnown, zip-IsKnown, IsSafe, IsSafe-done, IsSafe-after, when_running-IsSafe,
  then_run-IsSafe, contains_key-insert, set_msgs-IsSafe,
}

module _ {V : Type 0} (env : Env V) where
  put_server-some :
      (group server : Text) (messages : NotifServer) (msgs : Notifs)
      → contains_key group msgs ≡ true
      → is_some (put_server group server messages msgs) ≡ true
  unfolding put_server contains_key
  put_server-some group server messages msgs h = ground (arith, h)

  put_server-keeps :
      (group server : Text) (messages : NotifServer) (msgs after : Notifs) (k : Text)
      → put_server group server messages msgs ≡ some after
      → contains_key k msgs ≡ true
      → contains_key k after ≡ true
  unfolding put_server
  put_server-keeps group server messages msgs after k e h =
      elim (Option-cases (lookup group msgs)) [
        | inl f ↦ absurd (ground (arith, e, f))
        | inr (g, f) ↦
            let same : insert group (insert server messages g) msgs ≡ after =
              ground (arith, e, f) in
            subst (λ m. contains_key k m ≡ true) same (contains_key-insert k group _ msgs h)
      ]

  set_messages-IsSafe :
      (group server : Text) (messages : NotifServer) (b : Bot V)
      → IsKnown group
      → IsSafe b (set_messages env group server messages b)
  unfolding set_messages
  set_messages-IsSafe group server messages b known =
      set_msgs-IsSafe (put_server group server messages b.msgs) b
        (λ g. put_server-some group server messages b.msgs (known b.msgs g))
        (λ after k. put_server-keeps group server messages b.msgs after k)

  sent_msg-IsSafe :
      (group server : Text) (channel : ℕ) (messages : NotifServer) (id : Option ℕ) (b : Bot V)
      → IsKnown group
      → IsSafe b (sent_msg env group server channel messages id b)
  unfolding sent_msg
  sent_msg-IsSafe group server channel messages none b known =
      set_messages-IsSafe group server messages b known
  sent_msg-IsSafe group server channel messages (some id) b known =
      set_messages-IsSafe group server ((channel, id) ∷ messages) b known

  edit_or_send-IsSafe :
      (group server : Text) (channel : ℕ) (msg : CreateMessage) (messages : NotifServer)
      (old : Option ℕ) (b : Bot V)
      → IsKnown group
      → IsSafe b (edit_or_send env group server channel msg messages old b)
  unfolding edit_or_send
  edit_or_send-IsSafe group server channel msg messages (some m) b known =
      let c = (note (edited channel m msg) b).1 in
      IsSafe-after b c _
        (IsSteady-of_quiet b c (ground arith) (ground arith) (Evolves-of_same (ground arith)))
        (set_messages-IsSafe group server messages c known)
  edit_or_send-IsSafe group server channel msg messages none b known =
      let (id, c) = send_message env channel msg b in
      IsSafe-after b c _
        (IsSteady-of_quiet b c (ground arith) (ground arith) (Evolves-of_same (ground arith)))
        (sent_msg-IsSafe group server channel messages id c known)

  notif_server-IsSafe :
      (group server : Text) (b : Bot V)
      → IsKnown group
      → IsSafe b (notif_server group server b.msgs, b)
  unfolding notif_server contains_key
  notif_server-IsSafe group server b known = record {
    steady = IsSteady-refl b;
    runs = λ g. ground (arith, known b.msgs g);
  }

  pub send_msg-IsSafe :
      (group server : Text) (channel : ℕ) (text : Text) (b : Bot V)
      → IsKnown group
      → IsSafe b (send_msg env group server channel text b)
  unfolding send_msg
  send_msg-IsSafe group server channel text b known =
      when_running-IsSafe b b (notif_server group server b.msgs) _
        (notif_server-IsSafe group server b known)
        λ messages.
          edit_or_send-IsSafe group server channel _ messages (message_in channel messages) b known

  delete_known-IsSteady :
      (channel : ℕ) (old : Option ℕ) (b : Bot V) → IsSteady b (delete_known env channel old b).1
  unfolding delete_known
  delete_known-IsSteady channel none b = IsSteady-refl b
  delete_known-IsSteady channel (some m) b =
      IsSteady-of_quiet b _ (ground arith) (ground arith) (Evolves-of_same (ground arith))

  pub delete_msg-IsSafe :
      (group server : Text) (channel : ℕ) (b : Bot V)
      → IsKnown group
      → IsSafe b (delete_msg env group server channel b)
  unfolding delete_msg
  delete_msg-IsSafe group server channel b known =
      when_running-IsSafe b b (notif_server group server b.msgs) _
        (notif_server-IsSafe group server b known)
        λ messages.
          let c = (delete_known env channel (message_in channel messages) b).1 in
          IsSafe-after b c _ (delete_known-IsSteady channel (message_in channel messages) b)
            (set_messages-IsSafe group server _ c known)

  clear-IsSafe :
      (group server : Text) (b : Bot V) → IsKnown group → IsSafe b (clear env group server b)
  unfolding clear
  clear-IsSafe group server b known = set_messages-IsSafe group server [] b known

  show_notif-IsSafe :
      (channel : ℕ) (n : Notification) (b : Bot V) → IsSafe b (show_notif env channel n b)
  unfolding show_notif
  show_notif-IsSafe channel (backup_progress server copied total) b =
      send_msg-IsSafe (codes "restore") server channel _ b restore-IsKnown
  show_notif-IsSafe channel (restore_progress server copied total) b =
      send_msg-IsSafe (codes "backup") server channel _ b backup-IsKnown
  show_notif-IsSafe channel (zip_progress server progress) b =
      send_msg-IsSafe (codes "zip") server channel _ b zip-IsKnown
  show_notif-IsSafe channel (zip_failed server error) b =
      then_run-IsSafe
        (send_msg env (codes "zip") server channel (notif_text env (zip_failed server error))) _ b
        (send_msg-IsSafe (codes "zip") server channel _ b zip-IsKnown)
        λ _ c. clear-IsSafe (codes "zip") server c zip-IsKnown
  show_notif-IsSafe channel (zip_file server url) b =
      then_run-IsSafe
        (send_msg env (codes "zip") server channel (notif_text env (zip_file server url))) _ b
        (send_msg-IsSafe (codes "zip") server channel _ b zip-IsKnown)
        λ _ c. clear-IsSafe (codes "zip") server c zip-IsKnown
  show_notif-IsSafe channel (backup_failed server error) b =
      IsSafe-done b _ tt
        (IsSteady-of_quiet b _ (ground arith) (ground arith) (Evolves-of_same (ground arith)))
  show_notif-IsSafe channel (restore_failed server error) b =
      IsSafe-done b _ tt
        (IsSteady-of_quiet b _ (ground arith) (ground arith) (Evolves-of_same (ground arith)))
  show_notif-IsSafe channel (status_changed server old new) b =
      IsSafe-done b _ tt
        (IsSteady-of_quiet b _ (ground arith) (ground arith) (Evolves-of_same (ground arith)))

  clear_unless-IsSafe :
      (new status : Status) (group server : Text) (b : Bot V)
      → IsKnown group
      → IsSafe b (clear_unless env new status group server b)
  unfolding clear_unless
  clear_unless-IsSafe new status group server b known = elim (Bool-cases (status_eq new status)) [
    | inl e ↦ rw e (IsSafe-done b b tt (IsSteady-refl b))
    | inr e ↦ rw e (clear-IsSafe group server b known)
  ]

  reset_messages-IsSafe : (n : Notification) (b : Bot V) → IsSafe b (reset_messages env n b)
  unfolding reset_messages
  reset_messages-IsSafe (status_changed server _ new) b =
      then_run-IsSafe (clear_unless env new backing_up (codes "backup") server) _ b
        (clear_unless-IsSafe new backing_up (codes "backup") server b backup-IsKnown)
        λ _ c. clear_unless-IsSafe new restoring (codes "restore") server c restore-IsKnown
  reset_messages-IsSafe (backup_progress _ _ _) b = IsSafe-done b b tt (IsSteady-refl b)
  reset_messages-IsSafe _ b = IsSafe-done b b tt (IsSteady-refl b)

  show_notifs-IsSafe :
      (channel : ℕ) (notifs : List Notification) (b : Bot V)
      → IsSafe b (show_notifs env channel notifs b)
  unfolding show_notifs
  show_notifs-IsSafe channel [] b = IsSafe-done b b tt (IsSteady-refl b)
  show_notifs-IsSafe channel (n ∷ notifs) b =
      then_run-IsSafe (show_notif env channel n) _ b (show_notif-IsSafe channel n b) λ _ c.
        then_run-IsSafe (reset_messages env n) _ c (reset_messages-IsSafe n c)
          λ _ d. show_notifs-IsSafe channel notifs d

  say_events-IsSteady :
      (channel : ℕ) (es : List Event) (b : Bot V) → IsSteady b (say_events env channel es b).1
  unfolding say_events
  say_events-IsSteady channel [] b = IsSteady-refl b
  say_events-IsSteady channel (e ∷ es) b =
      IsSteady-trans b _ _
        (IsSteady-of_quiet b _ (ground arith) (ground arith) (Evolves-of_same (ground arith)))
        (say_events-IsSteady channel es _)

  save_if_new-IsSteady :
      (same : Bool) (new_status : List ServerStatus) (b : Bot V)
      → IsSteady b (save_if_new env same new_status b).1
  unfolding save_if_new
  save_if_new-IsSteady true new_status b = IsSteady-refl b
  save_if_new-IsSteady false new_status b =
      IsSteady-of_quiet b _ (ground arith) (ground arith) (Evolves-of_same (ground arith))

  see_listing-IsSteady :
      (channel : ℕ) (last_status : List ServerStatus) (r : Reply V) (b : Bot V)
      → IsSteady b (see_listing env channel last_status r b).1
  unfolding see_listing compare_status
  see_listing-IsSteady channel last_status (response (Response.list new_status)) b =
      IsSteady-trans b _ _ (save_if_new-IsSteady (statuses_eq new_status last_status) new_status b)
        (say_events-IsSteady channel (events last_status new_status) _)
  see_listing-IsSteady channel last_status (response _) b = IsSteady-refl b
  see_listing-IsSteady channel last_status (failed _) b = IsSteady-refl b

  see_notifs-IsSafe :
      (channel : ℕ) (r : Reply V) (b : Bot V) → IsSafe b (see_notifs env channel r b)
  unfolding see_notifs
  see_notifs-IsSafe channel (response (Response.notifications notifs)) b =
      show_notifs-IsSafe channel notifs b
  see_notifs-IsSafe channel (response _) b = IsSafe-done b b tt (IsSteady-refl b)
  see_notifs-IsSafe channel (failed _) b = IsSafe-done b b tt (IsSteady-refl b)

  pub watch_servers-IsSteady :
      (channel : ℕ) (b : Bot V) → IsSteady b (watch_servers env channel b).1
  unfolding watch_servers
  watch_servers-IsSteady channel b =
      IsSteady-trans b _ _
        (IsSteady-of_quiet b _ (ground arith) (ground arith) (Evolves-of_same (ground arith)))
        (see_listing-IsSteady channel b.last_status (env.ask b.log list_servers) _)

  pub watch_notifs-IsSafe : (channel : ℕ) (b : Bot V) → IsSafe b (watch_notifs env channel b)
  unfolding watch_notifs
  watch_notifs-IsSafe channel b =
      IsSafe-after b _ _
        (IsSteady-of_quiet b _ (ground arith) (ground arith) (Evolves-of_same (ground arith)))
        (see_notifs-IsSafe channel (env.ask b.log NetCommand.notifications) _)
