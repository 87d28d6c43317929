-- ===== src/Mcayb/Polls/Create/Adds.antt =====
-- mcayb/src/bot.rs: what `create_poll` does to the table of polls.
use mind_craft.Base.{
  ℕ, Text, Option, none, some, Option-cases, ◌∷◌, ◌≡◌, refl, sym, ◌∙◌, inl, inr, arith,
}
use mind_craft.Yapper.Types.{ModInfo}
use mind_craft.Mcayb.Chat.{
  Env, Bot, PollKey, PollKind, install, remove, restore, OngoingPoll, poll_at, Fetched,
  send_message, say, get_message, drop_file,
}
use mind_craft.Mcayb.Embeds.{CreateMessage}
use mind_craft.Mcayb.Polls.{install_file}
use mind_craft.Mcayb.Polls.Create.{
  poll_message, update_instead, error_msg, precheck, show_mod, store_poll, open_poll, decline_poll,
  create_poll, after_precheck, after_fetch, after_lookup, give_up, settle, ask_guild,
}

-- The polls of a guild and the channel that it is told things in are as they were.
pub record IsSame {V : Type 0} (b after : Bot V) : Type 0 where
  pub polls : after.polls ≡ b.polls
  pub notifications : after.notifications ≡ b.notifications

module _ {V : Type 0} (env : Env V) where
  drop_file-IsSame : (file : Option Text) (b : Bot V) → IsSame b (drop_file file b).1
  unfolding drop_file
  drop_file-IsSame none b = ground arith
  drop_file-IsSame (some path) b = ground arith

  update_instead-IsSame :
      (server : Text) (info : ModInfo V) (b : Bot V) → IsSame b (update_instead env server info b).1
  unfolding update_instead
  update_instead-IsSame server info b = ground arith

  error_msg-IsSame :
      (server : Text) (info : ModInfo V) (b : Bot V) → IsSame b (error_msg env server info b).1
  unfolding error_msg
  error_msg-IsSame server info b = ground arith

  precheck-IsSame : (kind : PollKind V) (b : Bot V) → IsSame b (precheck env kind b).1
  unfolding precheck
  precheck-IsSame (install server info) b = error_msg-IsSame server info b
  precheck-IsSame (remove _ _) b = ground arith
  precheck-IsSame (restore _) b = ground arith

  show_mod-IsSame :
      (channel : ℕ) (kind : PollKind V) (b : Bot V) → IsSame b (show_mod env channel kind b).1
  unfolding show_mod
  show_mod-IsSame channel (install _ info) b = ground arith
  show_mod-IsSame channel (remove _ info) b = ground arith
  show_mod-IsSame channel (restore _) b = ground arith

  -- The table after a poll was stored or not.
  pub data Adds (key : PollKey) (kind : PollKind V) (b after : Bot V) : Type 0 where
    same : after.polls ≡ b.polls → Adds key kind b after
    added :
        (id : ℕ)
        → poll_at key b.polls ≡ none
        → after.polls
          ≡ (key, record { channel = b.notifications; poll = id; kind = kind }) ∷ b.polls
        → Adds key kind b after

  Adds-after :
      (key : PollKey) (kind : PollKind V) (b b' after after' : Bot V)
      → IsSame b b'
      → IsSame after after'
      → Adds key kind b' after
      → Adds key kind b after'
  Adds-after key kind b b' after after' s t (same e) = same (t.polls ∙ e ∙ s.polls)
  Adds-after key kind b b' after after' s t (added id e f) =
      added id (ground (arith, e, s.polls)) (ground (arith, f, s.polls, s.notifications, t.polls))

  store_poll-Adds :
      (key : PollKey) (kind : PollKind V) (channel : ℕ) (b : Bot V)
      → channel ≡ b.notifications
      → Adds key kind b (store_poll env channel key kind b).1
  unfolding store_poll
  store_poll-Adds key kind channel b c =
      elim (Option-cases (send_message env channel (poll_message kind) b).0) [
        | inl e ↦ same (ground (arith, e))
        | inr (id, e) ↦ elim (Option-cases (poll_at key b.polls)) [
          | inl free ↦ added id free (ground (arith, e, free, c))
          | inr (old, taken) ↦ same (ground (arith, e, taken))
        ]
      ]

  give_up-IsSame :
      (channel : ℕ) (kind : PollKind V) (msg : CreateMessage) (b : Bot V)
      → IsSame b (give_up env channel kind msg b).1
  unfolding give_up
  give_up-IsSame channel kind msg b =
      let s = drop_file-IsSame (install_file kind) (say env channel msg b).1 in ground (arith, s)

  settle-IsSame :
      (channel : ℕ) (kind : PollKind V) (r : Option Text) (b : Bot V)
      → IsSame b (settle env channel kind r b).1
  unfolding settle
  settle-IsSame channel kind none b = ground arith
  settle-IsSame channel kind (some err) b = give_up-IsSame channel kind _ b

  ask_guild-Adds :
      (key : PollKey) (kind : PollKind V) (channel : ℕ) (b : Bot V)
      → channel ≡ b.notifications
      → Adds key kind b (ask_guild env channel key kind b).1
  unfolding ask_guild
  ask_guild-Adds key kind channel b c =
      let shown = show_mod-IsSame channel kind b in
      let b' = (show_mod env channel kind b).1 in
      let stored = store_poll env channel key kind b' in
      Adds-after key kind b b' stored.1 _ shown (settle-IsSame channel kind stored.0 stored.1)
        (store_poll-Adds key kind channel b' (c ∙ sym shown.notifications))

  after_precheck-Adds :
      (key : PollKey) (kind : PollKind V) (channel : ℕ) (stopped : Option CreateMessage) (b : Bot V)
      → channel ≡ b.notifications
      → Adds key kind b (after_precheck env channel key kind stopped b).1
  unfolding after_precheck
  after_precheck-Adds key kind channel none b c = ask_guild-Adds key kind channel b c
  after_precheck-Adds key kind channel (some msg) b c =
      same (give_up-IsSame channel kind msg b).polls

  open_poll-Adds :
      (key : PollKey) (kind : PollKind V) (channel : ℕ) (b : Bot V)
      → channel ≡ b.notifications
      → Adds key kind b (open_poll env channel key kind b).1
  unfolding open_poll
  open_poll-Adds key kind channel b c =
      let (stopped, b') = precheck env kind b in
      let s = precheck-IsSame kind b in
      Adds-after key kind b b' _ _ s (record { polls = refl; notifications = refl })
        (after_precheck-Adds key kind channel stopped b' (c ∙ sym s.notifications))

  after_fetch-Adds :
      (key : PollKey) (kind : PollKind V) (channel : ℕ) (poll : OngoingPoll V)
      (found : Option Fetched) (b : Bot V)
      → channel ≡ b.notifications
      → Adds key kind b (after_fetch env channel key kind poll found b).1
  unfolding after_fetch decline_poll
  after_fetch-Adds key kind channel poll none b c = open_poll-Adds key kind channel b c
  after_fetch-Adds key kind channel poll (some m) b c = same refl

  after_lookup-Adds :
      (key : PollKey) (kind : PollKind V) (channel : ℕ) (existing : Option (OngoingPoll V))
      (b : Bot V)
      → channel ≡ b.notifications
      → Adds key kind b (after_lookup env channel key kind existing b).1
  unfolding after_lookup get_message
  after_lookup-Adds key kind channel none b c = open_poll-Adds key kind channel b c
  after_lookup-Adds key kind channel (some poll) b c =
      let (found, b') = get_message env poll.channel poll.poll b in
      let s : IsSame b b' = ground arith in
      Adds-after key kind b b' _ _ s (record { polls = refl; notifications = refl })
        (after_fetch-Adds key kind channel poll found b' c)

  -- Whatever the daemon and Discord answer, `create_poll` leaves the polls alone, or adds one poll, of
  -- the given kind in the channel for notifications, under a key that had none.
  pub create_poll-Adds :
      (key : PollKey) (kind : PollKind V) (b : Bot V)
      → Adds key kind b (create_poll env key kind b).1
  unfolding create_poll
  create_poll-Adds key kind b =
      after_lookup-Adds key kind b.notifications (poll_at key b.polls) b refl
