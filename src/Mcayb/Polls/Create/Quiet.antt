-- ===== src/Mcayb/Polls/Create/Quiet.antt =====
-- mcayb/src/bot.rs: what `create_poll` leaves alone of the state of a guild.
use mind_craft.Base.{ℕ, Text, Option, none, some, ◌≡◌, ◌∙◌, arith}
use mind_craft.Yapper.Types.{ModInfo}
use mind_craft.Mcayb.Embeds.{CreateMessage}
use mind_craft.Mcayb.Chat.{
  Env, Bot, PollKey, PollKind, install, remove, restore, OngoingPoll, Fetched, poll_at, drop_file,
  say, get_message,
}
use mind_craft.Mcayb.Polls.{install_file}
use mind_craft.Mcayb.Polls.Create.{
  update_instead, error_msg, precheck, show_mod, store_poll, add_poll, give_up, settle, ask_guild,
  after_precheck, open_poll, decline_poll, after_fetch, after_lookup, create_poll,
}

-- The messages that are edited and the listing that is kept are as they were.
pub record IsQuiet {V : Type 0} (b after : Bot V) : Type 0 where
  pub last_status : after.last_status ≡ b.last_status
  pub msgs : after.msgs ≡ b.msgs

pub IsQuiet-trans : {V : Type 0} (b c d : Bot V) → IsQuiet b c → IsQuiet c d → IsQuiet b d
IsQuiet-trans b c d p q = record {
  last_status = q.last_status ∙ p.last_status;
  msgs = q.msgs ∙ p.msgs;
}

module _ {V : Type 0} (env : Env V) where
  drop_file-IsQuiet : (file : Option Text) (b : Bot V) → IsQuiet b (drop_file file b).1
  unfolding drop_file
  drop_file-IsQuiet none b = ground arith
  drop_file-IsQuiet (some path) b = ground arith

  update_instead-IsQuiet :
      (server : Text) (info : ModInfo V) (b : Bot V)
      → IsQuiet b (update_instead env server info b).1
  unfolding update_instead
  update_instead-IsQuiet server info b = ground arith

  precheck-IsQuiet : (kind : PollKind V) (b : Bot V) → IsQuiet b (precheck env kind b).1
  unfolding precheck error_msg
  precheck-IsQuiet (install server info) b = ground arith
  precheck-IsQuiet (remove _ _) b = ground arith
  precheck-IsQuiet (restore _) b = ground arith

  show_mod-IsQuiet :
      (channel : ℕ) (kind : PollKind V) (b : Bot V) → IsQuiet b (show_mod env channel kind b).1
  unfolding show_mod
  show_mod-IsQuiet channel (install _ info) b = ground arith
  show_mod-IsQuiet channel (remove _ info) b = ground arith
  show_mod-IsQuiet channel (restore _) b = ground arith

  store_poll-IsQuiet :
      (channel : ℕ) (key : PollKey) (kind : PollKind V) (b : Bot V)
      → IsQuiet b (store_poll env channel key kind b).1
  unfolding store_poll add_poll
  store_poll-IsQuiet channel key kind b = ground arith

  give_up-IsQuiet :
      (channel : ℕ) (kind : PollKind V) (msg : CreateMessage) (b : Bot V)
      → IsQuiet b (give_up env channel kind msg b).1
  unfolding give_up
  give_up-IsQuiet channel kind msg b =
      let s = drop_file-IsQuiet (install_file kind) (say env channel msg b).1 in ground (arith, s)

  settle-IsQuiet :
      (channel : ℕ) (kind : PollKind V) (r : Option Text) (b : Bot V)
      → IsQuiet b (settle env channel kind r b).1
  unfolding settle
  settle-IsQuiet channel kind none b = ground arith
  settle-IsQuiet channel kind (some err) b = give_up-IsQuiet channel kind _ b

  after_precheck-IsQuiet :
      (channel : ℕ) (key : PollKey) (kind : PollKind V) (stopped : Option CreateMessage) (b : Bot V)
      → IsQuiet b (after_precheck env channel key kind stopped b).1
  unfolding after_precheck ask_guild
  after_precheck-IsQuiet channel key kind (some msg) b = give_up-IsQuiet channel kind msg b
  after_precheck-IsQuiet channel key kind none b =
      let b' = (show_mod env channel kind b).1 in
      let (r, c) = store_poll env channel key kind b' in
      IsQuiet-trans b c _
        (IsQuiet-trans b b' c (show_mod-IsQuiet channel kind b)
          (store_poll-IsQuiet channel key kind b'))
        (settle-IsQuiet channel kind r c)

  open_poll-IsQuiet :
      (channel : ℕ) (key : PollKey) (kind : PollKind V) (b : Bot V)
      → IsQuiet b (open_poll env channel key kind b).1
  unfolding open_poll
  open_poll-IsQuiet channel key kind b =
      let (stopped, b') = precheck env kind b in
      IsQuiet-trans b b' _ (precheck-IsQuiet kind b)
        (after_precheck-IsQuiet channel key kind stopped b')

  after_fetch-IsQuiet :
      (channel : ℕ) (key : PollKey) (kind : PollKind V) (poll : OngoingPoll V)
      (found : Option Fetched) (b : Bot V)
      → IsQuiet b (after_fetch env channel key kind poll found b).1
  unfolding after_fetch decline_poll
  after_fetch-IsQuiet channel key kind poll none b = open_poll-IsQuiet channel key kind b
  after_fetch-IsQuiet channel key kind poll (some m) b = ground arith

  after_lookup-IsQuiet :
      (channel : ℕ) (key : PollKey) (kind : PollKind V) (existing : Option (OngoingPoll V))
      (b : Bot V)
      → IsQuiet b (after_lookup env channel key kind existing b).1
  unfolding after_lookup get_message
  after_lookup-IsQuiet channel key kind none b = open_poll-IsQuiet channel key kind b
  after_lookup-IsQuiet channel key kind (some poll) b =
      let (found, b') = get_message env poll.channel poll.poll b in
      IsQuiet-trans b b' _ (ground arith) (after_fetch-IsQuiet channel key kind poll found b')

  pub create_poll-IsQuiet :
      (key : PollKey) (kind : PollKind V) (b : Bot V) → IsQuiet b (create_poll env key kind b).1
  unfolding create_poll
  create_poll-IsQuiet key kind b =
      after_lookup-IsQuiet b.notifications key kind (poll_at key b.polls) b
