-- ===== src/Mcayb/Handler/Keeps.antt =====
-- mcayb/src/bot.rs: what the handler does to the table of polls.
use mind_craft.Base.{
  ℕ, Text, Bool, true, false, Bool-cases, Option, none, some, List, [], ◌∷◌, ◌≡◌, refl, ap, ◌==◌,
  inl, inr, arith,
}
use mind_craft.Yapper.Types.{Status}
use mind_craft.Mcayb.Menus.{MenuHistory}
use mind_craft.Mcayb.Chat.{Env, Bot, Act, Fetched, OngoingPoll, Polls, get_message}
use mind_craft.Mcayb.Polls.{poll_deleted}
use mind_craft.Mcayb.Polls.Table.{IsTable, Evolves, stays, chains, Evolves-of_same, Evolves-IsTable}
use mind_craft.Mcayb.Polls.Check.Forgets.{check_poll-Evolves, poll_deleted-Evolves}
use mind_craft.Mcayb.Presses.Evolution.{press-Evolves}
use mind_craft.Mcayb.Forms.{submit}
use mind_craft.Mcayb.Forms.Guards.{untouched, one_command, submit-Outcome}
use mind_craft.Mcayb.Slash.{
  AllCommands, dashboard, servers, mods, status, start, stop, reboot, command, update_me, run,
}
use mind_craft.Mcayb.Mods.{ModInstalling, Slots}
use mind_craft.Mcayb.Mods.Rounds.{guild_loop-IsSafe}
use mind_craft.Mcayb.Handler.{
  Url, NewMessage, Interaction, completed, typed, pressed, sent_in, Incoming, started,
  message_deleted, voted, posted, interacted, looped, in_guild, message_delete, poll_vote_add,
  check_ended, when_result, detect_end, mentioned, answer, check_unless, new_message, interact,
  interaction_create, sweep_polls, init, handle, handle_all,
}

module _ {V : Type 0} (env : Env V) (show_status : Status → Text) (show_number encode_id : ℕ → Text)
    (parse_url : Text → Option Url) (guild : ℕ) where
  in_guild-Evolves :
      (id : Option ℕ) (act : Act V (Unit {0})) (b : Bot V)
      → Evolves b.polls (act b).1.polls
      → Evolves b.polls
          (in_guild env show_status show_number encode_id parse_url guild id act b).1.polls
  unfolding in_guild
  in_guild-Evolves none act b h = stays b.polls
  in_guild-Evolves (some id) act b h = elim (Bool-cases (id == guild)) [
    | inl e ↦ rw e h
    | inr e ↦ rw e (stays b.polls)
  ]

  check_ended-Evolves :
      (channel : ℕ) (found : Option Fetched) (b : Bot V)
      → Evolves b.polls
          (check_ended env show_status show_number encode_id parse_url guild channel found
            b).1.polls
  unfolding check_ended
  check_ended-Evolves channel none b = stays b.polls
  check_ended-Evolves channel (some m) b = check_poll-Evolves env show_number channel m.id b

  when_result-Evolves :
      (result : Bool) (reference : Option (ℕ × Option ℕ)) (b : Bot V)
      → Evolves b.polls
          (when_result env show_status show_number encode_id parse_url guild result reference
            b).1.polls
  unfolding when_result get_message
  when_result-Evolves true (some (channel, some id)) b =
      let (found, c) = get_message env channel id b in check_ended-Evolves channel found c
  when_result-Evolves true (some (_, none)) b = stays b.polls
  when_result-Evolves true none b = stays b.polls
  when_result-Evolves false _ b = stays b.polls

  mentioned-polls :
      (draw : Option ℕ) (m : NewMessage) (b : Bot V)
      → (mentioned env show_status show_number encode_id parse_url guild draw m b).1.polls ≡ b.polls
  unfolding mentioned
  mentioned-polls draw m b = ground arith

  detect_end-Evolves :
      (m : NewMessage) (b : Bot V)
      → Evolves b.polls
          (detect_end env show_status show_number encode_id parse_url guild m b).1.polls
  unfolding detect_end
  detect_end-Evolves m b = when_result-Evolves _ m.reference b

  answer-Evolves :
      (draw : Option ℕ) (m : NewMessage) (b : Bot V)
      → Evolves b.polls
          (answer env show_status show_number encode_id parse_url guild draw m b).1.polls
  unfolding answer
  answer-Evolves draw m b = Evolves-of_same (ground (arith, mentioned-polls draw m b))

  check_unless-Evolves :
      (gone : Bool) (poll : OngoingPoll V) (b : Bot V)
      → Evolves b.polls
          (check_unless env show_status show_number encode_id parse_url guild gone poll b).1.polls
  unfolding check_unless
  check_unless-Evolves true poll b = stays b.polls
  check_unless-Evolves false poll b = check_poll-Evolves env show_number poll.channel poll.poll b

  run-polls :
      (c : AllCommands) (channel : ℕ) (b : Bot V)
      → (run env show_status c channel b).1.polls ≡ b.polls
  unfolding run
  run-polls dashboard channel b = refl
  run-polls servers channel b = refl
  run-polls (mods server) channel b = refl
  run-polls (status server) channel b = refl
  run-polls (start server) channel b = refl
  run-polls (stop server) channel b = refl
  run-polls (reboot server) channel b = refl
  run-polls (command server cmd) channel b = refl
  run-polls update_me channel b = ground arith

  submit-polls :
      (h : MenuHistory) (inputs : List Text) (b : Bot V) → (submit env h inputs b).1.polls ≡ b.polls
  submit-polls h inputs b = elim (submit-Outcome env h inputs b) [
    | untouched e ↦ ap (λ c. c.polls) e
    | one_command cmd p e ↦ ap (λ c. c.polls) e
  ]

  interact-Evolves :
      (i : Interaction) (b : Bot V)
      → Evolves b.polls (interact env show_status show_number encode_id parse_url guild i b).1.polls
  unfolding interact
  interact-Evolves completed b = stays b.polls
  interact-Evolves (typed cmd channel) b = Evolves-of_same (run-polls cmd channel b)
  interact-Evolves (pressed h comp) b = press-Evolves env b h comp
  interact-Evolves (sent_in h inputs) b = Evolves-of_same (submit-polls h inputs b)

  interaction_create-Evolves :
      (id : Option ℕ) (i : Interaction) (b : Bot V)
      → Evolves b.polls
          (interaction_create env show_status show_number encode_id parse_url guild id i b).1.polls
  unfolding interaction_create
  interaction_create-Evolves none i b = stays b.polls
  interaction_create-Evolves (some id) i b = elim (Bool-cases (id == guild)) [
    | inl e ↦ rw e (interact-Evolves i b)
    | inr e ↦ rw e (stays b.polls)
  ]

  new_message-Evolves :
      (draw : Option ℕ) (m : NewMessage) (b : Bot V)
      → Evolves b.polls
          (new_message env show_status show_number encode_id parse_url guild draw m b).1.polls
  unfolding new_message
  new_message-Evolves draw m b =
      in_guild-Evolves m.guild _ b (chains (detect_end-Evolves m b) (answer-Evolves draw m _))

  sweep_polls-Evolves :
      (polls : Polls V) (b : Bot V)
      → Evolves b.polls
          (sweep_polls env show_status show_number encode_id parse_url guild polls b).1.polls
  unfolding sweep_polls
  sweep_polls-Evolves [] b = stays b.polls
  sweep_polls-Evolves ((_, poll) ∷ polls) b =
      let (gone, c) = poll_deleted env poll.channel poll.poll b in
      chains
        (chains (poll_deleted-Evolves env poll.channel poll.poll b)
          (check_unless-Evolves gone poll c))
        (sweep_polls-Evolves polls _)

  module _ {S : Type 0} (slots : Slots S (ModInstalling V)) where
    handle-Evolves :
        (e : Incoming S) (b : Bot V)
        → Evolves b.polls
            (handle env show_status show_number encode_id parse_url guild slots e b).1.polls
    unfolding handle init message_delete poll_vote_add
    handle-Evolves started b = sweep_polls-Evolves b.polls b
    handle-Evolves (message_deleted guild_id channel id) b =
        in_guild-Evolves guild_id _ b (poll_deleted-Evolves env channel id b)
    handle-Evolves (voted guild_id channel id) b =
        in_guild-Evolves guild_id _ b (check_poll-Evolves env show_number channel id b)
    handle-Evolves (posted draw m) b = new_message-Evolves draw m b
    handle-Evolves (interacted guild_id i) b = interaction_create-Evolves guild_id i b
    handle-Evolves (looped installing) b = (guild_loop-IsSafe env slots installing b).steady.polls

    -- Whatever comes to the bot, in any order, and whatever the daemon and Discord answer: if no key is
    -- twice in the table of polls, and every poll under the key of its server and its mod, it stays so.
    pub handle_all-IsTable :
        (es : List (Incoming S)) (b : Bot V)
        → IsTable b.polls
        → IsTable
            (handle_all env show_status show_number encode_id parse_url guild slots es b).1.polls
    unfolding handle_all
    handle_all-IsTable [] b t = t
    handle_all-IsTable (e ∷ es) b t =
        handle_all-IsTable es
          (handle env show_status show_number encode_id parse_url guild slots e b).1
          (Evolves-IsTable (handle-Evolves e b) t)
