-- ===== src/Mcayb/Polls/Create/Evolution.antt =====
-- mcayb/src/bot.rs: `create_poll` as a change of the table of polls.
use mind_craft.Base.{◌≡◌}
use mind_craft.Mcayb.Chat.{Env, Bot, PollKey, PollKind}
use mind_craft.Mcayb.Polls.Table.{Evolves, opens, key_of, Evolves-of_same}
use mind_craft.Mcayb.Polls.Create.{create_poll}
use mind_craft.Mcayb.Polls.Create.Adds.{Adds, same, added, create_poll-Adds}

module _ {V : Type 0} (env : Env V) (key : PollKey) (kind : PollKind V) where
  Adds-Evolves :
      (b after : Bot V)
      → key ≡ key_of kind
      → Adds env key kind b after
      → Evolves b.polls after.polls
  Adds-Evolves b after own (same e) = Evolves-of_same e
  Adds-Evolves b after own (added id free e) = rw e (opens key _ b.polls free own)

  pub create_poll-Evolves :
      (b : Bot V) → key ≡ key_of kind → Evolves b.polls (create_poll env key kind b).1.polls
  create_poll-Evolves b own = Adds-Evolves b _ own (create_poll-Adds env key kind b)
