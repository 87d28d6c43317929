-- ===== src/Mcayb/Polls/Table.antt =====
-- mcayb/src/conf.rs: the table of polls as it should be, and the ways in which the bot changes it.
use mind_craft.Base.{Bool-cases, none, [], ◌∷◌, ◌≡◌, inl, inr, arith}
use mind_craft.Mcayb.Chat.{
  PollKey, mod_poll, restore_poll, PollKind, install, remove, restore, OngoingPoll, Polls, key_eq,
  poll_at, remove_poll,
}
use mind_craft.Mcayb.Polls.Keys.{poll_at-remove_poll}

module _ {V : Type 0} where
  -- The key that a poll belongs under.
  unfoldable pub key_of : PollKind V → PollKey
  key_of (install server info) = mod_poll server info.mod_id
  key_of (remove server info) = mod_poll server info.mod_id
  key_of (restore server) = restore_poll server

  -- No key twice, and every poll under the key of its server and its mod.
  unfoldable pub IsTable : Polls V → Type 0
  IsTable [] = Unit {0}
  IsTable ((k, p) ∷ polls) = (poll_at k polls ≡ none) × (k ≡ key_of p.kind) × IsTable polls

  -- Polls are opened under a free key of theirs, and removed.
  pub data Evolves : Polls V → Polls V → Type 0 where
    stays : (polls : Polls V) → Evolves polls polls
    opens :
        (key : PollKey) (poll : OngoingPoll V) (polls : Polls V)
        → poll_at key polls ≡ none
        → key ≡ key_of poll.kind
        → Evolves polls ((key, poll) ∷ polls)
    closes : (key : PollKey) (polls : Polls V) → Evolves polls (remove_poll key polls)
    chains :
        {polls polls' polls'' : Polls V}
        → Evolves polls polls'
        → Evolves polls' polls''
        → Evolves polls polls''

  remove_poll-IsTable :
      (k : PollKey) (polls : Polls V) → IsTable polls → IsTable (remove_poll k polls)
  unfolding remove_poll IsTable
  remove_poll-IsTable k [] t = tt
  remove_poll-IsTable k ((j, p) ∷ polls) (free, own, t) = elim (Bool-cases (key_eq j k)) [
    | inl e ↦ rw e (remove_poll-IsTable k polls t)
    | inr e ↦
        rw e
          (ground (arith, poll_at-remove_poll k j polls, free), own, remove_poll-IsTable k polls t)
  ]

  pub Evolves-IsTable :
      {polls after : Polls V} → Evolves polls after → IsTable polls → IsTable after
  unfolding IsTable
  Evolves-IsTable (stays polls) t = t
  Evolves-IsTable (opens key poll polls free own) t = (free, own, t)
  Evolves-IsTable (closes key polls) t = remove_poll-IsTable key polls t
  Evolves-IsTable (chains e f) t = Evolves-IsTable f (Evolves-IsTable e t)

  pub Evolves-of_same : {polls after : Polls V} → after ≡ polls → Evolves polls after
  Evolves-of_same {polls} e = rw e (stays polls)
