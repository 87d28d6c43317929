-- ===== src/Mcayb/Polls/Create/Files.antt =====
-- mcayb/src/bot.rs: what becomes of the downloaded file of a mod in `create_poll`.
use mind_craft.Base.{
  ℕ, Text, Option, none, some, Option-cases, List, ◌∷◌, ◌≡◌, refl, subst, sym, ◌⊎◌, inl, inr, arith,
}
use mind_craft.Yapper.Types.{ModInfo}
use mind_craft.Mcayb.Embeds.{CreateMessage}
use mind_craft.Mcayb.Chat.{
  Env, Bot, Effect, removed_file, PollKey, install, OngoingPoll, poll_at, say, send_message,
}
use mind_craft.Mcayb.Polls.Keys.{key_eq_refl}
use mind_craft.Mcayb.Polls.Create.{
  poll_message, give_up, settle, store_poll, add_poll, show_mod, ask_guild, precheck,
  after_precheck, open_poll, create_poll, after_lookup,
}

module _ {V : Type 0} (key : PollKey) (server : Text) (info : ModInfo V) where
  -- The file is removed by the last thing that is done, or belongs to the poll under the key.
  pub IsSettled : Bot V → Type 0
  IsSettled b =
      ((before : List (Effect V)) × (b.log ≡ removed_file info.path ∷ before))
      ⊎ ((poll : OngoingPoll V) × (poll_at key b.polls ≡ some poll)
          × (poll.kind ≡ install server info))

module _ {V : Type 0} (env : Env V) (key : PollKey) (server : Text) (info : ModInfo V) where
  give_up-IsSettled :
      (channel : ℕ) (msg : CreateMessage) (b : Bot V)
      → IsSettled key server info (give_up env channel (install server info) msg b).1
  unfolding give_up IsSettled
  give_up-IsSettled channel msg b = inl ((say env channel msg b).1.log, refl)

  store_poll-stored :
      (channel : ℕ) (b : Bot V)
      → (store_poll env channel key (install server info) b).0 ≡ none
      → (poll : OngoingPoll V) × (poll_at key
            (store_poll env channel key (install server info) b).1.polls
          ≡ some poll)
        × (poll.kind ≡ install server info)
  unfolding store_poll add_poll
  store_poll-stored channel b e =
      elim (Option-cases (send_message env channel (poll_message (install server info)) b).0) [
        | inl f ↦ absurd (ground (arith, e, f))
        | inr (id, f) ↦ elim (Option-cases (poll_at key b.polls)) [
          | inl free ↦ (
            record { channel = channel; poll = id; kind = install server info },
            unfold poll_at in ground (arith, e, f, free, key_eq_refl key),
            refl,
          )
          | inr (old, taken) ↦ absurd (ground (arith, e, f, taken))
        ]
      ]

  settle-IsSettled :
      (channel : ℕ) (r : Option Text) (b : Bot V)
      → (r ≡ none
          → (poll : OngoingPoll V) × (poll_at key b.polls ≡ some poll)
            × (poll.kind ≡ install server info))
      → IsSettled key server info (settle env channel (install server info) r b).1
  unfolding settle IsSettled
  settle-IsSettled channel none b h = inr (h refl)
  settle-IsSettled channel (some err) b h = give_up-IsSettled channel _ b

  after_precheck-IsSettled :
      (channel : ℕ) (stopped : Option CreateMessage) (b : Bot V)
      → IsSettled key server info (after_precheck env channel key (install server info) stopped b).1
  unfolding after_precheck ask_guild
  after_precheck-IsSettled channel (some msg) b = give_up-IsSettled channel msg b
  after_precheck-IsSettled channel none b =
      let b' = (show_mod env channel (install server info) b).1 in
      let (r, after) = store_poll env channel key (install server info) b' in
      settle-IsSettled channel r after (λ e. store_poll-stored channel b' e)

  -- If there is no poll for the key, at the end of `create_poll` the file of the mod has just been
  -- removed, or a poll to install this mod is in the table.
  pub create_poll-IsSettled :
      (b : Bot V)
      → poll_at key b.polls ≡ none
      → IsSettled key server info (create_poll env key (install server info) b).1
  unfolding create_poll
  create_poll-IsSettled b e =
      let (stopped, b') = precheck env (install server info) b in
      let settled = after_precheck-IsSettled b.notifications stopped b' in
      subst
        (λ o.
          IsSettled key server info
            (after_lookup env b.notifications key (install server info) o b).1)
        (sym e) (unfold after_lookup open_poll in settled)
