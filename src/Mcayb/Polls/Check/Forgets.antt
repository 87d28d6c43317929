-- ===== src/Mcayb/Polls/Check/Forgets.antt =====
-- mcayb/src/bot.rs: what `poll_deleted` and `check_poll` do to the table of polls.
use mind_craft.Base.{
  ℕ, Text, true, Bool-cases, Option, none, some, Option-cases, List, [], ◌∷◌, ◌≡◌, refl, ◌∙◌, ap,
  inl, inr, arith, ltb, leb,
}
use mind_craft.Yapper.Types.{ModInfo, server_command, ServerCommand}
use mind_craft.Mcayb.Embeds.{CreateMessage}
use mind_craft.Mcayb.Chat.{
  count_people, Env, Bot, PollKey, PollKind, install, remove, restore, OngoingPoll, Fetched,
  PollData, PollResults, poll_at, remove_poll, drop_file, say, get_message, send_command,
}
use mind_craft.Mcayb.Polls.{find_poll, install_file, reboot_server, cancel_poll, poll_deleted}
use mind_craft.Mcayb.Polls.Keys.{key_eq_refl, poll_at-remove_poll}
use mind_craft.Mcayb.Polls.Table.{Evolves, stays, closes, chains}
use mind_craft.Mcayb.Polls.Check.{
  sum_counts, count_of, min_count, apply_install, apply_remove, apply_poll, decide, funny_message,
  evaluate, finish_poll, tally_poll, check_results, check_data, check_message, check_found,
  check_poll,
}

module _ {V : Type 0} (env : Env V) where
  drop_file-polls : (file : Option Text) (b : Bot V) → (drop_file file b).1.polls ≡ b.polls
  unfolding drop_file
  drop_file-polls none b = refl
  drop_file-polls (some path) b = ground arith

  say_drop-polls :
      (channel : ℕ) (msg : CreateMessage) (file : Option Text) (b : Bot V)
      → (drop_file file (say env channel msg b).1).1.polls ≡ b.polls
  unfolding say
  say_drop-polls channel msg file b = drop_file-polls file _ ∙ ground arith

  reboot_server-polls : (server : Text) (b : Bot V) → (reboot_server env server b).1.polls ≡ b.polls
  unfolding reboot_server
  reboot_server-polls server b = ground arith

  cancel_poll-polls :
      (channel : ℕ) (key : PollKey) (poll : OngoingPoll V) (b : Bot V)
      → (cancel_poll env channel key poll b).1.polls ≡ remove_poll key b.polls
  unfolding cancel_poll
  cancel_poll-polls channel key poll b = drop_file-polls (install_file poll.kind) _ ∙ ground arith

  module _ (show_number : ℕ → Text) where
    apply_install-polls :
        (channel : ℕ) (server : Text) (info : ModInfo V) (b : Bot V)
        → (apply_install env show_number channel server info b).1.polls ≡ b.polls
    unfolding apply_install
    apply_install-polls channel server info b = ground (
      arith,
      reboot_server-polls server
          (send_command env
            (server_command server (ServerCommand.install_mod info.path info.filename)) b).1,
    )

    apply_remove-polls :
        (channel : ℕ) (server : Text) (info : ModInfo V) (b : Bot V)
        → (apply_remove env show_number channel server info b).1.polls ≡ b.polls
    unfolding apply_remove
    apply_remove-polls channel server info b = ground (
      arith,
      reboot_server-polls server
          (send_command env (server_command server (ServerCommand.uninstall_mod info.mod_id)) b).1,
    )

    apply_poll-polls :
        (channel : ℕ) (kind : PollKind V) (b : Bot V)
        → (apply_poll env show_number channel kind b).1.polls ≡ b.polls
    unfolding apply_poll
    apply_poll-polls channel (install server info) b = apply_install-polls channel server info b
    apply_poll-polls channel (remove server info) b = apply_remove-polls channel server info b
    apply_poll-polls channel (restore _) b = refl

    decide-polls :
        (channel message_id yes_answer no_answer vote_count least : ℕ) (poll : OngoingPoll V)
        (b : Bot V)
        → (decide env show_number channel message_id yes_answer no_answer vote_count least poll
            b).1.polls
          ≡ b.polls
    unfolding decide
    decide-polls channel message_id yes_answer no_answer vote_count least poll b =
        let file = install_file poll.kind in
        elim (Bool-cases (ltb no_answer yes_answer)) [
          | inr e ↦ rw e (drop_file-polls file b)
          | inl e ↦ elim (Bool-cases (leb least vote_count)) [
            | inl f ↦ rw (e, f) (apply_poll-polls channel poll.kind b)
            | inr f ↦ rw (e, f) (say_drop-polls channel _ file b)
          ]
        ]

    evaluate-polls :
        (channel message_id : ℕ) (answers : List ℕ) (counts : List (ℕ × ℕ)) (vote_count least : ℕ)
        (poll : OngoingPoll V) (b : Bot V)
        → (evaluate env show_number channel message_id answers counts vote_count least poll
            b).1.polls
          ≡ b.polls
    unfolding evaluate funny_message
    evaluate-polls channel message_id [] counts vote_count least poll b =
        say_drop-polls channel _ (install_file poll.kind) b
    evaluate-polls channel message_id (_ ∷ []) counts vote_count least poll b =
        say_drop-polls channel _ (install_file poll.kind) b
    evaluate-polls channel message_id (yes_id ∷ no_id ∷ _) counts vote_count least poll b =
        decide-polls channel message_id (count_of yes_id counts) (count_of no_id counts) vote_count
          least poll b

    finish_poll-polls :
        (channel message_id the_channel the_poll : ℕ) (key : PollKey) (poll : OngoingPoll V)
        (answers : List ℕ) (counts : List (ℕ × ℕ)) (vote_count least : ℕ) (b : Bot V)
        → (finish_poll env show_number channel message_id the_channel the_poll key poll answers
            counts vote_count least b).1.polls
          ≡ remove_poll key (remove_poll key b.polls)
    unfolding finish_poll
    finish_poll-polls channel message_id the_channel the_poll key poll answers counts vote_count
          least b =
        evaluate-polls channel message_id answers counts vote_count least poll _ ∙ ground arith

    finish_poll-forgets :
        (channel message_id the_channel the_poll : ℕ) (key : PollKey) (poll : OngoingPoll V)
        (answers : List ℕ) (counts : List (ℕ × ℕ)) (vote_count least : ℕ) (b : Bot V)
        → poll_at key
            (finish_poll env show_number channel message_id the_channel the_poll key poll answers
              counts vote_count least b).1.polls
          ≡ none
    finish_poll-forgets channel message_id the_channel the_poll key poll answers counts vote_count
          least b =
        ap (poll_at key) (
          finish_poll-polls channel message_id the_channel the_poll key poll answers counts
            vote_count least b)
        ∙ poll_at-remove_poll key key (remove_poll key b.polls)
        ∙ rw (key_eq_refl key) refl

    finish_poll-Evolves :
        (channel message_id the_channel the_poll : ℕ) (key : PollKey) (poll : OngoingPoll V)
        (answers : List ℕ) (counts : List (ℕ × ℕ)) (vote_count least : ℕ) (b : Bot V)
        → Evolves b.polls
            (finish_poll env show_number channel message_id the_channel the_poll key poll answers
              counts vote_count least b).1.polls
    finish_poll-Evolves channel message_id the_channel the_poll key poll answers counts vote_count
          least b =
        rw
          (finish_poll-polls channel message_id the_channel the_poll key poll answers counts
            vote_count least b)
          (chains (closes key b.polls) (closes key _))

    tally_poll-Evolves :
        (channel the_channel the_poll : ℕ) (key : PollKey) (poll : OngoingPoll V) (message_id : ℕ)
        (answers : List ℕ) (results : PollResults) (b : Bot V)
        → Evolves b.polls
            (tally_poll env show_number channel the_channel the_poll key poll message_id answers
              results b).1.polls
    unfolding tally_poll
    tally_poll-Evolves channel the_channel the_poll key poll message_id answers results b =
        let finish =
          finish_poll-Evolves channel message_id the_channel the_poll key poll answers
            results.answer_counts in
        let votes = sum_counts results.answer_counts in
        let least = min_count (count_people (env.members b.log)) in
        elim (Bool-cases results.is_finalized) [
          | inl e ↦ rw e (finish votes least _)
          | inr e ↦ elim (Bool-cases (leb least votes)) [
            | inl f ↦ rw (e, f) (finish votes least _)
            | inr f ↦ rw (e, f) (stays b.polls)
          ]
        ]

    check_results-Evolves :
        (channel the_channel the_poll : ℕ) (key : PollKey) (poll : OngoingPoll V) (message_id : ℕ)
        (answers : List ℕ) (results : Option PollResults) (b : Bot V)
        → Evolves b.polls
            (check_results env show_number channel the_channel the_poll key poll message_id answers
              results b).1.polls
    unfolding check_results funny_message
    check_results-Evolves channel the_channel the_poll key poll message_id answers none b =
        stays b.polls
    check_results-Evolves channel the_channel the_poll key poll message_id answers (some results)
          b =
        tally_poll-Evolves channel the_channel the_poll key poll message_id answers results b

    check_data-Evolves :
        (channel the_channel the_poll : ℕ) (key : PollKey) (poll : OngoingPoll V) (message_id : ℕ)
        (found : Option PollData) (b : Bot V)
        → Evolves b.polls
            (check_data env show_number channel the_channel the_poll key poll message_id found
              b).1.polls
    unfolding check_data funny_message
    check_data-Evolves channel the_channel the_poll key poll message_id none b = stays b.polls
    check_data-Evolves channel the_channel the_poll key poll message_id (some d) b =
        check_results-Evolves channel the_channel the_poll key poll message_id d.answers d.results b

    check_message-Evolves :
        (channel the_channel the_poll : ℕ) (key : PollKey) (poll : OngoingPoll V)
        (found : Option Fetched) (b : Bot V)
        → Evolves b.polls
            (check_message env show_number channel the_channel the_poll key poll found b).1.polls
    unfolding check_message funny_message
    check_message-Evolves channel the_channel the_poll key poll none b = stays b.polls
    check_message-Evolves channel the_channel the_poll key poll (some m) b =
        check_data-Evolves channel the_channel the_poll key poll m.id m.poll b

    check_found-Evolves :
        (channel the_channel the_poll : ℕ) (found : Option (PollKey × OngoingPoll V)) (b : Bot V)
        → Evolves b.polls (check_found env show_number channel the_channel the_poll found b).1.polls
    unfolding check_found get_message
    check_found-Evolves channel the_channel the_poll none b = stays b.polls
    check_found-Evolves channel the_channel the_poll (some (key, poll)) b =
        let (m, c) = get_message env poll.channel poll.poll b in
        check_message-Evolves channel the_channel the_poll key poll m c

    pub check_poll-Evolves :
        (the_channel the_poll : ℕ) (b : Bot V)
        → Evolves b.polls (check_poll env show_number the_channel the_poll b).1.polls
    unfolding check_poll
    check_poll-Evolves the_channel the_poll b =
        check_found-Evolves b.notifications the_channel the_poll
          (find_poll the_channel the_poll b.polls) b

    -- A poll whose message says that it is finalized is in the table no more after `check_poll`, whoever
    -- won and whatever the daemon answers.
    pub check_poll-forgets :
        (the_channel the_poll : ℕ) (b : Bot V) (key : PollKey) (poll : OngoingPoll V) (m : Fetched)
        (d : PollData) (results : PollResults)
        → find_poll the_channel the_poll b.polls ≡ some (key, poll)
        → env.get_message b.log poll.channel poll.poll ≡ some m
        → m.poll ≡ some d
        → d.results ≡ some results
        → results.is_finalized ≡ true
        → poll_at key (check_poll env show_number the_channel the_poll b).1.polls ≡ none
    unfolding check_poll check_found check_message check_data check_results tally_poll get_message
    check_poll-forgets the_channel the_poll b key poll m d results e1 e2 e3 e4 e5 =
        rw (e1, e2, e3, e4, e5)
          (finish_poll-forgets b.notifications m.id the_channel the_poll key poll d.answers
            results.answer_counts _ _ _)

  cancel_poll-Evolves :
      (channel : ℕ) (key : PollKey) (poll : OngoingPoll V) (b : Bot V)
      → Evolves b.polls (cancel_poll env channel key poll b).1.polls
  cancel_poll-Evolves channel key poll b =
      rw (cancel_poll-polls channel key poll b) (closes key b.polls)

  pub poll_deleted-Evolves :
      (the_channel deleted_poll : ℕ) (b : Bot V)
      → Evolves b.polls (poll_deleted env the_channel deleted_poll b).1.polls
  unfolding poll_deleted get_message
  poll_deleted-Evolves the_channel deleted_poll b =
      elim (Option-cases (find_poll the_channel deleted_poll b.polls)) [
        | inl e ↦ rw e (stays b.polls)
        | inr ((key, poll), e) ↦
            elim (Option-cases (env.get_message b.log poll.channel poll.poll)) [
              | inl f ↦ rw (e, f) (cancel_poll-Evolves b.notifications key poll _)
              | inr (m, f) ↦ rw (e, f) (stays b.polls)
            ]
      ]
