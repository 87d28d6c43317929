-- ===== src/Mcayb/Polls/Check/Votes.antt =====
-- mcayb/src/bot.rs: when `check_poll` asks the daemon for anything.
use mind_craft.Base.{
  ℕ, map, subst, ◌*◌, ◌≤◌, ◌<◌, Text, Bool-cases, Option, none, some, List, [], ◌∷◌, ◌≡◌, refl, ◌⊎◌,
  inl, inr, arith, leb, ltb, leb→le, ltb→lt,
}
use mind_craft.Yapper.Types.{NetCommand}
use mind_craft.Mcayb.Embeds.{CreateMessage}
use mind_craft.Mcayb.Chat.{
  count_people, Env, Bot, Effect, asked, sent, edited, fetched, deleted, pinned, unpinned, ended,
  counted, flushed, removed_file, spawned, PollKey, OngoingPoll, Fetched, PollData, PollResults,
  drop_file, say, note, get_message,
}
use mind_craft.Mcayb.Polls.{find_poll, install_file}
use mind_craft.Mcayb.Polls.Check.{
  sum_counts, count_of, min_count, decide, funny_message, evaluate, finish_poll, tally_poll,
  check_results, check_data, check_message, check_found, check_poll,
}
use mind_craft.Mcayb.Polls.Check.Tally.{
  votes_for, total, people, count_of-votes_for, sum_counts-total, count_people-people,
}

-- The two answers of a poll, with more votes for the first one.
pub record IsMajority (answers : List ℕ) (counts : List (ℕ × ℕ)) : Type 0 where
  pub yes_id : ℕ
  pub no_id : ℕ
  pub others : List ℕ
  pub answers_are : answers ≡ yes_id ∷ no_id ∷ others
  pub more : votes_for no_id counts < votes_for yes_id counts

-- What makes a poll won, at the time when the members are counted: more votes for the first answer,
-- and votes of at least half of the members.
pub record IsWon (members : ℕ) (answers : List ℕ) (results : PollResults) : Type 0 where
  pub majority : IsMajority answers results.answer_counts
  pub half : members ≤ 2 * total (map (λ (c : ℕ × ℕ). c.1) results.answer_counts)

min_count-half : (members votes : ℕ) → min_count members ≤ votes → members ≤ 2 * votes
unfolding min_count
min_count-half members votes h = omega arith

Won-of_votes :
    {P : Type 0} (members : ℕ) (answers : List ℕ) (results : PollResults)
    → P
      ⊎ (IsMajority answers results.answer_counts
          × (min_count members ≤ sum_counts results.answer_counts))
    → P ⊎ IsWon members answers results
Won-of_votes members answers results (inl p) = inl p
Won-of_votes members answers results (inr (m, h)) = inr (record {
  majority = m;
  half =
      subst (λ t. members ≤ 2 * t) (sum_counts-total results.answer_counts)
        (min_count-half members _ h);
})

module _ {V : Type 0} where
  -- The commands of a log.
  pub asks : List (Effect V) → List (NetCommand V)
  asks [] = []
  asks (asked c ∷ log) = c ∷ asks log
  asks (sent _ _ ∷ log) = asks log
  asks (edited _ _ _ ∷ log) = asks log
  asks (fetched _ _ ∷ log) = asks log
  asks (deleted _ _ ∷ log) = asks log
  asks (pinned _ _ ∷ log) = asks log
  asks (unpinned _ _ ∷ log) = asks log
  asks (ended _ _ ∷ log) = asks log
  asks (counted ∷ log) = asks log
  asks (flushed ∷ log) = asks log
  asks (removed_file _ ∷ log) = asks log
  asks (spawned _ _ _ ∷ log) = asks log

  drop_file-asks : (file : Option Text) (b : Bot V) → asks (drop_file file b).1.log ≡ asks b.log
  unfolding drop_file asks
  drop_file-asks none b = refl
  drop_file-asks (some path) b = refl

module _ {V : Type 0} (env : Env V) (show_number : ℕ → Text) where
  say_drop-asks :
      (channel : ℕ) (msg : CreateMessage) (file : Option Text) (b : Bot V)
      → asks (drop_file file (say env channel msg b).1).1.log ≡ asks b.log
  unfolding asks say
  say_drop-asks channel msg file b = drop_file-asks file (say env channel msg b).1

  decide-asks :
      (channel message_id yes_answer no_answer vote_count least : ℕ) (poll : OngoingPoll V)
      (b : Bot V)
      → (asks
            (decide env show_number channel message_id yes_answer no_answer vote_count least poll
              b).1.log
          ≡ asks b.log)
        ⊎ ((no_answer < yes_answer) × (least ≤ vote_count))
  unfolding decide
  decide-asks channel message_id yes_answer no_answer vote_count least poll b =
      elim (Bool-cases (ltb no_answer yes_answer)) [
        | inr e ↦ inl (rw e (drop_file-asks (install_file poll.kind) b))
        | inl e ↦ elim (Bool-cases (leb least vote_count)) [
          | inl f ↦ inr (ltb→lt _ _ e, leb→le _ _ f)
          | inr f ↦ inl (rw (e, f) (say_drop-asks channel _ (install_file poll.kind) b))
        ]
      ]

  evaluate-asks :
      (channel message_id : ℕ) (answers : List ℕ) (counts : List (ℕ × ℕ)) (vote_count least : ℕ)
      (poll : OngoingPoll V) (b : Bot V)
      → (asks
            (evaluate env show_number channel message_id answers counts vote_count least poll
              b).1.log
          ≡ asks b.log)
        ⊎ (IsMajority answers counts × (least ≤ vote_count))
  unfolding evaluate funny_message
  evaluate-asks channel message_id [] counts vote_count least poll b =
      inl (say_drop-asks channel _ (install_file poll.kind) b)
  evaluate-asks channel message_id (yes_id ∷ []) counts vote_count least poll b =
      inl (say_drop-asks channel _ (install_file poll.kind) b)
  evaluate-asks channel message_id (yes_id ∷ no_id ∷ others) counts vote_count least poll b =
      elim (decide-asks channel message_id (count_of yes_id counts) (count_of no_id counts)
        vote_count least poll b) [
          | inl e ↦ inl e
          | inr (more, enough) ↦ inr (
            record {
              yes_id = yes_id;
              no_id = no_id;
              others = others;
              answers_are = refl;
              more =
                  subst (λ t. t < votes_for yes_id counts) (count_of-votes_for no_id counts)
                    (subst (λ t. count_of no_id counts < t) (count_of-votes_for yes_id counts)
                      more);
            },
            enough,
          )
        ]

  finish_poll-asks :
      (channel message_id the_channel the_poll : ℕ) (key : PollKey) (poll : OngoingPoll V)
      (answers : List ℕ) (counts : List (ℕ × ℕ)) (vote_count least : ℕ) (b : Bot V)
      → (asks
            (finish_poll env show_number channel message_id the_channel the_poll key poll answers
              counts vote_count least b).1.log
          ≡ asks b.log)
        ⊎ (IsMajority answers counts × (least ≤ vote_count))
  unfolding finish_poll asks
  finish_poll-asks channel message_id the_channel the_poll key poll answers counts vote_count least
        b =
      evaluate-asks channel message_id answers counts vote_count least poll _

  tally_poll-asks :
      (channel the_channel the_poll : ℕ) (key : PollKey) (poll : OngoingPoll V) (message_id : ℕ)
      (answers : List ℕ) (results : PollResults) (b : Bot V)
      → (asks
            (tally_poll env show_number channel the_channel the_poll key poll message_id answers
              results b).1.log
          ≡ asks b.log)
        ⊎ IsWon (count_people (env.members b.log)) answers results
  unfolding tally_poll asks
  tally_poll-asks channel the_channel the_poll key poll message_id answers results b =
      let least = min_count (count_people (env.members b.log)) in
      let vote_count = sum_counts results.answer_counts in
      let finish = λ (c : Bot V). Won-of_votes (count_people (env.members b.log)) answers results (
        finish_poll-asks channel message_id the_channel the_poll key poll answers
          results.answer_counts vote_count least c) in
      elim (Bool-cases results.is_finalized) [
        | inl e ↦ simp (e) (finish _)
        | inr e ↦ elim (Bool-cases (leb least vote_count)) [
          | inl f ↦ simp (e, f) (finish _)
          | inr f ↦ inl (simp (e, f))
        ]
      ]

module _ {V : Type 0} (env : Env V) where
  -- The poll that a message belongs to, at the time of a call of `check_poll`, is won.
  pub record IsDecided (the_channel the_poll : ℕ) (b : Bot V) : Type 0 where
    pub key : PollKey
    pub poll : OngoingPoll V
    pub message : Fetched
    pub poll_data : PollData
    pub results : PollResults
    pub found : find_poll the_channel the_poll b.polls ≡ some (key, poll)
    pub there : env.get_message b.log poll.channel poll.poll ≡ some message
    pub polled : message.poll ≡ some poll_data
    pub shown : poll_data.results ≡ some results
    pub won :
        IsWon
          (people (env.members (fetched poll.channel poll.poll ∷ b.log)))
          poll_data.answers
          results

module _ {V : Type 0} (env : Env V) (show_number : ℕ → Text)
    (the_channel the_poll channel : ℕ) where
  check_found-asks :
      (b : Bot V) (found : Option (PollKey × OngoingPoll V))
      → find_poll the_channel the_poll b.polls ≡ found
      → (asks (check_found env show_number channel the_channel the_poll found b).1.log ≡ asks b.log)
        ⊎ IsDecided env the_channel the_poll b
  unfolding check_found get_message check_message check_data check_results asks funny_message
  check_found-asks b none e = inl refl
  check_found-asks b (some (key, poll)) e =
      at_message (env.get_message b.log poll.channel poll.poll) refl
    where
      after : Bot V
      after = (note (fetched poll.channel poll.poll) b).1

      at_results :
          (m : Fetched) (d : PollData) (results : Option PollResults)
          → env.get_message b.log poll.channel poll.poll ≡ some m
          → m.poll ≡ some d
          → d.results ≡ results
          → (asks
                (check_results env show_number channel the_channel the_poll key poll m.id d.answers
                  results after).1.log
              ≡ asks b.log)
            ⊎ IsDecided env the_channel the_poll b
      at_results m d none f g h = inl refl
      at_results m d (some results) f g h =
          elim (tally_poll-asks env show_number channel the_channel the_poll key poll m.id d.answers
            results after) [
              | inl same ↦ inl same
              | inr won ↦ inr (record {
                key = key;
                poll = poll;
                message = m;
                poll_data = d;
                results = results;
                found = e;
                there = f;
                polled = g;
                shown = h;
                won = subst (λ n. IsWon n d.answers results) (count_people-people _) won;
              })
            ]

      at_data :
          (m : Fetched) (d : Option PollData)
          → env.get_message b.log poll.channel poll.poll ≡ some m
          → m.poll ≡ d
          → (asks
                (check_data env show_number channel the_channel the_poll key poll m.id d
                  after).1.log
              ≡ asks b.log)
            ⊎ IsDecided env the_channel the_poll b
      at_data m none f g = inl refl
      at_data m (some d) f g = at_results m d d.results f g refl

      at_message :
          (msg : Option Fetched)
          → env.get_message b.log poll.channel poll.poll ≡ msg
          → (asks
                (check_message env show_number channel the_channel the_poll key poll msg
                  after).1.log
              ≡ asks b.log)
            ⊎ IsDecided env the_channel the_poll b
      at_message none f = inl refl
      at_message (some m) f = at_data m m.poll f refl

-- `check_poll` asks the daemon for nothing, or the message belongs to a poll that is won.
pub check_poll-asks :
    {V : Type 0} (env : Env V) (show_number : ℕ → Text) (the_channel the_poll : ℕ) (b : Bot V)
    → (asks (check_poll env show_number the_channel the_poll b).1.log ≡ asks b.log)
      ⊎ IsDecided env the_channel the_poll b
unfolding check_poll
check_poll-asks env show_number the_channel the_poll b =
    check_found-asks env show_number the_channel the_poll b.notifications b
      (find_poll the_channel the_poll b.polls) refl
