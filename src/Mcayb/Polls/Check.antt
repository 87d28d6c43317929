-- ===== src/Mcayb/Polls/Check.antt =====
-- mcayb/src/bot.rs: `check_poll`, in its parts.
pub mod Forgets
pub mod Tally
pub mod Votes
use mind_craft.Base.{
  ℕ, ◌+◌, ◌/◌, ◌%◌, Text, codes, Bool, true, false, Option, none, some, List, [], ◌∷◌, ◌++◌,
  if◌then◌else◌, ◌==◌, ltb, leb,
}
use mind_craft.Yapper.Types.{ModInfo, NetCommand, server_command, Response, ServerCommand}
use mind_craft.Mcayb.Embeds.{CreateMessage, message}
use mind_craft.Mcayb.Replies.{send_err, send_unknown, info_menu, no_such_mod, already_installed}
use mind_craft.Mcayb.Chat.{
  Env, Bot, Act, gets, pure, ◌>>=◌, ◌>>◌, ended, unpinned, note, Reply, response, failed, PollKey,
  PollKind, install, remove, restore, OngoingPoll, PollResults, PollData, Fetched, send_command,
  say, get_message, with_config_mut, drop_file, count_members,
}
use mind_craft.Mcayb.Polls.{
  null_history, referring, with_content, install_file, find_poll, forget, reboot_server,
}

unfoldable pub sum_counts : List (ℕ × ℕ) → ℕ
sum_counts [] = 0
sum_counts ((_, n) ∷ counts) = n + sum_counts counts

-- The votes for an answer: the first entry with its id.
unfoldable pub count_of : ℕ → List (ℕ × ℕ) → ℕ
count_of id [] = 0
count_of id ((i, n) ∷ counts) = if i == id then n else count_of id counts

unfoldable pub min_count : ℕ → ℕ
min_count member_count = member_count / 2 + member_count % 2

module _ {V : Type 0} (env : Env V) (show_number : ℕ → Text) where
  -- What a won poll does; an installed file is the server's, any other is removed at the end.
  unfoldable pub apply_install : ℕ → Text → ModInfo V → Act V (Unit {0})
  unfolding send_command say message send_unknown send_err already_installed reboot_server drop_file
  apply_install channel server info = do
    r ← send_command env (server_command server (ServerCommand.install_mod info.path info.filename))
    elim r [
      | response Response.ok ↦ reboot_server env server
      | response Response.mod_conflict ↦ do
        say env channel (message (already_installed info.mod_id server))
        drop_file (some info.path)
      | response _ ↦ do
        say env channel (message (send_unknown null_history))
        drop_file (some info.path)
      | failed e ↦ do
        say env channel (message (send_err env null_history e))
        drop_file (some info.path)
    ]

  unfoldable pub apply_remove : ℕ → Text → ModInfo V → Act V (Unit {0})
  unfolding send_command say message send_unknown send_err no_such_mod reboot_server
  apply_remove channel server info = do
    r ← send_command env (server_command server (ServerCommand.uninstall_mod info.mod_id))
    elim r [
      | response Response.ok ↦ reboot_server env server
      | response Response.no_such_mod ↦ say env channel (message (no_such_mod info.mod_id server))
      | response _ ↦ say env channel (message (send_unknown null_history))
      | failed e ↦ say env channel (message (send_err env null_history e))
    ]

  unfoldable pub apply_poll : ℕ → PollKind V → Act V (Unit {0})
  unfolding apply_install apply_remove
  apply_poll channel (install server info) = apply_install channel server info
  apply_poll channel (remove server info) = apply_remove channel server info
  apply_poll channel (restore _) = pure tt

  too_few : ℕ → ℕ → Text
  too_few vote_count least =
      codes "Poll won, but only "
      ++ show_number vote_count
      ++ (if vote_count == 1 then codes " member" else codes " members")
      ++ codes " voted, expected at least "
      ++ show_number least
      ++ codes " votes"

  -- The comparison of the votes; `decided` holds the file until the end.
  unfoldable pub decide : ℕ → ℕ → ℕ → ℕ → ℕ → ℕ → OngoingPoll V → Act V (Unit {0})
  unfolding apply_poll say message info_menu drop_file install_file too_few
  decide channel message_id yes_answer no_answer vote_count least poll =
      if ltb no_answer yes_answer
      then (if leb least vote_count then apply_poll channel poll.kind else (do
        say env channel (referring message_id (message (info_menu (too_few vote_count least))))
        drop_file (install_file poll.kind)))
      else drop_file (install_file poll.kind)

  unfoldable pub funny_message : ℕ → Text → Act V (Unit {0})
  unfolding say
  funny_message channel text = say env channel (with_content text)

  -- The answers, the first one for and the second one against.
  unfoldable pub evaluate : ℕ → ℕ → List ℕ → List (ℕ × ℕ) → ℕ → ℕ → OngoingPoll V → Act V (Unit {0})
  unfolding funny_message drop_file install_file decide count_of
  evaluate channel message_id [] counts vote_count least poll = do
    funny_message channel (codes "The poll doesn't have any answers how :sob:")
    drop_file (install_file poll.kind)
  evaluate channel message_id (yes_id ∷ []) counts vote_count least poll = do
    funny_message channel (codes "The poll only has one answer this is getting insane")
    drop_file (install_file poll.kind)
  evaluate channel message_id (yes_id ∷ no_id ∷ _) counts vote_count least poll =
      decide channel message_id (count_of yes_id counts) (count_of no_id counts) vote_count least
        poll

  -- From `No going back from here`; the key is removed twice.
  unfoldable pub finish_poll :
      ℕ → ℕ → ℕ → ℕ → PollKey → OngoingPoll V → List ℕ → List (ℕ × ℕ) → ℕ → ℕ → Act V (Unit {0})
  unfolding note with_config_mut evaluate
  finish_poll channel message_id the_channel the_poll key poll answers counts vote_count least = do
    note (unpinned the_channel the_poll)
    with_config_mut env (forget key)
    with_config_mut env (forget key)
    evaluate channel message_id answers counts vote_count least poll

  unfoldable pub tally_poll :
      ℕ → ℕ → ℕ → PollKey → OngoingPoll V → ℕ → List ℕ → PollResults → Act V (Unit {0})
  unfolding count_members sum_counts min_count note finish_poll
  tally_poll channel the_channel the_poll key poll message_id answers results = do
    member_count ← count_members env
    let least = min_count member_count
    let vote_count = sum_counts results.answer_counts
    let finish =
        finish_poll channel message_id the_channel the_poll key poll answers results.answer_counts
          vote_count least
    if results.is_finalized
        then finish
        else (if leb least vote_count
            then (note (ended poll.channel message_id) >> finish)
            else pure tt)

  check_results :
      ℕ → ℕ → ℕ → PollKey → OngoingPoll V → ℕ → List ℕ → Option PollResults → Act V (Unit {0})
  unfolding funny_message tally_poll
  check_results channel the_channel the_poll key poll message_id answers none =
      funny_message channel
        (codes "Discord API FOR SOME FUCKING REASON didn't include the poll results.")
  check_results channel the_channel the_poll key poll message_id answers (some results) =
      tally_poll channel the_channel the_poll key poll message_id answers results

  check_data : ℕ → ℕ → ℕ → PollKey → OngoingPoll V → ℕ → Option PollData → Act V (Unit {0})
  unfolding funny_message check_results
  check_data channel the_channel the_poll key poll message_id none =
      funny_message channel (
        codes "The poll message somehow doesn't contain a poll. I don't even know how you got here")
  check_data channel the_channel the_poll key poll message_id (some poll_data) =
      check_results channel the_channel the_poll key poll message_id poll_data.answers
        poll_data.results

  check_message : ℕ → ℕ → ℕ → PollKey → OngoingPoll V → Option Fetched → Act V (Unit {0})
  unfolding funny_message check_data
  check_message channel the_channel the_poll key poll none =
      funny_message channel
        (codes "You deleted the poll while i was checking the results WHYYYYYYY :(((")
  check_message channel the_channel the_poll key poll (some found) =
      check_data channel the_channel the_poll key poll found.id found.poll

  check_found : ℕ → ℕ → ℕ → Option (PollKey × OngoingPoll V) → Act V (Unit {0})
  unfolding get_message check_message
  check_found channel the_channel the_poll none = pure tt
  check_found channel the_channel the_poll (some (key, poll)) = do
    msg ← get_message env poll.channel poll.poll
    check_message channel the_channel the_poll key poll msg

  unfoldable pub check_poll : ℕ → ℕ → Act V (Unit {0})
  unfolding find_poll check_found
  check_poll the_channel the_poll = do
    channel ← gets (λ b. b.notifications)
    found ← gets (λ b. find_poll the_channel the_poll b.polls)
    check_found channel the_channel the_poll found
