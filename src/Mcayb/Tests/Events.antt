-- ===== src/Mcayb/Tests/Events.antt =====
-- mcayb/src/bot.rs: the theorems on the handler and the end of polls at concrete inputs.
use mind_craft.Base.{ℕ, codes, true, none, some, List, [], ◌∷◌, ◌≡◌, refl}
use mind_craft.Mcayb.Menus.{MenuHistory, action_url}
use mind_craft.Mcayb.Chat.{Env, Fetched, PollData, PollResults, poll_at}
use mind_craft.Mcayb.Polls.{find_poll}
use mind_craft.Mcayb.Polls.Table.{IsTable, key_of}
use mind_craft.Mcayb.Polls.Check.{check_poll}
use mind_craft.Mcayb.Polls.Check.Forgets.{check_poll-forgets}
use mind_craft.Mcayb.Handler.{
  Incoming, started, message_deleted, voted, interacted, looped, pressed, handle_all,
}
use mind_craft.Mcayb.Handler.Keeps.{handle_all-IsTable}
use mind_craft.Mcayb.Tests.{env, key, the_poll, polling_bot, poll_message}
use mind_craft.Mcayb.Tests.Downloads.{slots, Items, a_mod}

abbrev final_results : PollResults
final_results = record { is_finalized = true; answer_counts = (1, 2) ∷ (2, 1) ∷ [] }

abbrev final_data : PollData
final_data = record { answers = 1 ∷ 2 ∷ []; results = some final_results }

abbrev final_message : Fetched
final_message = record poll_message { poll = some final_data }

abbrev final_env : Env ℕ
final_env = record env { get_message = λ _ _ _. some final_message }

found_poll : find_poll 7 9 polling_bot.polls ≡ some (key, the_poll)
unfolding find_poll
found_poll = refl

check_poll-forgets_example :
    poll_at key (check_poll final_env (λ n. n ∷ []) 7 9 polling_bot).1.polls ≡ none
check_poll-forgets_example =
    check_poll-forgets final_env (λ n. n ∷ []) 7 9 polling_bot key the_poll final_message final_data
      final_results found_poll refl refl refl refl

polling_bot-IsTable : IsTable polling_bot.polls
unfolding IsTable poll_at key_of
polling_bot-IsTable = (refl, refl, tt)

abbrev uninstall : MenuHistory
uninstall = record {
  history = [];
  current = action_url (codes "uninstall") (codes "s" ∷ codes "a" ∷ []);
}

abbrev a_day : List (Incoming Items)
a_day =
    started
    ∷ looped ((0, a_mod) ∷ [])
    ∷ voted (some 1) 7 9
    ∷ interacted (some 1) (pressed uninstall (7, 8))
    ∷ message_deleted (some 2) 7 9
    ∷ []

handle_all-IsTable_example :
    IsTable
      (handle_all env
        (λ _. codes "Idle")
        (λ n. n ∷ [])
        (λ n. n ∷ [])
        (λ _. none)
        1
        slots
        a_day
        polling_bot).1.polls
handle_all-IsTable_example =
    handle_all-IsTable env (λ _. codes "Idle") (λ n. n ∷ []) (λ n. n ∷ []) (λ _. none) 1 slots a_day
      polling_bot polling_bot-IsTable
