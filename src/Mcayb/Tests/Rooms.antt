-- ===== src/Mcayb/Tests/Rooms.antt =====
-- mcayb/src/bot.rs: the theorems on polls and events at concrete inputs.
use mind_craft.Base.{codes, none, [], ◌∷◌, ◌≡◌, refl, ◌⊎◌, if◌then◌else◌, is_some}
use mind_craft.Yapper.Types.{ServerStatus, idle}
use mind_craft.Mcayb.Chat.{install, poll_at}
use mind_craft.Mcayb.Polls.Create.{create_poll}
use mind_craft.Mcayb.Polls.Create.Adds.{Adds, create_poll-Adds}
use mind_craft.Mcayb.Polls.Create.Files.{IsSettled, create_poll-IsSettled}
use mind_craft.Mcayb.Polls.Check.{check_poll}
use mind_craft.Mcayb.Polls.Check.Votes.{asks, IsDecided, check_poll-asks}
use mind_craft.Mcayb.Guild.{events, server_named}
use mind_craft.Mcayb.Guild.Events.{absent, present, after_events, listed_at, after_events-events}
use mind_craft.Mcayb.Tests.{env, info, server, key, bot, polling_bot}

create_poll-Adds_example :
    Adds env key
      (install (codes "s") info)
      bot
      (create_poll env key (install (codes "s") info) bot).1
create_poll-Adds_example = create_poll-Adds env key (install (codes "s") info) bot

no_poll : poll_at key bot.polls ≡ none
unfolding poll_at
no_poll = refl

create_poll-IsSettled_example :
    IsSettled key (codes "s") info (create_poll env key (install (codes "s") info) bot).1
create_poll-IsSettled_example = create_poll-IsSettled env key (codes "s") info bot no_poll

check_poll-asks_example :
    (asks (check_poll env (λ n. n ∷ []) 7 9 polling_bot).1.log ≡ asks polling_bot.log)
    ⊎ IsDecided env 7 9 polling_bot
check_poll-asks_example = check_poll-asks env (λ n. n ∷ []) 7 9 polling_bot

abbrev moved : ServerStatus
moved = record { name = codes "s"; path = codes "/t"; status = idle }

abbrev created : ServerStatus
created = record { name = codes "u"; path = codes "/u"; status = idle }

after_events-events_example :
    after_events
      (codes "s")
      (listed_at (codes "s") (server_named (codes "s") (server ∷ [])))
      (events (server ∷ []) (moved ∷ created ∷ []))
    ≡ (if is_some (server_named (codes "s") (server ∷ []))
        then listed_at (codes "s") (server_named (codes "s") (moved ∷ created ∷ []))
        else (if is_some (server_named (codes "s") (moved ∷ created ∷ []))
            then present
            else absent))
after_events-events_example = after_events-events (codes "s") (server ∷ []) (moved ∷ created ∷ [])
