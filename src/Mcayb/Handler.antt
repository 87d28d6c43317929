-- ===== src/Mcayb/Handler.antt =====
-- mcayb/src/bot.rs: the handler of a guild for messages, polls and interactions, and the look at all polls
-- when the bot starts.
pub mod Greetings
pub mod Keeps
use mind_craft.Base.{
  ℕ, Text, codes, text_eq, split, Bool, true, false, ◌&&◌, ◌==◌, not, Option, none, some, List, [],
  ◌∷◌, ◌++◌, zero, suc, if◌then◌else◌,
}
use mind_craft.Yapper.Types.{Status}
use mind_craft.Mcayb.Menus.{MenuHistory, new_menu}
use mind_craft.Mcayb.Embeds.{CreateMessage, message}
use mind_craft.Mcayb.Chat.{
  Env, Bot, Act, pure, gets, ◌>>=◌, ◌>>◌, Fetched, OngoingPoll, PollKey, Polls, get_message, say,
}
use mind_craft.Mcayb.Polls.{referring, with_content, poll_deleted}
use mind_craft.Mcayb.Polls.Check.{check_poll}
use mind_craft.Mcayb.Pages.{install_mod_menu}
use mind_craft.Mcayb.Presses.{press}
use mind_craft.Mcayb.Arguments.{Answer}
use mind_craft.Mcayb.Forms.{submit}
use mind_craft.Mcayb.Slash.{AllCommands, run}
use mind_craft.Mcayb.Mods.{ModInstalling, Slots, guild_loop}
use mind_craft.Mcayb.Handler.Greetings.{messages}

-- What the bot reads of an address; the host only if it is a domain.
pub record Url : Type 0 where
  pub scheme : Text
  pub domain : Option Text
  pub segments : Option (List Text)

-- A message as the library gives it: the kind of its first embed, the channel and the message that it
-- refers to, whether it mentions the bot, and how many attachments it has.
pub record NewMessage : Type 0 where
  pub guild : Option ℕ
  pub channel : ℕ
  pub id : ℕ
  pub embed_kind : Option Text
  pub reference : Option (ℕ × Option ℕ)
  pub is_bot : Bool
  pub mentions_me : Bool
  pub content : Text
  pub attachments : ℕ

pub data Interaction : Type 0 where
  completed : Interaction
  typed : AllCommands → ℕ → Interaction
  pressed : MenuHistory → ℕ × ℕ → Interaction
  sent_in : MenuHistory → List Text → Interaction

-- What an interaction is answered with; a handler that panics answers nothing.
pub data Handled : Type 0 where
  ignored panicked : Handled
  replied : CreateMessage → Handled
  answered : Answer → Handled

-- What happens to the bot in one guild, each run to its end.
pub data Incoming (S : Type 0) : Type 0 where
  started : Incoming S
  message_deleted voted : Option ℕ → ℕ → ℕ → Incoming S
  posted : Option ℕ → NewMessage → Incoming S
  interacted : Option ℕ → Interaction → Incoming S
  looped : S → Incoming S

answer_of : Option Answer → Handled
answer_of none = panicked
answer_of (some a) = answered a

-- The name of the mod that the path of a link has.
unfoldable pub linked_mod : Option (List Text) → Option Text
unfolding text_eq
linked_mod (some (a ∷ b ∷ name ∷ _)) =
    if text_eq a (codes "minecraft") && text_eq b (codes "mc-mods") then some name else none
linked_mod (some (_ ∷ _ ∷ [])) = none
linked_mod (some (_ ∷ [])) = none
linked_mod (some []) = none
linked_mod none = none

unfoldable pub mod_of_url : Option Url → Option Text
unfolding text_eq linked_mod
mod_of_url none = none
mod_of_url (some url) = elim url.domain [
  | none ↦ none
  | some host ↦
      if text_eq url.scheme (codes "https") && text_eq host (codes "www.curseforge.com")
      then linked_mod url.segments
      else none
]

unfoldable pub nth : ℕ → List Text → Option Text
nth n [] = none
nth zero (x ∷ xs) = some x
nth (suc n) (x ∷ xs) = nth n xs

-- `Url::parse`, the base64 of an id, and the digits of a number are parameters.
module _ {V : Type 0} (env : Env V) (show_status : Status → Text) (show_number encode_id : ℕ → Text)
    (parse_url : Text → Option Url) (guild : ℕ) where
  -- The checks with which every handler starts.
  unfoldable pub in_guild : Option ℕ → Act V (Unit {0}) → Act V (Unit {0})
  in_guild none act = pure tt
  in_guild (some id) act = if id == guild then act else pure tt

  unfoldable pub message_delete : Option ℕ → ℕ → ℕ → Act V (Unit {0})
  unfolding in_guild poll_deleted
  message_delete guild_id channel id = in_guild guild_id (poll_deleted env channel id >> pure tt)

  unfoldable pub poll_vote_add : Option ℕ → ℕ → ℕ → Act V (Unit {0})
  unfolding in_guild check_poll
  poll_vote_add guild_id channel id = in_guild guild_id (check_poll env show_number channel id)

  unfoldable pub check_ended : ℕ → Option Fetched → Act V (Unit {0})
  unfolding check_poll
  check_ended channel none = pure tt
  check_ended channel (some the_poll) = check_poll env show_number channel the_poll.id

  -- The message that tells the end of a poll.
  unfoldable pub when_result : Bool → Option (ℕ × Option ℕ) → Act V (Unit {0})
  unfolding check_ended get_message
  when_result true (some (channel, some id)) = do
    found ← get_message env channel id
    check_ended channel found
  when_result true (some (_, none)) = pure tt
  when_result true none = pure tt
  when_result false _ = pure tt

  unfoldable pub detect_end : NewMessage → Act V (Unit {0})
  unfolding when_result text_eq
  detect_end m =
      when_result
        (elim m.embed_kind [ none ↦ false | some kind ↦ text_eq kind (codes "poll_result") ])
        m.reference

  unfoldable pub reply_to : NewMessage → Text → Act V (Unit {0})
  unfolding say
  reply_to m text = say env m.channel (referring m.id (with_content text))

  unfoldable pub first_url : List Text → Option Url
  first_url [] = none
  first_url (part ∷ parts) =
      let later = first_url parts in elim (parse_url part) [ none ↦ later | some url ↦ some url ]

  -- `draw` is the number of the answer that was drawn, if the bot should answer.
  unfoldable pub greet : Option ℕ → NewMessage → Act V (Unit {0})
  unfolding reply_to nth
  greet none m = pure tt
  greet (some n) m = elim (nth n messages) [ none ↦ pure tt | some text ↦ reply_to m text ]

  -- Without a link.
  unfoldable pub by_attachments : Option ℕ → ℕ → NewMessage → Act V (Unit {0})
  unfolding install_mod_menu say message new_menu reply_to greet
  by_attachments draw zero m = greet draw m
  by_attachments draw (suc zero) m = do
    menu ← install_mod_menu env (new_menu (codes "install")) (encode_id m.channel) (encode_id m.id)
    say env m.channel (referring m.id (message menu))
  by_attachments draw (suc (suc _)) m = reply_to m (codes "Only 1 attachment at a time pls!")

  unfoldable pub mentioned : Option ℕ → NewMessage → Act V (Unit {0})
  unfolding split first_url mod_of_url reply_to by_attachments
  mentioned draw m = elim (mod_of_url (first_url (split b' ' m.content))) [
    | some mod_name ↦ reply_to m (
        codes "I detected you're trying to install \""
        ++ mod_name
        ++ codes
            "\", but i can't access curseforge (yet ;))). For now, please upload the mod file directly")
    | none ↦ by_attachments draw m.attachments m
  ]

  unfoldable pub answer : Option ℕ → NewMessage → Act V (Unit {0})
  unfolding mentioned
  answer draw m =
      if m.is_bot then pure tt else (if m.mentions_me then mentioned draw m else pure tt)

  unfoldable pub new_message : Option ℕ → NewMessage → Act V (Unit {0})
  unfolding in_guild detect_end answer
  new_message draw m = in_guild m.guild (detect_end m >> answer draw m)

  unfoldable pub interact : Interaction → Act V Handled
  unfolding press submit run answer_of
  interact completed = pure ignored
  interact (typed cmd channel) = do reply ← run env show_status cmd channel; pure (replied reply)
  interact (pressed h comp) = do answer ← press env h comp; pure (answer_of answer)
  interact (sent_in h inputs) = do answer ← submit env h inputs; pure (answer_of answer)

  -- An interaction of another guild, or of none, is ignored.
  unfoldable pub interaction_create : Option ℕ → Interaction → Act V Handled
  unfolding interact
  interaction_create none i = pure ignored
  interaction_create (some id) i = if id == guild then interact i else pure ignored

  unfoldable pub check_unless : Bool → OngoingPoll V → Act V (Unit {0})
  unfolding check_poll
  check_unless true poll = pure tt
  check_unless false poll = check_poll env show_number poll.channel poll.poll

  -- The look at the polls when the bot starts, at those that the configuration had then.
  unfoldable pub sweep_polls : Polls V → Act V (Unit {0})
  unfolding poll_deleted check_unless
  sweep_polls [] = pure tt
  sweep_polls ((_, poll) ∷ polls) = do
    gone ← poll_deleted env poll.channel poll.poll
    check_unless gone poll
    sweep_polls polls

  unfoldable pub init : Act V (Unit {0})
  unfolding sweep_polls
  init = do polls ← gets (λ b. b.polls); sweep_polls polls

  module _ {S : Type 0} (slots : Slots S (ModInstalling V)) where
    -- A panic of a handler or of a round ends its task alone; what comes later is handled all the same.
    unfoldable pub handle : Incoming S → Act V (Unit {0})
    unfolding init message_delete poll_vote_add new_message interaction_create guild_loop
    handle started = init
    handle (message_deleted guild_id channel id) = message_delete guild_id channel id
    handle (voted guild_id channel id) = poll_vote_add guild_id channel id
    handle (posted draw m) = new_message draw m
    handle (interacted guild_id i) = interaction_create guild_id i >> pure tt
    handle (looped mods) = guild_loop env slots mods >> pure tt

    unfoldable pub handle_all : List (Incoming S) → Act V (Unit {0})
    unfolding handle
    handle_all [] = pure tt
    handle_all (e ∷ es) = handle e >> handle_all es
