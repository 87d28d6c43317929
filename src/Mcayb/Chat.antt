-- ===== src/Mcayb/Chat.antt =====
-- mcayb/src/bot.rs, comm.rs and conf.rs: what the tasks of one guild share, and what they do to the
-- outside, which are calls of Discord, of the daemon and of the file system. Each call leaves an entry
-- in a log, the last one first, and what it gives may depend on all calls before it.
use mind_craft.Base.{
  ℕ, suc, Text, text_eq, Bool, true, false, ◌&&◌, Option, none, some, List, [], ◌∷◌, if◌then◌else◌,
  Assoc,
}
use mind_craft.Yapper.Types.{Versions, ModInfo, NetCommand, Response, ServerStatus}
use mind_craft.Mcayb.Menus.{MenuHistory}
use mind_craft.Mcayb.Embeds.{CreateMessage}

pub data PollKey : Type 0 where
  mod_poll : Text → Text → PollKey
  restore_poll : Text → PollKey

pub data PollKind (V : Type 0) : Type 0 where
  install : Text → ModInfo V → PollKind V
  remove : Text → ModInfo V → PollKind V
  restore : Text → PollKind V

pub record OngoingPoll (V : Type 0) : Type 0 where
  pub channel : ℕ
  pub poll : ℕ
  pub kind : PollKind V

unfoldable pub key_eq : PollKey → PollKey → Bool
key_eq (mod_poll server mod_id) (mod_poll server' mod_id') =
    text_eq server server' && text_eq mod_id mod_id'
key_eq (restore_poll server) (restore_poll server') = text_eq server server'
key_eq (mod_poll _ _) (restore_poll _) = false
key_eq (restore_poll _) (mod_poll _ _) = false

-- The map `polls`, in the order in which its iterator goes.
abbrev pub Polls : Type 0 → Type 0
Polls V = List (PollKey × OngoingPoll V)

module _ {V : Type 0} where
  unfoldable pub poll_at : PollKey → Polls V → Option (OngoingPoll V)
  unfolding key_eq
  poll_at k [] = none
  poll_at k ((j, p) ∷ polls) = if key_eq j k then some p else poll_at k polls

  -- `HashMap::remove`.
  unfoldable pub remove_poll : PollKey → Polls V → Polls V
  unfolding key_eq
  remove_poll k [] = []
  remove_poll k ((j, p) ∷ polls) =
      if key_eq j k then remove_poll k polls else (j, p) ∷ remove_poll k polls

-- The causes of an error that `send_err` tells apart: a kind of `io::Error`, or anything else.
pub data ErrorKind : Type 0 where
  timed_out connection_refused connection_aborted connection_reset other_kind : ErrorKind

pub data CommError : Type 0 where
  io_error : ErrorKind → CommError
  other_error : Text → CommError

-- `Result<Response>` of `send_command`.
pub data Reply (V : Type 0) : Type 0 where
  response : Response V → Reply V
  failed : CommError → Reply V

-- What `get_message` gives: for a poll, its answers in their order, the votes for each answer's id, and
-- whether it is finalized; the name and the address of each attachment.
pub record PollResults : Type 0 where
  pub is_finalized : Bool
  pub answer_counts : List (ℕ × ℕ)

pub record PollData : Type 0 where
  pub answers : List ℕ
  pub results : Option PollResults

pub record Fetched : Type 0 where
  pub id : ℕ
  pub attachments : List (Text × Text)
  pub poll : Option PollData

pub data Effect (V : Type 0) : Type 0 where
  asked : NetCommand V → Effect V
  sent : ℕ → CreateMessage → Effect V
  edited : ℕ → ℕ → CreateMessage → Effect V
  fetched deleted pinned unpinned ended : ℕ → ℕ → Effect V
  counted flushed : Effect V
  removed_file : Text → Effect V
  spawned : Text → Text → Text → Effect V

-- The members that were received and are no bots; for each one, whether it is a bot.
unfoldable pub count_people : List (Option Bool) → ℕ
count_people [] = 0
count_people (none ∷ members) = count_people members
count_people (some true ∷ members) = count_people members
count_people (some false ∷ members) = suc (count_people members)

-- The answers of the outside to a call, after the calls of the log.
pub record Env (V : Type 0) : Type 0 where
  pub versions : Versions V
  pub ask : List (Effect V) → NetCommand V → Reply V
  pub send_message : List (Effect V) → ℕ → CreateMessage → Option ℕ
  pub get_message : List (Effect V) → ℕ → ℕ → Option Fetched
  pub members : List (Effect V) → List (Option Bool)
  pub flush : List (Effect V) → Bool
  pub show_kind : ErrorKind → Text
  pub show_history : MenuHistory → Text
  pub show_mb : ℕ → Text
  pub show_percent : ℕ → ℕ → Text
  pub debug : Text → Text
  pub parse_u64 : Text → Option ℕ
  pub show_u64 : ℕ → Text
  pub decode_id : Text → Option ℕ

-- `NotifServer`: the message that is edited, for each channel.
abbrev pub NotifServer : Type 0
NotifServer = List (ℕ × ℕ)

abbrev pub NotifGroup : Type 0
NotifGroup = Assoc NotifServer

abbrev pub Notifs : Type 0
Notifs = Assoc NotifGroup

-- `GuildData` of this guild, which the configuration has, and `SharedMin`, whose list of mods stands
-- apart. `saved_status` is the field `last_status` of the former, `last_status` that of the latter.
pub record Bot (V : Type 0) : Type 0 where
  pub log : List (Effect V)
  pub notifications : ℕ
  pub polls : Polls V
  pub saved_status : List ServerStatus
  pub last_status : List ServerStatus
  pub msgs : Notifs

abbrev pub Act : Type 0 → Type 0 → Type 0
Act V A = Bot V → A × Bot V

module _ {V : Type 0} where
  abbrev pub pure : {A : Type 0} → A → Act V A
  pure a b = (a, b)

  abbrev pub gets : {A : Type 0} → (Bot V → A) → Act V A
  gets f b = (f b, b)

  infixl 5 ◌>>=◌ ◌>>◌
  abbrev pub ◌>>=◌ : {A B : Type 0} → Act V A → (A → Act V B) → Act V B
  ◌>>=◌ m f b = let r = m b in f r.0 r.1

  abbrev pub ◌>>◌ : {A B : Type 0} → Act V A → Act V B → Act V B
  m >> k = m >>= λ _. k

  unfoldable pub note : Effect V → Act V (Unit {0})
  note e b = (tt, record b { log = e ∷ b.log })

  -- What happens to the file of a `DelOnDrop` that is dropped, if there is one.
  unfoldable pub drop_file : Option Text → Act V (Unit {0})
  unfolding note
  drop_file none b = (tt, b)
  drop_file (some path) b = note (removed_file path) b

module _ {V : Type 0} (env : Env V) where
  -- `send_command` of comm.rs.
  unfoldable pub send_command : NetCommand V → Act V (Reply V)
  unfolding note
  send_command cmd b = (env.ask b.log cmd, (note (asked cmd) b).1)

  -- `send_message`: the id of the message, if it is sent.
  unfoldable pub send_message : ℕ → CreateMessage → Act V (Option ℕ)
  unfolding note
  send_message channel msg b = (env.send_message b.log channel msg, (note (sent channel msg) b).1)

  unfoldable pub say : ℕ → CreateMessage → Act V (Unit {0})
  unfolding send_message
  say channel msg b = (tt, (send_message channel msg b).1)

  unfoldable pub get_message : ℕ → ℕ → Act V (Option Fetched)
  unfolding note
  get_message channel id b = (env.get_message b.log channel id, (note (fetched channel id) b).1)

  unfoldable pub count_members : Act V ℕ
  unfolding note count_people
  count_members b = (count_people (env.members b.log), (note counted b).1)

  -- `with_config_mut`: the change is made, also where its way to the file fails.
  unfoldable pub with_config_mut : {A : Type 0} → (Bot V → A × Bot V) → Act V (Option A)
  unfolding note
  with_config_mut f b =
      let r = f b in (if env.flush r.1.log then some r.0 else none, (note flushed r.1).1)
