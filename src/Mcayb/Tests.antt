-- ===== src/Mcayb/Tests.antt =====
-- mcayb/src: concrete data for the theorems on the bot.
pub mod Rooms
pub mod Menus
pub mod Downloads
pub mod Events
use Prim.Native.Nat.{compare, Ordering}
use mind_craft.Base.{
  ℕ, ◌^◌, ◌<◌, ltb, arith, Text, codes, Bool, true, false, Option, none, some, List, [], ◌∷◌, ◌≡◌,
  refl, ◌==◌, if◌then◌else◌, text_eq,
}
use mind_craft.Yapper.Types.{
  Versions, ModInfo, NetCommand, list_servers, server_command, notifications, ServerCommand,
  Response, ServerStatus, Status, idle, Notification, backup_progress,
}
use mind_craft.Mcayb.Menus.{MenuHistory, new_menu}
use mind_craft.Mcayb.Chat.{
  Env, Bot, Effect, Reply, response, failed, CommError, io_error, timed_out, Fetched, PollData,
  PollResults, OngoingPoll, PollKey, mod_poll, PollKind, install, remove, Polls,
}
use mind_craft.Mcayb.Notices.{new_notifs, the_groups}
use mind_craft.Mcayb.Presses.Numbers.{HasNumbers}

abbrev pub versions : Versions ℕ
versions = record { new = λ _. 0; cmp = compare; eq = λ a b. a == b; show = λ _. codes "1.0" }

abbrev pub info : ModInfo ℕ
info = record {
  filename = codes "a.jar";
  path = codes "./mod_1_temp.bin";
  mod_id = codes "a";
  name = none;
  description = none;
  version = 1;
  logo = none;
  url = none;
  credits = none;
  authors = none;
  dependencies = [];
}

abbrev pub server : ServerStatus
server = record { name = codes "s"; path = codes "/s"; status = idle }

abbrev answer_server : ServerCommand ℕ → Reply ℕ
answer_server (ServerCommand.list_mods _ _) = response (Response.mods [] true)
answer_server ServerCommand.status = response (Response.status server)
answer_server _ = response Response.ok

abbrev answer : NetCommand ℕ → Reply ℕ
answer list_servers = response (Response.list (server ∷ []))
answer (server_command _ cmd) = answer_server cmd
answer notifications = response (Response.notifications (backup_progress (codes "s") 1 2 ∷ []))

-- A poll with two votes for and one against.
abbrev pub results : PollResults
results = record { is_finalized = false; answer_counts = (1, 2) ∷ (2, 1) ∷ [] }

abbrev pub poll_message : Fetched
poll_message = record {
  id = 9;
  attachments = [];
  poll = some (record { answers = 1 ∷ 2 ∷ []; results = some results });
}

abbrev show_number : ℕ → Text
show_number n = n ∷ []

abbrev read_number : Text → Option ℕ
read_number [] = none
read_number (n ∷ _) = if ltb n (2 ^ 64) then some n else none

-- A daemon and a Discord that answer everything; a number is shown as one character.
abbrev pub env : Env ℕ
env = record {
  versions = versions;
  ask = λ _ cmd. answer cmd;
  send_message = λ _ _ _. some 9;
  get_message = λ _ _ _. some poll_message;
  members = λ _. some true ∷ some false ∷ some false ∷ none ∷ some false ∷ some false ∷ [];
  flush = λ _. true;
  show_kind = λ _. codes "error";
  show_history = λ _. codes "history";
  show_mb = show_number;
  show_percent = λ _ _. codes "50";
  debug = λ t. t;
  parse_u64 = read_number;
  show_u64 = show_number;
  decode_id = read_number;
}

read_number-below : (t : Text) (n : ℕ) → read_number t ≡ some n → n < 2 ^ 64
read_number-below [] n e = absurd (ground arith)
read_number-below (x ∷ _) n e = ground (arith, e)

pub env-HasNumbers : HasNumbers env
env-HasNumbers = record { reads_back = λ n lt. ground arith; is_u64 = read_number-below }

abbrev pub key : PollKey
key = mod_poll (codes "s") (codes "a")

abbrev pub the_poll : OngoingPoll ℕ
the_poll = record { channel = 7; poll = 9; kind = remove (codes "s") info }

abbrev pub bot : Bot ℕ
bot = record {
  log = [];
  notifications = 7;
  polls = [];
  saved_status = [];
  last_status = [];
  msgs = new_notifs the_groups;
}

abbrev pub polling_bot : Bot ℕ
polling_bot = record bot { polls = (key, the_poll) ∷ [] }
