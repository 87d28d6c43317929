-- ===== src/Mcayb/Tests/Downloads.antt =====
-- mcayb/src/bot.rs and process_mods.rs: the theorems on downloads and rounds at concrete inputs.
use mind_craft.Base.{
  is_some, ℕ, codes, true, not, ◌==◌, Option, none, some, List, [], ◌∷◌, ◌≡◌, refl, ◌⊎◌,
  if◌then◌else◌, length, arith, retain, is_empty, ok,
}
use mind_craft.Mcayb.Mods.{IdleMod, ModInstalling, Slots, guild_loop, processed}
use mind_craft.Mcayb.Guild.Safe.{HasGroups}
use mind_craft.Mcayb.Mods.Rounds.{new_notifs-HasGroups, guild_loop-HasGroups}
use mind_craft.Mcayb.Mods.Download.{Store, Net, mod_thread}
use mind_craft.Mcayb.Mods.Download.Outcome.{IsLawful, IsRead, IsFailed, mod_thread-outcome}
use mind_craft.Mcayb.Tests.{env, info, bot}

-- Slots as a list of the writes, the last one first.
abbrev pub Items : Type 0
Items = List (ℕ × ModInstalling ℕ)

abbrev item_at : ℕ → Items → Option (ModInstalling ℕ)
item_at i [] = none
item_at i ((k, a) ∷ items) = if k == i then some a else item_at i items

abbrev pub slots : Slots Items (ModInstalling ℕ)
slots = record {
  allocate = λ a items. (length items, (length items, a) ∷ items);
  get = item_at;
  set = λ i a items. (i, a) ∷ items;
  deallocate = λ i items. retain (λ (x : ℕ × ModInstalling ℕ). not (x.0 == i)) items;
  enumerate = λ items. items;
  is_empty = is_empty;
}

item_at_first : (i : ℕ) (a : ModInstalling ℕ) (items : Items) → item_at i ((i, a) ∷ items) ≡ some a
item_at_first i a items = ground arith

slots-IsLawful : IsLawful slots
slots-IsLawful = record {
  get-allocate = λ a items. item_at_first (length items) a items;
  get-set = λ i a old items h. item_at_first i a items;
}

abbrev pub a_mod : ModInstalling ℕ
a_mod = processed (record { server = codes "s"; info = info })

guild_loop-HasGroups_example :
    let (left, after) = guild_loop env slots ((0, a_mod) ∷ []) bot in
    (is_some left ≡ true) × HasGroups after.msgs × (after.last_status ≡ bot.last_status)
guild_loop-HasGroups_example =
    guild_loop-HasGroups env slots ((0, a_mod) ∷ []) bot new_notifs-HasGroups

abbrev net : Net ℕ
net = record {
  reached = true;
  draws = (1, true) ∷ [];
  received = true;
  parse_mod = λ path. ok info;
  show_number = λ n. n ∷ [];
  show_error = λ _. codes "error";
}

abbrev waiting_mod : IdleMod
waiting_mod = record { server = codes "s"; att_name = codes "a.jar"; url = codes "https://x" }

abbrev store : Store Items
store = record { mods = []; files = [] }

mod_thread-outcome_example :
    let (slot, done, after) = mod_thread slots net waiting_mod store in
    (done ≡ ok tt)
    × (IsRead slots net waiting_mod [] slot after ⊎ IsFailed slots net waiting_mod [] slot after)
mod_thread-outcome_example =
    mod_thread-outcome slots net waiting_mod store slots-IsLawful (λ path. refl) refl
