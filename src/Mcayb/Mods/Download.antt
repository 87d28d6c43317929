-- ===== src/Mcayb/Mods/Download.antt =====
-- mcayb/src/process_mods.rs: the task that downloads a mod and reads it. What the network, the file
-- system and `parse_mod` give is an argument.
pub mod Outcome
use mind_craft.Base.{
  ℕ, Text, codes, text_eq, Bool, true, false, not, ◌&&◌, Option, none, some, List, [], ◌∷◌, ◌++◌,
  if◌then◌else◌, any, retain, String, Result, ok, err, panic, diverge,
}
use mind_craft.Yapper.Types.{ModInfo}
use mind_craft.Mcayb.Mods.{
  IdleMod, DownloadedMod, ProcessedMod, FailedMod, ModInstalling, waiting, downloaded, processed,
  failed_mod, Slots,
}

-- The list of mods, and the files in the directory of the bot.
pub record Store (S : Type 0) : Type 0 where
  pub mods : S
  pub files : List Text

-- The answer to the request, the numbers that are drawn with whether the system lets the bot create a
-- file, whether all data comes, and what `parse_mod` gives for a path.
pub record Net (V : Type 0) : Type 0 where
  pub reached : Bool
  pub draws : List (ℕ × Bool)
  pub received : Bool
  pub parse_mod : Text → Result (ModInfo V)
  pub show_number : ℕ → Text
  pub show_error : String → Text

abbrev pub has_file : Text → List Text → Bool
has_file path files = any (λ f. text_eq f path) files

abbrev pub remove_file : Text → List Text → List Text
remove_file path files = retain (λ f. not (text_eq f path)) files

module _ {V S : Type 0} (slots : Slots S (ModInstalling V)) (net : Net V) where
  abbrev temp_path : ℕ → Text
  temp_path num = codes "./mod_" ++ net.show_number num ++ codes "_temp.bin"

  -- The loop over random names until one is free; `none` while none of the draws is.
  unfoldable pub create_temp : List (ℕ × Bool) → List Text → Option Text
  create_temp [] files = none
  create_temp ((num, allowed) ∷ draws) files =
      let later = create_temp draws files in
      if allowed && not (has_file (temp_path num) files) then some (temp_path num) else later

  abbrev set_mod : ℕ → ModInstalling V → Store S → Store S
  set_mod slot m s = record s { mods = slots.set slot m s.mods }

  -- After `parse_mod`; the file is removed unless a mod was read from it.
  after_parse : ℕ → IdleMod → Text → Result (ModInfo V) → Store S → Result (Unit {0}) × Store S
  after_parse slot m path (ok info) s = (
    ok tt,
    set_mod slot
        (processed (record { server = m.server; info = record info { filename = m.att_name } })) s,
  )
  after_parse slot m path (err e) s = (err e, record s { files = remove_file path s.files })
  after_parse slot m path panic s = (panic, record s { files = remove_file path s.files })
  after_parse slot m path diverge s = (diverge, s)

  -- After the copy of the data, by whether it worked.
  after_copy : ℕ → IdleMod → Text → Bool → Store S → Result (Unit {0}) × Store S
  unfolding after_parse
  after_copy slot m path true s = after_parse slot m path (net.parse_mod path) (
      set_mod slot (downloaded (record { server = m.server; att_name = m.att_name; file = path }))
        s)
  after_copy slot m path false s =
      (err "Error downloading data", record s { files = remove_file path s.files })

  after_create : ℕ → IdleMod → Option Text → Store S → Result (Unit {0}) × Store S
  unfolding after_copy
  after_create slot m none s = (diverge, s)
  after_create slot m (some path) s =
      after_copy slot m path net.received (record s { files = path ∷ s.files })

  after_request : ℕ → IdleMod → Bool → Store S → Result (Unit {0}) × Store S
  unfolding create_temp after_create
  after_request slot m true s = after_create slot m (create_temp net.draws s.files) s
  after_request slot m false s = (err "URL get request failed", s)

  unfoldable pub mod_thread_inner : ℕ → IdleMod → Store S → Result (Unit {0}) × Store S
  unfolding after_request
  mod_thread_inner slot m s = after_request slot m net.reached s

  -- What `mod_thread` does with the result.
  report : ℕ → IdleMod → Result (Unit {0}) → Store S → Result (Unit {0}) × Store S
  report slot m (ok _) s = (ok tt, s)
  report slot m (err e) s = (
    ok tt,
    set_mod slot
        (failed_mod (record { server = m.server; att_name = m.att_name; err = net.show_error e }))
        s,
  )
  report slot m panic s = (panic, s)
  report slot m diverge s = (diverge, s)

  -- The slot of the mod, the result and what is left.
  unfoldable pub mod_thread : IdleMod → Store S → ℕ × Result (Unit {0}) × Store S
  unfolding mod_thread_inner report
  mod_thread m s =
      let (slot, mods) = slots.allocate (waiting m) s.mods in
      let (r, s') = mod_thread_inner slot m (record s { mods = mods }) in
      let (done, s'') = report slot m r s' in (slot, done, s'')
