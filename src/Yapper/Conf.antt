-- ===== src/Yapper/Conf.antt =====
-- yapper/src/conf.rs: a configuration behind a lock and the file that it is kept in. The crate serde_json is
-- a parameter; `Calls` says which of the calls of one change fail.
pub mod Durable
pub mod Tests
use mind_craft.Base.{
  ℕ, zero, suc, ◌+◌, ◌-◌, Bool, true, false, Option, none, some, List, [], ◌∷◌, ◌++◌, length, take,
  drop, replicate, if◌then◌else◌, Result, ok, err,
}
use mind_craft.Yapper.ModParser.Parse.{Bytes}

-- `to_writer_pretty`, `from_reader` and `T::default()`.
pub record Serde (T : Type 0) : Type 0 where
  pub write : T → Option Bytes
  pub read : Bytes → Option T
  pub initial : T

-- An open file with the position of its cursor.
pub record OpenFile : Type 0 where
  pub content : Bytes
  pub position : ℕ

-- `ConfigInner`.
pub record Config (T : Type 0) : Type 0 where
  pub config : T
  pub file : OpenFile

-- Which calls work. A `write_all` that fails has written some bytes.
pub record Calls : Type 0 where
  pub opened : Bool
  pub set_len : Bool
  pub seek : Bool
  pub written : Option ℕ
  pub flush : Bool

-- `io::Result<()>` of a call, with the file after it.
abbrev pub Call : Type 0
Call = OpenFile → Bool × OpenFile

abbrev pub and_then : Call → Call → Call
and_then first next f = let r = first f in if r.0 then next r.1 else (false, r.1)

-- A write behind the end leaves zeros in between.
unfoldable pub write_at : ℕ → Bytes → Bytes → Bytes
write_at position bytes content =
    take position (content ++ replicate (position - length content) 0)
    ++ bytes
    ++ drop (position + length bytes) content

unfoldable pub write_bytes : Bytes → OpenFile → OpenFile
unfolding write_at
write_bytes bytes f = record {
  content = write_at f.position bytes f.content;
  position = f.position + length bytes;
}

abbrev pub set_len_zero : Bool → Call
set_len_zero true f = (true, record f { content = [] })
set_len_zero false f = (false, f)

abbrev pub seek_start : Bool → Call
seek_start true f = (true, record f { position = 0 })
seek_start false f = (false, f)

abbrev pub write_all : Option ℕ → Bytes → Call
unfolding write_bytes
write_all none bytes f = (true, write_bytes bytes f)
write_all (some n) bytes f = (false, write_bytes (take n bytes) f)

module _ {T : Type 0} (serde : Serde T) where
  abbrev pub write_config : Calls → Option Bytes → Call
  write_config calls none = λ f. (false, f)
  write_config calls (some bytes) = and_then (write_all calls.written bytes) (λ f. (calls.flush, f))

  -- The `try` block: the file is emptied before the configuration is written.
  unfoldable pub save : Calls → T → Call
  save calls config =
      and_then (set_len_zero calls.set_len)
        (and_then (seek_start calls.seek) (write_config calls (serde.write config)))

  -- The change stays in memory also where its way to the file fails.
  unfoldable pub with_config_mut :
      {R : Type 0} → (T → R × T) → Calls → Config T → Result R × Config T
  unfolding save
  with_config_mut f calls c =
      let (r, config) = f c.config in
      let (saved, file) = save calls config c.file in
      (
        if saved then ok r else err "Failed to flush configuration changes",
        record { config = config; file = file },
      )

  opened_config : Bytes → Option T → Result (Config T)
  opened_config content none = err "Failed to parse config file"
  opened_config content (some config) =
      ok
        (record { config = config; file = record { content = content; position = length content } })

  created_config : Bool × OpenFile → Result (Config T)
  created_config (true, file) = ok (record { config = serde.initial; file = file })
  created_config (false, file) = err "Failed to write the default config"

  abbrev pub new_file : OpenFile
  new_file = record { content = []; position = 0 }

  -- The result, and what is at the path after it.
  unfoldable pub init : Calls → Option Bytes → Result (Config T) × Option Bytes
  unfolding opened_config created_config
  init calls none =
      if calls.opened
      then (let written =
            write_config (record calls { flush = true }) (serde.write serde.initial) new_file in
          (created_config written, some written.1.content))
      else (err "Failed to create the config file", none)
  init calls (some content) = (
    if calls.opened
        then opened_config content (serde.read content)
        else err "Failed to open the config file",
    some content,
  )
