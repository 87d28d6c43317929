-- ===== src/Mcayb/Mods.antt =====
-- mcayb/src/bot.rs and process_mods.rs: the mods that are on their way to a server, from the download
-- to the poll. `AllocVec` is a parameter.
pub mod Download
pub mod Rounds
use mind_craft.Base.{
  ℕ, Text, codes, Bool, not, contains_key, Option, none, some, List, [], ◌∷◌, ◌++◌, insert,
  if◌then◌else◌,
}
use mind_craft.Yapper.Types.{ModInfo}
use mind_craft.Yapper.Escape.{escape_discord}
use mind_craft.Mcayb.Chat.{
  Env, Bot, Act, gets, pure, ◌>>=◌, ◌>>◌, PollKey, mod_poll, PollKind, install,
}
use mind_craft.Mcayb.Polls.Create.{create_poll}
use mind_craft.Mcayb.Guild.{watch_servers, watch_notifs}
use mind_craft.Mcayb.Notices.{Run, then_run, set_msgs, send_msg, delete_msg}

pub record IdleMod : Type 0 where
  pub server : Text
  pub att_name : Text
  pub url : Text

pub record DownloadedMod : Type 0 where
  pub server : Text
  pub att_name : Text
  pub file : Text

pub record ProcessedMod (V : Type 0) : Type 0 where
  pub server : Text
  pub info : ModInfo V

pub record FailedMod : Type 0 where
  pub server : Text
  pub att_name : Text
  pub err : Text

pub data ModInstalling (V : Type 0) : Type 0 where
  waiting : IdleMod → ModInstalling V
  downloaded : DownloadedMod → ModInstalling V
  processed : ProcessedMod V → ModInstalling V
  failed_mod : FailedMod → ModInstalling V

-- What the bot uses of `AllocVec`: `allocate`, `[slot]`, `[slot] = item`, `deallocate`, `enumerate`,
-- `is_empty`.
pub record Slots (S A : Type 0) : Type 0 where
  pub allocate : A → S → ℕ × S
  pub get : ℕ → S → Option A
  pub set : ℕ → A → S → S
  pub deallocate : ℕ → S → S
  pub enumerate : S → List (ℕ × A)
  pub is_empty : S → Bool

module _ {V : Type 0} (env : Env V) where
  -- One mod of the loop: what is told of it, and whether its slot is to be freed.
  unfoldable pub watch_mod : ℕ → ℕ → ModInstalling V → Run V (List ℕ)
  unfolding then_run escape_discord send_msg delete_msg create_poll
  watch_mod channel idx (waiting m) =
      then_run
        (send_msg env (codes "install_mod") m.server channel
          (codes "\"" ++ escape_discord m.att_name ++ codes "\" sent for downloading  "))
        λ _. pure (some [])
  watch_mod channel idx (downloaded m) =
      then_run
        (send_msg env (codes "install_mod") m.server channel
          (codes "Downloaded \"" ++ escape_discord m.att_name ++ codes "\""))
        λ _. pure (some [])
  watch_mod channel idx (processed m) =
      then_run (delete_msg env (codes "install_mod") m.server channel) λ _. (do
        create_poll env (mod_poll m.server m.info.mod_id) (install m.server m.info)
        pure (some (idx ∷ [])))
  watch_mod channel idx (failed_mod m) =
      then_run
        (send_msg env (codes "install_mod") m.server channel (
          codes "Error processing mod \""
          ++ escape_discord m.att_name
          ++ codes "\": "
          ++ env.debug m.err))
        λ _. pure (some (idx ∷ []))

  unfoldable pub watch_mods : ℕ → List (ℕ × ModInstalling V) → Run V (List ℕ)
  unfolding then_run watch_mod
  watch_mods channel [] = pure (some [])
  watch_mods channel ((idx, m) ∷ mods) =
      then_run (watch_mod channel idx m)
        λ freed. then_run (watch_mods channel mods) λ rest. pure (some (freed ++ rest))

  -- `msgs.get("install_mod").servers.clear()`, where no mod is on its way.
  unfoldable pub forget_installs : Bool → Run V (Unit {0})
  unfolding insert set_msgs contains_key
  forget_installs empty b =
      if not empty
      then (some tt, b)
      else if contains_key (codes "install_mod") b.msgs
      then set_msgs (some (insert (codes "install_mod") [] b.msgs)) b
      else (none, b)

module _ {V S : Type 0} (env : Env V) (slots : Slots S (ModInstalling V)) where
  deallocate_all : List ℕ → S → S
  deallocate_all [] mods = mods
  deallocate_all (idx ∷ to_remove) mods = deallocate_all to_remove (slots.deallocate idx mods)

  -- One round.
  unfoldable pub guild_loop : S → Run V S
  unfolding watch_servers then_run watch_notifs watch_mods deallocate_all forget_installs
  guild_loop mods = do
    channel ← gets (λ b. b.notifications)
    watch_servers env channel
    then_run (watch_notifs env channel) λ _.
        then_run (forget_installs env (slots.is_empty mods)) λ _.
          then_run (watch_mods env channel (slots.enumerate mods))
            λ to_remove. pure (some (deallocate_all to_remove mods))
