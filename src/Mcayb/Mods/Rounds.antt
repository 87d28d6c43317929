-- ===== src/Mcayb/Mods/Rounds.antt =====
-- mcayb/src/bot.rs: what a round of `guild_loop` keeps.
use mind_craft.Base.{
  ℕ, Text, some, codes, Bool, true, false, List, [], ◌∷◌, ◌≡◌, refl, contains_key, text_eq, is_some,
  arith,
}
use mind_craft.Mcayb.Chat.{pure, Env, Bot, mod_poll, install}
use mind_craft.Mcayb.Polls.Create.{create_poll}
use mind_craft.Mcayb.Polls.Create.Quiet.{create_poll-IsQuiet}
use mind_craft.Mcayb.Polls.Table.{stays, key_of}
use mind_craft.Mcayb.Polls.Create.Evolution.{create_poll-Evolves}
use mind_craft.Mcayb.Guild.{watch_servers, watch_notifs}
use mind_craft.Mcayb.Notices.{then_run, send_msg, the_groups, new_notifs, delete_msg, set_msgs}
use mind_craft.Mcayb.Guild.Safe.{
  IsSteady-refl, IsSteady-of_quiet, HasGroups, install_mod-IsKnown, IsSteady-HasGroups, IsSafe,
  IsSafe-done, IsSafe-after, then_run-IsSafe, contains_key-insert,
}
use mind_craft.Mcayb.Guild.Groups.{
  send_msg-IsSafe, delete_msg-IsSafe, watch_servers-IsSteady, watch_notifs-IsSafe,
}
use mind_craft.Mcayb.Mods.{
  ModInstalling, waiting, downloaded, processed, failed_mod, Slots, watch_mod, watch_mods,
  forget_installs, guild_loop,
}

module _ {V : Type 0} (env : Env V) where
  -- A message for a mod that is on its way.
  tell-IsSafe :
      (server : Text) (channel : ℕ) (text : Text) (freed : List ℕ) (b : Bot V)
      → IsSafe b (
          then_run
            (send_msg env (codes "install_mod") server channel text)
            (λ _. pure (some freed))
            b)
  tell-IsSafe server channel text freed b =
      then_run-IsSafe (send_msg env (codes "install_mod") server channel text) _ b
        (send_msg-IsSafe env (codes "install_mod") server channel text b install_mod-IsKnown)
        λ _ c. IsSafe-done c c freed (IsSteady-refl c)

  watch_mod-IsSafe :
      (channel idx : ℕ) (m : ModInstalling V) (b : Bot V) → IsSafe b (watch_mod env channel idx m b)
  unfolding watch_mod key_of
  watch_mod-IsSafe channel idx (waiting m) b = tell-IsSafe m.server channel _ [] b
  watch_mod-IsSafe channel idx (downloaded m) b = tell-IsSafe m.server channel _ [] b
  watch_mod-IsSafe channel idx (failed_mod m) b = tell-IsSafe m.server channel _ (idx ∷ []) b
  watch_mod-IsSafe channel idx (processed m) b =
      then_run-IsSafe (delete_msg env (codes "install_mod") m.server channel) _ b
        (delete_msg-IsSafe env (codes "install_mod") m.server channel b install_mod-IsKnown)
        λ _ c.
          let key = mod_poll m.server m.info.mod_id in
          let q = create_poll-IsQuiet env key (install m.server m.info) c in
          IsSafe-done c (create_poll env key (install m.server m.info) c).1 (idx ∷ []) (
            IsSteady-of_quiet c _ q.last_status q.msgs
              (create_poll-Evolves env key (install m.server m.info) c refl))

  watch_mods-IsSafe :
      (channel : ℕ) (mods : List (ℕ × ModInstalling V)) (b : Bot V)
      → IsSafe b (watch_mods env channel mods b)
  unfolding watch_mods
  watch_mods-IsSafe channel [] b = IsSafe-done b b [] (IsSteady-refl b)
  watch_mods-IsSafe channel ((idx, m) ∷ mods) b =
      then_run-IsSafe (watch_mod env channel idx m) _ b (watch_mod-IsSafe channel idx m b)
        λ freed c.
          then_run-IsSafe (watch_mods env channel mods) _ c (watch_mods-IsSafe channel mods c)
            λ rest d. IsSafe-done d d _ (IsSteady-refl d)

  forget-IsSafe :
      (there : Bool) (b : Bot V)
      → contains_key (codes "install_mod") b.msgs ≡ there
      → IsSafe b (forget_installs env true b)
  unfolding forget_installs set_msgs
  forget-IsSafe true b e = rw e (
      IsSafe-done b _ tt (record {
        last_status = refl;
        groups = λ g h. contains_key-insert g (codes "install_mod") [] b.msgs h;
        polls = stays b.polls;
      }))
  forget-IsSafe false b e = rw e (record {
    steady = IsSteady-refl b;
    runs = λ g. absurd (ground (arith, e, install_mod-IsKnown b.msgs g));
  })

  forget_installs-IsSafe : (empty : Bool) (b : Bot V) → IsSafe b (forget_installs env empty b)
  unfolding forget_installs
  forget_installs-IsSafe true b = forget-IsSafe (contains_key (codes "install_mod") b.msgs) b refl
  forget_installs-IsSafe false b = IsSafe-done b b tt (IsSteady-refl b)

module _ {V S : Type 0} (env : Env V) (slots : Slots S (ModInstalling V)) where
  pub guild_loop-IsSafe : (mods : S) (b : Bot V) → IsSafe b (guild_loop env slots mods b)
  unfolding guild_loop
  guild_loop-IsSafe mods b =
      let channel = b.notifications in
      let c = (watch_servers env channel b).1 in
      IsSafe-after b c _ (watch_servers-IsSteady env channel b) (
        then_run-IsSafe (watch_notifs env channel) _ c (watch_notifs-IsSafe env channel c) λ _ d.
          then_run-IsSafe (forget_installs env (slots.is_empty mods)) _ d
            (forget_installs-IsSafe env (slots.is_empty mods) d)
            λ _ e.
              then_run-IsSafe (watch_mods env channel (slots.enumerate mods)) _ e
                (watch_mods-IsSafe env channel (slots.enumerate mods) e)
                λ to_remove f. IsSafe-done f f _ (IsSteady-refl f))

-- The messages that a bot starts with have all groups.
pub new_notifs-HasGroups : HasGroups (new_notifs the_groups)
unfolding HasGroups new_notifs contains_key text_eq
new_notifs-HasGroups = (refl, (refl, (refl, (refl, (refl, tt)))))

-- A round does not panic, if all groups of messages are there: `Notifs::get` finds each group that it is
-- called for. It keeps all groups, and the listing with which the next round compares, whatever
-- listing came.
pub guild_loop-HasGroups :
    {V S : Type 0} (env : Env V) (slots : Slots S (ModInstalling V)) (mods : S) (b : Bot V)
    → HasGroups b.msgs
    → let (left, after) = guild_loop env slots mods b in
      (is_some left ≡ true) × HasGroups after.msgs × (after.last_status ≡ b.last_status)
guild_loop-HasGroups env slots mods b g =
    let safe = guild_loop-IsSafe env slots mods b in
    (
      safe.runs g,
      IsSteady-HasGroups b (guild_loop env slots mods b).1 safe.steady g,
      safe.steady.last_status,
    )
