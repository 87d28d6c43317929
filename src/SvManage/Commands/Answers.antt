-- ===== src/SvManage/Commands/Answers.antt =====
-- sv_manage/src/server_loop.rs: what the answers to commands leave behind.
use mind_craft.Base.{
  Text, ◌≡◌, refl, ◌⊎◌, inl, inr, Bool, true, false, not, if◌then◌else◌, Option, Result, ok, err,
  panic, diverge, arith,
}
use mind_craft.Yapper.Types.{Response, idle}
use mind_craft.SvManage.World.{World, Host, Exec, pure, ◌>>=◌}
use mind_craft.SvManage.World.Ends.{Ends, Ends-bind, Ends-pure, Ends-fail}
use mind_craft.SvManage.Status.{update_status}
use mind_craft.SvManage.Install.{
  Flow, value, returned, finish, install_mod, update_mod, uninstall_mod,
}
use mind_craft.SvManage.Commands.{
  Command, do_nothing, console, backup, restore, generate_mods_zip, Rcon, process_command_idle,
  process_command_inloop,
}

abbrev pub IsIdle : {V : Type 0} → Response V → World V → Type 0
IsIdle _ w = w.shared.status ≡ idle

-- The commands that change mods.
pub data IsModChange {V : Type 0} : Command V → Type 0 where
  installs : {p f : Text} → IsModChange (Command.install_mod p f)
  updates : {p f : Text} → IsModChange (Command.update_mod p f)
  uninstalls : {i : Text} → IsModChange (Command.uninstall_mod i)

-- The command itself or nothing.
abbrev Defers : {V : Type 0} → Command V → Response V × Command V → World V → Type 0
Defers cmd (r, deferred) w = (deferred ≡ do_nothing) ⊎ ((deferred ≡ cmd) × (r ≡ Response.ok))

module _ {V : Type 0} (host : Host V) where
  finish-IsIdle : (r : Result (Flow (Response V))) → Ends IsIdle (finish r)
  unfolding finish update_status ◌>>=◌
  finish-IsIdle (ok (value r)) = record { at = λ w a h. refl }
  finish-IsIdle (ok (returned e)) = Ends-fail e
  finish-IsIdle (err e) = record { at = λ w a h. absurd (ground arith) }
  finish-IsIdle panic = record { at = λ w a h. absurd (ground arith) }
  finish-IsIdle diverge = record { at = λ w a h. absurd (ground arith) }

  change-IsIdle :
      (client : Option Rcon) (cmd : Command V)
      → IsModChange cmd
      → Ends IsIdle (process_command_inloop host client cmd)
  unfolding process_command_inloop install_mod update_mod uninstall_mod
  change-IsIdle client _ installs = Ends-bind _ _ finish-IsIdle
  change-IsIdle client _ updates = Ends-bind _ _ finish-IsIdle
  change-IsIdle client _ uninstalls = Ends-bind _ _ finish-IsIdle

  -- Where a change of mods is answered in the loop of a running server, the status is idle after it.
  pub process_command_inloop-idle :
      (client : Option Rcon) (cmd : Command V) (w : World V) (r : Response V)
      → IsModChange cmd
      → (process_command_inloop host client cmd w).0 ≡ ok r
      → (process_command_inloop host client cmd w).1.shared.status ≡ idle
  process_command_inloop-idle client cmd w r change h = (change-IsIdle client cmd change).at w r h

  passed-Defers :
      (cmd : Command V) (m : Exec (World V) (Response V))
      → Ends (Defers cmd) (m >>= λ r. pure (r, do_nothing))
  passed-Defers cmd m = Ends-bind _ _ λ r. Ends-pure _ λ w. inl refl

  restore-Defers :
      (there : Bool) (w : World V)
      → Defers restore
          (if not there then (Response.no_backup, do_nothing) else (Response.ok, restore))
          w
  restore-Defers true w = inr (refl, refl)
  restore-Defers false w = inl refl

  idle-Defers : (cmd : Command V) → Ends (Defers cmd) (process_command_idle host cmd)
  unfolding process_command_idle
  idle-Defers do_nothing = Ends-pure _ λ w. inl refl
  idle-Defers (console _) = Ends-pure _ λ w. inl refl
  idle-Defers backup = Ends-pure _ λ w. inr (refl, refl)
  idle-Defers restore =
      Ends-bind _ _ λ path. Ends-bind _ _ λ there. Ends-pure _ (restore-Defers there)
  idle-Defers (Command.list_mods n p) = passed-Defers _ _
  idle-Defers (Command.install_mod p f) = passed-Defers _ _
  idle-Defers (Command.uninstall_mod i) = passed-Defers _ _
  idle-Defers (Command.update_mod p f) = passed-Defers _ _
  idle-Defers (Command.query_mod i) = passed-Defers _ _
  idle-Defers generate_mods_zip = Ends-pure _ λ w. inr (refl, refl)
  idle-Defers (Command.resolve_deps mode ms) = passed-Defers _ _

  -- The idle loop defers nothing or the command itself, and the latter only with the answer `Ok`.
  process_command_idle-Defers :
      (cmd deferred : Command V) (w : World V) (r : Response V)
      → (process_command_idle host cmd w).0 ≡ ok (r, deferred)
      → (deferred ≡ do_nothing) ⊎ ((deferred ≡ cmd) × (r ≡ Response.ok))
  process_command_idle-Defers cmd deferred w r h = (idle-Defers cmd).at w (r, deferred) h
