-- ===== src/SvManage/Commands.antt =====
-- sv_manage/src/server_loop.rs: the commands that a client sends to the thread of a server, and how the
-- thread answers them while the server is stopped (`process_command_idle`) and while it runs
-- (`process_command_inloop`).
pub mod Keeps
pub mod Answers
use mind_craft.Base.{
  ℕ, Text, codes, Bool, true, false, not, Option, none, some, List, [], ◌∷◌, ◌++◌, Result, ok, err,
  panic, diverge, if◌then◌else◌,
}
use mind_craft.Yapper.Types.{
  ModInfo, DepResolveMode, Response, mods, command_output, no_backup, invalid_state, mod_found,
}
use mind_craft.SvManage.World.{World, Host, Exec, pure, lift, modify, match_option, ◌>>=◌, ◌>>◌}
use mind_craft.SvManage.Files.{syscall, is_dir}
use mind_craft.SvManage.ListMods
use mind_craft.SvManage.Paging.{page_of}
use mind_craft.SvManage.Install
use mind_craft.SvManage.Install.{get_backup_path, get_mods_path}
use mind_craft.SvManage.Deps

pub data Command (V : Type 0) : Type 0 where
  do_nothing : Command V
  console : Text → Command V
  backup restore : Command V
  list_mods : ℕ → ℕ → Command V
  install_mod : Text → Text → Command V
  uninstall_mod : Text → Command V
  update_mod : Text → Text → Command V
  query_mod : Text → Command V
  generate_mods_zip : Command V
  resolve_deps : DepResolveMode → List (ModInfo V) → Command V

-- What the thread asks of mc_rcon: `send_command` of a client that is logged in.
abbrev pub Rcon : Type 0
Rcon = Text → Result Text

module _ {V : Type 0} (host : Host V) where
  unfoldable pub list_mods_paged : ℕ → ℕ → Exec (World V) (Response V)
  list_mods_paged per_page page = do
    mods_folder ← get_mods_path host
    all ← ListMods.list_mods host mods_folder
    part ← lift (page_of per_page page all)
    pure (mods part.0 part.1)

  unfoldable pub query : Text → Exec (World V) (Response V)
  query mod_id = do
    mods_folder ← get_mods_path host
    info ← ListMods.query_mod host mods_folder mod_id
    pure (mod_found info)

  -- The answer, and the command that is deferred.
  unfoldable pub process_command_idle : Command V → Exec (World V) (Response V × Command V)
  process_command_idle Command.backup = pure (Response.ok, Command.backup)
  process_command_idle Command.restore = do
    path ← get_backup_path host
    there ← is_dir path
    pure (if not there then (no_backup, do_nothing) else (Response.ok, Command.restore))
  process_command_idle (Command.list_mods per_page page) = do
    r ← list_mods_paged per_page page
    pure (r, do_nothing)
  process_command_idle (Command.query_mod mod_id) = do r ← query mod_id; pure (r, do_nothing)
  process_command_idle (Command.install_mod path filename) = do
    r ← Install.install_mod host path filename
    pure (r, do_nothing)
  process_command_idle (Command.update_mod path filename) = do
    r ← Install.update_mod host path filename
    pure (r, do_nothing)
  process_command_idle (Command.uninstall_mod mod_id) = do
    r ← Install.uninstall_mod host mod_id
    pure (r, do_nothing)
  process_command_idle Command.generate_mods_zip = pure (Response.ok, Command.generate_mods_zip)
  process_command_idle (Command.resolve_deps mode new_mods) = do
    r ← Deps.resolve_deps host new_mods mode
    pure (r, do_nothing)
  process_command_idle (console _) = pure (invalid_state, do_nothing)
  process_command_idle do_nothing = pure (invalid_state, do_nothing)

  -- A line for the standard input of the server, with `write_all` and `flush`.
  unfoldable pub write_line : Text → Exec (World V) (Unit {0})
  write_line cmd = do
    syscall "write_all"
    modify (λ w. record w { stdin = w.stdin ++ (cmd ++ codes "\n") ∷ [] })
    syscall "flush"

  unfoldable pub run_console : Option Rcon → Text → Exec (World V) (Response V)
  run_console (some client) cmd = do output ← lift (client cmd); pure (command_output output)
  run_console none cmd = do
    write_line cmd
    pure (
        command_output (
          codes
            "Command successfully sent, but output cannot be displayed because RCON is not enabled"))

  unfoldable pub process_command_inloop : Option Rcon → Command V → Exec (World V) (Response V)
  process_command_inloop client (console cmd) = run_console client cmd
  process_command_inloop client (Command.list_mods per_page page) = list_mods_paged per_page page
  process_command_inloop client (Command.query_mod mod_id) = query mod_id
  process_command_inloop client (Command.install_mod path filename) =
      Install.install_mod host path filename
  process_command_inloop client (Command.update_mod path filename) =
      Install.update_mod host path filename
  process_command_inloop client (Command.uninstall_mod mod_id) = Install.uninstall_mod host mod_id
  process_command_inloop client Command.generate_mods_zip = pure Response.err
  process_command_inloop client (Command.resolve_deps mode new_mods) =
      Deps.resolve_deps host new_mods mode
  process_command_inloop client Command.backup = pure invalid_state
  process_command_inloop client Command.restore = pure invalid_state
  process_command_inloop client do_nothing = pure invalid_state
