-- ===== src/SvManage/Commands/Keeps.antt =====
-- sv_manage/src/server_loop.rs: every command leaves the notifications in step with the status.
use mind_craft.Base.{Text, ℕ, Option, none, some, List}
use mind_craft.Yapper.Types.{Status, ModInfo, Response, DepResolveMode}
use mind_craft.SvManage.World.{World, Host, Exec, pure, ◌>>=◌, modify}
use mind_craft.SvManage.World.Keeps.{
  Keeps, keeps_rules, Keeps-bind, Keeps-pure, Keeps-gets, Keeps-lift, Keeps-with_context,
}
use mind_craft.SvManage.Files.Keeps.{syscall-Keeps, ensure_dir-Keeps}
use mind_craft.SvManage.Status.Trail.{IsLinked, update_status-IsLinked}
use mind_craft.SvManage.ListMods.Keeps.{list_mods-Keeps, query_mod-Keeps}
use mind_craft.SvManage.Install.{get_path, get_backup_path}
use mind_craft.SvManage.Install.Keeps.{
  IsOpen, get_mods_path-Keeps, install_mod-Keeps, update_mod-Keeps, uninstall_mod-Keeps,
}
use mind_craft.SvManage.Deps.{resolve_deps}
use mind_craft.SvManage.Commands.{
  Command, do_nothing, console, backup, restore, list_mods, install_mod, uninstall_mod, update_mod,
  query_mod, generate_mods_zip, Rcon, list_mods_paged, query, process_command_idle, write_line,
  run_console, process_command_inloop,
}

-- A property that what is written to the server does not touch.
pub record IgnoresStdin {V : Type 0} (P : World V → Type 0) : Type 0 where
  pub on_stdin : (w : World V) (lines : List Text) → P w → P (record w { stdin = lines })

module _ {V : Type 0} (host : Host V) {P : World V → Type 0} (o : IsOpen P)
    (c : IgnoresStdin P) where
  list_mods_paged-Keeps : (per_page page : ℕ) → Keeps P (list_mods_paged host per_page page)
  unfolding list_mods_paged
  list_mods_paged-Keeps per_page page = Keeps-bind _ _ (get_mods_path-Keeps host o) λ mods_folder.
      Keeps-bind _ _ (list_mods-Keeps host o.faults o.cache mods_folder)
        λ all. Keeps-bind _ _ (Keeps-lift _) λ part. Keeps-pure _

  query-Keeps : (mod_id : Text) → Keeps P (query host mod_id)
  unfolding query
  query-Keeps mod_id = Keeps-bind _ _ (get_mods_path-Keeps host o) λ mods_folder.
      Keeps-bind _ _ (query_mod-Keeps host o.faults o.cache mods_folder mod_id) λ info. Keeps-pure _

  resolve_deps-Keeps :
      (the_mods : List (ModInfo V)) (mode : DepResolveMode)
      → Keeps P (resolve_deps host the_mods mode)
  unfolding resolve_deps
  resolve_deps-Keeps the_mods mode = Keeps-bind _ _ (get_mods_path-Keeps host o) λ mods_folder.
      Keeps-bind _ _ (Keeps-with_context _ _ (ensure_dir-Keeps o.faults o.files mods_folder))
        λ _. Keeps-bind _ _ (list_mods-Keeps host o.faults o.cache mods_folder) λ all. Keeps-pure _

  get_backup_path-Keeps : Keeps P (get_backup_path host)
  unfolding get_backup_path get_path
  get_backup_path-Keeps = search keeps_rules depth 30

  with_nothing-Keeps :
      (m : Exec (World V) (Response V))
      → Keeps P m
      → Keeps {A = Response V × Command V} P (m >>= λ r. pure (r, do_nothing))
  with_nothing-Keeps m k = Keeps-bind _ _ k λ r. Keeps-pure _

  process_command_idle-Keeps : (cmd : Command V) → Keeps P (process_command_idle host cmd)
  unfolding process_command_idle
  process_command_idle-Keeps do_nothing = Keeps-pure _
  process_command_idle-Keeps (console _) = Keeps-pure _
  process_command_idle-Keeps backup = Keeps-pure _
  process_command_idle-Keeps restore =
      Keeps-bind _ _ get_backup_path-Keeps
        λ path. Keeps-bind _ _ (Keeps-gets _) λ there. Keeps-pure _
  process_command_idle-Keeps (list_mods n p) = with_nothing-Keeps _ (list_mods_paged-Keeps n p)
  process_command_idle-Keeps (install_mod p f) = with_nothing-Keeps _ (install_mod-Keeps host o p f)
  process_command_idle-Keeps (uninstall_mod i) = with_nothing-Keeps _ (uninstall_mod-Keeps host o i)
  process_command_idle-Keeps (update_mod p f) = with_nothing-Keeps _ (update_mod-Keeps host o p f)
  process_command_idle-Keeps (query_mod i) = with_nothing-Keeps _ (query-Keeps i)
  process_command_idle-Keeps generate_mods_zip = Keeps-pure _
  process_command_idle-Keeps (Command.resolve_deps mode ms) =
      with_nothing-Keeps _ (resolve_deps-Keeps ms mode)

  write-Keeps : (f : World V → List Text) → Keeps P (modify (λ w. record w { stdin = f w }))
  unfolding ◌>>=◌
  write-Keeps f = record { at = λ w h. c.on_stdin w (f w) h }

  write_line-Keeps : (cmd : Text) → Keeps P (write_line host cmd)
  unfolding write_line
  write_line-Keeps cmd =
      Keeps-bind _ _ (syscall-Keeps o.faults _)
        λ _. Keeps-bind _ _ (write-Keeps _) λ _. syscall-Keeps o.faults _

  run_console-Keeps : (client : Option Rcon) (cmd : Text) → Keeps P (run_console host client cmd)
  unfolding run_console
  run_console-Keeps (some client) cmd = Keeps-bind _ _ (Keeps-lift _) λ output. Keeps-pure _
  run_console-Keeps none cmd = Keeps-bind _ _ (write_line-Keeps cmd) λ _. Keeps-pure _

  process_command_inloop-Keeps :
      (client : Option Rcon) (cmd : Command V) → Keeps P (process_command_inloop host client cmd)
  unfolding process_command_inloop
  process_command_inloop-Keeps client do_nothing = Keeps-pure _
  process_command_inloop-Keeps client (console cmd) = run_console-Keeps client cmd
  process_command_inloop-Keeps client backup = Keeps-pure _
  process_command_inloop-Keeps client restore = Keeps-pure _
  process_command_inloop-Keeps client (list_mods n p) = list_mods_paged-Keeps n p
  process_command_inloop-Keeps client (install_mod p f) = install_mod-Keeps host o p f
  process_command_inloop-Keeps client (uninstall_mod i) = uninstall_mod-Keeps host o i
  process_command_inloop-Keeps client (update_mod p f) = update_mod-Keeps host o p f
  process_command_inloop-Keeps client (query_mod i) = query-Keeps i
  process_command_inloop-Keeps client generate_mods_zip = Keeps-pure _
  process_command_inloop-Keeps client (Command.resolve_deps mode ms) = resolve_deps-Keeps ms mode

module _ {V : Type 0} (s : Status) where
  pub IsLinked-open : IsOpen (IsLinked {V = V} s)
  IsLinked-open = record {
    faults = record { on_faults = λ w bs h. record { trail = h.trail } };
    cache = record { on_cache = λ w c m z h. record { trail = h.trail } };
    files = record { on_files = λ w fs h. record { trail = h.trail } };
    status = update_status-IsLinked s;
  }

  IsLinked-stdin : IgnoresStdin (IsLinked {V = V} s)
  IsLinked-stdin = record { on_stdin = λ w lines h. record { trail = h.trail } }

  -- If the status notifications of the account lead from a status to the current one, each from where
  -- the one before it ended, then they still do after a command of the idle loop, however it ends.
  pub process_command_idle-IsLinked :
      (host : Host V) (cmd : Command V) (w : World V)
      → IsLinked s w
      → IsLinked s (process_command_idle host cmd w).1
  process_command_idle-IsLinked host cmd w h =
      (process_command_idle-Keeps host IsLinked-open IsLinked-stdin cmd).at w h

  -- If the status notifications of the account lead from a status to the current one, then they still
  -- do after a command of the loop of a running server, however it ends.
  pub process_command_inloop-IsLinked :
      (host : Host V) (client : Option Rcon) (cmd : Command V) (w : World V)
      → IsLinked s w
      → IsLinked s (process_command_inloop host client cmd w).1
  process_command_inloop-IsLinked host client cmd w h =
      (process_command_inloop-Keeps host IsLinked-open IsLinked-stdin client cmd).at w h
