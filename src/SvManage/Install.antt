-- ===== src/SvManage/Install.antt =====
-- sv_manage/src/server_loop.rs: `install_mod`, `update_mod` and `uninstall_mod`, with the paths that
-- `server_main` gives them.
pub mod Keeps
pub mod FreePath
pub mod Files
pub mod Safety
use mind_craft.Base.{
  ℕ, zero, suc, Text, codes, text_eq, ends_with, join, set_file_name, file_name, parent, any, find,
  lookup, length, Assoc, Bool, true, false, not, Option, none, some, is_some, List, [], ◌∷◌, ◌++◌,
  Result, ok, err, panic, diverge, Error, ok_or, if◌then◌else◌,
}
use mind_craft.Yapper.Types.{
  ModInfo, Response, mod_conflict, no_such_mod, reserved_mod_id, modding, idle,
}
use mind_craft.Yapper.ModParser.Parse.{parse_mod}
use mind_craft.SvManage.World.{
  Node, World, Host, Exec, pure, fail, lift, gets, attempt, with_context, match_option, ◌>>=◌, ◌>>◌,
}
use mind_craft.SvManage.Files.{read_file, rename, remove_file, ensure_dir, delete_quietly}
use mind_craft.SvManage.Status.{update_status, invalidate_mod_cache}
use mind_craft.SvManage.ListMods.{list_mods}

-- How a `try` block ends that can also return from its function: `bail!` inside such a block is a
-- `return`, and passes by what follows the block.
pub data Flow (A : Type 0) : Type 0 where
  value : A → Flow A
  returned : Error → Flow A

-- The loop that looks for a free name. With a plain filename every round but the first tries the same
-- name, so it stops in its second round or never; with a `/` in it each round tries a deeper path, so it
-- stops once it has tried as many as there are files. `none` is an end of the fuel.
unfoldable pub free_path : ℕ → Text → Text → Assoc Node → Option Text
free_path zero filename dest fs = none
free_path (suc fuel) filename dest fs = elim (lookup dest fs) [
  | none ↦ some dest
  | some _ ↦ free_path fuel filename (set_file_name dest (filename ++ codes "-2.jar")) fs
]

unfoldable pub jar_name : Text → Text
unfolding ends_with
jar_name filename =
    if not (ends_with filename (codes ".jar")) then filename ++ codes ".jar" else filename

module _ {V : Type 0} where
  -- The scope of a `DelOnDrop`: the file goes at the end, whichever way the block ends, unless the
  -- guard was forgiven, which the flag says.
  unfoldable pub deleting : {A : Type 0} → Text → Exec (World V) (A × Bool) → Exec (World V) A
  deleting p m w =
      let r = m w in
      elim r.0 [
        | ok (a, forgiven) ↦ (ok a, if forgiven then r.1 else delete_quietly p r.1)
        | err e ↦ (err e, delete_quietly p r.1)
        | panic ↦ (panic, delete_quietly p r.1)
        | diverge ↦ (diverge, r.1)
      ]

  -- The end of the three operations: the status, and then the result of the block.
  unfoldable pub finish : Result (Flow (Response V)) → Exec (World V) (Response V)
  finish (ok (value r)) = do update_status idle; pure r
  finish (ok (returned e)) = fail e
  finish (err e) = do update_status idle; fail e
  finish panic = lift panic
  finish diverge = lift diverge

module _ {V : Type 0} (host : Host V) where
  -- `get_path`, `get_mods_path` and `get_backup_path` of `server_main`.
  unfoldable pub get_path : Exec (World V) Text
  get_path = do
    path ← lift (ok_or (host.expanduser host.conf_path) "Failed to get home directory")
    lift (ok_or (host.libs.canonicalize path) "Failed to get absolute directory path")

  unfoldable pub get_mods_path : Exec (World V) Text
  get_mods_path = do
    base ← get_path
    with_context "Error creating mods folder" (ensure_dir (join base (codes "mods")))
    pure (join base (codes "mods"))

  unfoldable pub get_backup_path : Exec (World V) Text
  unfolding get_path file_name parent join
  get_backup_path = do
    path ← get_path
    orig_name ← lift (ok_or (file_name path) "Failed to get server folder name")
    up ← lift (ok_or (parent path) "Failed to get server parent folder")
    pure (join up (orig_name ++ codes ".bak"))

  unfoldable pub destination : Text → Text → Exec (World V) Text
  unfolding free_path
  destination mods_folder filename = do
    found ←
        gets (λ w. free_path (suc (suc (length w.fs))) filename (join mods_folder filename) w.fs)
    match_option found (lift diverge) pure

  -- The mods folder, and the mod that the file at `mod_path` holds.
  unfoldable pub open_mod : Text → Exec (World V) (Text × ModInfo V)
  open_mod mod_path = do
    mods_folder ← get_mods_path
    with_context "Error creating mods folder" (ensure_dir mods_folder)
    content ← read_file mod_path
    info ← lift (parse_mod host.libs mod_path content)
    pure (mods_folder, info)

  -- The steps once it is known that the mod can be installed.
  unfoldable pub place_mod : Text → Text → Text → Exec (World V) (Flow (Response V) × Bool)
  place_mod mods_folder filename mod_path = do
    update_status modding
    dest ← destination mods_folder filename
    rename "Failed to move mod" mod_path dest
    invalidate_mod_cache
    pure (value Response.ok, true)

  unfoldable pub install_block : Text → Text → Exec (World V) (Flow (Response V) × Bool)
  install_block mod_path filename = do
    (mods_folder, to_install) ← open_mod mod_path
    if reserved_mod_id to_install.mod_id then pure (returned "Reserved mod id!", false) else (do
      all ← list_mods host mods_folder
      if any (λ modd. text_eq modd.mod_id to_install.mod_id) all
          then pure (value mod_conflict, false)
          else place_mod mods_folder filename mod_path)

  unfoldable pub install_mod : Text → Text → Exec (World V) (Response V)
  install_mod current_path filename = do
    r ← attempt (deleting current_path (install_block current_path (jar_name filename)))
    finish r

  -- The steps of an update once the installed mod is found.
  unfoldable pub swap_mod :
      Text → Text → Text → ModInfo V → Exec (World V) (Flow (Response V) × Bool)
  swap_mod mods_folder filename mod_path modd = do
    update_status modding
    dest ← destination mods_folder filename
    remove_file "Failed to remove old mod file" modd.path
    rename "Failed to move mod" mod_path dest
    invalidate_mod_cache
    pure (value Response.ok, true)

  unfoldable pub swap_found :
      Text → Text → Text → Option (ModInfo V) → Exec (World V) (Flow (Response V) × Bool)
  swap_found mods_folder filename mod_path none = pure (value no_such_mod, false)
  swap_found mods_folder filename mod_path (some modd) = swap_mod mods_folder filename mod_path modd

  unfoldable pub update_block : Text → Text → Exec (World V) (Flow (Response V) × Bool)
  update_block mod_path filename = do
    (mods_folder, to_install) ← open_mod mod_path
    if reserved_mod_id to_install.mod_id then pure (returned "Reserved mod id!", false) else (do
      all ← list_mods host mods_folder
      swap_found mods_folder filename mod_path
          (find (λ modd. text_eq modd.mod_id to_install.mod_id) all))

  unfoldable pub update_mod : Text → Text → Exec (World V) (Response V)
  update_mod current_path filename = do
    r ← attempt (deleting current_path (update_block current_path (jar_name filename)))
    finish r

  unfoldable pub remove_found : Option (ModInfo V) → Exec (World V) (Flow (Response V))
  remove_found none = pure (value no_such_mod)
  remove_found (some modd) =
      if reserved_mod_id modd.mod_id then pure (returned "Reserved mod id!") else (do
        update_status modding
        remove_file "Error deleting mod file" modd.path
        invalidate_mod_cache
        pure (value Response.ok))

  unfoldable pub uninstall_block : Text → Exec (World V) (Flow (Response V))
  uninstall_block mod_id = do
    mods_folder ← get_mods_path
    with_context "Error creating mods folder" (ensure_dir mods_folder)
    all ← list_mods host mods_folder
    remove_found (find (λ modd. text_eq modd.mod_id mod_id) all)

  unfoldable pub uninstall_mod : Text → Exec (World V) (Response V)
  uninstall_mod mod_id = do r ← attempt (uninstall_block mod_id); finish r
