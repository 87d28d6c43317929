-- ===== src/SvManage/ListMods.antt =====
-- sv_manage/src/server_loop.rs: `list_mods`, which reads the mods folder and the forge installation,
-- and keeps the result in a cache.
pub mod Keeps
use mind_craft.Base.{
  ℕ, Text, codes, text_eq, text_leb, ends_with, join, extension, find, sort_by, lookup, Assoc, Bool,
  true, false, ◌&&◌, not, Option, none, some, List, [], ◌∷◌, ◌++◌, Result, ok, err, panic, diverge,
  ok_or, context, if◌then◌else◌,
}
use mind_craft.Yapper.Types.{Versions, ModInfo}
use mind_craft.Yapper.ModParser.Parse.{Bytes, Libs, parse_mod, parse_mod_ext}
use mind_craft.SvManage.World.{
  Node, file, dir, World, Host, Exec, pure, fail, lift, gets, modify, match_option, ◌>>=◌, ◌>>◌,
}
use mind_craft.SvManage.Files.{next_fault, syscall, read_file, is_dir, entries_of}
use mind_craft.SvManage.Runner.{forge_dir_of, versions_of}

abbrev pub is_plain_file : Node → Bool
is_plain_file (file _) = true
is_plain_file dir = false

abbrev pub has_extension : Text → Text → Bool
has_extension ext p = elim (extension p) [ none ↦ false | some e ↦ text_eq e ext ]

-- The order of `sort_by(|mod1, mod2| mod1.mod_id.cmp(&mod2.mod_id))`.
abbrev pub id_leb : {V : Type 0} → ModInfo V → ModInfo V → Bool
id_leb a b = text_leb a.mod_id b.mod_id

-- The write of the cache, and the list that went into it.
unfoldable pub store_cache : {V : Type 0} → List (ModInfo V) → Exec (World V) (List (ModInfo V))
store_cache all w = (
  ok all,
  record w { shared = record w.shared { mods_cache = some all; mod_cache_up_to_date = true } },
)

module _ {V : Type 0} (host : Host V) where
  -- A mod that does not parse is passed over.
  unfoldable pub keep_parsed :
      List (ModInfo V) → Result (ModInfo V) → Exec (World V) (List (ModInfo V))
  keep_parsed vec (ok info) = pure (vec ++ info ∷ [])
  keep_parsed vec (err _) = pure vec
  keep_parsed vec panic = lift panic
  keep_parsed vec diverge = lift diverge

  -- One entry of the folder, behind the two system calls that can end the loop.
  unfoldable pub read_entry : Text → Node → List (ModInfo V) → Exec (World V) (List (ModInfo V))
  read_entry p node vec = do
    syscall "Failed to get directory listing item"
    syscall "Failed to get item file type"
    if not (is_plain_file node && has_extension (codes "jar") p)
        then pure vec
        else (do content ← read_file p; keep_parsed vec (parse_mod host.libs p content))

  unfoldable pub read_entries : Assoc Node → List (ModInfo V) → Exec (World V) (List (ModInfo V))
  read_entries [] vec = pure vec
  read_entries ((p, node) ∷ rest) vec = do more ← read_entry p node vec; read_entries rest more

  -- The first file that ends in universal.jar; an entry that cannot be read is passed over.
  unfoldable pub find_universal : Assoc Node → Exec (World V) (Option Text)
  find_universal [] = pure none
  find_universal ((p, node) ∷ rest) = do
    lost ← next_fault
    lost_type ← next_fault
    if not lost && (not lost_type && (is_plain_file node && ends_with p (codes "universal.jar")))
        then pure (some p)
        else find_universal rest

  -- The entry for minecraft itself.
  abbrev minecraft : Text → Text → Bytes → ModInfo V
  minecraft forge_path mc_version logo = record {
    filename = codes "minecraft";
    path = forge_path;
    mod_id = codes "minecraft";
    name = some (codes "Minecraft");
    description = none;
    version = host.libs.versions.new mc_version;
    logo = some logo;
    url = none;
    credits = none;
    authors = none;
    dependencies = [];
  }

  -- Forge and minecraft, as two more mods.
  unfoldable pub forge_mods : Exec (World V) (List (ModInfo V))
  forge_mods = do
    server_path ← lift (ok_or (host.expanduser host.conf_path) "expanduser")
    script ← read_file (join server_path (codes "run.sh"))
    bytes ← lift (ok_or script "Failed to read run script")
    runner ← lift (ok_or (host.libs.from_utf8 bytes) "Failed to read run script")
    forge_dir ← lift (forge_dir_of server_path runner)
    syscall "Failed to read a directory in /libraries"
    there ← is_dir forge_dir
    if there then pure tt else fail "Failed to read a directory in /libraries"
    entries ← gets (λ w. entries_of forge_dir w.fs)
    found ← find_universal entries
    forge_path ← lift (ok_or found "Couldn't find forge jar file")
    versions ← lift (versions_of forge_dir)
    content ← read_file forge_path
    info ← lift (
        context (parse_mod_ext host.libs forge_path (some versions.1) content)
          "Couldn't parse forge")
    jar ← read_file forge_path
    opened ← lift (ok_or jar "Failed to open forge jar file")
    forge_zip ← lift (ok_or (host.libs.open_zip opened) "Failed to open forge jar file")
    logo ← lift (ok_or (lookup (codes "mcplogo.png") forge_zip) "Failed to read mcplogo")
    pure (info ∷ minecraft forge_path versions.0 logo ∷ [])

  -- The mods that are cached, if the cache is valid.
  abbrev pub cached : World V → Option (List (ModInfo V))
  cached w = if w.shared.mod_cache_up_to_date then w.shared.mods_cache else none

  -- The listing from the disk, sorted and put into the cache.
  unfoldable pub scan_mods : Text → Exec (World V) (List (ModInfo V))
  scan_mods path = do
    syscall "Failed to list mods directory"
    there ← is_dir path
    if there then pure tt else fail "Failed to list mods directory"
    entries ← gets (λ w. entries_of path w.fs)
    vec ← read_entries entries []
    forge ← forge_mods
    store_cache (sort_by id_leb (vec ++ forge))

  unfoldable pub list_mods : Text → Exec (World V) (List (ModInfo V))
  list_mods path = do hit ← gets cached; match_option hit (scan_mods path) pure

  -- `query_mod`.
  unfoldable pub query_mod : Text → Text → Exec (World V) (ModInfo V)
  query_mod path mod_id = do
    mods ← list_mods path
    lift (ok_or (find (λ x. text_eq x.mod_id mod_id) mods) "Couldn't find the mod")
