-- ===== src/SvManage/ListMods/Keeps.antt =====
-- Listing the mods writes the caches and uses up outcomes of system calls, and nothing else.
use mind_craft.Base.{Text, Assoc, true, some, List, [], ◌∷◌, Result, ok, err, panic, diverge}
use mind_craft.Yapper.Types.{ModInfo}
use mind_craft.SvManage.World.{Node, World, Host}
use mind_craft.SvManage.World.Keeps.{
  Keeps, Keeps-bind, Keeps-if, Keeps-pure, Keeps-fail, Keeps-gets, keeps_rules,
}
use mind_craft.SvManage.Files.Keeps.{
  IgnoresFaults, IgnoresCache, next_fault-Keeps, syscall-Keeps, read_file-Keeps,
}
use mind_craft.SvManage.ListMods.{
  keep_parsed, read_entry, read_entries, find_universal, forge_mods, store_cache, scan_mods,
  list_mods, query_mod,
}

module _ {V : Type 0} (host : Host V) {P : World V → Type 0} (i : IgnoresFaults P) where
  keep_parsed-Keeps :
      (vec : List (ModInfo V)) (r : Result (ModInfo V)) → Keeps P (keep_parsed host vec r)
  unfolding keep_parsed
  keep_parsed-Keeps vec (ok info) = search keeps_rules
  keep_parsed-Keeps vec (err _) = search keeps_rules
  keep_parsed-Keeps vec panic = search keeps_rules
  keep_parsed-Keeps vec diverge = search keeps_rules

  read_entry-Keeps :
      (p : Text) (node : Node) (vec : List (ModInfo V)) → Keeps P (read_entry host p node vec)
  unfolding read_entry
  read_entry-Keeps p node vec =
      search (keeps_rules, syscall-Keeps i, read_file-Keeps i, keep_parsed-Keeps)

  read_entries-Keeps :
      (es : Assoc Node) (vec : List (ModInfo V)) → Keeps P (read_entries host es vec)
  unfolding read_entries
  read_entries-Keeps [] vec = search keeps_rules
  read_entries-Keeps ((p, node) ∷ es) vec =
      search
        (keeps_rules, read_entry-Keeps, λ (more : List (ModInfo V)). read_entries-Keeps es more)

  find_universal-Keeps : (es : Assoc Node) → Keeps P (find_universal host es)
  unfolding find_universal
  find_universal-Keeps [] = search keeps_rules
  find_universal-Keeps ((p, node) ∷ es) = Keeps-bind _ _ (next_fault-Keeps i) λ lost.
      Keeps-bind _ _ (next_fault-Keeps i)
        λ lost_type. Keeps-if _ _ _ (Keeps-pure _) (find_universal-Keeps es)

  forge_mods-Keeps : Keeps P (forge_mods host)
  unfolding forge_mods
  forge_mods-Keeps =
      search (keeps_rules, syscall-Keeps i, read_file-Keeps i, find_universal-Keeps) depth 60

  cache-Keeps : (j : IgnoresCache P) (all : List (ModInfo V)) → Keeps P (store_cache all)
  unfolding store_cache
  cache-Keeps j all = record { at = λ w h. j.on_cache w (some all) true w.shared.zip_up_to_date h }

module _ {V : Type 0} (host : Host V) {P : World V → Type 0} (i : IgnoresFaults P)
    (j : IgnoresCache P) where
  scan_mods-Keeps : (path : Text) → Keeps P (scan_mods host path)
  unfolding scan_mods
  scan_mods-Keeps path = Keeps-bind _ _ (syscall-Keeps i _) λ _.
      Keeps-bind _ _ (Keeps-gets _) λ there.
        Keeps-bind _ _ (Keeps-if there _ _ (Keeps-pure _) (Keeps-fail _)) λ _.
          Keeps-bind _ _ (Keeps-gets _) λ entries.
            Keeps-bind _ _ (read_entries-Keeps host i entries [])
              λ vec. Keeps-bind _ _ (forge_mods-Keeps host i) λ forge. cache-Keeps host i j _

  pub list_mods-Keeps : (path : Text) → Keeps P (list_mods host path)
  unfolding list_mods
  list_mods-Keeps path = search (keeps_rules, scan_mods-Keeps)

  pub query_mod-Keeps : (path mod_id : Text) → Keeps P (query_mod host path mod_id)
  unfolding query_mod
  query_mod-Keeps path mod_id = search (keeps_rules, list_mods-Keeps)
