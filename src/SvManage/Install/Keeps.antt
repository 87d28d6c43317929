-- ===== src/SvManage/Install/Keeps.antt =====
-- sv_manage/src/server_loop.rs: the operations on mods keep the notifications in step with the status.
use mind_craft.Base.{Text, Bool, true, false, Option, none, some, Result, ok, err, panic, diverge}
use mind_craft.Yapper.Types.{Status, ModInfo, Response}
use mind_craft.SvManage.World.{World, Host, Exec, ◌>>=◌}
use mind_craft.SvManage.World.Keeps.{
  Keeps, keeps_rules, Keeps-bind, Keeps-if, Keeps-pure, Keeps-attempt, Keeps-with_context,
}
use mind_craft.SvManage.Files.{delete_quietly}
use mind_craft.SvManage.Files.Keeps.{
  IgnoresFaults, IgnoresCache, IgnoresFiles, read_file-Keeps, rename-Keeps, remove_file-Keeps,
  ensure_dir-Keeps,
}
use mind_craft.SvManage.Status.{update_status, invalidate_mod_cache}
use mind_craft.SvManage.ListMods.Keeps.{list_mods-Keeps}
use mind_craft.SvManage.Install.{
  Flow, value, returned, deleting, finish, get_path, get_mods_path, destination, open_mod,
  place_mod, install_block, install_mod, swap_mod, swap_found, update_block, update_mod,
  remove_found, uninstall_block, uninstall_mod,
}

-- A property that survives all that the operations write.
pub record IsOpen {V : Type 0} (P : World V → Type 0) : Type 0 where
  pub faults : IgnoresFaults P
  pub cache : IgnoresCache P
  pub files : IgnoresFiles P
  pub status : (s : Status) → Keeps P (update_status s)

module _ {V : Type 0} {P : World V → Type 0} (o : IsOpen P) where
  delete_quietly-keeps : (p : Text) (w : World V) → P w → P (delete_quietly p w)
  unfolding delete_quietly
  delete_quietly-keeps p w h = (remove_file-Keeps o.faults o.files "drop" p).at w h

  -- The drop of the guard, at the end of the scope.
  scope_end-keeps :
      {A : Type 0}
      → (p : Text) (r : Result (A × Bool)) (w : World V) → P w
      → P (deleting p (λ _. (r, w)) w).1
  unfolding deleting
  scope_end-keeps p (ok (a, true)) w h = h
  scope_end-keeps p (ok (a, false)) w h = delete_quietly-keeps p w h
  scope_end-keeps p (err e) w h = delete_quietly-keeps p w h
  scope_end-keeps p panic w h = delete_quietly-keeps p w h
  scope_end-keeps p diverge w h = h

  deleting-Keeps :
      {A : Type 0} → (p : Text) (m : Exec (World V) (A × Bool)) → Keeps P m → Keeps P (deleting p m)
  unfolding deleting
  deleting-Keeps p m k = record { at = λ w h. let r = m w in scope_end-keeps p r.0 r.1 (k.at w h) }

  invalidate-Keeps : Keeps P (invalidate_mod_cache {V = V})
  unfolding invalidate_mod_cache ◌>>=◌
  invalidate-Keeps = record { at = λ w h. o.cache.on_cache w w.shared.mods_cache false false h }

  finish-Keeps : (r : Result (Flow (Response V))) → Keeps P (finish r)
  unfolding finish
  finish-Keeps (ok (value r)) = search (keeps_rules, o.status)
  finish-Keeps (ok (returned e)) = search keeps_rules
  finish-Keeps (err e) = search (keeps_rules, o.status)
  finish-Keeps panic = search keeps_rules
  finish-Keeps diverge = search keeps_rules

module _ {V : Type 0} (host : Host V) {P : World V → Type 0} (o : IsOpen P) where
  pub get_mods_path-Keeps : Keeps P (get_mods_path host)
  unfolding get_mods_path get_path
  get_mods_path-Keeps = search (keeps_rules, ensure_dir-Keeps o.faults o.files)

  destination-Keeps :
      (mods_folder filename : Text) → Keeps P (destination host mods_folder filename)
  unfolding destination
  destination-Keeps mods_folder filename = search keeps_rules

  open_mod-Keeps : (mod_path : Text) → Keeps P (open_mod host mod_path)
  unfolding open_mod
  open_mod-Keeps mod_path = search (
    keeps_rules,
    get_mods_path-Keeps,
    ensure_dir-Keeps o.faults o.files,
    read_file-Keeps o.faults,
  )

  place_mod-Keeps :
      (mods_folder filename mod_path : Text)
      → Keeps P (place_mod host mods_folder filename mod_path)
  unfolding place_mod
  place_mod-Keeps mods_folder filename mod_path = Keeps-bind _ _ (o.status _) λ _.
      Keeps-bind _ _ (destination-Keeps mods_folder filename) λ dest.
        Keeps-bind _ _ (rename-Keeps o.faults o.files _ _ _)
          λ _. Keeps-bind _ _ (invalidate-Keeps o) λ _. Keeps-pure _

  install_block-Keeps : (mod_path filename : Text) → Keeps P (install_block host mod_path filename)
  unfolding install_block
  install_block-Keeps mod_path filename =
      Keeps-bind _ _ (open_mod-Keeps mod_path) λ (mods_folder, to_install).
        Keeps-if _ _ _ (Keeps-pure _) (
          Keeps-bind _ _ (list_mods-Keeps host o.faults o.cache mods_folder)
            λ all. Keeps-if _ _ _ (Keeps-pure _) (place_mod-Keeps mods_folder filename mod_path))

  pub install_mod-Keeps : (path filename : Text) → Keeps P (install_mod host path filename)
  unfolding install_mod
  install_mod-Keeps path filename =
      Keeps-bind _ _ (Keeps-attempt _ (deleting-Keeps o path _ (install_block-Keeps path _)))
        (finish-Keeps o)

  swap_found-Keeps :
      (mods_folder filename mod_path : Text) (found : Option (ModInfo V))
      → Keeps P (swap_found host mods_folder filename mod_path found)
  unfolding swap_found swap_mod
  swap_found-Keeps mods_folder filename mod_path none = Keeps-pure _
  swap_found-Keeps mods_folder filename mod_path (some modd) = Keeps-bind _ _ (o.status _) λ _.
      Keeps-bind _ _ (destination-Keeps mods_folder filename) λ dest.
        Keeps-bind _ _ (remove_file-Keeps o.faults o.files _ _) λ _.
          Keeps-bind _ _ (rename-Keeps o.faults o.files _ _ _)
            λ _. Keeps-bind _ _ (invalidate-Keeps o) λ _. Keeps-pure _

  update_block-Keeps : (mod_path filename : Text) → Keeps P (update_block host mod_path filename)
  unfolding update_block
  update_block-Keeps mod_path filename =
      Keeps-bind _ _ (open_mod-Keeps mod_path) λ (mods_folder, to_install).
        Keeps-if _ _ _ (Keeps-pure _) (
          Keeps-bind _ _ (list_mods-Keeps host o.faults o.cache mods_folder)
            λ all. swap_found-Keeps mods_folder filename mod_path _)

  pub update_mod-Keeps : (path filename : Text) → Keeps P (update_mod host path filename)
  unfolding update_mod
  update_mod-Keeps path filename =
      Keeps-bind _ _ (Keeps-attempt _ (deleting-Keeps o path _ (update_block-Keeps path _)))
        (finish-Keeps o)

  remove_found-Keeps : (found : Option (ModInfo V)) → Keeps P (remove_found host found)
  unfolding remove_found
  remove_found-Keeps none = Keeps-pure _
  remove_found-Keeps (some modd) = Keeps-if _ _ _ (Keeps-pure _) (
      Keeps-bind _ _ (o.status _) λ _.
        Keeps-bind _ _ (remove_file-Keeps o.faults o.files _ _)
          λ _. Keeps-bind _ _ (invalidate-Keeps o) λ _. Keeps-pure _)

  pub uninstall_mod-Keeps : (mod_id : Text) → Keeps P (uninstall_mod host mod_id)
  unfolding uninstall_mod uninstall_block
  uninstall_mod-Keeps mod_id =
      Keeps-bind _ _
        (Keeps-attempt _ (
          Keeps-bind _ _ get_mods_path-Keeps λ mods_folder.
            Keeps-bind _ _ (Keeps-with_context _ _ (ensure_dir-Keeps o.faults o.files mods_folder))
              λ _.
                Keeps-bind _ _ (list_mods-Keeps host o.faults o.cache mods_folder)
                  λ all. remove_found-Keeps _))
        (finish-Keeps o)
