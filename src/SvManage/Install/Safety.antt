-- ===== src/SvManage/Install/Safety.antt =====
-- sv_manage/src/server_loop.rs: an installation neither loses nor overwrites a file.
use mind_craft.Base.{Text, text_eq, Bool, true, false, ◌≡◌, Result, ok, err, panic, diverge}
use mind_craft.Yapper.Types.{Status, Response}
use mind_craft.Yapper.ModParser.Parse.{Bytes}
use mind_craft.SvManage.World.{World, Host, Exec, ◌>>=◌}
use mind_craft.SvManage.World.Keeps.{
  Keeps, Keeps-bind, Keeps-if, Keeps-pure, Keeps-fail, Keeps-lift, Keeps-attempt,
  Keeps-with_context,
}
use mind_craft.SvManage.World.Leads.{Leads-Keeps, Leads-bind}
use mind_craft.SvManage.Files.{delete_quietly}
use mind_craft.SvManage.Files.Keeps.{read_file-Keeps}
use mind_craft.SvManage.Status.{update_status, invalidate_mod_cache}
use mind_craft.SvManage.ListMods.Keeps.{list_mods-Keeps}
use mind_craft.SvManage.Install.{
  Flow, value, returned, deleting, finish, get_path, get_mods_path, open_mod, place_mod,
  install_block, install_mod,
}
use mind_craft.SvManage.Install.Files.{
  HasFile, HasFile-faults, HasFile-cache, remove_file-HasFile, ensure_dir-HasFile, rename-Leads,
  destination-Leads,
}

module _ {V : Type 0} (host : Host V) (p : Text) (c : Bytes) where
  status-HasFile : (new : Status) → Keeps (HasFile {V = V} p c) (update_status new)
  unfolding update_status
  status-HasFile new = record { at = λ w h. record { has = h.has } }

  invalidate-HasFile : Keeps (HasFile {V = V} p c) invalidate_mod_cache
  unfolding invalidate_mod_cache ◌>>=◌
  invalidate-HasFile = record { at = λ w h. record { has = h.has } }

  finish-HasFile : (r : Result (Flow (Response V))) → Keeps (HasFile p c) (finish r)
  unfolding finish
  finish-HasFile (ok (value r)) = Keeps-bind _ _ (status-HasFile _) λ _. Keeps-pure r
  finish-HasFile (ok (returned e)) = Keeps-fail e
  finish-HasFile (err e) = Keeps-bind _ _ (status-HasFile _) λ _. Keeps-fail e
  finish-HasFile panic = Keeps-lift panic
  finish-HasFile diverge = Keeps-lift diverge

  get_mods_path-HasFile : Keeps (HasFile p c) (get_mods_path host)
  unfolding get_mods_path get_path
  get_mods_path-HasFile =
      Keeps-bind _ _ (Keeps-bind _ _ (Keeps-lift _) λ path. Keeps-lift _)
        λ base. Keeps-bind _ _ (Keeps-with_context _ _ (ensure_dir-HasFile p c _)) λ _. Keeps-pure _

  open_mod-HasFile : (mod_path : Text) → Keeps (HasFile p c) (open_mod host mod_path)
  unfolding open_mod
  open_mod-HasFile mod_path = Keeps-bind _ _ get_mods_path-HasFile λ mods_folder.
      Keeps-bind _ _ (Keeps-with_context _ _ (ensure_dir-HasFile p c mods_folder)) λ _.
        Keeps-bind _ _ (read_file-Keeps (HasFile-faults p c) mod_path)
          λ content. Keeps-bind _ _ (Keeps-lift _) λ info. Keeps-pure _

  module _ (path : Text) (other : text_eq path p ≡ false) where
    dropped :
        {A : Type 0} (r : Result (A × Bool)) (w : World V)
        → HasFile p c w
        → HasFile p c (deleting path (λ _. (r, w)) w).1
    unfolding deleting delete_quietly
    dropped (ok (a, true)) w h = h
    dropped (ok (a, false)) w h = (remove_file-HasFile p c "drop" path other).at w h
    dropped (err e) w h = (remove_file-HasFile p c "drop" path other).at w h
    dropped panic w h = (remove_file-HasFile p c "drop" path other).at w h
    dropped diverge w h = h

    deleting-HasFile :
        {A : Type 0} (m : Exec (World V) (A × Bool))
        → Keeps (HasFile p c) m
        → Keeps (HasFile p c) (deleting path m)
    unfolding deleting
    deleting-HasFile m k = record { at = λ w h. let r = m w in dropped r.0 r.1 (k.at w h) }

    place_mod-HasFile :
        (mods_folder filename : Text)
        → Keeps (HasFile p c) (place_mod host mods_folder filename path)
    unfolding place_mod
    place_mod-HasFile mods_folder filename = Keeps-bind _ _ (status-HasFile _) λ _.
        destination-Leads p c host mods_folder filename _ λ dest.
          Leads-bind {R = HasFile p c} _ _ (λ w h. h) (rename-Leads p c _ path dest other)
            λ _. Leads-Keeps _ (λ w h. h) (Keeps-bind _ _ invalidate-HasFile λ _. Keeps-pure _)

    install_block-HasFile :
        (filename : Text) → Keeps (HasFile p c) (install_block host path filename)
    unfolding install_block
    install_block-HasFile filename =
        Keeps-bind _ _ (open_mod-HasFile path) λ (mods_folder, to_install).
          Keeps-if _ _ _ (Keeps-pure _) (
            Keeps-bind _ _
              (list_mods-Keeps host (HasFile-faults p c) (HasFile-cache p c) mods_folder)
              λ all. Keeps-if _ _ _ (Keeps-pure _) (place_mod-HasFile mods_folder filename))

    install_mod-Keeps_file :
        (filename : Text) → Keeps (HasFile p c) (install_mod host path filename)
    unfolding install_mod
    install_mod-Keeps_file filename =
        Keeps-bind _ _ (Keeps-attempt _ (deleting-HasFile _ (install_block-HasFile _)))
          finish-HasFile

  -- Every file but the one that is installed is there after an installation with the content that it
  -- had before, however the installation ends.
  pub install_mod-HasFile :
      (path filename : Text) (w : World V)
      → text_eq path p ≡ false
      → HasFile p c w
      → HasFile p c (install_mod host path filename w).1
  install_mod-HasFile path filename w other h = (install_mod-Keeps_file path other filename).at w h
