-- ===== src/SvManage/Deferred/Zip.antt =====
-- sv_manage/src/server_loop.rs: the archive of the mods keeps the notifications in step with the
-- status.
use mind_craft.Base.{ℕ, Text, Assoc, not, List, [], ◌∷◌, Result, ok, err, panic, diverge}
use mind_craft.Yapper.Types.{Status}
use mind_craft.SvManage.World.{Node, World, Host, modify, ◌>>=◌}
use mind_craft.SvManage.World.Keeps.{
  Keeps, Keeps-bind, Keeps-if, Keeps-pure, Keeps-gets, Keeps-lift, Keeps-with_context,
}
use mind_craft.SvManage.Files.Keeps.{syscall-Keeps, read_file-Keeps}
use mind_craft.SvManage.Status.Trail.{IsLinked}
use mind_craft.SvManage.Status.News.{of_zip_failed, of_zip_file}
use mind_craft.SvManage.Install.Keeps.{get_mods_path-Keeps}
use mind_craft.SvManage.Commands.Keeps.{IsLinked-open}
use mind_craft.SvManage.Deferred.{
  Services, report_zip, zip_entry, zip_entries, store_zip, write_zip, gen_mods_zip, upload_zip,
  package_mods, zip_block, announce_zip,
}
use mind_craft.SvManage.Deferred.Reports.{push-Keeps, report_zip-Keeps, update_status-Keeps}

module _ {V : Type 0} (s : Status) (host : Host V) (svc : Services) where
  zip_entry-Keeps :
      (total : ℕ) (p : Text) (node : Node) (acc : List (Text × List ℕ) × ℕ)
      → Keeps (IsLinked s) (zip_entry host svc report_zip total p node acc)
  unfolding zip_entry
  zip_entry-Keeps total p node (files, copied) =
      Keeps-bind _ _ (syscall-Keeps (IsLinked-open s).faults _) λ _.
        Keeps-bind _ _ (syscall-Keeps (IsLinked-open s).faults _) λ _.
          Keeps-if _ _ _ (Keeps-pure _) (
            Keeps-bind _ _ (syscall-Keeps (IsLinked-open s).faults _) λ _.
              Keeps-bind _ _ (syscall-Keeps (IsLinked-open s).faults _) λ _.
                Keeps-bind _ _ (read_file-Keeps (IsLinked-open s).faults p) λ content.
                  Keeps-bind _ _ (Keeps-lift _) λ bytes.
                    Keeps-bind _ _ (syscall-Keeps (IsLinked-open s).faults _)
                      λ _. Keeps-bind _ _ (report_zip-Keeps s _ total) λ _. Keeps-pure _)

  zip_entries-Keeps :
      (total : ℕ) (es : Assoc Node) (acc : List (Text × List ℕ) × ℕ)
      → Keeps (IsLinked s) (zip_entries host svc report_zip total es acc)
  unfolding zip_entries
  zip_entries-Keeps total [] acc = Keeps-pure acc
  zip_entries-Keeps total ((p, node) ∷ es) acc =
      Keeps-bind _ _ (zip_entry-Keeps total p node acc) λ more. zip_entries-Keeps total es more

  touch-Keeps :
      (f : World V → Assoc Node) → Keeps (IsLinked s) (modify (λ w. record w { fs = f w }))
  unfolding ◌>>=◌
  touch-Keeps f = record { at = λ w h. record { trail = h.trail } }

  store_zip-Keeps :
      (path : Text) (files : List (Text × List ℕ))
      → Keeps (IsLinked s) (store_zip host svc path files)
  unfolding store_zip ◌>>=◌
  store_zip-Keeps path files = record { at = λ w h. record { trail = h.trail } }

  write_zip-Keeps :
      (mods_folder path : Text)
      → Keeps (IsLinked s) (write_zip host svc mods_folder path report_zip)
  unfolding write_zip
  write_zip-Keeps mods_folder path = Keeps-bind _ _ (Keeps-gets _) λ size.
      Keeps-bind _ _ (Keeps-lift _) λ total.
        Keeps-bind _ _ (syscall-Keeps (IsLinked-open s).faults _) λ _.
          Keeps-bind _ _ (touch-Keeps _) λ _.
            Keeps-bind _ _ (syscall-Keeps (IsLinked-open s).faults _) λ _.
              Keeps-bind _ _ (syscall-Keeps (IsLinked-open s).faults _) λ _.
                Keeps-bind _ _ (Keeps-gets _) λ entries.
                  Keeps-bind _ _ (zip_entries-Keeps total entries ([], 0)) λ (files, copied).
                    Keeps-bind _ _ (syscall-Keeps (IsLinked-open s).faults _)
                      λ _. store_zip-Keeps path files

  gen_mods_zip-Keeps :
      (mods_folder : Text) → Keeps (IsLinked s) (gen_mods_zip host svc mods_folder report_zip)
  unfolding gen_mods_zip
  gen_mods_zip-Keeps mods_folder = Keeps-bind _ _ (Keeps-gets _) λ path.
      Keeps-bind _ _ (Keeps-gets _) λ fresh.
        Keeps-bind _ _ (Keeps-if fresh _ _ (Keeps-pure _) (write_zip-Keeps mods_folder path))
          λ _. Keeps-pure _

  upload_zip-Keeps : Keeps (IsLinked s) (upload_zip host svc)
  unfolding upload_zip
  upload_zip-Keeps = Keeps-bind _ _ (Keeps-gets _) λ path. Keeps-bind _ _ (Keeps-lift _) λ real.
      Keeps-bind _ _ (read_file-Keeps (IsLinked-open s).faults real) λ content.
        Keeps-bind _ _ (Keeps-lift _) λ bytes.
          Keeps-bind _ _ (Keeps-lift _) λ answer. Keeps-bind _ _ (Keeps-lift _) λ uuid. Keeps-pure _

  package_mods-Keeps : Keeps (IsLinked s) (package_mods host svc)
  unfolding package_mods
  package_mods-Keeps = Keeps-bind _ _ (update_status-Keeps s _) λ _.
      Keeps-bind _ _ (Keeps-with_context _ _ (get_mods_path-Keeps host (IsLinked-open s)))
        λ mods_folder. Keeps-with_context _ _ (gen_mods_zip-Keeps mods_folder)

  pub zip_block-Keeps : Keeps (IsLinked s) (zip_block host svc)
  unfolding zip_block
  zip_block-Keeps = Keeps-bind _ _ (Keeps-gets _) λ fresh.
      Keeps-bind _ _
        (Keeps-if (not fresh) _ _ (Keeps-bind _ _ package_mods-Keeps λ path. Keeps-pure _)
          (Keeps-pure _))
        λ _. Keeps-with_context _ _ upload_zip-Keeps

  pub announce_zip-Keeps : (r : Result Text) → Keeps (IsLinked s) (announce_zip host svc r)
  unfolding announce_zip
  announce_zip-Keeps (ok url) = push-Keeps s _ λ sv. of_zip_file sv _
  announce_zip-Keeps (err e) = push-Keeps s _ λ sv. of_zip_failed sv _
  announce_zip-Keeps panic = Keeps-lift _
  announce_zip-Keeps diverge = Keeps-lift _
