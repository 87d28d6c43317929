-- ===== src/SvManage/Deferred/Keeps.antt =====
-- sv_manage/src/server_loop.rs: the deferred jobs keep the notifications in step with the status, and
-- leave the status idle.
use mind_craft.Base.{Text, not, Result, ok, err, panic, diverge, Error}
use mind_craft.Yapper.Types.{Status, Notification, backup_failed, restore_failed}
use mind_craft.SvManage.World.{World, Host}
use mind_craft.SvManage.World.Keeps.{
  Keeps, Keeps-bind, Keeps-if, Keeps-pure, Keeps-fail, Keeps-gets, Keeps-lift, Keeps-attempt,
  Keeps-with_context,
}
use mind_craft.SvManage.Files.Keeps.{remove_dir_all-Keeps, create_dir-Keeps}
use mind_craft.SvManage.Status.Trail.{IsLinked, IsNews}
use mind_craft.SvManage.Status.News.{of_backup_failed, of_restore_failed}
use mind_craft.SvManage.Install.{get_path, get_backup_path}
use mind_craft.SvManage.CopyDir.Keeps.{copy_dir_all-Keeps}
use mind_craft.SvManage.Commands.Keeps.{IsLinked-open}
use mind_craft.SvManage.Commands.{Command, backup, restore, generate_mods_zip}
use mind_craft.SvManage.Deferred.{
  Services, create_new, report_backup, report_restore, when_failed, backup_block, run_backup,
  restore_block, run_restore, run_zip, run_deferred,
}
use mind_craft.SvManage.Deferred.Reports.{
  push-Keeps, report_backup-Keeps, report_restore-Keeps, update_status-Keeps,
}
use mind_craft.SvManage.Deferred.Zip.{zip_block-Keeps, announce_zip-Keeps}

module _ {V : Type 0} (s : Status) (host : Host V) where
  get_path-Keeps : Keeps (IsLinked s) (get_path host)
  unfolding get_path
  get_path-Keeps = Keeps-bind _ _ (Keeps-lift _) λ path. Keeps-lift _

  get_backup_path-Keeps : Keeps (IsLinked s) (get_backup_path host)
  unfolding get_backup_path
  get_backup_path-Keeps =
      Keeps-bind _ _ get_path-Keeps λ path.
        Keeps-bind _ _ (Keeps-lift _) λ name. Keeps-bind _ _ (Keeps-lift _) λ up. Keeps-pure _

  create_new-Keeps : (e : Error) (p : Text) → Keeps (IsLinked {V = V} s) (create_new e p)
  unfolding create_new
  create_new-Keeps e p =
      Keeps-bind _ _ (create_dir-Keeps (IsLinked-open s).faults (IsLinked-open s).files e p)
        λ existed. Keeps-if existed _ _ (Keeps-fail _) (Keeps-pure _)

  when_failed-Keeps :
      (n : Text → Text → Notification) (r : Result (Unit {0}))
      → ((a b : Text) → IsNews (n a b))
      → Keeps (IsLinked s) (when_failed host n r)
  unfolding when_failed
  when_failed-Keeps n (ok _) news = Keeps-pure _
  when_failed-Keeps n (err e) news = push-Keeps s _ λ sv. news sv _
  when_failed-Keeps n panic news = Keeps-lift _
  when_failed-Keeps n diverge news = Keeps-lift _

module _ {V : Type 0} (s : Status) (host : Host V) (svc : Services) where
  backup_block-Keeps : Keeps (IsLinked s) (backup_block host svc)
  unfolding backup_block
  backup_block-Keeps = Keeps-bind _ _ (get_path-Keeps s host) λ working.
      Keeps-bind _ _ (get_backup_path-Keeps s host) λ bak.
        Keeps-bind _ _
          (Keeps-attempt _
            (remove_dir_all-Keeps (IsLinked-open s).faults (IsLinked-open s).files _ bak))
          λ ignored. Keeps-bind _ _ (Keeps-gets _) λ there.
            Keeps-bind _ _ (Keeps-if there _ _ (Keeps-fail _) (Keeps-pure _)) λ _.
              Keeps-bind _ _ (create_new-Keeps s host _ bak) λ _. Keeps-with_context _ _ (
                copy_dir_all-Keeps (IsLinked-open s) svc.get_size working bak report_backup
                  (report_backup-Keeps s))

  restore_block-Keeps : Keeps (IsLinked s) (restore_block host svc)
  unfolding restore_block
  restore_block-Keeps = Keeps-bind _ _ (get_path-Keeps s host) λ working.
      Keeps-bind _ _ (get_backup_path-Keeps s host) λ bak. Keeps-bind _ _ (Keeps-gets _) λ there.
        Keeps-bind _ _ (Keeps-if (not there) _ _ (Keeps-fail _) (Keeps-pure _)) λ _.
          Keeps-bind _ _ (update_status-Keeps s _) λ _.
            Keeps-bind _ _
              (remove_dir_all-Keeps (IsLinked-open s).faults (IsLinked-open s).files _ working)
              λ _. Keeps-bind _ _ (create_new-Keeps s host _ working) λ _. Keeps-with_context _ _ (
                copy_dir_all-Keeps (IsLinked-open s) svc.get_size bak working report_restore
                  (report_restore-Keeps s))

  run_deferred-Keeps : (cmd : Command V) → Keeps (IsLinked s) (run_deferred host svc cmd)
  unfolding run_deferred run_backup run_restore run_zip
  run_deferred-Keeps backup = Keeps-bind _ _ (update_status-Keeps s _) λ _.
      Keeps-bind _ _ (Keeps-attempt _ backup_block-Keeps) λ result.
        Keeps-bind _ _ (update_status-Keeps s _)
          λ _. when_failed-Keeps s host backup_failed result of_backup_failed
  run_deferred-Keeps restore = Keeps-bind _ _ (Keeps-attempt _ restore_block-Keeps) λ result.
      Keeps-bind _ _ (update_status-Keeps s _)
        λ _. when_failed-Keeps s host restore_failed result of_restore_failed
  run_deferred-Keeps generate_mods_zip =
      Keeps-bind _ _ (Keeps-attempt _ (zip_block-Keeps s host svc))
        λ result. Keeps-bind _ _ (update_status-Keeps s _) λ _. announce_zip-Keeps s host svc result
  run_deferred-Keeps _ = Keeps-pure _

  -- If the status notifications of the account lead from a status to the current one, then they still
  -- do after a backup, a restore or an archive of the mods, however it ends.
  pub run_deferred-IsLinked :
      (cmd : Command V) (w : World V) → IsLinked s w → IsLinked s (run_deferred host svc cmd w).1
  run_deferred-IsLinked cmd w h = (run_deferred-Keeps cmd).at w h
