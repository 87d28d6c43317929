-- ===== src/SvManage/Status/News.antt =====
-- yapper/src/lib.rs: the notifications that are no change of status.
use mind_craft.Base.{Text, true, ◌≡◌, refl, arith}
use mind_craft.Yapper.Types.{
  Notification, backup_failed, restore_failed, zip_failed, zip_file, is_backup_progress,
  is_restore_progress, is_package_progress,
}
use mind_craft.SvManage.Status.Trail.{IsNews, follow_one}

pub of_backup_failed : (a b : Text) → IsNews (backup_failed a b)
unfolding follow_one
of_backup_failed a b server u = refl

pub of_restore_failed : (a b : Text) → IsNews (restore_failed a b)
unfolding follow_one
of_restore_failed a b server u = refl

pub of_zip_failed : (a b : Text) → IsNews (zip_failed a b)
unfolding follow_one
of_zip_failed a b server u = refl

pub of_zip_file : (a b : Text) → IsNews (zip_file a b)
unfolding follow_one
of_zip_file a b server u = refl

pub of_backup_progress : (m : Notification) → is_backup_progress m ≡ true → IsNews m
unfolding follow_one is_backup_progress
of_backup_progress m h server u = ground (arith, h)

pub of_restore_progress : (m : Notification) → is_restore_progress m ≡ true → IsNews m
unfolding follow_one is_restore_progress
of_restore_progress m h server u = ground (arith, h)

pub of_package_progress : (m : Notification) → is_package_progress m ≡ true → IsNews m
unfolding follow_one is_package_progress
of_package_progress m h server u = ground (arith, h)
