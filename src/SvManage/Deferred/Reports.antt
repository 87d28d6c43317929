-- ===== src/SvManage/Deferred/Reports.antt =====
-- sv_manage/src/server_loop.rs: what the jobs report is no news of the status.
use mind_craft.Base.{ℕ, Text, Bool, true, ◌≡◌, refl}
use mind_craft.Yapper.Types.{
  Status, Notification, is_backup_progress, is_restore_progress, is_package_progress,
}
use mind_craft.SvManage.World.{World, modify, ◌>>=◌}
use mind_craft.SvManage.World.Keeps.{Keeps, Keeps-bind, Keeps-if, Keeps-pure, Keeps-lift}
use mind_craft.SvManage.Notifs.{Queues}
use mind_craft.SvManage.Status.Trail.{
  IsLinked, IsNews, push_notif-IsLinked, replace_notif_if-IsLinked, update_status-IsLinked,
}
use mind_craft.SvManage.Status.News.{of_backup_progress, of_restore_progress, of_package_progress}
use mind_craft.SvManage.Status.{update_status}
use mind_craft.SvManage.Deferred.{
  lock, replace_notif, push, report_backup, report_restore, report_zip,
}

module _ {V : Type 0} (s : Status) where
  abbrev Linked : World V → Type 0
  Linked = IsLinked s

  pub push-Keeps : (n : Text → Notification) → ((sv : Text) → IsNews (n sv)) → Keeps Linked (push n)
  unfolding push ◌>>=◌
  push-Keeps n news = record {
    at = λ w h. push_notif-IsLinked s w (n w.shared.server) (news w.shared.server) h;
  }

  write-notifs :
      (f : World V → Queues)
      → ((w : World V) → Linked w → Linked (record w { notifs = f w }))
      → Keeps Linked (modify (λ w. record w { notifs = f w }))
  unfolding ◌>>=◌
  write-notifs f k = record { at = k }

  pub replace-Keeps :
      (held : Bool) (n : Text → Notification) (f : Notification → Bool)
      → ((m : Notification) → f m ≡ true → IsNews m)
      → ((sv : Text) → f (n sv) ≡ true)
      → Keeps Linked (replace_notif held n f)
  unfolding replace_notif lock
  replace-Keeps held n f still kind =
      Keeps-bind _ _ (Keeps-if held _ _ (Keeps-lift _) (Keeps-pure _)) λ _.
        write-notifs _
          λ w h. replace_notif_if-IsLinked s w (n w.shared.server) f still (kind w.shared.server) h

  pub report_backup-Keeps : (c t : ℕ) → Keeps Linked (report_backup c t)
  unfolding report_backup is_backup_progress
  report_backup-Keeps c t = replace-Keeps _ _ _ of_backup_progress λ sv. refl

  pub report_restore-Keeps : (c t : ℕ) → Keeps Linked (report_restore c t)
  unfolding report_restore lock is_restore_progress
  report_restore-Keeps c t =
      Keeps-bind _ _ (Keeps-pure _) λ _. replace-Keeps _ _ _ of_restore_progress λ sv. refl

  pub report_zip-Keeps : (c t : ℕ) → Keeps Linked (report_zip c t)
  unfolding report_zip is_package_progress
  report_zip-Keeps c t = replace-Keeps _ _ _ of_package_progress λ sv. refl

  pub update_status-Keeps : (new : Status) → Keeps Linked (update_status new)
  update_status-Keeps new = update_status-IsLinked s new
