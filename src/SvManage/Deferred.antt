-- ===== src/SvManage/Deferred.antt =====
-- sv_manage/src/server_loop.rs: what `server_main` does with a deferred command while the server is
-- stopped: the backup, the restore, and the archive of the mods with its upload.
pub mod Locked
pub mod Reports
pub mod Zip
pub mod Keeps
use mind_craft.Base.{
  ℕ, zero, suc, ◌+◌, Text, codes, text_eq, join, file_name, extension, Assoc, insert, length, Bool,
  true, false, not, ◌&&◌, Option, none, some, List, [], ◌∷◌, ◌++◌, Result, ok, err, panic, diverge,
  ok_or, context, Error, if◌then◌else◌,
}
use mind_craft.Yapper.Types.{
  Notification, Status, idle, backing_up, restoring, packaging, backup_failed, restore_failed,
  backup_progress, restore_progress, zip_progress, zip_failed, zip_file, zipping,
  is_backup_progress, is_restore_progress, is_package_progress,
}
use mind_craft.Yapper.ModParser.Parse.{Bytes}
use mind_craft.SvManage.World.{
  Node, file, World, Host, Exec, pure, fail, lift, gets, attempt, modify, with_context,
  match_option, ◌>>=◌, ◌>>◌,
}
use mind_craft.SvManage.Files.{syscall, is_dir, read_file, create_dir, remove_dir_all, entries_of}
use mind_craft.SvManage.Status.{update_status}
use mind_craft.SvManage.Notifs.{push_notif, replace_notif_if}
use mind_craft.SvManage.ListMods.{is_plain_file, has_extension}
use mind_craft.SvManage.CopyDir.{SizeOf, u64, entry_name, copy_dir_all}
use mind_craft.SvManage.Install.{get_path, get_backup_path, get_mods_path}
use mind_craft.SvManage.Commands.{Command, do_nothing, console, backup, restore, generate_mods_zip}

-- The crates behind the three jobs: fs_extra, zip (the bytes of an archive of named files), base64 and
-- ende (`to_base64` of an account and a server), and the upload with its answer, up to the text of a
-- UUID.
pub record Services : Type 0 where
  pub get_size : SizeOf
  pub zip_of : List (Text × Bytes) → Bytes
  pub to_base64 : Text → Text → Text
  pub post : Bytes → Result Text
  pub parse_uuid : Text → Option Text
  pub ip : Text

module _ {V : Type 0} where
  -- `NOTIFICATIONS.lock()`: a thread that holds the lock does not get it twice.
  unfoldable pub lock : Bool → Exec (World V) (Unit {0})
  lock held = if held then lift diverge else pure tt

  -- `replace_notif_if` for the account of the server, where the caller has the lock or not.
  unfoldable pub replace_notif :
      Bool → (Text → Notification) → (Notification → Bool) → Exec (World V) (Unit {0})
  replace_notif held n f = do
    lock held
    modify (λ w. record w {
      notifs = replace_notif_if w.shared.account (n w.shared.server) f w.notifs;
    })

  unfoldable pub push : (Text → Notification) → Exec (World V) (Unit {0})
  push n =
      modify (λ w. record w { notifs = push_notif w.shared.account (n w.shared.server) w.notifs })

  -- `fs::create_dir` where an existing path is an error like others.
  unfoldable pub create_new : Error → Text → Exec (World V) (Unit {0})
  create_new e p = do existed ← create_dir e p; if existed then fail e else pure tt

  unfoldable pub report_backup : ℕ → ℕ → Exec (World V) (Unit {0})
  report_backup copied total =
      replace_notif false (λ server. backup_progress server copied total) is_backup_progress

  -- The closure takes the lock before it calls `replace_notif_if`.
  unfoldable pub report_restore : ℕ → ℕ → Exec (World V) (Unit {0})
  report_restore copied total = do
    lock false
    replace_notif true (λ server. restore_progress server copied total) is_restore_progress

  unfoldable pub report_zip : ℕ → ℕ → Exec (World V) (Unit {0})
  report_zip copied total =
      replace_notif false (λ server. zip_progress server (zipping copied total)) is_package_progress

module _ {V : Type 0} (host : Host V) where
  -- `inspect_err` on the result of a job.
  unfoldable pub when_failed :
      {A : Type 0} → (Text → Text → Notification) → Result A → Exec (World V) (Unit {0})
  when_failed n (ok _) = pure tt
  when_failed n (err e) = push (λ server. n server (host.debug_error e))
  when_failed n panic = lift panic
  when_failed n diverge = lift diverge

module _ {V : Type 0} (host : Host V) (svc : Services) where
  unfoldable pub backup_block : Exec (World V) (Unit {0})
  backup_block = do
    working ← get_path host
    bak ← get_backup_path host
    ignored ← attempt (remove_dir_all "old backup" bak)
    there ← is_dir bak
    if there then fail "Couldn't delete old backup directory" else pure tt
    create_new "Couldn't create backup directory" bak
    with_context "Error copying data" (copy_dir_all svc.get_size working bak report_backup)

  unfoldable pub run_backup : Exec (World V) (Unit {0})
  run_backup = do
    update_status backing_up
    result ← attempt backup_block
    update_status idle
    when_failed host backup_failed result

  unfoldable pub restore_block : Exec (World V) (Unit {0})
  restore_block = do
    working ← get_path host
    bak ← get_backup_path host
    there ← is_dir bak
    if not there then fail "No backup to restore" else pure tt
    update_status restoring
    remove_dir_all "Couldn't remove working server directory" working
    create_new "Couldn't create working server directory" working
    with_context "Error copying data" (copy_dir_all svc.get_size bak working report_restore)

  unfoldable pub run_restore : Exec (World V) (Unit {0})
  run_restore = do
    result ← attempt restore_block
    update_status idle
    when_failed host restore_failed result

  -- `./{name}.zip`.
  unfoldable pub zip_path : Text → Text → Text
  zip_path account server = codes "./" ++ svc.to_base64 account server ++ codes ".zip"

  -- One entry of the mods folder: the files of the archive and the bytes so far.
  unfoldable pub zip_entry :
      (ℕ → ℕ → Exec (World V) (Unit {0}))
      → ℕ
      → Text
      → Node
      → List (Text × Bytes) × ℕ
      → Exec (World V) (List (Text × Bytes) × ℕ)
  zip_entry progress total p node (files, copied) = do
    syscall "Failed to get directory listing item"
    syscall "Failed to get item file type"
    if not (is_plain_file node && has_extension (codes "jar") p) then pure (files, copied) else (do
      syscall "Failed to get mod file metadata"
      syscall "Failed to add file to zip"
      content ← read_file p
      bytes ← lift (ok_or content "Failed to open mod file for reading")
      syscall "Failed to write mod file in the zip archive"
      progress (u64 (copied + length bytes)) total
      pure (files ++ (entry_name p, bytes) ∷ [], u64 (copied + length bytes)))

  unfoldable pub zip_entries :
      (ℕ → ℕ → Exec (World V) (Unit {0}))
      → ℕ
      → Assoc Node
      → List (Text × Bytes) × ℕ
      → Exec (World V) (List (Text × Bytes) × ℕ)
  zip_entries progress total [] acc = pure acc
  zip_entries progress total ((p, node) ∷ es) acc = do
    more ← zip_entry progress total p node acc
    zip_entries progress total es more

  -- The archive on the disk, and the mark that it is up to date.
  unfoldable pub store_zip : Text → List (Text × Bytes) → Exec (World V) (Unit {0})
  store_zip path files = modify (λ w. record w {
    fs = insert path (file (svc.zip_of files)) w.fs;
    shared = record w.shared { zip_up_to_date = true };
  })

  unfoldable pub write_zip :
      Text → Text → (ℕ → ℕ → Exec (World V) (Unit {0})) → Exec (World V) (Unit {0})
  write_zip mods_folder path progress = do
    size ← gets (λ w. svc.get_size mods_folder w.fs)
    total ← lift (ok_or size "Failed to get total mod folder size")
    syscall "Failed to create zip file"
    modify (λ w. record w { fs = insert path (file []) w.fs })
    syscall "Failed to truncate old zip file"
    syscall "Failed to list mods directory"
    entries ← gets (λ w. entries_of mods_folder w.fs)
    (files, copied) ← zip_entries progress total entries ([], 0)
    syscall "Failed to finalize zip file"
    store_zip path files

  unfoldable pub gen_mods_zip : Text → (ℕ → ℕ → Exec (World V) (Unit {0})) → Exec (World V) Text
  gen_mods_zip mods_folder progress = do
    path ← gets (λ w. zip_path w.shared.account w.shared.server)
    fresh ← gets (λ w. w.shared.zip_up_to_date)
    if fresh then pure tt else write_zip mods_folder path progress
    pure path

  unfoldable pub upload_zip : Exec (World V) Text
  upload_zip = do
    path ← gets (λ w. zip_path w.shared.account w.shared.server)
    real ← lift (ok_or (host.libs.canonicalize path) "Failed to canonicalize zip file path")
    content ← read_file real
    bytes ← lift (ok_or content "Failed to read mods zip file")
    answer ← lift (svc.post bytes)
    uuid ← lift (ok_or (svc.parse_uuid answer) "Response body wasn't a UUID")
    pure (codes "https://" ++ svc.ip ++ codes "/assets/mods/" ++ uuid)

  unfoldable pub package_mods : Exec (World V) Text
  package_mods = do
    update_status packaging
    mods_folder ← with_context "Error getting mods folder path" (get_mods_path host)
    with_context "Error generating mods zip file" (gen_mods_zip mods_folder report_zip)

  unfoldable pub zip_block : Exec (World V) Text
  zip_block = do
    fresh ← gets (λ w. w.shared.zip_up_to_date)
    if not fresh then (do path ← package_mods; pure tt) else pure tt
    with_context "Error uploading mods zip file" upload_zip

  unfoldable pub announce_zip : Result Text → Exec (World V) (Unit {0})
  announce_zip (ok url) = push (λ server. zip_file server url)
  announce_zip (err e) = push (λ server. zip_failed server (host.debug_error e))
  announce_zip panic = lift panic
  announce_zip diverge = lift diverge

  unfoldable pub run_zip : Exec (World V) (Unit {0})
  run_zip = do result ← attempt zip_block; update_status idle; announce_zip result

  -- The `match` on the deferred command.
  unfoldable pub run_deferred : Command V → Exec (World V) (Unit {0})
  run_deferred backup = run_backup
  run_deferred restore = run_restore
  run_deferred generate_mods_zip = run_zip
  run_deferred _ = pure tt
