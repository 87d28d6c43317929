-- ===== src/SvManage/Tests/Threads.antt =====
-- sv_manage: the theorems on the thread of a server at concrete inputs.
use mind_craft.Base.{
  ℕ, suc, ◌^◌, codes, text_eq, join, parent, lookup, not, none, some, List, [], ◌∷◌, ◌++◌, length,
  retain, ◌≡◌, refl, ◌↔◌, ok, panic, if◌then◌else◌, arith, sort_by,
}
use mind_craft.Yapper.Types.{
  idle, backup_progress, is_backup_progress, Response, installation, dep_satisfied,
}
use mind_craft.Yapper.Tests.{test_versions}
use mind_craft.SvManage.World.{◌>>=◌}
use mind_craft.SvManage.Notifs.{queue, get_notifs, replace_notif_if}
use mind_craft.SvManage.Notifs.Delivery.{push_all, get_notifs-push_all}
use mind_craft.SvManage.Notifs.Progress.{replace_notif_if-progress}
use mind_craft.SvManage.Paging.{page_of}
use mind_craft.SvManage.Paging.Pages.{fetch, fetch_all}
use mind_craft.SvManage.Paging.Overflow.{page_of-panics}
use mind_craft.SvManage.ListMods.{id_leb, list_mods}
use mind_craft.SvManage.Status.Trail.{IsLinked, follow}
use mind_craft.SvManage.Status.{update_status}
use mind_craft.SvManage.Files.{ensure_dir, is_dir_in, is_file_in, entries_of, syscall}
use mind_craft.SvManage.Install.{
  uninstall_mod, uninstall_block, get_mods_path, get_path, remove_found, finish,
}
use mind_craft.SvManage.Deps.{resolve}
use mind_craft.SvManage.Deps.Satisfied.{IsSound, resolve-IsSound}
use mind_craft.SvManage.Commands.{Command, process_command_idle, process_command_inloop}
use mind_craft.SvManage.Commands.Keeps.{process_command_idle-IsLinked}
use mind_craft.SvManage.Commands.Answers.{uninstalls, process_command_inloop-idle}
use mind_craft.SvManage.CopyDir.{copy_entries, copy_dir_all_recursive}
use mind_craft.SvManage.Deferred.{Services, run_deferred, report_restore}
use mind_craft.SvManage.Deferred.Keeps.{run_deferred-IsLinked}
use mind_craft.SvManage.Deferred.Locked.{restore_copies_nothing}
use mind_craft.SvManage.Tests.Data.{host, world, needing}

world-IsLinked : IsLinked idle world
unfolding follow lookup
world-IsLinked = record { trail = refl }

process_command_idle-IsLinked_example :
    IsLinked idle (process_command_idle host (Command.uninstall_mod (codes "a")) world).1
process_command_idle-IsLinked_example =
    process_command_idle-IsLinked idle host (Command.uninstall_mod (codes "a")) world world-IsLinked

abbrev services : Services
services = record {
  get_size = λ _ fs. some (length fs);
  zip_of = λ _. [];
  to_base64 = λ a s. a ++ s;
  post = λ _. ok (codes "u");
  parse_uuid = some;
  ip = codes "h";
}

run_deferred-IsLinked_example : IsLinked idle (run_deferred host services Command.backup world).1
run_deferred-IsLinked_example =
    run_deferred-IsLinked idle host services Command.backup world world-IsLinked

abbrev done : Response ℕ
done = Response.ok

get_notifs-push_all_example :
    let (got, q') =
      get_notifs (codes "me") (push_all (codes "me") (backup_progress (codes "s") 1 2 ∷ []) []) in
    (got ≡ queue (codes "me") [] ++ backup_progress (codes "s") 1 2 ∷ [])
    × (queue (codes "you") q'
        ≡ (if text_eq (codes "me") (codes "you") then [] else queue (codes "you") []))
get_notifs-push_all_example =
    get_notifs-push_all (codes "me") (codes "you") (backup_progress (codes "s") 1 2 ∷ []) []

replace_notif_if-progress_example :
    let after =
      queue
        (codes "me")
        (replace_notif_if (codes "me") (backup_progress (codes "s") 1 2) is_backup_progress []) in
    (retain is_backup_progress after ≡ backup_progress (codes "s") 1 2 ∷ [])
    × (retain (λ x. not (is_backup_progress x)) after
        ≡ retain (λ x. not (is_backup_progress x)) (queue (codes "me") []))
unfolding is_backup_progress lookup
replace_notif_if-progress_example =
    replace_notif_if-progress is_backup_progress (backup_progress (codes "s") 1 2) refl (codes "me")
      [] (omega arith)

abbrev numbers : List ℕ
numbers = 1 ∷ 2 ∷ 3 ∷ []

fetch_all_example : fetch (suc (length numbers)) 2 0 numbers ≡ ok numbers
fetch_all_example = fetch_all 2 numbers (omega arith) (omega arith)

page_of-panics_example : page_of (2 ^ 63) 1 numbers ≡ panic
page_of-panics_example =
    page_of-panics (2 ^ 63) numbers (omega arith) (omega arith) (omega arith) (omega arith)

resolve-IsSound_example :
    (resolve test_versions installation [] (needing (codes "a") (codes "a") ∷ []) ≡ dep_satisfied)
    ↔ IsSound test_versions installation [] (sort_by id_leb (needing (codes "a") (codes "a") ∷ []))
resolve-IsSound_example =
    resolve-IsSound test_versions installation [] (needing (codes "a") (codes "a") ∷ [])

uninstall_unknown :
    (process_command_inloop host none (Command.uninstall_mod (codes "b")) world).0
    ≡ ok Response.no_such_mod
unfolding process_command_inloop uninstall_mod ◌>>=◌ uninstall_block get_mods_path get_path
    ensure_dir text_eq join list_mods remove_found finish update_status
uninstall_unknown = refl

process_command_inloop-idle_example :
    (process_command_inloop host none (Command.uninstall_mod (codes "b")) world).1.shared.status
    ≡ idle
process_command_inloop-idle_example =
    process_command_inloop-idle host none (Command.uninstall_mod (codes "b")) world
      Response.no_such_mod uninstalls uninstall_unknown

copied_nothing :
    (copy_dir_all_recursive (report_restore {V = ℕ}) 0 1 (codes "/s.bak") (codes "/s") 0 world).0
    ≡ ok 0
unfolding copy_dir_all_recursive ◌>>=◌ is_dir_in is_file_in entries_of syscall copy_entries text_eq
    parent lookup
copied_nothing = refl

abbrev no_bytes : ℕ
no_bytes = 0

restore_copies_nothing_example : no_bytes ≡ no_bytes
restore_copies_nothing_example =
    restore_copies_nothing 0 1 (codes "/s.bak") (codes "/s") world 0 copied_nothing
