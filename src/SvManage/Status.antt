-- ===== src/SvManage/Status.antt =====
-- sv_manage/src/server_loop.rs: the status of a server, `update_status` and the flags that a client
-- sets, `start`, `stop` and `reboot`.
pub mod Trail
pub mod News
use mind_craft.Base.{
  ℕ, Text, Bool, true, false, if◌then◌else◌, List, [], ◌∷◌, ◌++◌, ◌≡◌, ◌≢◌, refl, Result, ok, Error,
  ◌==◌,
}
use mind_craft.Yapper.Types.{Status, ModInfo, Notification, status_changed, status_index, idle}
use mind_craft.SvManage.World.{Shared, World, Exec, pure, modify, ◌>>=◌, ◌>>◌, Host}
use mind_craft.SvManage.Notifs.{Queues, push_notif}

-- `==` on `Status`.
abbrev pub status_eq : Status → Status → Bool
status_eq a b = status_index a == status_index b

module _ {V : Type 0} where
  -- What `update_status` adds to the queues.
  unfoldable pub announce : Shared V → Status → Queues → Queues
  announce shared status notifs =
      let old = shared.status in
      if status_eq old status
      then notifs
      else push_notif shared.account (status_changed shared.server old status) notifs

  -- `swap`, and a notification if the status is another one.
  unfoldable pub update_status : Status → Exec (World V) (Unit {0})
  update_status status w = (
    ok tt,
    record w {
      shared = record w.shared { status = status };
      notifs = announce w.shared status w.notifs;
    },
  )

  unfoldable pub invalidate_mod_cache : Exec (World V) (Unit {0})
  invalidate_mod_cache = modify (λ w. record w {
    shared = record w.shared { zip_up_to_date = false; mod_cache_up_to_date = false };
  })
