-- ===== src/SvManage/Notifs.antt =====
-- sv_manage/src/server_loop.rs: the queues of notifications, one for each account.
pub mod Delivery
pub mod Progress
use mind_craft.Base.{
  ℕ, suc, ◌+◌, ◌≤◌, ◌≡◌, refl, Text, codes, text_eq, text_eq_iff, text_eq_refl, Assoc, lookup,
  insert, lookup-insert, contains_key, Bool, true, false, not, Option, none, some, unwrap_or, List,
  [], ◌∷◌, ◌++◌, any, any-append, length, arith, if◌then◌else◌, append_assoc, ap, ◌∙◌, sym,
}
use mind_craft.Yapper.Types.{Notification}

abbrev pub Queues : Type 0
Queues = Assoc (List Notification)

abbrev pub queue : Text → Queues → List Notification
queue account q = unwrap_or (lookup account q) []

-- The list for the caller, and the queues with an empty list in its place.
unfoldable pub get_notifs : Text → Queues → List Notification × Queues
unfolding contains_key lookup insert
get_notifs account notifs =
    if not (contains_key account notifs)
    then ([], notifs)
    else (queue account notifs, insert account [] notifs)

-- The queue of the account is made where there is none.
unfoldable pub ensure_queue : Text → Queues → Queues
unfolding contains_key insert
ensure_queue account notifs =
    if not (contains_key account notifs) then insert account [] notifs else notifs

unfoldable pub push_notif : Text → Notification → Queues → Queues
push_notif account notif notifs =
    let q = ensure_queue account notifs in insert account (queue account q ++ notif ∷ []) q

-- `iter_mut().find(f)` and the write through it, or `push` where nothing is found.
unfoldable pub replace_first :
    (Notification → Bool) → Notification → List Notification → List Notification
replace_first f notif [] = notif ∷ []
replace_first f notif (x ∷ xs) = if f x then notif ∷ xs else x ∷ replace_first f notif xs

unfoldable pub replace_notif_if : Text → Notification → (Notification → Bool) → Queues → Queues
replace_notif_if account notif f notifs =
    let q = ensure_queue account notifs in
    insert account (replace_first f notif (queue account q)) q
