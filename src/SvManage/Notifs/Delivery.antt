-- ===== src/SvManage/Notifs/Delivery.antt =====
-- Every notification that is pushed is delivered once, in order, and to its account only.
use mind_craft.Base.{
  ◌≡◌, Text, text_eq, text_eq_iff, text_eq_refl, lookup-insert, Bool, List, [], ◌∷◌, ◌++◌, arith,
  if◌then◌else◌, append_assoc, append-nil,
}
use mind_craft.Yapper.Types.{Notification}
use mind_craft.SvManage.Notifs.{
  Queues, queue, get_notifs, push_notif, replace_notif_if, replace_first, ensure_queue,
}

queue-ensure_queue : (a b : Text) (q : Queues) → queue b (ensure_queue a q) ≡ queue b q
unfolding ensure_queue
queue-ensure_queue a b q = ground (arith, text_eq_iff a b, lookup-insert {0} a b [] q)

-- Pushing appends to the queue of the account and leaves the others alone.
pub queue-push_notif :
    (a b : Text) (n : Notification) (q : Queues)
    → queue b (push_notif a n q) ≡ (if text_eq a b then queue a q ++ n ∷ [] else queue b q)
unfolding push_notif
queue-push_notif a b n q = ground (
  arith,
  queue-ensure_queue a a q,
  queue-ensure_queue a b q,
  lookup-insert {0} a b (queue a (ensure_queue a q) ++ n ∷ []) (ensure_queue a q),
)

pub queue-replace_notif_if :
    (a b : Text) (n : Notification) (f : Notification → Bool) (q : Queues)
    → queue b (replace_notif_if a n f q)
      ≡ (if text_eq a b then replace_first f n (queue a q) else queue b q)
unfolding replace_notif_if
queue-replace_notif_if a b n f q = ground (
  arith,
  queue-ensure_queue a a q,
  queue-ensure_queue a b q,
  lookup-insert {0} a b (replace_first f n (queue a (ensure_queue a q))) (ensure_queue a q),
)

-- `push_notif` for each notification in turn.
pub push_all : Text → List Notification → Queues → Queues
push_all a [] q = q
push_all a (n ∷ ns) q = push_all a ns (push_notif a n q)

queue-push_all :
    (a b : Text) (ns : List Notification) (q : Queues)
    → queue b (push_all a ns q) ≡ (if text_eq a b then queue a q ++ ns else queue b q)
unfolding push_all
queue-push_all a b [] q = ground (arith, text_eq_iff a b, append-nil {0} (queue a q))
queue-push_all a b (n ∷ ns) q = ground (
  arith,
  queue-push_all a b ns (push_notif a n q),
  queue-push_notif a b n q,
  queue-push_notif a a n q,
  text_eq_refl a,
  append_assoc {0} (queue a q) (n ∷ []) ns,
)

-- What an account collects is what was queued and then pushed for it, in order; its queue is then
-- empty, and the queues of other accounts are as they were.
pub get_notifs-push_all :
    (a b : Text) (ns : List Notification) (q : Queues)
    → let (got, q') = get_notifs a (push_all a ns q) in
      (got ≡ queue a q ++ ns) × (queue b q' ≡ (if text_eq a b then [] else queue b q))
unfolding get_notifs
get_notifs-push_all a b ns q = (
  ground (arith, queue-push_all a a ns q, text_eq_refl a),
  ground (
    arith,
    queue-push_all a b ns q,
    queue-push_all a a ns q,
    text_eq_refl a,
    text_eq_iff a b,
    lookup-insert {0} a b [] (push_all a ns q),
  ),
)
