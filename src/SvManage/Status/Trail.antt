-- ===== src/SvManage/Status/Trail.antt =====
-- The notifications of a server tell the whole story of its status: each change starts where the
-- one before it ended, and the last one ends at the current status.
use mind_craft.Base.{
  Text, text_eq, text_eq_refl, Bool, true, false, not, ◌&&◌, Option, none, some, List, [], ◌∷◌,
  ◌++◌, ◌≡◌, arith, if◌then◌else◌, Option-cases, Bool-cases, inl, inr, ◌∙◌, ap,
}
use mind_craft.Yapper.Types.{Status, Notification, status_changed}
use mind_craft.SvManage.World.{Shared, World}
use mind_craft.SvManage.World.Keeps.{Keeps}
use mind_craft.SvManage.Notifs.{Queues, queue, push_notif, replace_first, replace_notif_if}
use mind_craft.SvManage.Notifs.Delivery.{queue-push_notif, queue-replace_notif_if}
use mind_craft.SvManage.Status.{status_eq, announce, update_status}

-- The status after one notification, if it can follow the status before.
unfoldable pub follow_one : Text → Status → Notification → Option Status
unfolding text_eq
follow_one server s (status_changed sv old new) =
    if text_eq sv server
    then if status_eq old s && not (status_eq old new) then some new else none
    else some s
follow_one server s _ = some s

abbrev follow_on : Option Status → (Status → Option Status) → Option Status
follow_on none k = none
follow_on (some t) k = k t

unfoldable pub follow : Text → Status → List Notification → Option Status
follow server s [] = some s
follow server s (n ∷ ns) = follow_on (follow_one server s n) (λ t. follow server t ns)

follow-snoc :
    (server : Text) (s t : Status) (ns : List Notification) (n : Notification)
    → follow server s ns ≡ some t
    → follow server s (ns ++ n ∷ []) ≡ follow_one server t n
unfolding follow
follow-snoc server s t [] n h = ground arith
follow-snoc server s t (x ∷ ns) n h = elim (Option-cases (follow_one server s x)) [
  | inl e ↦ absurd (ground (arith, e))
  | inr (u, e) ↦ rw e (follow-snoc server u t ns n (rw e at h))
]

-- A search that finds no change of status leaves the trail as it was.
follow-replace_first :
    (server : Text) (s t : Status) (f : Notification → Bool) (n : Notification)
    (ns : List Notification)
    → ((u : Status) (m : Notification) → f m ≡ true → follow_one server u m ≡ some u)
    → f n ≡ true
    → follow server s ns ≡ some t
    → follow server s (replace_first f n ns) ≡ some t
unfolding follow replace_first
follow-replace_first server s t f n [] still kind h = rw (still s n kind) h
follow-replace_first server s t f n (x ∷ ns) still kind h = elim (Bool-cases (f x)) [
  | inl e ↦ rw (e, still s n kind) (rw (still s x e) at h)
  | inr e ↦ rw e (elim (Option-cases (follow_one server s x)) [
    | inl e' ↦ absurd (ground (arith, e'))
    | inr (u, e') ↦ rw e' (follow-replace_first server u t f n ns still kind (rw e' at h))
  ])
]

status_eq→eq : (a b : Status) → status_eq a b ≡ true → a ≡ b
status_eq→eq a b h = ground arith

follow_one-change :
    (server : Text) (a b : Status)
    → status_eq a b ≡ false
    → follow_one server a (status_changed server a b) ≡ some b
unfolding follow_one
follow_one-change server a b h = ground (arith, text_eq_refl server)

-- A notification that is no change of status.
abbrev pub IsNews : Notification → Type 0
IsNews n = (server : Text) (u : Status) → follow_one server u n ≡ some u

-- The queue of the account, followed from `s`, ends at the current status.
pub record IsLinked {V : Type 0} (s : Status) (w : World V) : Type 0 where
  pub trail : follow w.shared.server s (queue w.shared.account w.notifs) ≡ some w.shared.status

module _ {V : Type 0} (s : Status) where
  follow-announce :
      (shared : Shared V) (new : Status) (q : Queues)
      → follow shared.server s (queue shared.account q) ≡ some shared.status
      → follow shared.server s (queue shared.account (announce shared new q)) ≡ some new
  unfolding announce
  follow-announce shared new q h = elim (Bool-cases (status_eq shared.status new)) [
    | inl e ↦ rw e (h ∙ ap some (status_eq→eq shared.status new e))
    | inr e ↦
        let change = status_changed shared.server shared.status new in
        rw (e, queue-push_notif, text_eq_refl)
          (follow-snoc shared.server s shared.status (queue shared.account q) change h
            ∙ follow_one-change shared.server shared.status new e)
  ]

  -- A status is announced if and only if it is another one, so the trail goes on.
  pub update_status-IsLinked : (new : Status) → Keeps (IsLinked {V = V} s) (update_status new)
  unfolding update_status
  update_status-IsLinked new = record {
    at = λ w h. record { trail = follow-announce w.shared new w.notifs h.trail };
  }

  pub push_notif-IsLinked :
      (w : World V) (n : Notification)
      → IsNews n
      → IsLinked s w
      → IsLinked s (record w { notifs = push_notif w.shared.account n w.notifs })
  push_notif-IsLinked w n news h = record {
    trail =
        rw (queue-push_notif, text_eq_refl)
          (follow-snoc w.shared.server s w.shared.status (queue w.shared.account w.notifs) n h.trail
            ∙ news w.shared.server w.shared.status);
  }

  pub replace_notif_if-IsLinked :
      (w : World V) (n : Notification) (f : Notification → Bool)
      → ((m : Notification) → f m ≡ true → IsNews m)
      → f n ≡ true
      → IsLinked s w
      → IsLinked s (record w { notifs = replace_notif_if w.shared.account n f w.notifs })
  replace_notif_if-IsLinked w n f still kind h = record {
    trail =
        rw (queue-replace_notif_if, text_eq_refl)
          (follow-replace_first w.shared.server s w.shared.status f n
            (queue w.shared.account w.notifs) (λ u m e. still m e w.shared.server u) kind h.trail);
  }
