-- ===== src/SvManage/Notifs/Progress.antt =====
-- A progress message takes the place of the one before it: the queue never holds two.
use mind_craft.Base.{
  ℕ, suc, ◌≤◌, ◌≡◌, Text, text_eq_iff, Bool, true, not, refl, List, [], ◌∷◌, retain, arith,
  if◌then◌else◌,
}
use mind_craft.Yapper.Types.{Notification}
use mind_craft.SvManage.Notifs.{Queues, queue, replace_notif_if, replace_first}
use mind_craft.SvManage.Notifs.Delivery.{queue-replace_notif_if}

abbrev pub count_if : (Notification → Bool) → List Notification → ℕ
count_if f [] = 0
count_if f (x ∷ xs) = let rest = count_if f xs in if f x then suc rest else rest

module _ (f : Notification → Bool) (n : Notification) (kind : f n ≡ true) where
  no_kind : (xs : List Notification) → count_if f xs ≤ 0 → retain f xs ≡ []
  no_kind [] h = refl
  no_kind (x ∷ xs) h = ground (arith, no_kind xs)

  replace_first-kind :
      (xs : List Notification) → count_if f xs ≤ 1 → retain f (replace_first f n xs) ≡ n ∷ []
  unfolding replace_first
  replace_first-kind [] h = ground (arith, kind)
  replace_first-kind (x ∷ xs) h = ground (arith, kind, replace_first-kind xs, no_kind xs)

  replace_first-others :
      (xs : List Notification)
      → retain (λ x. not (f x)) (replace_first f n xs) ≡ retain (λ x. not (f x)) xs
  unfolding replace_first
  replace_first-others [] = ground (arith, kind)
  replace_first-others (x ∷ xs) = ground (arith, kind, replace_first-others xs)

  -- If a queue holds at most one notification of a kind, then after a progress message of the kind that
  -- message is the only one of the kind that it holds, and the notifications of other kinds are as they
  -- were, in their order.
  pub replace_notif_if-progress :
      (a : Text) (q : Queues)
      → count_if f (queue a q) ≤ 1
      → let after = queue a (replace_notif_if a n f q) in
        (retain f after ≡ n ∷ [])
        × (retain (λ x. not (f x)) after ≡ retain (λ x. not (f x)) (queue a q))
  replace_notif_if-progress a q h =
      let e : queue a (replace_notif_if a n f q) ≡ replace_first f n (queue a q) =
        ground (arith, queue-replace_notif_if a a n f q, text_eq_iff a a) in
      (rw e (replace_first-kind (queue a q) h), rw e (replace_first-others (queue a q)))
