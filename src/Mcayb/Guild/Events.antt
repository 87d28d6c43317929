-- ===== src/Mcayb/Guild/Events.antt =====
-- mcayb/src/bot.rs: the events lead from the listing that was known to the one that came.
use mind_craft.Base.{
  Text, text_eq, text_eq_iff, text_eq_refl, true, false, Bool-cases, Option, none, some, List, [],
  ◌∷◌, ◌++◌, ◌≡◌, refl, ◌∙◌, ◌⊎◌, inl, inr, arith, if◌then◌else◌, is_some,
}
use mind_craft.Yapper.Types.{ServerStatus}
use mind_craft.Mcayb.Guild.{
  Event, server_deleted, server_created, path_changed, server_named, event_of, old_events,
  new_events, events,
}

-- What a reader of the events knows of one server: nothing, that it is there, or its path too.
pub data Known : Type 0 where
  absent present : Known
  at : Text → Known

module _ (name : Text) where
  pub after_event : Known → Event → Known
  after_event v (server_deleted n) = if text_eq n name then absent else v
  after_event v (server_created n) = if text_eq n name then present else v
  after_event v (path_changed n _ path) = if text_eq n name then at path else v

  pub after_events : Known → List Event → Known
  after_events v [] = v
  after_events v (e ∷ es) = after_events (after_event v e) es

  pub listed_at : Option ServerStatus → Known
  listed_at none = absent
  listed_at (some s) = at s.path

  after_events-append :
      (v : Known) (es fs : List Event)
      → after_events v (es ++ fs) ≡ after_events (after_events v es) fs
  unfolding after_events
  after_events-append v [] fs = refl
  after_events-append v (e ∷ es) fs = after_events-append (after_event v e) es fs

  -- The event of one server of the old listing, with what `new` is in the new one.
  after_event_of :
      (old : ServerStatus) (new : Option ServerStatus) (v : Known)
      → after_events v (event_of old new) ≡ (
          if text_eq old.name name
          then elim new [
            | none ↦ absent
            | some s ↦ if text_eq old.path s.path then v else at s.path
          ]
          else v)
  unfolding after_events after_event event_of
  after_event_of old none v = ground arith
  after_event_of old (some s) v = ground arith

  module _ (new_status : List ServerStatus) where
    here : Known
    here = listed_at (server_named name new_status)

    -- One server of the old listing, by its name and path.
    step_here :
        (old : ServerStatus) (v : Known)
        → text_eq old.name name ≡ true
        → (v ≡ here) ⊎ (v ≡ at old.path)
        → after_events v (event_of old (server_named old.name new_status)) ≡ here
    unfolding here listed_at
    step_here old v e h =
        let same : old.name ≡ name = (text_eq_iff old.name name).0 e in
        after_event_of old (server_named old.name new_status) v
        ∙ rw (same, text_eq_refl name) (cases (server_named name new_status) h)
      where
        cases :
            (new : Option ServerStatus)
            → (v ≡ listed_at new) ⊎ (v ≡ at old.path)
            → elim new [ none ↦ absent | some s ↦ if text_eq old.path s.path then v else at s.path ]
              ≡ listed_at new
        cases none h = refl
        cases (some s) (inl h) = ground (arith, h)
        cases (some s) (inr h) = ground (arith, h, text_eq_iff old.path s.path)

    step_other :
        (old : ServerStatus) (v : Known)
        → text_eq old.name name ≡ false
        → after_events v (event_of old (server_named old.name new_status)) ≡ v
    step_other old v e = after_event_of old (server_named old.name new_status) v ∙ rw e

    after_old_events-here :
        (olds : List ServerStatus) → after_events here (old_events new_status olds) ≡ here
    unfolding old_events after_events
    after_old_events-here [] = refl
    after_old_events-here (old ∷ olds) =
        after_events-append here (event_of old (server_named old.name new_status))
          (old_events new_status olds)
        ∙ elim (Bool-cases (text_eq old.name name)) [
          | inl e ↦ rw (step_here old here e (inl refl)) (after_old_events-here olds)
          | inr e ↦ rw (step_other old here e) (after_old_events-here olds)
        ]

    after_old_events :
        (olds : List ServerStatus)
        → after_events (listed_at (server_named name olds)) (old_events new_status olds)
          ≡ (if is_some (server_named name olds) then here else absent)
    unfolding old_events after_events server_named listed_at
    after_old_events [] = refl
    after_old_events (old ∷ olds) =
        after_events-append _ (event_of old (server_named old.name new_status))
          (old_events new_status olds)
        ∙ elim (Bool-cases (text_eq old.name name)) [
          | inl e ↦
              rw e (rw (step_here old (at old.path) e (inr refl)) (after_old_events-here olds))
          | inr e ↦ rw e (rw (step_other old _ e) (after_old_events olds))
        ]

  after_new_events :
      (last_status news : List ServerStatus) (v : Known)
      → after_events v (new_events last_status news) ≡ (
          if is_some (server_named name last_status)
          then v
          else (if is_some (server_named name news) then present else v))
  unfolding new_events after_events after_event server_named
  after_new_events last_status [] v = ground arith
  after_new_events last_status (s ∷ news) v =
      let same = text_eq_iff s.name name in
      ground (
        arith,
        same,
        after_new_events last_status news v,
        after_new_events last_status news present,
      )

  -- Who knew the old listing and reads the events knows of each server whether the new listing has it,
  -- and its path there if the old one had it too.
  pub after_events-events :
      (last_status new_status : List ServerStatus)
      → after_events (listed_at (server_named name last_status)) (events last_status new_status) ≡ (
          if is_some (server_named name last_status)
          then listed_at (server_named name new_status)
          else (if is_some (server_named name new_status) then present else absent))
  unfolding events here
  after_events-events last_status new_status =
      after_events-append _ (old_events new_status last_status) (new_events last_status new_status)
      ∙ rw (after_old_events new_status last_status)
          (after_new_events last_status new_status _ ∙ ground arith)
