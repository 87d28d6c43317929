-- ===== src/SvManage/Deferred/Locked.antt =====
-- sv_manage/src/server_loop.rs: the progress closure of a restore takes the lock of the notifications
-- and calls `replace_notif_if`, which takes it again.
use mind_craft.Base.{ℕ, zero, suc, Text, Assoc, true, false, ◌≡◌, refl, [], ◌∷◌, ok, diverge, arith}
use mind_craft.SvManage.World.{Node, file, dir, World, Exec, lift, ◌>>=◌}
use mind_craft.SvManage.World.Ends.{Ends, Ends-bind, Ends-bind_value, Ends-pure, Ends-with_context}
use mind_craft.SvManage.CopyDir.{copy_entry, copy_entries, copy_dir_all_recursive}
use mind_craft.SvManage.Deferred.{lock, replace_notif, report_restore}

module _ {V : Type 0} where
  never-Ends : {A : Type 0} {Q : A → World V → Type 0} → Ends Q (lift diverge)
  unfolding ◌>>=◌
  never-Ends = record { at = λ w a h. absurd (ground arith) }

  report_restore-Ends :
      (copied total : ℕ) → Ends (λ _ (_ : World V). true ≡ false) (report_restore copied total)
  unfolding report_restore replace_notif lock
  report_restore-Ends copied total =
      Ends-bind _ _ λ _.
        Ends-bind_value {R = λ _. true ≡ false} _ _ never-Ends λ _ h. absurd (ground (arith, h))

module _ {V : Type 0} (total : ℕ) where
  abbrev Same : ℕ → ℕ → World V → Type 0
  Same before after _ = after ≡ before

  copy_entry-Same :
      (recur : Text → Text → ℕ → Exec (World V) ℕ) (to p : Text) (node : Node) (copied : ℕ)
      → ((from to : Text) (c : ℕ) → Ends (Same c) (recur from to c))
      → Ends (Same copied) (copy_entry report_restore total recur to p node copied)
  unfolding copy_entry
  copy_entry-Same recur to p (file content) copied below = Ends-bind _ _ λ _. Ends-bind _ _ λ _.
      Ends-bind _ _ λ _. Ends-bind _ _ λ _.
        Ends-bind_value {R = λ _. true ≡ false} _ _ (report_restore-Ends _ total)
          λ _ h. absurd (ground (arith, h))
  copy_entry-Same recur to p dir copied below =
      Ends-bind _ _ λ _. Ends-bind _ _ λ _. Ends-with_context _ _ (below _ _ copied)

  copy_entries-Same :
      (recur : Text → Text → ℕ → Exec (World V) ℕ) (to : Text) (es : Assoc Node) (copied : ℕ)
      → ((from to : Text) (c : ℕ) → Ends (Same c) (recur from to c))
      → Ends (Same copied) (copy_entries report_restore total recur to es copied)
  unfolding copy_entries
  copy_entries-Same recur to [] copied below = Ends-pure copied λ w. refl
  copy_entries-Same recur to ((p, node) ∷ es) copied below =
      Ends-bind_value {R = λ c. c ≡ copied} _ _ (copy_entry-Same recur to p node copied below)
        λ more e. rw e (copy_entries-Same recur to es copied below)

  copy_dir-Same :
      (fuel : ℕ) (from to : Text) (copied : ℕ)
      → Ends (Same copied) (copy_dir_all_recursive report_restore total fuel from to copied)
  unfolding copy_dir_all_recursive
  copy_dir-Same zero from to copied = never-Ends
  copy_dir-Same (suc fuel) from to copied = Ends-bind _ _ λ _. Ends-bind _ _ λ _. Ends-bind _ _ λ _.
      Ends-bind _ _ λ _. Ends-bind _ _ λ _. Ends-bind _ _ λ _. Ends-bind _ _ λ _.
        Ends-bind _ _ λ entries.
          copy_entries-Same (copy_dir_all_recursive report_restore total fuel) to entries copied
            (copy_dir-Same fuel)

  -- Where the copy of a restore returns at all, no byte was copied.
  pub restore_copies_nothing :
      (fuel : ℕ) (from to : Text) (w : World V) (copied : ℕ)
      → (copy_dir_all_recursive report_restore total fuel from to 0 w).0 ≡ ok copied
      → copied ≡ 0
  restore_copies_nothing fuel from to w copied h = (copy_dir-Same fuel from to 0).at w copied h
