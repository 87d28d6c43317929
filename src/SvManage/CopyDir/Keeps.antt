-- ===== src/SvManage/CopyDir/Keeps.antt =====
-- sv_manage/src/sv_fs.rs: what the copy of a directory leaves alone.
use mind_craft.Base.{ℕ, zero, suc, Text, Assoc, not, [], ◌∷◌, Error}
use mind_craft.SvManage.World.{Node, file, dir, World, Exec, modify, ◌>>=◌}
use mind_craft.SvManage.World.Keeps.{
  Keeps, Keeps-bind, Keeps-if, Keeps-pure, Keeps-fail, Keeps-gets, Keeps-lift, Keeps-with_context,
}
use mind_craft.SvManage.Files.Keeps.{syscall-Keeps, read_file-Keeps}
use mind_craft.SvManage.Install.Keeps.{IsOpen}
use mind_craft.SvManage.CopyDir.{
  SizeOf, copy_file, copy_entry, copy_entries, copy_dir_all_recursive, copy_dir_all, create_dir_all,
}

module _ {V : Type 0} {P : World V → Type 0} (o : IsOpen P) where
  write-Keeps : (f : World V → Assoc Node) → Keeps P (modify (λ w. record w { fs = f w }))
  unfolding ◌>>=◌
  write-Keeps f = record { at = λ w h. o.files.on_files w (f w) h }

  create_dir_all-Keeps : (e : Error) (p : Text) → Keeps P (create_dir_all e p)
  unfolding create_dir_all
  create_dir_all-Keeps e p = Keeps-bind _ _ (syscall-Keeps o.faults _) λ _. write-Keeps _

  copy_file-Keeps : (e : Error) (a b : Text) → Keeps P (copy_file e a b)
  unfolding copy_file
  copy_file-Keeps e a b = Keeps-bind _ _ (read_file-Keeps o.faults _) λ _.
      Keeps-bind _ _ (Keeps-lift _) λ _. Keeps-bind _ _ (Keeps-gets _) λ blocked.
        Keeps-bind _ _ (Keeps-if blocked _ _ (Keeps-fail _) (Keeps-pure _)) λ _. write-Keeps _

module _ {V : Type 0} {P : World V → Type 0} (o : IsOpen P)
    (progress : ℕ → ℕ → Exec (World V) (Unit {0})) (total : ℕ)
    (reports : (c t : ℕ) → Keeps P (progress c t)) where
  copy_entry-Keeps :
      (recur : Text → Text → ℕ → Exec (World V) ℕ)
      → ((from to : Text) (c : ℕ) → Keeps P (recur from to c))
      → (to p : Text) (node : Node) (copied : ℕ)
      → Keeps P (copy_entry progress total recur to p node copied)
  unfolding copy_entry
  copy_entry-Keeps recur below to p (file content) copied =
      Keeps-bind _ _ (syscall-Keeps o.faults _) λ _. Keeps-bind _ _ (syscall-Keeps o.faults _) λ _.
        Keeps-bind _ _ (syscall-Keeps o.faults _) λ _.
          Keeps-bind _ _ (copy_file-Keeps o _ _ _)
            λ _. Keeps-bind _ _ (reports _ total) λ _. Keeps-pure _
  copy_entry-Keeps recur below to p dir copied =
      Keeps-bind _ _ (syscall-Keeps o.faults _) λ _.
        Keeps-bind _ _ (syscall-Keeps o.faults _) λ _. Keeps-with_context _ _ (below _ _ copied)

  copy_entries-Keeps :
      (recur : Text → Text → ℕ → Exec (World V) ℕ)
      → ((from to : Text) (c : ℕ) → Keeps P (recur from to c))
      → (to : Text) (es : Assoc Node) (copied : ℕ)
      → Keeps P (copy_entries progress total recur to es copied)
  unfolding copy_entries
  copy_entries-Keeps recur below to [] copied = Keeps-pure _
  copy_entries-Keeps recur below to ((p, node) ∷ es) copied =
      Keeps-bind _ _ (copy_entry-Keeps recur below to p node copied)
        λ more. copy_entries-Keeps recur below to es more

  pub copy_dir-Keeps :
      (fuel : ℕ) (from to : Text) (copied : ℕ)
      → Keeps P (copy_dir_all_recursive progress total fuel from to copied)
  unfolding copy_dir_all_recursive
  copy_dir-Keeps zero from to copied = Keeps-lift _
  copy_dir-Keeps (suc fuel) from to copied = Keeps-bind _ _ (Keeps-gets _) λ source.
      Keeps-bind _ _ (Keeps-if (not source) _ _ (Keeps-fail _) (Keeps-pure _)) λ _.
        Keeps-bind _ _ (Keeps-gets _) λ blocked.
          Keeps-bind _ _ (Keeps-if blocked _ _ (Keeps-fail _) (Keeps-pure _)) λ _.
            Keeps-bind _ _ (Keeps-gets _) λ there.
              Keeps-bind _ _ (Keeps-if (not there) _ _ (create_dir_all-Keeps o _ to) (Keeps-pure _))
                λ _. Keeps-bind _ _ (syscall-Keeps o.faults _) λ _.
                  Keeps-bind _ _ (Keeps-gets _) λ entries.
                    copy_entries-Keeps (copy_dir_all_recursive progress total fuel)
                      (copy_dir-Keeps fuel) to entries copied

pub copy_dir_all-Keeps :
    {V : Type 0} {P : World V → Type 0}
    → IsOpen P
    → (size_of : SizeOf) (from to : Text) (progress : ℕ → ℕ → Exec (World V) (Unit {0}))
    → ((c t : ℕ) → Keeps P (progress c t))
    → Keeps P (copy_dir_all size_of from to progress)
unfolding copy_dir_all
copy_dir_all-Keeps o size_of from to progress reports = Keeps-bind _ _ (Keeps-gets _) λ size.
    Keeps-bind _ _ (Keeps-lift _) λ total. Keeps-bind _ _ (Keeps-gets _) λ fuel.
      Keeps-bind _ _ (copy_dir-Keeps o progress total reports fuel from to 0) λ copied. Keeps-pure _
