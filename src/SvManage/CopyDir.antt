-- ===== src/SvManage/CopyDir.antt =====
-- sv_manage/src/sv_fs.rs: the copy of a directory with a report after each file. The files of the model
-- are plain files and directories, so the branches for links and other types do not arise.
pub mod Keeps
use mind_craft.Base.{
  ℕ, zero, suc, ◌+◌, ◌%◌, ◌^◌, Text, codes, join, file_name, parent, Assoc, lookup, insert,
  contains_key, length, Bool, true, false, not, Option, none, some, List, [], ◌∷◌, Result, diverge,
  ok_or, Error, if◌then◌else◌,
}
use mind_craft.SvManage.World.{
  Node, file, dir, World, Exec, pure, fail, lift, gets, modify, with_context, match_option, ◌>>=◌,
  ◌>>◌,
}
use mind_craft.SvManage.Files.{syscall, is_file, is_dir, read_file, entries_of}

-- `fs_extra::dir::get_size`: the size of a directory, where it can be told.
abbrev pub SizeOf : Type 0
SizeOf = Text → Assoc Node → Option ℕ

abbrev pub u64 : ℕ → ℕ
u64 n = n % 2 ^ 64

-- The directory and those above it that are not there yet; a path has fewer parts than letters.
make_dirs : ℕ → Text → Assoc Node → Assoc Node
unfolding contains_key parent insert
make_dirs zero p fs = fs
make_dirs (suc n) p fs =
    let above : Assoc Node = elim (parent p) [ none ↦ fs | some up ↦ make_dirs n up fs ] in
    if contains_key p fs then fs else insert p dir above

-- The last component of the path of an entry.
abbrev pub entry_name : Text → Text
entry_name p = elim (file_name p) [ none ↦ [] | some n ↦ n ]

module _ {V : Type 0} where
  unfoldable pub create_dir_all : Error → Text → Exec (World V) (Unit {0})
  unfolding make_dirs
  create_dir_all e p = do syscall e; modify (λ w. record w { fs = make_dirs (length p) p w.fs })

  -- `fs::copy`, on a destination that is no directory.
  unfoldable pub copy_file : Error → Text → Text → Exec (World V) (Unit {0})
  unfolding insert
  copy_file e from_file to_file = do
    content ← read_file from_file
    bytes ← lift (ok_or content e)
    blocked ← is_dir to_file
    if blocked then fail e else pure tt
    modify (λ w. record w { fs = insert to_file (file bytes) w.fs })

module _ {V : Type 0} (progress : ℕ → ℕ → Exec (World V) (Unit {0})) (total : ℕ) where
  -- One entry; `recur` copies a directory.
  unfoldable pub copy_entry :
      (Text → Text → ℕ → Exec (World V) ℕ) → Text → Text → Node → ℕ → Exec (World V) ℕ
  copy_entry recur to p (file content) copied = do
    syscall "Directory iteration error"
    syscall "Failed to get file type"
    syscall "Failed to get file metadata"
    copy_file "Error copying file" p (join to (entry_name p))
    progress (u64 (copied + length content)) total
    pure (u64 (copied + length content))
  copy_entry recur to p dir copied = do
    syscall "Directory iteration error"
    syscall "Failed to get file type"
    with_context "Copying sub-directory failed" (recur p (join to (entry_name p)) copied)

  unfoldable pub copy_entries :
      (Text → Text → ℕ → Exec (World V) ℕ) → Text → Assoc Node → ℕ → Exec (World V) ℕ
  copy_entries recur to [] copied = pure copied
  copy_entries recur to ((p, node) ∷ es) copied = do
    more ← copy_entry recur to p node copied
    copy_entries recur to es more

  -- `copy_dir_all_recursive`; the bytes copied so far go in and come out.
  unfoldable pub copy_dir_all_recursive : ℕ → Text → Text → ℕ → Exec (World V) ℕ
  copy_dir_all_recursive zero from to copied = lift diverge
  copy_dir_all_recursive (suc fuel) from to copied = do
    source ← is_dir from
    if not source then fail "Source directory doesn't exist!" else pure tt
    blocked ← is_file to
    if blocked then fail "Destination directory is actually a file??" else pure tt
    there ← is_dir to
    if not there then create_dir_all "Failed to create destination directory" to else pure tt
    syscall "Failed to open directory"
    entries ← gets (λ w. entries_of from w.fs)
    copy_entries (copy_dir_all_recursive fuel) to entries copied

-- `copy_dir_all`. A directory lies less deep than its path has letters, and each call goes one level
-- down, so the letters of the longest path are fuel enough.
longest : Assoc Node → ℕ
longest [] = 0
longest ((p, _) ∷ fs) = length p + longest fs

unfoldable pub copy_dir_all :
    {V : Type 0}
    → SizeOf
    → Text
    → Text
    → (ℕ → ℕ → Exec (World V) (Unit {0}))
    → Exec (World V) (Unit {0})
unfolding longest
copy_dir_all size_of from to progress = do
  size ← gets (λ w. size_of from w.fs)
  total ← lift (ok_or size "Failed to get total folder size")
  fuel ← gets (λ w. suc (longest w.fs))
  copied ← copy_dir_all_recursive progress total fuel from to 0
  pure tt
