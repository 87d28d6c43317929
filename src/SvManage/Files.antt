-- ===== src/SvManage/Files.antt =====
-- The calls of `std::fs` and `std::path` on the files of the world. A call that can fail takes its
-- outcome from `faults`; `exists`, `is_file` and `is_dir` show no failure.
pub mod Keeps
use mind_craft.Base.{
  ℕ, Text, codes, text_eq, starts_with, Assoc, lookup, insert, remove, parent, Bool, true, false,
  ◌&&◌, ◌||◌, not, Option, none, some, is_some, List, [], ◌∷◌, ◌++◌, retain, Result, ok, err, Error,
  if◌then◌else◌,
}
use mind_craft.Yapper.ModParser.Parse.{Bytes}
use mind_craft.SvManage.World.{
  Node, file, dir, World, Exec, pure, fail, gets, modify, match_option, ◌>>=◌, ◌>>◌,
}

unfoldable pub is_file_in : Assoc Node → Text → Bool
unfolding lookup
is_file_in fs p = elim (lookup p fs) [ some (file _) ↦ true | _ ↦ false ]

unfoldable pub is_dir_in : Assoc Node → Text → Bool
unfolding lookup
is_dir_in fs p = elim (lookup p fs) [ some dir ↦ true | _ ↦ false ]

child_of : Text → Text × Node → Bool
unfolding parent text_eq
child_of d (p, _) = elim (parent p) [ none ↦ false | some up ↦ text_eq up d ]

-- The entries that stand directly in a directory.
unfoldable pub entries_of : Text → Assoc Node → Assoc Node
unfolding child_of
entries_of d fs = retain (child_of d) fs

-- Whether a path is the directory or lies below it.
unfoldable pub lies_in : Text → Text → Bool
unfolding text_eq starts_with
lies_in d p = text_eq p d || starts_with p (d ++ codes "/")

-- Whether the next system call fails, and the outcomes after it.
outcome : List Bool → Bool
outcome [] = false
outcome (b ∷ _) = b

later : List Bool → List Bool
later [] = []
later (_ ∷ bs) = bs

module _ {V : Type 0} where
  -- Takes the outcome of the next system call.
  unfoldable pub next_fault : Exec (World V) Bool
  unfolding outcome later
  next_fault w = (ok (outcome w.faults), record w { faults = later w.faults })

  -- A system call that fails only for reasons of the system.
  unfoldable pub syscall : Error → Exec (World V) (Unit {0})
  unfolding next_fault
  syscall e = do b ← next_fault; if b then fail e else pure tt

  abbrev pub is_file : Text → Exec (World V) Bool
  is_file p = gets (λ w. is_file_in w.fs p)

  abbrev pub is_dir : Text → Exec (World V) Bool
  is_dir p = gets (λ w. is_dir_in w.fs p)

  abbrev pub exists : Text → Exec (World V) Bool
  exists p = gets (λ w. is_some (lookup p w.fs))

  -- `File::open` and `read_to_end`, as an option.
  unfoldable pub read_file : Text → Exec (World V) (Option Bytes)
  unfolding next_fault lookup
  read_file p = do
    b ← next_fault
    n ← gets (λ w. lookup p w.fs)
    pure (if b then none else elim n [ some (file c) ↦ some c | _ ↦ none ])

  unfoldable pub rename : Error → Text → Text → Exec (World V) (Unit {0})
  unfolding syscall lookup insert remove
  rename e a b = do
    syscall e
    n ← gets (λ w. lookup a w.fs)
    match_option n (fail e) λ node. modify (λ w. record w { fs = insert b node (remove a w.fs) })

  unfoldable pub remove_file : Error → Text → Exec (World V) (Unit {0})
  unfolding syscall is_file_in remove
  remove_file e p = do
    syscall e
    here ← is_file p
    if here then modify (λ w. record w { fs = remove p w.fs }) else fail e

  -- `fs::create_dir`; `true` where the path exists already.
  unfoldable pub create_dir : Error → Text → Exec (World V) Bool
  unfolding syscall lookup insert
  create_dir e p = do
    syscall e
    here ← exists p
    if here then pure true else (do modify (λ w. record w { fs = insert p dir w.fs }); pure false)

  unfoldable pub remove_dir_all : Error → Text → Exec (World V) (Unit {0})
  unfolding syscall is_dir_in lies_in
  remove_dir_all e p = do
    syscall e
    here ← is_dir p
    if here then modify (λ w. record w { fs = retain (λ n. not (lies_in p n.0)) w.fs }) else fail e

  -- `ensure_dir`: a directory that exists is fine, a file is not.
  unfoldable pub ensure_dir : Text → Exec (World V) (Unit {0})
  unfolding create_dir is_file_in
  ensure_dir p = do
    existed ← create_dir "Error creating mods folder" p
    blocked ← is_file p
    if existed && blocked then fail "Path already exists and it's a file" else pure tt

  -- The drop of a `DelOnDrop`: the file goes if it can, and a failure shows nowhere.
  unfoldable pub delete_quietly : Text → World V → World V
  unfolding remove_file
  delete_quietly p w = (remove_file "drop" p w).1
