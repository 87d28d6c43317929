-- ===== src/SvManage/Files/Keeps.antt =====
-- What the system calls leave alone: they write the files and use up outcomes, and nothing else.
use mind_craft.Base.{Text, Assoc, Bool, Option, List, Error}
use mind_craft.Yapper.Types.{ModInfo}
use mind_craft.SvManage.World.{Node, World, modify, ◌>>=◌}
use mind_craft.SvManage.World.Keeps.{Keeps, keeps_rules}
use mind_craft.SvManage.Files.{
  next_fault, syscall, read_file, rename, remove_file, create_dir, remove_dir_all, ensure_dir,
}

-- A property that the outcomes of system calls do not touch.
pub record IgnoresFaults {V : Type 0} (P : World V → Type 0) : Type 0 where
  pub on_faults : (w : World V) (bs : List Bool) → P w → P (record w { faults = bs })

-- A property that the caches do not touch.
pub record IgnoresCache {V : Type 0} (P : World V → Type 0) : Type 0 where
  pub on_cache :
      (w : World V) (c : Option (List (ModInfo V))) (m z : Bool)
      → P w
      → P (record w {
        shared = record w.shared { mods_cache = c; mod_cache_up_to_date = m; zip_up_to_date = z };
      })

-- A property that the files do not touch.
pub record IgnoresFiles {V : Type 0} (P : World V → Type 0) : Type 0 where
  pub on_files : (w : World V) (fs : Assoc Node) → P w → P (record w { fs = fs })

module _ {V : Type 0} {P : World V → Type 0} (i : IgnoresFaults P) where
  pub next_fault-Keeps : Keeps P (next_fault {V = V})
  unfolding next_fault
  next_fault-Keeps = record { at = λ w h. i.on_faults w _ h }

  pub syscall-Keeps : (e : Error) → Keeps P (syscall {V = V} e)
  unfolding syscall
  syscall-Keeps e = search (keeps_rules, next_fault-Keeps)

  pub read_file-Keeps : (p : Text) → Keeps P (read_file {V = V} p)
  unfolding read_file
  read_file-Keeps p = search (keeps_rules, next_fault-Keeps)

module _ {V : Type 0} {P : World V → Type 0} (i : IgnoresFaults P) (j : IgnoresFiles P) where
  write-Keeps : (f : World V → Assoc Node) → Keeps P (modify (λ w. record w { fs = f w }))
  unfolding ◌>>=◌
  write-Keeps f = record { at = λ w h. j.on_files w (f w) h }

  pub rename-Keeps : (e : Error) (a b : Text) → Keeps P (rename {V = V} e a b)
  unfolding rename
  rename-Keeps e a b = search (keeps_rules, syscall-Keeps i, write-Keeps)

  pub remove_file-Keeps : (e : Error) (p : Text) → Keeps P (remove_file {V = V} e p)
  unfolding remove_file
  remove_file-Keeps e p = search (keeps_rules, syscall-Keeps i, write-Keeps)

  pub create_dir-Keeps : (e : Error) (p : Text) → Keeps P (create_dir {V = V} e p)
  unfolding create_dir
  create_dir-Keeps e p = search (keeps_rules, syscall-Keeps i, write-Keeps)

  pub remove_dir_all-Keeps : (e : Error) (p : Text) → Keeps P (remove_dir_all {V = V} e p)
  unfolding remove_dir_all
  remove_dir_all-Keeps e p = search (keeps_rules, syscall-Keeps i, write-Keeps)

  pub ensure_dir-Keeps : (p : Text) → Keeps P (ensure_dir {V = V} p)
  unfolding ensure_dir
  ensure_dir-Keeps p = search (keeps_rules, create_dir-Keeps)
