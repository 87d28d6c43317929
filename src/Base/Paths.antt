-- ===== src/Base/Paths.antt =====
-- Paths as text, with the operations of `Path` and `PathBuf` that the program calls. They are those
-- of the standard library for paths with no trailing slash and no `.` component, which is what
-- `canonicalize`, `read_dir` and the program's own `join` calls give.
use mathlib.Core.Bool.{◌||◌}
use mathlib.Core.List.{[], ◌∷◌, ◌++◌, reverse}
use mathlib.Core.Option.{Option, none, some}
use mind_craft.Base.Tests.{if◌then◌else◌}
use mind_craft.Base.Lists.{is_empty}
use mind_craft.Base.Strings.{Text, codes, text_eq, starts_with, split_once}

-- `split_once` from the end.
unfoldable pub rsplit_text : Text → Option (Text × Text)
unfolding split_once
rsplit_text p = elim (split_once b'/' (reverse p)) [
  | none ↦ none
  | some (name, up) ↦ some (reverse up, reverse name)
]

-- `Path::file_name`.
unfoldable pub file_name : Text → Option Text
unfolding rsplit_text text_eq
file_name p =
    let name : Text = elim (rsplit_text p) [ none ↦ p | some (_, n) ↦ n ] in
    if is_empty name || text_eq name (codes "..") then none else some name

-- `Path::parent`.
unfoldable pub parent : Text → Option Text
unfolding rsplit_text
parent p = elim (rsplit_text p) [
  | none ↦ if is_empty p then none else some []
  | some (up, name) ↦ if is_empty name then none else some (if is_empty up then codes "/" else up)
]

-- `Path::join`: an absolute second path takes the place of the first.
unfoldable pub join : Text → Text → Text
unfolding starts_with
join a b =
    if starts_with b (codes "/")
    then b
    else if is_empty a
    then b
    else if starts_with (reverse a) (codes "/")
    then a ++ b
    else a ++ (b'/' ∷ b)

-- `PathBuf::set_file_name`.
unfoldable pub set_file_name : Text → Text → Text
unfolding file_name parent join
set_file_name p name = elim (file_name p) [
  | none ↦ join p name
  | some _ ↦ elim (parent p) [ none ↦ join p name | some up ↦ join up name ]
]

extension_of : Option (Text × Text) → Option Text
extension_of none = none
extension_of (some (ext, stem)) = if is_empty stem then none else some (reverse ext)

-- `Path::extension`: what stands behind the last dot of the name, if something stands before it.
unfoldable pub extension : Text → Option Text
unfolding file_name split_once extension_of
extension p = elim (file_name p) [
  | none ↦ none
  | some name ↦ extension_of (split_once b'.' (reverse name))
]
