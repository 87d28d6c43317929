-- ===== src/SvManage/Runner.antt =====
-- sv_manage/src/server_loop.rs: where `list_mods` finds forge, from the text of run.sh.
use mind_craft.Base.{
  ℕ, suc, ◌+◌, ◌-◌, Text, codes, starts_with, file_name, split_once, parent, join, drop, take,
  length, Option, none, some, List, [], ◌∷◌, Result, ok, err, panic, ok_or, unwrap_or, ◌>>=◌, ltb,
  if◌then◌else◌,
}

-- `find` of a substring: the index of its first character.
unfoldable pub find_text : Text → Text → Option ℕ
unfolding starts_with
find_text [] pat = if starts_with [] pat then some 0 else none
find_text (c ∷ s) pat =
    if starts_with (c ∷ s) pat
    then some 0
    else elim (find_text s pat) [ none ↦ none | some i ↦ some (suc i) ]

-- `rfind`: the index of the last occurrence.
unfoldable pub rfind_text : Text → Text → Option ℕ
unfolding starts_with
rfind_text [] pat = if starts_with [] pat then some 0 else none
rfind_text (c ∷ s) pat = elim (rfind_text s pat) [
  | some i ↦ some (suc i)
  | none ↦ if starts_with (c ∷ s) pat then some 0 else none
]

-- `&s[from..to]`, which panics where the range is not one of `s`.
unfoldable pub slice : {A : Type 0} → List A → ℕ → ℕ → Result (List A)
slice s from to =
    if ltb to from
    then panic
    else if ltb (length s) to
    then panic
    else ok (take (to - from) (drop from s))

-- The directory of the forge installation that run.sh names, below the folder of the server.
unfoldable pub forge_dir_of : Text → Text → Result Text
unfolding find_text rfind_text slice join parent
forge_dir_of server_path runner = elim (find_text runner (codes "@libraries")) [
  | none ↦ err "Could't parse run.sh script"
  | some start ↦ elim (rfind_text runner (codes "_args.txt")) [
    | none ↦ err "Could't parse run.sh script"
    | some end' ↦ slice runner (start + 1) (end' + length (codes "_args.txt")) >>= λ rel.
        ok (unwrap_or (parent (join server_path rel)) (join server_path rel))
  ]
]

-- The versions of minecraft and of forge, from the name of that directory.
unfoldable pub versions_of : Text → Result (Text × Text)
unfolding file_name split_once
versions_of forge_dir = do
  name ← ok_or (file_name forge_dir) "Failed to get path component"
  ok_or (split_once b'-' name) "Failed to parse minecraft and forge versions"
