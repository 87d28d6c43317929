-- ===== src/SvManage/Deps.antt =====
-- sv_manage/src/server_loop.rs: `resolve_deps`, whether a change to the installed mods leaves every
-- dependency satisfied.
pub mod After
pub mod Met
pub mod Satisfied
use mind_craft.Base.{
  Text, codes, text_eq, ◌==◌, length, is_empty, find, any, retain, sort_by, dedup, Bool, true,
  false, not, ◌&&◌, Option, none, some, List, [], ◌∷◌, ◌++◌, map, if◌then◌else◌, Result, ok, err,
  panic, diverge, Error, unwrap_or, option_or,
}
use mind_craft.Yapper.Types.{
  Versions, ver_le, ver_lt, Bound, included, excluded, unbounded, ModDependency, ModInfo, DepState,
  not_installed, version_mismatch, already_installed, invalid_input, DepResolveMode, installation,
  removal, update, Response, dep_unsatisfied, dep_satisfied, reserved_mod_id,
}
use mind_craft.Yapper.Equality.{mod_eq}
use mind_craft.SvManage.World.{World, Host, Exec, pure, with_context, ◌>>=◌, ◌>>◌}
use mind_craft.SvManage.Files.{ensure_dir}
use mind_craft.SvManage.ListMods.{id_leb, list_mods}
use mind_craft.SvManage.Install.{get_mods_path}

abbrev pub Unsat : Type 0 → Type 0
Unsat V = List (Text × DepState V)

module _ {V : Type 0} where
  -- `find(|other| other.mod_id == id)`.
  abbrev pub find_mod : Text → List (ModInfo V) → Option (ModInfo V)
  find_mod id mods = find (λ other. text_eq other.mod_id id) mods

  abbrev pub has_mod : Text → List (ModInfo V) → Bool
  has_mod id mods = any (λ other. text_eq other.mod_id id) mods

  -- The mod of the change that takes the place of `ours`.
  abbrev pub replaced : List (ModInfo V) → ModInfo V → ModInfo V
  replaced the_mods ours = unwrap_or (find_mod ours.mod_id the_mods) ours

  -- The mods as they would be after the change.
  unfoldable pub hypothetical :
      DepResolveMode → List (ModInfo V) → List (ModInfo V) → List (ModInfo V)
  hypothetical installation the_mods all = all ++ the_mods
  hypothetical removal the_mods all = retain (λ ours. not (has_mod ours.mod_id the_mods)) all
  hypothetical update the_mods all = map (replaced the_mods) all

module _ {V : Type 0} (vs : Versions V) where
  unfoldable pub low_sat : Bound V → V → Bool
  low_sat (included v) version = ver_le vs v version
  low_sat (excluded v) version = ver_lt vs v version
  low_sat unbounded version = true

  unfoldable pub high_sat : Bound V → V → Bool
  high_sat (included v) version = ver_le vs version v
  high_sat (excluded v) version = ver_lt vs version v
  high_sat unbounded version = true

  -- What is wrong with one mod of the change before any dependency is looked at.
  unfoldable pub state_error : DepResolveMode → List (ModInfo V) → ModInfo V → Unsat V
  state_error installation all the_mod = elim (find_mod the_mod.mod_id all) [
    | none ↦ []
    | some other ↦ (other.mod_id, already_installed) ∷ []
  ]
  state_error removal all the_mod =
      if not (has_mod the_mod.mod_id all) then (the_mod.mod_id, already_installed) ∷ [] else []
  state_error update all the_mod = elim (find_mod the_mod.mod_id all) [
    | none ↦ (the_mod.mod_id, not_installed) ∷ []
    | some installed_mod ↦
        if ver_le vs the_mod.version installed_mod.version
        then (the_mod.mod_id, already_installed) ∷ []
        else []
  ]

  unfoldable pub state_errors : DepResolveMode → List (ModInfo V) → List (ModInfo V) → Unsat V
  unfolding state_error
  state_errors mode all [] = []
  state_errors mode all (m ∷ ms) = state_error mode all m ++ state_errors mode all ms

  -- One dependency, against the mods that would be there.
  unfoldable pub dep_error : List (ModInfo V) → ModDependency V → Unsat V
  unfolding low_sat high_sat
  dep_error mods the_dep = elim (find_mod the_dep.mod_id mods) [
    | none ↦ (the_dep.mod_id, not_installed) ∷ []
    | some found_dep ↦
        if low_sat the_dep.min_version found_dep.version
          && high_sat the_dep.max_version found_dep.version
        then []
        else (the_dep.mod_id, version_mismatch found_dep.version) ∷ []
  ]

  unfoldable pub dep_errors : List (ModInfo V) → List (ModDependency V) → Unsat V
  unfolding dep_error
  dep_errors mods [] = []
  dep_errors mods (d ∷ ds) = dep_error mods d ++ dep_errors mods ds

  unfoldable pub all_errors : List (ModInfo V) → List (ModInfo V) → Unsat V
  unfolding dep_errors
  all_errors mods [] = []
  all_errors mods (m ∷ ms) = dep_errors mods m.dependencies ++ all_errors mods ms

  -- The answer where there is something in the list, and `otherwise` where not.
  unfoldable pub unless_empty : Unsat V → Response V → Response V
  unless_empty [] otherwise = otherwise
  unless_empty (u ∷ us) otherwise = dep_unsatisfied (u ∷ us)

  -- The order of the checks, on the sorted mods of the change.
  unfoldable pub resolve_sorted : DepResolveMode → List (ModInfo V) → List (ModInfo V) → Response V
  unfolding dedup mod_eq reserved_mod_id state_errors hypothetical all_errors unless_empty
  resolve_sorted mode all the_mods =
      if not (length (dedup (mod_eq vs) the_mods) == length the_mods)
      then dep_unsatisfied ((codes "", invalid_input) ∷ [])
      else if any (λ modd. reserved_mod_id modd.mod_id) (dedup (mod_eq vs) the_mods)
      then dep_unsatisfied ((codes "", invalid_input) ∷ [])
      else unless_empty (state_errors mode all (dedup (mod_eq vs) the_mods)) (
          let after = hypothetical mode (dedup (mod_eq vs) the_mods) all in
          unless_empty (all_errors after after) dep_satisfied)

  unfoldable pub resolve : DepResolveMode → List (ModInfo V) → List (ModInfo V) → Response V
  unfolding resolve_sorted sort_by
  resolve mode all the_mods = resolve_sorted mode all (sort_by id_leb the_mods)

unfoldable pub resolve_deps :
    {V : Type 0} → Host V → List (ModInfo V) → DepResolveMode → Exec (World V) (Response V)
unfolding get_mods_path resolve
resolve_deps host the_mods mode = do
  mods_folder ← get_mods_path host
  with_context "Error creating mods folder" (ensure_dir mods_folder)
  all ← list_mods host mods_folder
  pure (resolve host.libs.versions mode all the_mods)
