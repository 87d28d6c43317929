-- ===== src/SvManage/Install/FreePath.antt =====
-- sv_manage/src/server_loop.rs: the name under which `install_mod` and `update_mod` store a mod.
use mind_craft.Base.{
  ℕ, zero, suc, Text, codes, Assoc, lookup, set_file_name, none, some, Option-cases, ◌++◌, ◌≡◌,
  refl, ◌∙◌, inl, inr, arith,
}
use mind_craft.SvManage.World.{Node}
use mind_craft.SvManage.Install.{free_path}

module _ (filename : Text) (fs : Assoc Node) where
  abbrev second_name : Text → Text
  second_name dest = set_file_name dest (filename ++ codes "-2.jar")

  free_path-taken :
      (fuel : ℕ) (dest : Text) (node : Node)
      → lookup dest fs ≡ some node
      → free_path (suc fuel) filename dest fs ≡ free_path fuel filename (second_name dest) fs
  unfolding free_path
  free_path-taken fuel dest node h = ground (arith, h)

  -- A mod never takes the place of a file: the path that is found is free.
  pub free_path-none :
      (fuel : ℕ) (dest p : Text) → free_path fuel filename dest fs ≡ some p → lookup p fs ≡ none
  unfolding free_path
  free_path-none zero dest p h = absurd (ground arith)
  free_path-none (suc fuel) dest p h = elim (Option-cases (lookup dest fs)) [
    | inl e ↦ ground (arith, e, h)
    | inr (node, e) ↦
        free_path-none fuel (second_name dest) p (rw (free_path-taken fuel dest node e) at h)
  ]

  stuck :
      (fuel : ℕ) (dest : Text) (node : Node)
      → lookup dest fs ≡ some node
      → second_name dest ≡ dest
      → free_path fuel filename dest fs ≡ none
  unfolding free_path
  stuck zero dest node h same = refl
  stuck (suc fuel) dest node h same =
      free_path-taken fuel dest node h ∙ rw same (stuck fuel dest node h same)

  -- If both names are taken and the second one stays as it is, then the search finds no path, however
  -- many rounds it makes.
  pub free_path_stuck :
      (fuel : ℕ) (dest : Text) (first second : Node)
      → lookup dest fs ≡ some first
      → lookup (second_name dest) fs ≡ some second
      → second_name (second_name dest) ≡ second_name dest
      → free_path fuel filename dest fs ≡ none
  unfolding free_path
  free_path_stuck zero dest first second h1 h2 same = refl
  free_path_stuck (suc fuel) dest first second h1 h2 same =
      free_path-taken fuel dest first h1 ∙ stuck fuel (second_name dest) second h2 same
