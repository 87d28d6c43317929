-- ===== src/SvManage/Deps/Satisfied.antt =====
-- sv_manage/src/server_loop.rs: what `resolve_deps` accepts.
use Prim.Native.Nat.{Ordering}
use mind_craft.Base.{
  text_leb, codes, text_eq, is_some, ◌==◌, length, any, sort_by, dedup, All, true, false, none,
  some, List, [], ◌∷◌, ◌≡◌, refl, sym, dedup-same, ◌↔◌, inl, inr, Option-cases, arith, ◌∙◌,
}
use mind_craft.Yapper.Types.{
  Versions, ModInfo, DepResolveMode, installation, removal, update, Response, dep_satisfied,
  reserved_mod_id,
}
use mind_craft.Yapper.Equality.{mod_eq}
use mind_craft.SvManage.ListMods.{id_leb}
use mind_craft.SvManage.Deps.After.{named, named_after, AllAfter, find_mod-named, has_mod-named}
use mind_craft.SvManage.Deps.{
  hypothetical, Unsat, state_error, state_errors, all_errors, unless_empty, resolve_sorted, resolve,
}
use mind_craft.SvManage.Deps.Met.{both-nil, AreMet, after_errors-AllAfter}

module _ {V : Type 0} (vs : Versions V) where
  -- What each mode asks of a mod of the change.
  pub Fits : DepResolveMode → List (ModInfo V) → ModInfo V → Type 0
  Fits installation all m = named m.mod_id all ≡ none
  Fits removal all m = is_some (named m.mod_id all) ≡ true
  Fits update all m =
      (installed : ModInfo V) × (named m.mod_id all ≡ some installed)
      × (vs.cmp m.version installed.version ≡ Ordering.gt)

  -- No id of a change is reserved.
  abbrev Unreserved : ModInfo V → Type 0
  Unreserved m =
      (text_eq m.mod_id (codes "minecraft") ≡ false) × (text_eq m.mod_id (codes "forge") ≡ false)

  any-Unreserved :
      (ms : List (ModInfo V)) → (any (λ m. reserved_mod_id m.mod_id) ms ≡ false) ↔ All Unreserved ms
  unfolding reserved_mod_id
  any-Unreserved [] = (λ _. tt, λ _. refl)
  any-Unreserved (m ∷ ms) =
      let (there, back) = any-Unreserved ms in
      (
        λ h. ((ground (arith, h), ground (arith, h)), there (ground (arith, h))),
        λ (free, rest). ground (arith, free.0, free.1, back rest),
      )

  state_error-Fits :
      (mode : DepResolveMode) (all : List (ModInfo V)) (m : ModInfo V)
      → (state_error vs mode all m ≡ []) ↔ Fits mode all m
  unfolding state_error Fits
  state_error-Fits installation all m =
      let same = find_mod-named m.mod_id all in
      elim (Option-cases (named m.mod_id all)) [
        | inl e ↦ (λ _. e, λ _. ground (arith, e, same))
        | inr (o, e) ↦
            (λ h. absurd (ground (arith, e, h, same)), λ h. absurd (ground (arith, e, h)))
      ]
  state_error-Fits removal all m =
      let same = has_mod-named m.mod_id all in
      (λ h. ground (arith, h, same), λ h. ground (arith, h, same))
  state_error-Fits update all m =
      let same = find_mod-named m.mod_id all in
      (
        λ h. elim (Option-cases (named m.mod_id all)) [
          | inl e ↦ absurd (ground (arith, e, h, same))
          | inr (o, e) ↦ (o, e, ground (arith, e, h, same))
        ],
        λ (o, e, old). ground (arith, e, old, same),
      )

  state_errors-All :
      (mode : DepResolveMode) (all ms : List (ModInfo V))
      → (state_errors vs mode all ms ≡ []) ↔ All (Fits mode all) ms
  unfolding state_errors
  state_errors-All mode all [] = (λ _. tt, λ _. refl)
  state_errors-All mode all (m ∷ ms) =
      both-nil (state_error vs mode all m) (state_errors vs mode all ms)
        (state_error-Fits mode all m) (state_errors-All mode all ms)

  -- What a change must be for the answer `DepSatisfied`; `ms` is the change in the order of the ids.
  pub record IsSound (mode : DepResolveMode) (all ms : List (ModInfo V)) : Type 0 where
    pub apart : dedup (mod_eq vs) ms ≡ ms
    pub unreserved : All Unreserved ms
    pub fit : All (Fits mode all) ms
    pub met : AllAfter mode all ms (AreMet vs (named_after mode all ms))

  unless_empty-satisfied :
      (u : Unsat V) (r : Response V)
      → (unless_empty vs u r ≡ dep_satisfied) ↔ ((u ≡ []) × (r ≡ dep_satisfied))
  unfolding unless_empty
  unless_empty-satisfied [] r = (λ h. (refl, h), λ h. h.1)
  unless_empty-satisfied (x ∷ u) r = (λ h. absurd (ground arith), λ h. absurd (ground arith))

  -- The two checks on the change itself.
  resolve_sorted-checks :
      (mode : DepResolveMode) (all ms : List (ModInfo V))
      → resolve_sorted vs mode all ms ≡ dep_satisfied
      → (length (dedup (mod_eq vs) ms) == length ms ≡ true)
        × (any (λ m. reserved_mod_id m.mod_id) (dedup (mod_eq vs) ms) ≡ false)
  unfolding resolve_sorted
  resolve_sorted-checks mode all ms h = ground (arith, h)

  -- What is left after them.
  resolve_sorted-rest :
      (mode : DepResolveMode) (all ms : List (ModInfo V))
      → length (dedup (mod_eq vs) ms) == length ms ≡ true
      → any (λ m. reserved_mod_id m.mod_id) (dedup (mod_eq vs) ms) ≡ false
      → resolve_sorted vs mode all ms
        ≡ unless_empty vs (state_errors vs mode all (dedup (mod_eq vs) ms)) (
            let after = hypothetical mode (dedup (mod_eq vs) ms) all in
            unless_empty vs (all_errors vs after after) dep_satisfied)
  unfolding resolve_sorted
  resolve_sorted-rest mode all ms same free = ground (arith, same, free)

  rest-satisfied :
      (mode : DepResolveMode) (all ms : List (ModInfo V))
      → (unless_empty vs (state_errors vs mode all ms) (
            unless_empty vs
              (all_errors vs (hypothetical mode ms all) (hypothetical mode ms all))
              dep_satisfied)
          ≡ dep_satisfied)
        ↔ (All (Fits mode all) ms × AllAfter mode all ms (AreMet vs (named_after mode all ms)))
  rest-satisfied mode all ms =
      let after = hypothetical mode ms all in
      let first = unless_empty-satisfied (state_errors vs mode all ms) _ in
      let second = unless_empty-satisfied (all_errors vs after after) _ in
      (
        λ h. (
          (state_errors-All mode all ms).0 (first.0 h).0,
          (after_errors-AllAfter vs mode all ms).0 (second.0 (first.0 h).1).0,
        ),
        λ (fit, met). first.1 (
          (state_errors-All mode all ms).1 fit,
          second.1 ((after_errors-AllAfter vs mode all ms).1 met, refl),
        ),
      )

  resolve_sorted-IsSound :
      (mode : DepResolveMode) (all ms : List (ModInfo V))
      → (resolve_sorted vs mode all ms ≡ dep_satisfied) ↔ IsSound mode all ms
  resolve_sorted-IsSound mode all ms =
      let same = dedup-same (mod_eq vs) ms in
      (
        λ h.
            let (len, free) = resolve_sorted-checks mode all ms h in
            let e = same.0 len in
            let (fit, met) =
              (rest-satisfied mode all ms).0
                (rw e at (sym (resolve_sorted-rest mode all ms len free) ∙ h)) in
            record {
              apart = e;
              unreserved = (any-Unreserved ms).0 (rw e at free);
              fit = fit;
              met = met;
            },
        λ h.
            resolve_sorted-rest mode all ms (same.1 h.apart)
              (rw h.apart ((any-Unreserved ms).1 h.unreserved))
            ∙ rw h.apart ((rest-satisfied mode all ms).1 (h.fit, h.met)),
      )

  -- `DepSatisfied` is the answer if and only if, for the change in the order of its ids, no two
  -- neighbours are equal, no id is reserved, every mod fits the mode, and after the change every
  -- dependency of every mod is met.
  pub resolve-IsSound :
      (mode : DepResolveMode) (all the_mods : List (ModInfo V))
      → (resolve vs mode all the_mods ≡ dep_satisfied)
        ↔ IsSound mode all (sort_by (λ (a b : ModInfo V). text_leb a.mod_id b.mod_id) the_mods)
  unfolding resolve
  resolve-IsSound mode all the_mods = resolve_sorted-IsSound mode all (sort_by id_leb the_mods)
