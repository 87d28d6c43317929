-- ===== src/SvManage/Deps/After.antt =====
-- sv_manage/src/server_loop.rs: the mods that a change leaves, for `resolve_deps`.
use mind_craft.Base.{
  Text, text_eq, text_eq_iff, find-passes, All, All-append, Bool-cases, Option-cases, true, false,
  not, Option, none, some, List, [], ◌∷◌, ◌++◌, map, retain, ◌≡◌, refl, sym, ◌∙◌, ◌↔◌, inl, inr,
  subst, arith, if◌then◌else◌,
}
use mind_craft.Yapper.Types.{ModInfo, DepResolveMode, installation, removal, update}
use mind_craft.SvManage.Deps.{find_mod, has_mod, replaced, hypothetical}

module _ {V : Type 0} where
  -- The first mod of that id.
  unfoldable pub named : Text → List (ModInfo V) → Option (ModInfo V)
  named id [] = none
  named id (m ∷ ms) = if text_eq m.mod_id id then some m else named id ms

  -- What an update leaves in the place of `ours`.
  unfoldable pub successor : List (ModInfo V) → ModInfo V → ModInfo V
  unfolding named
  successor ms ours = elim (named ours.mod_id ms) [ none ↦ ours | some new ↦ new ]

  -- The mod of an id after the change `ms` to the mods `all`.
  unfoldable pub named_after :
      DepResolveMode → List (ModInfo V) → List (ModInfo V) → Text → Option (ModInfo V)
  unfolding named successor
  named_after installation all ms id = elim (named id all) [
    | none ↦ named id ms
    | some ours ↦ some ours
  ]
  named_after removal all ms id = elim (named id ms) [ none ↦ named id all | some _ ↦ none ]
  named_after update all ms id = elim (named id all) [
    | none ↦ none
    | some ours ↦ some (successor ms ours)
  ]

  -- A predicate of each mod that is there after the change.
  unfoldable pub AllAfter :
      DepResolveMode → List (ModInfo V) → List (ModInfo V) → (ModInfo V → Type 0) → Type 0
  AllAfter installation all ms P = All P all × All P ms
  AllAfter removal all ms P = All (λ ours. named ours.mod_id ms ≡ none → P ours) all
  AllAfter update all ms P = All (λ ours. P (successor ms ours)) all

  pub find_mod-named : (id : Text) (ms : List (ModInfo V)) → find_mod id ms ≡ named id ms
  unfolding named
  find_mod-named id [] = refl
  find_mod-named id (m ∷ ms) = ground (arith, find_mod-named id ms)

  replaced-successor :
      (ms : List (ModInfo V)) (ours : ModInfo V) → replaced ms ours ≡ successor ms ours
  unfolding successor
  replaced-successor ms ours = ground (arith, find_mod-named ours.mod_id ms)

  pub has_mod-named :
      (id : Text) (ms : List (ModInfo V))
      → has_mod id ms ≡ elim (named id ms) [ none ↦ false | some _ ↦ true ]
  unfolding named
  has_mod-named id [] = refl
  has_mod-named id (m ∷ ms) = ground (arith, has_mod-named id ms)

  -- The names are kept by an update.
  successor-id :
      (ms : List (ModInfo V)) (ours : ModInfo V) → (successor ms ours).mod_id ≡ ours.mod_id
  unfolding successor
  successor-id ms ours = elim (Option-cases (named ours.mod_id ms)) [
    | inl e ↦ ground (arith, e)
    | inr (new, e) ↦
        let passes =
          find-passes (λ other. text_eq other.mod_id ours.mod_id) ms new
            (find_mod-named ours.mod_id ms ∙ e) in
        ground (arith, e, (text_eq_iff new.mod_id ours.mod_id).0 passes)
  ]

  named-append :
      (id : Text) (xs ys : List (ModInfo V))
      → named id (xs ++ ys) ≡ elim (named id xs) [ none ↦ named id ys | some m ↦ some m ]
  unfolding named
  named-append id [] ys = refl
  named-append id (x ∷ xs) ys = ground (arith, named-append id xs ys)

  named-retain :
      (id : Text) (ms xs : List (ModInfo V))
      → named id (retain (λ ours. not (has_mod ours.mod_id ms)) xs)
        ≡ elim (named id ms) [ none ↦ named id xs | some _ ↦ none ]
  unfolding named
  named-retain id ms [] = ground arith
  named-retain id ms (x ∷ xs) = elim (Bool-cases (text_eq x.mod_id id)) [
    | inl e ↦
        let same = (text_eq_iff x.mod_id id).0 e in
        ground (arith, e, has_mod-named x.mod_id ms, same, named-retain id ms xs)
    | inr e ↦ ground (arith, e, named-retain id ms xs)
  ]

  named-map :
      (id : Text) (ms xs : List (ModInfo V))
      → named id (map (replaced ms) xs)
        ≡ elim (named id xs) [ none ↦ none | some ours ↦ some (successor ms ours) ]
  unfolding named
  named-map id ms [] = refl
  named-map id ms (x ∷ xs) =
      ground (arith, replaced-successor ms x, successor-id ms x, named-map id ms xs)

  -- The lookup in the mods as they would be finds what is there after the change.
  pub hypothetical-named :
      (mode : DepResolveMode) (all ms : List (ModInfo V)) (id : Text)
      → find_mod id (hypothetical mode ms all) ≡ named_after mode all ms id
  unfolding hypothetical named_after
  hypothetical-named installation all ms id = find_mod-named id (all ++ ms) ∙ named-append id all ms
  hypothetical-named removal all ms id = find_mod-named id _ ∙ named-retain id ms all
  hypothetical-named update all ms id = find_mod-named id _ ∙ named-map id ms all

  All-split :
      (P : ModInfo V → Type 0) (xs ys : List (ModInfo V)) → All P (xs ++ ys) → All P xs × All P ys
  All-split P [] ys a = (tt, a)
  All-split P (x ∷ xs) ys a = let (l, r) = All-split P xs ys a.1 in ((a.0, l), r)

  All-retain :
      (P : ModInfo V → Type 0) (ms xs : List (ModInfo V))
      → All P (retain (λ ours. not (has_mod ours.mod_id ms)) xs)
        ↔ All (λ ours. named ours.mod_id ms ≡ none → P ours) xs
  All-retain P ms [] = (λ _. tt, λ _. tt)
  All-retain P ms (x ∷ xs) = elim (Option-cases (named x.mod_id ms)) [
    | inl e ↦
        let keep : has_mod x.mod_id ms ≡ false = ground (arith, e, has_mod-named x.mod_id ms) in
        let rest = All-retain P ms xs in
        rw keep (λ a. (λ _. a.0, rest.0 a.1), λ a. (a.0 e, rest.1 a.1))
    | inr (m, e) ↦
        let drop : has_mod x.mod_id ms ≡ true = ground (arith, e, has_mod-named x.mod_id ms) in
        let rest = All-retain P ms xs in
        rw drop (λ a. (λ f. absurd (ground (arith, e, f)), rest.0 a), λ a. rest.1 a.1)
  ]

  All-map :
      (P : ModInfo V → Type 0) (ms xs : List (ModInfo V))
      → All P (map (replaced ms) xs) ↔ All (λ ours. P (successor ms ours)) xs
  All-map P ms [] = (λ _. tt, λ _. tt)
  All-map P ms (x ∷ xs) =
      let rest = All-map P ms xs in
      let same = replaced-successor ms x in
      (λ a. (subst P same a.0, rest.0 a.1), λ a. (subst P (sym same) a.0, rest.1 a.1))

  pub hypothetical-AllAfter :
      (mode : DepResolveMode) (all ms : List (ModInfo V)) (P : ModInfo V → Type 0)
      → All P (hypothetical mode ms all) ↔ AllAfter mode all ms P
  unfolding hypothetical AllAfter
  hypothetical-AllAfter installation all ms P =
      (All-split P all ms, λ a. All-append P all ms a.0 a.1)
  hypothetical-AllAfter removal all ms P = All-retain P ms all
  hypothetical-AllAfter update all ms P = All-map P ms all
