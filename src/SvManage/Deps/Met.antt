-- ===== src/SvManage/Deps/Met.antt =====
-- sv_manage/src/server_loop.rs: when `resolve_deps` takes a dependency to be met.
use Prim.Native.Nat.{Ordering}
use mind_craft.Base.{
  Text, Option, All, true, none, some, List, [], ◌∷◌, ◌++◌, ◌≡◌, ◌≢◌, refl, sym, ◌↔◌, inl, inr,
  Option-cases, arith, ◌∙◌,
}
use mind_craft.Yapper.Types.{
  Versions, Bound, included, excluded, unbounded, ModDependency, ModInfo, DepResolveMode,
}
use mind_craft.SvManage.Deps.After.{
  named_after, AllAfter, hypothetical-named, hypothetical-AllAfter,
}
use mind_craft.SvManage.Deps.{
  find_mod, hypothetical, low_sat, high_sat, dep_error, dep_errors, all_errors,
}

append-eq-nil : {A : Type 0} → (xs ys : List A) → (xs ++ ys ≡ []) ↔ ((xs ≡ []) × (ys ≡ []))
append-eq-nil [] ys = (λ h. (refl, h), λ h. h.1)
append-eq-nil (x ∷ xs) ys = (λ h. absurd (ground arith), λ h. absurd (ground arith))

pub both-nil :
    {A P Q : Type 0} → (xs ys : List A) → (xs ≡ []) ↔ P → (ys ≡ []) ↔ Q → (xs ++ ys ≡ []) ↔ (P × Q)
both-nil xs ys one more =
    let split = append-eq-nil xs ys in
    (λ h. (one.0 (split.0 h).0, more.0 (split.0 h).1), λ h. split.1 (one.1 h.0, more.1 h.1))

module _ {V : Type 0} (vs : Versions V) where
  -- A version is within a lower bound, and within an upper bound, by what `cmp` says.
  pub Above : Bound V → V → Type 0
  Above (included low) version = vs.cmp low version ≢ Ordering.gt
  Above (excluded low) version = vs.cmp low version ≡ Ordering.lt
  Above unbounded version = Unit

  pub Below : Bound V → V → Type 0
  Below (included high) version = vs.cmp version high ≢ Ordering.gt
  Below (excluded high) version = vs.cmp version high ≡ Ordering.lt
  Below unbounded version = Unit

  -- The mod that `the_dep` asks for is there, in a version within the bounds.
  pub record IsMet (look : Text → Option (ModInfo V)) (the_dep : ModDependency V) : Type 0 where
    pub found : ModInfo V
    pub is_found : look the_dep.mod_id ≡ some found
    pub low : Above the_dep.min_version found.version
    pub high : Below the_dep.max_version found.version

  -- Every dependency of a mod.
  abbrev pub AreMet : (Text → Option (ModInfo V)) → ModInfo V → Type 0
  AreMet look m = All (IsMet look) m.dependencies

  low_sat-Above : (b : Bound V) (v : V) → (low_sat vs b v ≡ true) ↔ Above b v
  unfolding low_sat Above
  low_sat-Above (included low) v = (λ h. ground (arith, h), λ h. ground (arith, h))
  low_sat-Above (excluded low) v = (λ h. ground (arith, h), λ h. ground (arith, h))
  low_sat-Above unbounded v = (λ h. tt, λ h. refl)

  high_sat-Below : (b : Bound V) (v : V) → (high_sat vs b v ≡ true) ↔ Below b v
  unfolding high_sat Below
  high_sat-Below (included high) v = (λ h. ground (arith, h), λ h. ground (arith, h))
  high_sat-Below (excluded high) v = (λ h. ground (arith, h), λ h. ground (arith, h))
  high_sat-Below unbounded v = (λ h. tt, λ h. refl)

  met-found :
      (mods : List (ModInfo V)) (d : ModDependency V) (m : ModInfo V)
      → find_mod d.mod_id mods ≡ some m
      → dep_error vs mods d ≡ []
      → (low_sat vs d.min_version m.version ≡ true) × (high_sat vs d.max_version m.version ≡ true)
  unfolding dep_error
  met-found mods d m e h = ground (arith, e, h)

  found-met :
      (mods : List (ModInfo V)) (d : ModDependency V) (m : ModInfo V)
      → find_mod d.mod_id mods ≡ some m
      → low_sat vs d.min_version m.version ≡ true
      → high_sat vs d.max_version m.version ≡ true
      → dep_error vs mods d ≡ []
  unfolding dep_error
  found-met mods d m e lo hi = ground (arith, e, lo, hi)

  lost-unmet :
      (mods : List (ModInfo V)) (d : ModDependency V)
      → find_mod d.mod_id mods ≡ none
      → dep_error vs mods d ≢ []
  unfolding dep_error
  lost-unmet mods d e h = ground (arith, e, h)

  dep_error-IsMet :
      (mods : List (ModInfo V)) (look : Text → Option (ModInfo V)) (d : ModDependency V)
      → ((id : Text) → find_mod id mods ≡ look id)
      → (dep_error vs mods d ≡ []) ↔ IsMet look d
  dep_error-IsMet mods look d same = (
    λ h. elim (Option-cases (find_mod d.mod_id mods)) [
      | inl e ↦ absurd (lost-unmet mods d e h)
      | inr (m, e) ↦
          let both = met-found mods d m e h in
          record {
            found = m;
            is_found = sym (same d.mod_id) ∙ e;
            low = (low_sat-Above d.min_version m.version).0 both.0;
            high = (high_sat-Below d.max_version m.version).0 both.1;
          }
    ],
    λ h.
        found-met mods d h.found (same d.mod_id ∙ h.is_found)
          ((low_sat-Above d.min_version h.found.version).1 h.low)
          ((high_sat-Below d.max_version h.found.version).1 h.high),
  )

  module _ (mods : List (ModInfo V)) (look : Text → Option (ModInfo V))
      (same : (id : Text) → find_mod id mods ≡ look id) where
    dep_errors-All :
        (ds : List (ModDependency V)) → (dep_errors vs mods ds ≡ []) ↔ All (IsMet look) ds
    unfolding dep_errors
    dep_errors-All [] = (λ _. tt, λ _. refl)
    dep_errors-All (d ∷ ds) =
        both-nil (dep_error vs mods d) (dep_errors vs mods ds) (dep_error-IsMet mods look d same)
          (dep_errors-All ds)

    all_errors-All : (ms : List (ModInfo V)) → (all_errors vs mods ms ≡ []) ↔ All (AreMet look) ms
    unfolding all_errors
    all_errors-All [] = (λ _. tt, λ _. refl)
    all_errors-All (m ∷ ms) =
        both-nil (dep_errors vs mods m.dependencies) (all_errors vs mods ms)
          (dep_errors-All m.dependencies) (all_errors-All ms)

  pub after_errors-AllAfter :
      (mode : DepResolveMode) (all ms : List (ModInfo V))
      → let after = hypothetical mode ms all in
        (all_errors vs after after ≡ []) ↔ AllAfter mode all ms (AreMet (named_after mode all ms))
  after_errors-AllAfter mode all ms =
      let after = hypothetical mode ms all in
      let look = named_after mode all ms in
      let errors = all_errors-All after look (hypothetical-named mode all ms) after in
      let there = hypothetical-AllAfter mode all ms (AreMet look) in
      (λ h. there.0 (errors.0 h), λ h. errors.1 (there.1 h))
