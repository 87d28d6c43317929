-- ===== src/Yapper/Equality.antt =====
-- yapper/src/mod_parser.rs: the `PartialEq` that is derived for `ModInfo` and what it is made of.
use mind_craft.Base.{text_eq, Bool, true, false, ◌&&◌, ◌==◌, Option, none, some, List, [], ◌∷◌}
use mind_craft.Yapper.Types.{
  Versions, Side, client, server, both, Bound, included, excluded, unbounded, ModDependency,
  ModInfo,
}

module _ {A : Type 0} (eq : A → A → Bool) where
  abbrev option_eq : Option A → Option A → Bool
  option_eq none none = true
  option_eq (some a) (some b) = eq a b
  option_eq none (some _) = false
  option_eq (some _) none = false

  abbrev list_eq : List A → List A → Bool
  list_eq [] [] = true
  list_eq (a ∷ xs) (b ∷ ys) = eq a b && list_eq xs ys
  list_eq [] (_ ∷ _) = false
  list_eq (_ ∷ _) [] = false

abbrev bool_eq : Bool → Bool → Bool
bool_eq true b = b
bool_eq false true = false
bool_eq false false = true

abbrev side_eq : Side → Side → Bool
side_eq client client = true
side_eq server server = true
side_eq both both = true
side_eq _ _ = false

module _ {V : Type 0} (vs : Versions V) where
  abbrev bound_eq : Bound V → Bound V → Bool
  bound_eq (included a) (included b) = vs.eq a b
  bound_eq (excluded a) (excluded b) = vs.eq a b
  bound_eq unbounded unbounded = true
  bound_eq _ _ = false

  unfoldable pub dependency_eq : ModDependency V → ModDependency V → Bool
  unfolding text_eq
  dependency_eq a b =
      text_eq a.mod_id b.mod_id
      && (bool_eq a.mandatory b.mandatory
          && (bound_eq a.min_version b.min_version
              && (bound_eq a.max_version b.max_version && side_eq a.side b.side)))

  unfoldable pub mod_eq : ModInfo V → ModInfo V → Bool
  unfolding text_eq dependency_eq
  mod_eq a b =
      text_eq a.filename b.filename
      && (text_eq a.path b.path
          && (text_eq a.mod_id b.mod_id
              && (option_eq text_eq a.name b.name
                  && (option_eq text_eq a.description b.description
                      && (vs.eq a.version b.version
                          && (option_eq (list_eq (λ x y. x == y)) a.logo b.logo
                              && (option_eq text_eq a.url b.url
                                  && (option_eq text_eq a.credits b.credits
                                      && (option_eq (list_eq text_eq) a.authors b.authors
                                          && list_eq dependency_eq a.dependencies
                                              b.dependencies)))))))))
