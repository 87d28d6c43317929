-- ===== src/Yapper/ModParser/Dependencies.antt =====
-- yapper/src/mod_parser.rs: the dependencies that the parser collects from mods.toml.
use mind_craft.Base.{
  Text, text_eq, text_eq_iff, Bool, true, false, ◌||◌, any, any-append, All, All-append, ok,
  >>=-eq-ok, List, [], ◌∷◌, ◌++◌, ◌≡◌, refl, arith, Bool-cases, ◌⊎◌, inl, inr, Assoc, Option, ok_or,
  context,
}
use mind_craft.Yapper.Types.{ModDependency, ModInfo}
use mind_craft.Yapper.ModParser.Toml
use mind_craft.Yapper.ModParser.Toml.{Dependencies, Mods, ModsToml, read_toml}
use mind_craft.Yapper.ModParser.Range.{version_bounds}
use mind_craft.Yapper.ModParser.Parse.{
  Bytes, Libs, add_dependency, add_list, add_dependencies, only_mod, the_version, read_metadata,
  describe_mod, parse_mod_ext,
}

abbrev pub has_id : {V : Type 0} → Text → ModDependency V → Bool
has_id k x = text_eq x.mod_id k

-- No two dependencies have one id.
pub HasDistinctIds : {V : Type 0} → List (ModDependency V) → Type 0
HasDistinctIds [] = Unit
HasDistinctIds (d ∷ ds) = (any (has_id d.mod_id) ds ≡ false) × HasDistinctIds ds

-- Distinct ids, none of them the mod's own.
pub record IsClean {V : Type 0} (own : Text) (ds : List (ModDependency V)) : Type 0 where
  pub distinct : HasDistinctIds ds
  pub others : All (λ d. text_eq d.mod_id own ≡ false) ds

text_eq_comm : (s t : Text) → text_eq s t ≡ text_eq t s
text_eq_comm s t = ground (arith, text_eq_iff s t, text_eq_iff t s)

module _ {V : Type 0} where
  HasDistinctIds-snoc :
      (ds : List (ModDependency V)) (d : ModDependency V)
      → HasDistinctIds ds
      → any (has_id d.mod_id) ds ≡ false
      → HasDistinctIds (ds ++ d ∷ [])
  unfolding HasDistinctIds
  HasDistinctIds-snoc [] d h new = (refl, tt)
  HasDistinctIds-snoc (x ∷ ds) d h new = (
    rw any-append (ground (arith, h.0, new, text_eq_comm x.mod_id d.mod_id)),
    HasDistinctIds-snoc ds d h.1 (ground (arith, new)),
  )

  IsClean-snoc :
      (own : Text) (ds : List (ModDependency V)) (d : ModDependency V)
      → IsClean own ds
      → any (has_id d.mod_id) ds ≡ false
      → text_eq d.mod_id own ≡ false
      → IsClean own (ds ++ d ∷ [])
  IsClean-snoc own ds d h new other = record {
    distinct = HasDistinctIds-snoc ds d h.distinct new;
    others = All-append _ ds (d ∷ []) h.others (other, tt);
  }

  IsClean-nil : (own : Text) → IsClean {V = V} own []
  unfolding HasDistinctIds
  IsClean-nil own = record { distinct = tt; others = tt }

-- All the declared dependencies, in the order in which the loops meet them.
abbrev pub declared : Assoc (List Dependencies) → List Dependencies
declared [] = []
declared ((_, deps) ∷ rest) = deps ++ declared rest

-- `more` has all the ids of `ds`.
abbrev Keeps : {V : Type 0} → List (ModDependency V) → List (ModDependency V) → Type 0
Keeps ds more = (k : Text) → any (has_id k) ds ≡ true → any (has_id k) more ≡ true

-- Either the declaration is of the mod itself, or one dependency with its id is added.
abbrev Added : {V : Type 0} → Text → Dependencies → (ds more : List (ModDependency V)) → Type 0
Added {V} own dep ds more =
    ((text_eq dep.mod_id own ≡ true) × (more ≡ ds))
    ⊎ ((d : ModDependency V) × (text_eq d.mod_id own ≡ false)
        × (any (has_id d.mod_id) ds ≡ false)
        × (d.mod_id ≡ dep.mod_id)
        × (more ≡ ds ++ d ∷ []))

module _ {V : Type 0} (libs : Libs V) (own : Text) where
  add_dependency-Added :
      (ds : List (ModDependency V)) (dep : Dependencies) (more : List (ModDependency V))
      → add_dependency libs own ds dep ≡ ok more
      → Added own dep ds more
  unfolding add_dependency
  add_dependency-Added ds dep more e = elim (Bool-cases (text_eq dep.mod_id own)) [
    | inl own_id ↦ inl (own_id, ground arith)
    | inr other ↦ elim (Bool-cases (any (has_id dep.mod_id) ds)) [
      | inl twice ↦ ground arith
      | inr new ↦
          let e' = rw (other, new) at e in
          let (bounds, _, done) = >>=-eq-ok (version_bounds libs.versions dep.version_range) _ e' in
          inr (
            record {
              mod_id = dep.mod_id;
              mandatory = dep.mandatory;
              min_version = bounds.0;
              max_version = bounds.1;
              side = dep.side;
            },
            other,
            new,
            refl,
            ground arith,
          )
    ]
  ]

  -- What collecting from `ds` to `more` has kept and gained; `wanted` are the declared ids.
  record Collected (ds more : List (ModDependency V)) (wanted : List Dependencies) : Type 0 where
    clean : IsClean own ds → IsClean own more
    keeps : Keeps ds more
    gained : All (λ w. (text_eq w.mod_id own || any (has_id w.mod_id) more) ≡ true) wanted

  Collected-one :
      (ds : List (ModDependency V)) (dep : Dependencies) (more : List (ModDependency V))
      → Added own dep ds more
      → Collected ds more (dep ∷ [])
  Collected-one ds dep more (inl (self, same)) = record {
    clean = λ h. rw same h;
    keeps = λ k h. rw same h;
    gained = (rw self refl, tt);
  }
  Collected-one ds dep more (inr (d, other, new, id, same)) = record {
    clean = λ h. rw same (IsClean-snoc own ds d h new other);
    keeps = λ k h. rw same (rw any-append (rw h refl));
    gained = (rw same (rw any-append (ground (arith, text_eq_iff d.mod_id dep.mod_id))), tt);
  }

  lift_gained :
      (a b : List (ModDependency V)) (ws : List Dependencies)
      → Keeps a b
      → All (λ w. (text_eq w.mod_id own || any (has_id w.mod_id) a) ≡ true) ws
      → All (λ w. (text_eq w.mod_id own || any (has_id w.mod_id) b) ≡ true) ws
  lift_gained a b [] keeps h = tt
  lift_gained a b (w ∷ ws) keeps h =
      (ground (arith, keeps w.mod_id, h.0), lift_gained a b ws keeps h.1)

  Collected-trans :
      (a b c : List (ModDependency V)) (ws vs : List Dependencies)
      → Collected a b ws
      → Collected b c vs
      → Collected a c (ws ++ vs)
  Collected-trans a b c ws vs h k = record {
    clean = λ x. k.clean (h.clean x);
    keeps = λ i x. k.keeps i (h.keeps i x);
    gained = All-append _ ws vs (lift_gained b c ws k.keeps h.gained) k.gained;
  }

  Collected-none : (a : List (ModDependency V)) → Collected a a []
  Collected-none a = record { clean = λ x. x; keeps = λ i x. x; gained = tt }

  add_list-Collected :
      (ds : List (ModDependency V)) (deps : List Dependencies) (more : List (ModDependency V))
      → add_list libs own ds deps ≡ ok more
      → Collected ds more deps
  unfolding add_list
  add_list-Collected ds [] more e =
      let same : ds ≡ more = ground arith in rw (← same) (Collected-none ds)
  add_list-Collected ds (dep ∷ deps) more e =
      let (mid, first, rest) = >>=-eq-ok (add_dependency libs own ds dep) _ e in
      Collected-trans ds mid more (dep ∷ []) deps
        (Collected-one ds dep mid (add_dependency-Added ds dep mid first))
        (add_list-Collected mid deps more rest)

  add_dependencies-Collected :
      (ds : List (ModDependency V)) (deps : Assoc (List Dependencies))
      (more : List (ModDependency V))
      → add_dependencies libs own ds deps ≡ ok more
      → Collected ds more (declared deps)
  unfolding add_dependencies
  add_dependencies-Collected ds [] more e =
      let same : ds ≡ more = ground arith in rw (← same) (Collected-none ds)
  add_dependencies-Collected ds ((_, deps) ∷ rest) more e =
      let (mid, first, later) = >>=-eq-ok (add_list libs own ds deps) _ e in
      Collected-trans ds mid more deps (declared rest) (add_list-Collected ds deps mid first)
        (add_dependencies-Collected mid rest more later)

only_mod-inv : (ms : List Mods) (m : Mods) → only_mod ms ≡ ok m → ms ≡ m ∷ []
unfolding only_mod
only_mod-inv [] m h = ground arith
only_mod-inv (x ∷ []) m h = ground arith
only_mod-inv (x ∷ y ∷ ms) m h = ground arith

-- What a mod that was parsed says of the metadata it was parsed from.
pub record Describes {V : Type 0} (info : ModInfo V) (meta : ModsToml Mods) : Type 0 where
  pub entry : Mods
  pub single : meta.mods ≡ entry ∷ []
  pub same_id : info.mod_id ≡ Toml.mod_id entry
  pub clean : IsClean info.mod_id info.dependencies
  pub complete :
      All
        (λ w. (text_eq w.mod_id info.mod_id || any (has_id w.mod_id) info.dependencies) ≡ true)
        (declared meta.dependencies)

module _ {V : Type 0} (libs : Libs V) (path : Text) (forge_ver : Option Text) where
  describe_mod-Describes :
      (archive : Assoc Bytes) (meta : ModsToml Mods) (m : Mods) (info : ModInfo V)
      → meta.mods ≡ m ∷ []
      → describe_mod libs path forge_ver archive meta m ≡ ok info
      → Describes info meta
  unfolding describe_mod
  describe_mod-Describes archive meta m info single h =
      let (ver, _, h1) =
        >>=-eq-ok (context (the_version libs archive forge_ver (Toml.version m)) _) _ h in
      let (ds, collected, h2) =
        >>=-eq-ok (add_dependencies libs (Toml.mod_id m) [] meta.dependencies) _ h1 in
      let (canonical, _, h3) = >>=-eq-ok (ok_or (libs.canonicalize path) _) _ h2 in
      let id : info.mod_id ≡ Toml.mod_id m = ground arith in
      let deps : info.dependencies ≡ ds = ground arith in
      let all = add_dependencies-Collected libs (Toml.mod_id m) [] meta.dependencies ds collected in
      record {
        entry = m;
        single = single;
        same_id = id;
        clean = rw (id, deps) (all.clean (IsClean-nil (Toml.mod_id m)));
        complete = rw (id, deps) all.gained;
      }

  -- A mod that parses comes from metadata for exactly one mod. Its dependencies have distinct ids,
  -- none is the mod itself, and every declared dependency is among them or is the mod itself.
  pub parse_mod_ext-Describes :
      (content : Option Bytes) (info : ModInfo V)
      → parse_mod_ext libs path forge_ver content ≡ ok info
      → (archive : Assoc Bytes) × (meta : ModsToml Mods) × (read_metadata libs content
          ≡ ok (archive, meta))
        × Describes info meta
  unfolding parse_mod_ext
  parse_mod_ext-Describes content info h =
      let (found, read, h1) = >>=-eq-ok (read_metadata libs content) _ h in
      let (m, one, h2) = >>=-eq-ok (only_mod found.1.mods) _ h1 in
      (
        found.0,
        found.1,
        read,
        describe_mod-Describes found.0 found.1 m info (only_mod-inv found.1.mods m one) h2,
      )
