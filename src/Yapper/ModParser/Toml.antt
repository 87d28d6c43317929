-- ===== src/Yapper/ModParser/Toml.antt =====
-- yapper/src/mod_parser.rs: the two shapes of mods.toml, and how the second becomes the first.
-- `toml::from_str` is a parameter for each shape.
use mind_craft.Base.{
  Text, codes, Bool, true, false, Option, none, some, List, [], ◌∷◌, ◌++◌, map, Assoc, Result, ok,
  err, if◌then◌else◌, ◌≡◌, refl, sym, ap, ◌∙◌, append_assoc, Option-cases, inl, inr,
}
use mind_craft.Yapper.Types.{Side}

pub record Dependencies : Type 0 where
  pub mod_id : Text
  pub mandatory : Bool
  pub version_range : Option Text
  pub side : Side

pub record ModsDefault : Type 0 where
  pub mod_id : Text
  pub version : Text
  pub display_name : Option Text
  pub logo_file : Option Text
  pub description : Option Text
  pub display_url : Option Text
  pub credits : Option Text
  pub authors : Option Text

pub record ModsWithCreditsList : Type 0 where
  pub mod_id : Text
  pub version : Text
  pub display_name : Option Text
  pub logo_file : Option Text
  pub description : Option Text
  pub display_url : Option Text
  pub credits : Option (List Text)
  pub authors : Option Text

pub data Mods : Type 0 where
  default : ModsDefault → Mods
  with_credit_list : ModsWithCreditsList → Mods

-- `ModsToml`, with the type of one entry of `mods` as a parameter.
pub record ModsToml (M : Type 0) : Type 0 where
  pub logo_file : Option Text
  pub mods : List M
  pub dependencies : Assoc (List Dependencies)

-- The loop that joins texts by ", ", from the text so far and the flag `first`: in the conversion
-- the separator and the text are formatted and then pushed.
join_from : Text → Bool → List Text → Text
join_from string first [] = string
join_from string first (x ∷ xs) =
    join_from (if first then string ++ x else string ++ (codes ", " ++ x)) false xs

unfoldable pub join_comma : List Text → Text
unfolding join_from
join_comma = join_from [] true

-- The same loop in `Mods::credits`, where the separator is pushed before the text.
push_from : Text → Bool → List Text → Text
push_from result first [] = result
push_from result first (x ∷ xs) =
    push_from (if first then result ++ x else (result ++ codes ", ") ++ x) false xs

unfoldable pub push_comma : List Text → Text
unfolding push_from
push_comma = push_from [] true

unfoldable pub mod_id : Mods → Text
mod_id (default x) = x.mod_id
mod_id (with_credit_list x) = x.mod_id

unfoldable pub version : Mods → Text
version (default x) = x.version
version (with_credit_list x) = x.version

unfoldable pub display_name : Mods → Option Text
display_name (default x) = x.display_name
display_name (with_credit_list x) = x.display_name

unfoldable pub logo_file : Mods → Option Text
logo_file (default x) = x.logo_file
logo_file (with_credit_list x) = x.logo_file

unfoldable pub description : Mods → Option Text
description (default x) = x.description
description (with_credit_list x) = x.description

unfoldable pub display_url : Mods → Option Text
display_url (default x) = x.display_url
display_url (with_credit_list x) = x.display_url

unfoldable pub credits : Mods → Option Text
unfolding push_comma
credits (default x) = x.credits
credits (with_credit_list x) = elim x.credits [ none ↦ none | some l ↦ some (push_comma l) ]

unfoldable pub authors : Mods → Option Text
authors (default x) = x.authors
authors (with_credit_list x) = x.authors

-- The loop body that turns one entry with a list of credits into one with a text.
unfoldable pub convert : ModsWithCreditsList → Mods
unfolding join_comma
convert x = default (record {
  mod_id = x.mod_id;
  version = x.version;
  display_name = x.display_name;
  logo_file = x.logo_file;
  description = x.description;
  display_url = x.display_url;
  credits = elim x.credits [ none ↦ none | some l ↦ some (join_comma l) ];
  authors = x.authors;
})

-- `toml::from_str` at the two shapes.
pub record Toml : Type 0 where
  pub from_str_default : Text → Option (ModsToml ModsDefault)
  pub from_str_list : Text → Option (ModsToml ModsWithCreditsList)

-- The first shape, and where that fails the second.
unfoldable pub read_toml : Toml → Text → Result (ModsToml Mods)
unfolding convert
read_toml toml mods_toml = elim (toml.from_str_default mods_toml) [
  | some data' ↦ ok (record {
    logo_file = data'.logo_file;
    mods = map default data'.mods;
    dependencies = data'.dependencies;
  })
  | none ↦ elim (toml.from_str_list mods_toml) [
    | none ↦ err "Failed to parse mods.toml (again)"
    | some data' ↦ ok (record {
      logo_file = data'.logo_file;
      mods = map convert data'.mods;
      dependencies = data'.dependencies;
    })
  ]
]

-- The joined text, described with no flag.
pub separated : List Text → Text
separated [] = []
separated (x ∷ []) = x
separated (x ∷ y ∷ ys) = x ++ (codes ", " ++ separated (y ∷ ys))

join_from-separated :
    (string x : Text) (xs : List Text)
    → join_from (string ++ x) false xs ≡ string ++ separated (x ∷ xs)
unfolding join_from separated
join_from-separated string x [] = refl
join_from-separated string x (y ∷ ys) =
    ap (λ s. join_from s false ys) (sym (append_assoc (string ++ x) (codes ", ") y))
    ∙ join_from-separated ((string ++ x) ++ codes ", ") y ys
    ∙ simp append_assoc

-- The loop of the conversion puts ", " between the texts and nowhere else.
pub join_comma-eq-separated : (xs : List Text) → join_comma xs ≡ separated xs
unfolding join_comma separated
join_comma-eq-separated [] = refl
join_comma-eq-separated (x ∷ xs) = join_from-separated [] x xs

push_from-eq-join_from :
    (string : Text) (first : Bool) (xs : List Text)
    → push_from string first xs ≡ join_from string first xs
unfolding push_from join_from
push_from-eq-join_from string first [] = refl
push_from-eq-join_from string true (x ∷ xs) = push_from-eq-join_from (string ++ x) false xs
push_from-eq-join_from string false (x ∷ xs) =
    ap (λ s. push_from s false xs) (append_assoc string (codes ", ") x)
    ∙ push_from-eq-join_from (string ++ (codes ", " ++ x)) false xs

pub credits_of_list : (o : Option (List Text)) → Option Text
credits_of_list none = none
credits_of_list (some l) = some (separated l)

-- An entry with a list of credits and its conversion show the same credits: the list with ", "
-- between its texts.
pub credits-convert :
    (x : ModsWithCreditsList)
    → (credits (convert x) ≡ credits_of_list x.credits)
      × (credits (with_credit_list x) ≡ credits_of_list x.credits)
unfolding credits convert credits_of_list
credits-convert x = elim (Option-cases x.credits) [
  | inl e ↦ (rw e, rw e)
  | inr (l, e) ↦ (
    rw e (ap some (join_comma-eq-separated l)),
    rw e (ap some (push_from-eq-join_from [] true l ∙ join_comma-eq-separated l)),
  )
]
