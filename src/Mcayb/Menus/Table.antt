-- ===== src/Mcayb/Menus/Table.antt =====
-- mcayb/src/bot.rs: a menu that is given an id is found under it.
use mind_craft.Base.{
  ap, any, not, ℕ, Text, text_eq_iff, true, false, Bool-cases, some, Option-cases, List, [], ◌∷◌,
  ◌≡◌, refl, subst, inl, inr, arith,
}
use mind_craft.Mcayb.Menus.{
  MenuUrlKind, page, action, MenuUrl, MenuHistory, kind_eq, texts_eq, url_eq, urls_eq, menu_eq,
  Menus, get_menu, has_menu, allocate_menu, known_id, to_id, from_id,
}

kind_eq→eq : (a b : MenuUrlKind) → kind_eq a b ≡ true → a ≡ b
unfolding kind_eq
kind_eq→eq page page h = refl
kind_eq→eq action action h = refl
kind_eq→eq page action h = absurd (ground arith)
kind_eq→eq action page h = absurd (ground arith)

texts_eq→eq : (ss ts : List Text) → texts_eq ss ts ≡ true → ss ≡ ts
unfolding texts_eq
texts_eq→eq [] [] h = refl
texts_eq→eq (s ∷ ss) (t ∷ ts) h = ground (arith, h, text_eq_iff s t, texts_eq→eq ss ts)
texts_eq→eq [] (_ ∷ _) h = absurd (ground arith)
texts_eq→eq (_ ∷ _) [] h = absurd (ground arith)

url_eq→eq : (a b : MenuUrl) → url_eq a b ≡ true → a ≡ b
unfolding url_eq
url_eq→eq a b h = ground (
  arith,
  h,
  kind_eq→eq a.kind b.kind,
  text_eq_iff a.url b.url,
  texts_eq→eq a.arguments b.arguments,
)

urls_eq→eq : (as' bs : List MenuUrl) → urls_eq as' bs ≡ true → as' ≡ bs
unfolding urls_eq
urls_eq→eq [] [] h = refl
urls_eq→eq (a ∷ as') (b ∷ bs) h = ground (arith, h, url_eq→eq a b, urls_eq→eq as' bs)
urls_eq→eq [] (_ ∷ _) h = absurd (ground arith)
urls_eq→eq (_ ∷ _) [] h = absurd (ground arith)

menu_eq→eq : (a b : MenuHistory) → menu_eq a b ≡ true → a ≡ b
unfolding menu_eq
menu_eq→eq a b h = ground (arith, h, urls_eq→eq a.history b.history, url_eq→eq a.current b.current)

-- No id stands twice in the table.
unfoldable pub HasUniqueIds : Menus → Type 0
unfolding has_menu
HasUniqueIds [] = Unit
HasUniqueIds ((k, m) ∷ menus) = (has_menu k menus ≡ false) × HasUniqueIds menus

known_id-has_menu :
    (menu : MenuHistory) (menus : Menus) (id : ℕ)
    → known_id menu menus ≡ some id
    → has_menu id menus ≡ true
unfolding known_id has_menu
known_id-has_menu menu [] id h = absurd (ground arith)
known_id-has_menu menu ((k, m) ∷ menus) id h = ground (arith, h, known_id-has_menu menu menus id)

get_menu-known_id :
    (menu : MenuHistory) (menus : Menus) (id : ℕ)
    → HasUniqueIds menus
    → known_id menu menus ≡ some id
    → get_menu id menus ≡ some menu
unfolding known_id get_menu HasUniqueIds
get_menu-known_id menu [] id u h = absurd (ground arith)
get_menu-known_id menu ((k, m) ∷ menus) id u h = elim (Bool-cases (menu_eq m menu)) [
  | inl e ↦ let same : k ≡ id = ground (arith, h, e) in ground (arith, same, menu_eq→eq m menu e)
  | inr e ↦
      let later : known_id menu menus ≡ some id = ground (arith, h, e) in
      let here = known_id-has_menu menu menus id later in
      ground (arith, u.0, here, get_menu-known_id menu menus id u.1 later)
]

get_menu-has_menu :
    (menus : Menus) (id : ℕ) (menu : MenuHistory)
    → get_menu id menus ≡ some menu
    → has_menu id menus ≡ true
unfolding get_menu has_menu
get_menu-has_menu [] id menu h = absurd (ground arith)
get_menu-has_menu ((k, m) ∷ menus) id menu h = ground (arith, h, get_menu-has_menu menus id menu)

get_menu-new :
    (menu : MenuHistory) (menus menus' : Menus) (id : ℕ)
    → (id, menu) ∷ menus ≡ menus'
    → get_menu id menus' ≡ some menu
unfolding get_menu
get_menu-new menu menus menus' id e =
    let here : get_menu id ((id, menu) ∷ menus) ≡ some menu = ground arith in
    subst (λ table. get_menu id table ≡ some menu) e here

HasUniqueIds-new :
    (menu : MenuHistory) (menus menus' : Menus) (id : ℕ)
    → HasUniqueIds menus
    → has_menu id menus ≡ false
    → (id, menu) ∷ menus ≡ menus'
    → HasUniqueIds menus'
unfolding HasUniqueIds
HasUniqueIds-new menu menus menus' id u free e = subst (λ table. HasUniqueIds table) e (free, u)

get_menu-allocate_menu :
    (menu : MenuHistory) (draws : List ℕ) (menus menus' : Menus) (id : ℕ)
    → HasUniqueIds menus
    → allocate_menu menu draws menus ≡ (some id, menus')
    → (get_menu id menus' ≡ some menu) × HasUniqueIds menus'
unfolding allocate_menu
get_menu-allocate_menu menu [] menus menus' id u h = absurd (ground (arith, h))
get_menu-allocate_menu menu (random ∷ draws) menus menus' id u h =
    elim (Bool-cases (has_menu random menus)) [
      | inl e ↦ get_menu-allocate_menu menu draws menus menus' id u (ground (arith, h, e))
      | inr e ↦
          let same : random ≡ id = ground (arith, h, e) in
          let table : (id, menu) ∷ menus ≡ menus' = ground (arith, h, e) in
          (
            get_menu-new menu menus menus' id table,
            HasUniqueIds-new menu menus menus' id u (ground (arith, e, same)) table,
          )
    ]

to_id-get_menu :
    (menu : MenuHistory) (draws : List ℕ) (menus menus' : Menus) (id : ℕ)
    → HasUniqueIds menus
    → to_id menu draws menus ≡ (some id, menus')
    → (get_menu id menus' ≡ some menu) × HasUniqueIds menus'
unfolding to_id
to_id-get_menu menu draws menus menus' id u h = elim (Option-cases (known_id menu menus)) [
  | inl e ↦ get_menu-allocate_menu menu draws menus menus' id u (ground (arith, h, e))
  | inr (k, e) ↦
      let same : k ≡ id = ground (arith, h, e) in
      let table : menus ≡ menus' = ground (arith, h, e) in
      subst (λ t. (get_menu id t ≡ some menu) × HasUniqueIds t) table
        (get_menu-known_id menu menus id u (ground (arith, e, same)), u)
]

allocate_menu-free :
    (menu : MenuHistory) (draws : List ℕ) (menus : Menus)
    → any (λ d. not (has_menu d menus)) draws ≡ true
    → (id : ℕ) × ((allocate_menu menu draws menus).0 ≡ some id)
unfolding allocate_menu
allocate_menu-free menu [] menus f = absurd (ground (arith, f))
allocate_menu-free menu (random ∷ draws) menus f = elim (Bool-cases (has_menu random menus)) [
  | inl e ↦
      let (id, later) = allocate_menu-free menu draws menus (ground (arith, f, e)) in
      (id, ground (arith, e, later))
  | inr e ↦ (random, ground (arith, e))
]

to_id-free :
    (menu : MenuHistory) (draws : List ℕ) (menus : Menus)
    → any (λ d. not (has_menu d menus)) draws ≡ true
    → (id : ℕ) × ((to_id menu draws menus).0 ≡ some id)
unfolding to_id
to_id-free menu draws menus f = elim (Option-cases (known_id menu menus)) [
  | inl e ↦ let (id, new) = allocate_menu-free menu draws menus f in (id, ground (arith, e, new))
  | inr (k, e) ↦ (k, ground (arith, e))
]

-- In a table with no id twice, if some number that is drawn is free, a menu is given an id, which stands
-- for that menu when its button is pressed, and the ids stay unique.
pub from_id-to_id :
    (string : Text) (menu : MenuHistory) (draws : List ℕ) (menus : Menus)
    → HasUniqueIds menus
    → any (λ d. not (has_menu d menus)) draws ≡ true
    → let (given, menus') = to_id menu draws menus in
      (id : ℕ) × (given ≡ some id) × (from_id string (some id) menus' ≡ menu) × HasUniqueIds menus'
from_id-to_id string menu draws menus u f =
    let (id, e) = to_id-free menu draws menus f in
    let menus' = (to_id menu draws menus).1 in
    let found = to_id-get_menu menu draws menus menus' id u (ap (λ given. (given, menus')) e) in
    (id, e, unfold from_id in ground (arith, found.0), found.1)

allocate_menu-keeps :
    (menu old : MenuHistory) (draws : List ℕ) (menus : Menus) (id : ℕ)
    → get_menu id menus ≡ some old
    → get_menu id (allocate_menu menu draws menus).1 ≡ some old
unfolding allocate_menu get_menu
allocate_menu-keeps menu old [] menus id h = h
allocate_menu-keeps menu old (random ∷ draws) menus id h =
    let there = get_menu-has_menu menus id old h in
    elim (Bool-cases (has_menu random menus)) [
      | inl e ↦ ground (arith, e, allocate_menu-keeps menu old draws menus id h)
      | inr e ↦ ground (arith, e, h, there)
    ]

-- A press of a button finds the menu that it found before, after another menu was given an id.
to_id-keeps :
    (menu old : MenuHistory) (draws : List ℕ) (menus : Menus) (id : ℕ) (string : Text)
    → get_menu id menus ≡ some old
    → from_id string (some id) (to_id menu draws menus).1 ≡ old
unfolding to_id from_id
to_id-keeps menu old draws menus id string h = elim (Option-cases (known_id menu menus)) [
  | inl e ↦ ground (arith, e, allocate_menu-keeps menu old draws menus id h)
  | inr (k, e) ↦ ground (arith, e, h)
]
