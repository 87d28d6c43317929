-- ===== src/Mcayb/Menus.antt =====
-- mcayb/src/bot.rs: the pages of the menus, their history, and the table in which a menu waits for a
-- press of one of its buttons. An id is a number; a button carries its decimal digits.
pub mod History
pub mod Table
pub mod Tests
use mind_craft.Base.{
  ℕ, zero, suc, Text, codes, text_eq, find, Bool, true, false, ◌&&◌, ◌==◌, Option, none, some,
  unwrap_or, List, [], ◌∷◌, ◌++◌, if◌then◌else◌,
}

pub data MenuUrlKind : Type 0 where
  page action : MenuUrlKind

pub record MenuUrl : Type 0 where
  pub kind : MenuUrlKind
  pub url : Text
  pub arguments : List Text

-- The history is kept with the last page first, where the source pushes at the end.
pub record MenuHistory : Type 0 where
  pub history : List MenuUrl
  pub current : MenuUrl

abbrev pub page_url : Text → List Text → MenuUrl
page_url name args = record { kind = page; url = name; arguments = args }

abbrev pub action_url : Text → List Text → MenuUrl
action_url name args = record { kind = action; url = name; arguments = args }

-- `MenuHistory::new`.
unfoldable pub new_menu : Text → MenuHistory
new_menu main = record { history = []; current = page_url main [] }

unfoldable pub enter_page : MenuUrl → MenuHistory → MenuHistory
enter_page url menu = record { history = menu.current ∷ menu.history; current = url }

-- The loop of `exit_page`: back to the last page, over the actions.
unfoldable pub back_to_page : List MenuUrl → Option MenuHistory
back_to_page [] = none
back_to_page (u ∷ h) =
    let earlier = back_to_page h in
    elim u.kind [ page ↦ some (record { history = h; current = u }) | action ↦ earlier ]

unfoldable pub exit_page : MenuHistory → Option MenuHistory
unfolding back_to_page
exit_page menu = back_to_page menu.history

kind_eq : MenuUrlKind → MenuUrlKind → Bool
kind_eq page page = true
kind_eq action action = true
kind_eq page action = false
kind_eq action page = false

texts_eq : List Text → List Text → Bool
unfolding text_eq
texts_eq [] [] = true
texts_eq (s ∷ ss) (t ∷ ts) = text_eq s t && texts_eq ss ts
texts_eq [] (_ ∷ _) = false
texts_eq (_ ∷ _) [] = false

url_eq : MenuUrl → MenuUrl → Bool
unfolding kind_eq texts_eq text_eq
url_eq a b = kind_eq a.kind b.kind && (text_eq a.url b.url && texts_eq a.arguments b.arguments)

urls_eq : List MenuUrl → List MenuUrl → Bool
unfolding url_eq
urls_eq [] [] = true
urls_eq (a ∷ as') (b ∷ bs) = url_eq a b && urls_eq as' bs
urls_eq [] (_ ∷ _) = false
urls_eq (_ ∷ _) [] = false

-- The `PartialEq` that is derived.
unfoldable pub menu_eq : MenuHistory → MenuHistory → Bool
unfolding url_eq urls_eq
menu_eq a b = urls_eq a.history b.history && url_eq a.current b.current

-- `MENUS`.
abbrev pub Menus : Type 0
Menus = List (ℕ × MenuHistory)

unfoldable pub get_menu : ℕ → Menus → Option MenuHistory
get_menu id [] = none
get_menu id ((k, m) ∷ menus) = if k == id then some m else get_menu id menus

pub has_menu : ℕ → Menus → Bool
has_menu id [] = false
has_menu id ((k, m) ∷ menus) = if k == id then true else has_menu id menus

-- The loop over random numbers until one is free; `none` while none of the draws is.
unfoldable pub allocate_menu : MenuHistory → List ℕ → Menus → Option ℕ × Menus
unfolding has_menu
allocate_menu menu [] menus = (none, menus)
allocate_menu menu (random ∷ draws) menus =
    let later = allocate_menu menu draws menus in
    if has_menu random menus then later else (some random, (random, menu) ∷ menus)

-- The id of an equal menu that is in the table.
unfoldable pub known_id : MenuHistory → Menus → Option ℕ
known_id menu [] = none
known_id menu ((k, m) ∷ menus) = if menu_eq m menu then some k else known_id menu menus

unfoldable pub to_id : MenuHistory → List ℕ → Menus → Option ℕ × Menus
to_id menu draws menus = elim (known_id menu menus) [
  | some id ↦ (some id, menus)
  | none ↦ allocate_menu menu draws menus
]

-- `from_id`, of a text that is a number or not.
unfoldable pub from_id : Text → Option ℕ → Menus → MenuHistory
from_id string parsed menus = elim parsed [
  | none ↦ new_menu (codes "broken-" ++ string)
  | some id ↦ unwrap_or (get_menu id menus) (new_menu (codes "broken-" ++ string))
]
