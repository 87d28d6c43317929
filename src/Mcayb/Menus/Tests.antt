-- ===== src/Mcayb/Menus/Tests.antt =====
-- mcayb/src/bot.rs: the theorems on menus at concrete inputs.
use mind_craft.Base.{ℕ, not, any, true, codes, some, [], ◌∷◌, ◌≡◌, refl}
use mind_craft.Mcayb.Menus.{
  MenuHistory, page_url, action_url, enter_page, exit_page, Menus, has_menu, to_id, from_id,
}
use mind_craft.Mcayb.Menus.History.{IsAction, enter_all, exit_page-enter_page}
use mind_craft.Mcayb.Menus.Table.{HasUniqueIds, from_id-to_id}

abbrev main_menu : MenuHistory
main_menu = record { history = []; current = page_url (codes "main") [] }

abbrev mods_menu : MenuHistory
mods_menu = record {
  history = page_url (codes "main") [] ∷ [];
  current = page_url (codes "mods") (codes "0" ∷ []);
}

-- The first number that is drawn is in use.
abbrev table : Menus
table = (3, main_menu) ∷ []

exit_page-enter_page_example :
    exit_page (
      enter_page
        (page_url (codes "status") [])
        (enter_all (action_url (codes "start") [] ∷ []) mods_menu))
    ≡ some mods_menu
unfolding IsAction
exit_page-enter_page_example =
    exit_page-enter_page (page_url (codes "status") []) (action_url (codes "start") [] ∷ [])
      mods_menu refl (refl, tt)

table-HasUniqueIds : HasUniqueIds table
unfolding HasUniqueIds has_menu
table-HasUniqueIds = (refl, tt)

free_draw : any (λ d. not (has_menu d table)) (3 ∷ 5 ∷ []) ≡ true
unfolding has_menu
free_draw = refl

from_id-to_id_example :
    let (given, menus') = to_id mods_menu (3 ∷ 5 ∷ []) table in
    (id : ℕ) × (given ≡ some id)
    × (from_id (codes "5") (some id) menus' ≡ mods_menu)
    × HasUniqueIds menus'
from_id-to_id_example =
    from_id-to_id (codes "5") mods_menu (3 ∷ 5 ∷ []) table table-HasUniqueIds free_draw
