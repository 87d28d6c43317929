-- ===== src/Mcayb/Menus/History.antt =====
-- mcayb/src/bot.rs: the way back through the pages of a menu.
use mind_craft.Base.{some, List, [], ◌∷◌, ◌≡◌, arith, All, ◌∙◌}
use mind_craft.Mcayb.Menus.{page, action, MenuUrl, MenuHistory, enter_page, exit_page, back_to_page}

unfoldable pub IsAction : MenuUrl → Type 0
IsAction url = url.kind ≡ action

-- The menu after some urls were entered, the last of them first.
unfoldable pub enter_all : List MenuUrl → MenuHistory → MenuHistory
unfolding enter_page
enter_all [] menu = menu
enter_all (u ∷ us) menu = enter_page u (enter_all us menu)

exit_page-page :
    (url : MenuUrl) (menu : MenuHistory)
    → menu.current.kind ≡ page
    → exit_page (enter_page url menu) ≡ some menu
unfolding exit_page enter_page back_to_page
exit_page-page url menu k = ground (arith, k)

exit_page-action :
    (url u : MenuUrl) (menu : MenuHistory)
    → IsAction u
    → exit_page (enter_page url (enter_page u menu)) ≡ exit_page (enter_page u menu)
unfolding exit_page enter_page back_to_page IsAction
exit_page-action url u menu k = ground (arith, k)

-- From a page, after any number of actions and one more url were entered, the way back leads to that
-- page, with the history that it had.
pub exit_page-enter_page :
    (url : MenuUrl) (actions : List MenuUrl) (menu : MenuHistory)
    → menu.current.kind ≡ page
    → All IsAction actions
    → exit_page (enter_page url (enter_all actions menu)) ≡ some menu
unfolding enter_all
exit_page-enter_page url [] menu k as' = exit_page-page url menu k
exit_page-enter_page url (u ∷ us) menu k (a, as') =
    exit_page-action url u (enter_all us menu) a ∙ exit_page-enter_page u us menu k as'
