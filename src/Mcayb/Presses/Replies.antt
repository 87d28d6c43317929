-- ===== src/Mcayb/Presses/Replies.antt =====
-- mcayb/src/bot.rs: each press of a button of a sound menu leads on.
use mind_craft.Base.{
  ℕ, ◌^◌, ◌<◌, refl, Text, codes, text_eq, starts_with, Bool, true, false, Bool-cases, Option, none,
  some, List, [], ◌∷◌, ◌≡◌, inl, inr, arith, if◌then◌else◌, All, All-append,
}
use mind_craft.Yapper.Types.{Response, ServerCommand, reserved_mod_id}
use mind_craft.Mcayb.Menus.{MenuUrlKind, page, action, MenuHistory}
use mind_craft.Mcayb.Embeds.{Button, Menu, message, with_buttons}
use mind_craft.Mcayb.Embeds.Rows.{all_buttons}
use mind_craft.Mcayb.Chat.{Env, Bot, Reply, response, failed, CommError}
use mind_craft.Mcayb.Replies.{send_unknown, send_err, outdated, wtf_bad_bot}
use mind_craft.Mcayb.Pages.{
  show_servers, show_server, show_mods, show_one_mod, dashboard_menu, server_menu, mod_menu,
  single_mod_menu,
}
use mind_craft.Mcayb.Presses.{
  page_arms, action_arms, other_url, page_press, action_press, press_of, simple_action, mods_page,
  show_single, uninstall_press, uninstall_known,
}
use mind_craft.Mcayb.Arguments.{
  update_message, modal, argument, on_argument, with_argument, match_url, Handler,
}
use mind_craft.Mcayb.Presses.Ways.{
  IsSound, HasSoundButtons, LeadsOn, LeadsOn?, menu-LeadsOn, result_menu-LeadsOn,
  acknowledged-LeadsOn, uninstall-IsPressable, enter_page-IsSound, if-HasSoundButtons,
}
use mind_craft.Mcayb.Presses.Numbers.{
  HasNumbers, selection-HasSoundButtons, mod_buttons-HasSoundButtons, turn_buttons-HasSoundButtons,
  server_buttons-HasSoundButtons,
}

module _ {V : Type 0} (env : Env V) (numbers : HasNumbers env) (h : MenuHistory)
    (s : IsSound env h) where
  with_buttons-HasSoundButtons :
      (buttons : List Button) (m : Menu)
      → HasSoundButtons env buttons
      → HasSoundButtons env m.buttons
      → HasSoundButtons env (with_buttons buttons m).buttons
  unfolding with_buttons
  with_buttons-HasSoundButtons [] m bs ms = ms
  with_buttons-HasSoundButtons (b ∷ buttons) m bs ms = bs

  unknown-LeadsOn : LeadsOn env (update_message (message (send_unknown h)))
  unfolding send_unknown
  unknown-LeadsOn = result_menu-LeadsOn env h false _ s

  err-LeadsOn : (e : CommError) → LeadsOn env (update_message (message (send_err env h e)))
  unfolding send_err
  err-LeadsOn e = result_menu-LeadsOn env h false _ s

  show_dashboard-LeadsOn :
      (color : ℕ × ℕ × ℕ) (title : Text) (description : Option Text) (refresh : Bool) (r : Reply V)
      → LeadsOn env (
          update_message
            (message (show_servers env h color title description (codes "menu") page [] refresh r)))
  unfolding show_servers
  show_dashboard-LeadsOn color title description refresh (response (Response.list statuses)) =
      menu-LeadsOn env
        (show_servers env h color title description (codes "menu") page [] refresh
          (response (Response.list statuses)))
        s (with_buttons-HasSoundButtons _ _ (selection-HasSoundButtons env numbers h statuses s) tt)
  show_dashboard-LeadsOn color title description refresh (response _) = unknown-LeadsOn
  show_dashboard-LeadsOn color title description refresh (failed e) = err-LeadsOn e

  show_server-LeadsOn :
      (server : Text) (r : Reply V)
      → LeadsOn env (update_message (message (show_server env h server r)))
  unfolding show_server
  show_server-LeadsOn server (response (Response.status x)) =
      menu-LeadsOn env (show_server env h server (response (Response.status x))) s (
        with_buttons-HasSoundButtons _ _
          (server_buttons-HasSoundButtons env numbers h server x.status s) tt)
  show_server-LeadsOn server (response _) = unknown-LeadsOn
  show_server-LeadsOn server (failed e) = err-LeadsOn e

  show_mods-LeadsOn :
      (server : Text) (number : ℕ) (r : Reply V)
      → number < 2 ^ 64
      → LeadsOn env (update_message (message (show_mods env h server number r)))
  unfolding show_mods
  show_mods-LeadsOn server number (response (Response.mods mods finished)) lt =
      menu-LeadsOn env (show_mods env h server number (response (Response.mods mods finished))) s (
        with_buttons-HasSoundButtons _ _
          (All-append _ _ _ (turn_buttons-HasSoundButtons env numbers h server number finished lt s)
            (mod_buttons-HasSoundButtons env numbers h server mods s))
          tt)
  show_mods-LeadsOn server number (response _) lt = unknown-LeadsOn
  show_mods-LeadsOn server number (failed e) lt = err-LeadsOn e

  show_one_mod-LeadsOn :
      (server mod_id : Text) (r : Reply V)
      → LeadsOn? env (show_single env h (show_one_mod env h server mod_id r))
  unfolding show_one_mod show_single LeadsOn
  show_one_mod-LeadsOn server mod_id (response (Response.mod_found m)) =
      menu-LeadsOn env (show_one_mod env h server mod_id (response (Response.mod_found m))).0 s (
        with_buttons-HasSoundButtons _ _
          (if-HasSoundButtons env (reserved_mod_id mod_id) [] _ tt
            (enter_page-IsSound env _ h (uninstall-IsPressable env server mod_id) s, tt))
          tt)
  show_one_mod-LeadsOn server mod_id (response _) = unknown-LeadsOn
  show_one_mod-LeadsOn server mod_id (failed e) = err-LeadsOn e

  if-LeadsOn :
      (c : Bool) (f g : Handler V) (b : Bot V)
      → LeadsOn? env (f b).0
      → LeadsOn? env (g b).0
      → LeadsOn? env ((if c then f else g) b).0
  if-LeadsOn true f g b hf hg = hf
  if-LeadsOn false f g b hf hg = hg

  other_url-LeadsOn : (b : Bot V) → LeadsOn? env (other_url env h b).0
  unfolding other_url LeadsOn outdated wtf_bad_bot message all_buttons
  other_url-LeadsOn b = if-LeadsOn (starts_with h.current.url (codes "broken-")) _ _ b tt tt

  simple_action-LeadsOn :
      (cmd : ServerCommand V) (text server : Text) (b : Bot V)
      → LeadsOn? env (simple_action env h cmd text server b).0
  unfolding simple_action
  simple_action-LeadsOn cmd text server b = acknowledged-LeadsOn env h text _ s

  uninstall_known-LeadsOn :
      (server : Text) (r : Reply V) (b : Bot V) → LeadsOn? env (uninstall_known env h server r b).0
  unfolding uninstall_known
  uninstall_known-LeadsOn server (response (Response.mod_found info)) b = unfold LeadsOn in tt
  uninstall_known-LeadsOn server (response _) b = unknown-LeadsOn
  uninstall_known-LeadsOn server (failed e) b = err-LeadsOn e

  on_argument-LeadsOn :
      (f : Text → Handler V) (o : Option Text) (b : Bot V)
      → ((a : Text) → LeadsOn? env (f a b).0)
      → LeadsOn? env (on_argument f o b).0
  unfolding on_argument
  on_argument-LeadsOn f none b k = tt
  on_argument-LeadsOn f (some a) b k = k a

  with_argument-LeadsOn :
      (n : ℕ) (args : List Text) (f : Text → Handler V) (b : Bot V)
      → ((a : Text) → LeadsOn? env (f a b).0)
      → LeadsOn? env (with_argument n args f b).0
  unfolding with_argument
  with_argument-LeadsOn n args f b k = on_argument-LeadsOn f (argument n args) b k

  mods_page-LeadsOn :
      (server : Text) (number : Option ℕ) (b : Bot V)
      → ((n : ℕ) → number ≡ some n → n < 2 ^ 64)
      → LeadsOn? env (mods_page env h server number b).0
  unfolding mods_page mod_menu
  mods_page-LeadsOn server none b k = tt
  mods_page-LeadsOn server (some n) b k = show_mods-LeadsOn server n _ (k n refl)

  match_url-LeadsOn :
      (url : Text) (arms : List (Text × Handler V)) (otherwise : Handler V) (b : Bot V)
      → All (λ (arm : Text × Handler V). text_eq url arm.0 ≡ true → LeadsOn? env (arm.1 b).0) arms
      → LeadsOn? env (otherwise b).0
      → LeadsOn? env (match_url url arms otherwise b).0
  unfolding match_url
  match_url-LeadsOn url [] otherwise b l o = o
  match_url-LeadsOn url ((name, arm) ∷ arms) otherwise b l o =
      elim (Bool-cases (text_eq url name)) [
        | inl e ↦ rw e (l.0 e)
        | inr e ↦ rw e (match_url-LeadsOn url arms otherwise b l.1 o)
      ]

  page_press-LeadsOn :
      (b : Bot V)
      → text_eq h.current.url (codes "install") ≡ false
      → LeadsOn? env (page_press env h b).0
  unfolding page_press page_arms dashboard_menu server_menu single_mod_menu
  page_press-LeadsOn b e =
      match_url-LeadsOn h.current.url (page_arms env h) (other_url env h) b
        (
          λ _. show_dashboard-LeadsOn (3, 227, 252) _ _ true _,
          (
            λ _.
                with_argument-LeadsOn 0 h.current.arguments _ b
                  (λ server. show_server-LeadsOn server _),
            (
              λ f. absurd (ground (arith, e, f)),
              (
                λ _. with_argument-LeadsOn 0 h.current.arguments _ b (λ server.
                    with_argument-LeadsOn 1 h.current.arguments _ b
                      (λ number. mods_page-LeadsOn server _ b (numbers.is_u64 number))),
                (
                  λ _. with_argument-LeadsOn 0 h.current.arguments _ b (λ server.
                      with_argument-LeadsOn 1 h.current.arguments _ b
                        (λ mod_id. show_one_mod-LeadsOn server mod_id _)),
                  tt,
                ),
              ),
            ),
          ),
        )
        (other_url-LeadsOn b)

  modal-LeadsOn : (title : Text) (labels : List Text) → LeadsOn env (modal h title labels)
  unfolding LeadsOn
  modal-LeadsOn title labels = s

  action_press-LeadsOn :
      (comp : ℕ × ℕ) (b : Bot V)
      → text_eq h.current.url (codes "install") ≡ false
      → LeadsOn? env (action_press env h comp b).0
  unfolding action_press action_arms uninstall_press
  action_press-LeadsOn comp b e =
      let args = h.current.arguments in
      match_url-LeadsOn h.current.url (action_arms env h comp) (other_url env h) b
        (
          λ _. with_argument-LeadsOn 0 args _ b (λ x. simple_action-LeadsOn _ _ x b),
          (
            λ _. with_argument-LeadsOn 0 args _ b (λ x. simple_action-LeadsOn _ _ x b),
            (
              λ _. with_argument-LeadsOn 0 args _ b (λ x. simple_action-LeadsOn _ _ x b),
              (
                λ _. with_argument-LeadsOn 0 args _ b (λ x. modal-LeadsOn _ _),
                (
                  λ _. with_argument-LeadsOn 0 args _ b (λ x. modal-LeadsOn _ _),
                  (
                    λ _. with_argument-LeadsOn 0 args _ b (λ x. modal-LeadsOn _ _),
                    (
                      λ f. absurd (ground (arith, e, f)),
                      (
                        λ _. with_argument-LeadsOn 0 args _ b (λ x.
                            with_argument-LeadsOn 1 args _ b (λ y. uninstall_known-LeadsOn x _ _)),
                        (
                          λ _.
                              with_argument-LeadsOn 0 args _ b (λ x. simple_action-LeadsOn _ _ x b),
                          tt,
                        ),
                      ),
                    ),
                  ),
                ),
              ),
            ),
          ),
        )
        (other_url-LeadsOn b)

  pub press_of-LeadsOn :
      (kind : MenuUrlKind) (comp : ℕ × ℕ) (b : Bot V)
      → text_eq h.current.url (codes "install") ≡ false
      → LeadsOn? env (press_of env h kind comp b).0
  unfolding press_of
  press_of-LeadsOn page comp b e = page_press-LeadsOn b e
  press_of-LeadsOn action comp b e = action_press-LeadsOn comp b e
