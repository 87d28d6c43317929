-- ===== src/Mcayb/Presses/Ways.antt =====
-- mcayb/src/bot.rs: from the dashboard no press of a button panics.
use mind_craft.Base.{
  ℕ, Text, codes, text_eq, Bool, true, false, Option, none, some, Option-cases, List, [], ◌∷◌, ◌≡◌,
  refl, subst, sym, ◌⊎◌, inl, inr, arith, if◌then◌else◌, All, is_some,
}
use mind_craft.Yapper.Types.{Response}
use mind_craft.Mcayb.Menus.{
  MenuUrlKind, page, action, MenuUrl, MenuHistory, page_url, action_url, enter_page, exit_page,
  back_to_page,
}
use mind_craft.Mcayb.Embeds.{Button, ProcessedMenu, message, put_back, put_refresh}
use mind_craft.Mcayb.Embeds.Rows.{all_buttons, message-rows}
use mind_craft.Mcayb.Chat.{Env, Bot, Reply, response, failed}
use mind_craft.Mcayb.Replies.{result_menu}
use mind_craft.Mcayb.Presses.{
  page_press, action_press, press, acknowledged, simple_action, show_single, form, uninstall_press,
  uninstall_known,
}
use mind_craft.Mcayb.Arguments.{
  Answer, update_message, new_message, modal, acknowledge, argument, with_argument,
}

kind-cases : (k : MenuUrlKind) → (k ≡ page) ⊎ (k ≡ action)
kind-cases page = inl refl
kind-cases action = inr refl

module _ {V : Type 0} (env : Env V) where
  -- The url is not one of an installation, and a press of a button that leads to it does not panic,
  -- wherever it is shown.
  unfoldable pub IsPressable : MenuUrl → Type 0
  IsPressable url =
      (text_eq url.url (codes "install") ≡ false)
      × ((history : List MenuUrl) (comp : ℕ × ℕ) (b : Bot V)
          → is_some (press env (record { history = history; current = url }) comp b).0 ≡ true)

  -- No press panics on the page of the menu or on the way back.
  unfoldable pub IsSound : MenuHistory → Type 0
  IsSound h = IsPressable h.current × All IsPressable h.history

  abbrev pub HasSoundButtons : List Button → Type 0
  HasSoundButtons buttons = All (λ (b : Button). IsSound b.target) buttons

  -- The menus that an answer leads to.
  unfoldable pub LeadsOn : Answer → Type 0
  LeadsOn (update_message m) = HasSoundButtons (all_buttons m.components)
  LeadsOn (new_message m) = HasSoundButtons (all_buttons m.components)
  LeadsOn (modal h _ _) = IsSound h
  LeadsOn acknowledge = Unit

  pub enter_page-IsSound :
      (url : MenuUrl) (h : MenuHistory) → IsPressable url → IsSound h → IsSound (enter_page url h)
  unfolding enter_page IsSound
  enter_page-IsSound url h p s = (p, s)

  back_to_page-IsSound :
      (history : List MenuUrl) (h : MenuHistory)
      → All IsPressable history
      → back_to_page history ≡ some h
      → IsSound h
  unfolding back_to_page IsSound
  back_to_page-IsSound [] h a e = absurd (ground (arith, e))
  back_to_page-IsSound (u ∷ history) h a e = elim (kind-cases u.kind) [
    | inl k ↦
        let same : record { history = history; current = u } ≡ h = ground (arith, e, k) in
        subst IsSound same a
    | inr k ↦ back_to_page-IsSound history h a.1 (ground (arith, e, k))
  ]

  pub if-HasSoundButtons :
      (c : Bool) (xs ys : List Button)
      → HasSoundButtons xs
      → HasSoundButtons ys
      → HasSoundButtons (if c then xs else ys)
  if-HasSoundButtons true xs ys hx hy = hx
  if-HasSoundButtons false xs ys hx hy = hy

  put_back-HasSoundButtons :
      (p : ProcessedMenu) (buttons : List Button)
      → IsSound p.current
      → HasSoundButtons buttons
      → HasSoundButtons (put_back p buttons)
  unfolding put_back
  put_back-HasSoundButtons p buttons s bs =
      if-HasSoundButtons p.back _ buttons
        (elim (Option-cases (exit_page p.current)) [
          | inl e ↦ simp (e) bs
          | inr (h, e) ↦ simp (e) (back p.current h s e, bs)
        ])
        bs
    where
      back : (h previous : MenuHistory) → IsSound h → exit_page h ≡ some previous → IsSound previous
      back h previous t e =
          back_to_page-IsSound h.history previous (unfold IsSound in t.1) (unfold exit_page in e)

  message-HasSoundButtons :
      (p : ProcessedMenu)
      → IsSound p.current
      → HasSoundButtons p.menu.buttons
      → HasSoundButtons (all_buttons (message p).components)
  message-HasSoundButtons p s bs = subst HasSoundButtons (sym (message-rows p).0) (
      put_back-HasSoundButtons p _ s
        (unfold put_refresh in if-HasSoundButtons p.refresh _ p.menu.buttons (s, bs) bs))

  acknowledged-some :
      (h : MenuHistory) (text : Text) (r : Reply V) → is_some (acknowledged env h text r) ≡ true
  unfolding acknowledged
  acknowledged-some h text (response Response.ok) = refl
  acknowledged-some h text (response _) = refl
  acknowledged-some h text (failed e) = refl

  -- What an answer leads to, if there is one.
  abbrev pub LeadsOn? : Option Answer → Type 0
  LeadsOn? none = Unit
  LeadsOn? (some a) = LeadsOn a

  pub menu-LeadsOn :
      (p : ProcessedMenu)
      → IsSound p.current
      → HasSoundButtons p.menu.buttons
      → LeadsOn (update_message (message p))
  unfolding LeadsOn
  menu-LeadsOn p s bs = message-HasSoundButtons p s bs

  pub result_menu-LeadsOn :
      (h : MenuHistory) (ok : Bool) (text : Text)
      → IsSound h
      → LeadsOn (update_message (message (result_menu h ok text)))
  unfolding result_menu
  result_menu-LeadsOn h ok text s = menu-LeadsOn (result_menu h ok text) s tt

  pub acknowledged-LeadsOn :
      (h : MenuHistory) (text : Text) (r : Reply V)
      → IsSound h
      → LeadsOn? (acknowledged env h text r)
  unfolding acknowledged
  acknowledged-LeadsOn h text (response Response.ok) s = result_menu-LeadsOn h true text s
  acknowledged-LeadsOn h text (response _) s = result_menu-LeadsOn h false _ s
  acknowledged-LeadsOn h text (failed e) s = result_menu-LeadsOn h false _ s

  -- Whatever is stored, the urls that the pages make can be pressed.
  pub simple-IsPressable :
      (server : Text)
      → IsPressable (action_url (codes "start") (server ∷ []))
        × IsPressable (action_url (codes "stop") (server ∷ []))
        × IsPressable (action_url (codes "reboot") (server ∷ []))
        × IsPressable (action_url (codes "zip") (server ∷ []))
        × IsPressable (action_url (codes "command") (server ∷ []))
        × IsPressable (action_url (codes "backup") (server ∷ []))
        × IsPressable (action_url (codes "restore") (server ∷ []))
  unfolding IsPressable press action_press simple_action with_argument argument form text_eq
  simple-IsPressable server = (
    (refl, λ h c b. acknowledged-some _ _ _),
    (refl, λ h c b. acknowledged-some _ _ _),
    (refl, λ h c b. acknowledged-some _ _ _),
    (refl, λ h c b. acknowledged-some _ _ _),
    (refl, λ h c b. refl),
    (refl, λ h c b. refl),
    (refl, λ h c b. refl),
  )

  uninstall_known-some :
      (h : MenuHistory) (server : Text) (r : Reply V) (b : Bot V)
      → is_some (uninstall_known env h server r b).0 ≡ true
  unfolding uninstall_known
  uninstall_known-some h server (response (Response.mod_found info)) b = refl
  uninstall_known-some h server (response _) b = refl
  uninstall_known-some h server (failed e) b = refl

  pub uninstall-IsPressable :
      (server mod_id : Text) → IsPressable (action_url (codes "uninstall") (server ∷ mod_id ∷ []))
  unfolding IsPressable press action_press uninstall_press with_argument argument text_eq
  uninstall-IsPressable server mod_id = (refl, λ h c b. uninstall_known-some _ server _ _)

  pub pages-IsPressable :
      (server mod_id : Text)
      → IsPressable (page_url (codes "dashboard") [])
        × IsPressable (page_url (codes "menu") (server ∷ []))
        × IsPressable (page_url (codes "mod") (server ∷ mod_id ∷ []))
  unfolding IsPressable press page_press with_argument argument show_single text_eq
  pages-IsPressable server mod_id =
      ((refl, λ h c b. refl), (refl, λ h c b. refl), (refl, λ h c b. refl))
