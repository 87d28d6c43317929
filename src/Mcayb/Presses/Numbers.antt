-- ===== src/Mcayb/Presses/Numbers.antt =====
-- mcayb/src/bot.rs: where the buttons of the pages lead, whose pages have numbers.
use mind_craft.Base.{
  ℕ, ◌+◌, ◌-◌, ◌%◌, ◌^◌, ◌<◌, Text, codes, text_eq, Bool, some, List, [], ◌∷◌, ◌≡◌, refl, arith,
  All-append, ◌==◌,
}
use mind_craft.Yapper.Types.{
  ModInfo, ServerStatus, Status, idle, starting, running, stopping, backing_up, restoring, modding,
  packaging,
}
use mind_craft.Mcayb.Menus.{page, MenuUrl, MenuHistory, page_url, action_url, enter_page}
use mind_craft.Mcayb.Chat.{Env}
use mind_craft.Mcayb.Pages.{
  selection_buttons, start_stop, server_buttons, mod_buttons, turn_buttons,
}
use mind_craft.Mcayb.Presses.{page_press, press, mods_page}
use mind_craft.Mcayb.Arguments.{argument, with_argument}
use mind_craft.Mcayb.Presses.Ways.{
  IsPressable, IsSound, HasSoundButtons, enter_page-IsSound, simple-IsPressable, pages-IsPressable,
  if-HasSoundButtons,
}

-- `u64::from_str`: it reads back what `to_string` gives of a u64, and gives nothing but a u64.
pub record HasNumbers {V : Type 0} (env : Env V) : Type 0 where
  pub reads_back : (n : ℕ) → n < 2 ^ 64 → env.parse_u64 (env.show_u64 n) ≡ some n
  pub is_u64 : (t : Text) (n : ℕ) → env.parse_u64 t ≡ some n → n < 2 ^ 64

module _ {V : Type 0} (env : Env V) (numbers : HasNumbers env) where
  mods-IsPressable :
      (server : Text) (n : ℕ)
      → n < 2 ^ 64
      → IsPressable env (page_url (codes "mods") (server ∷ env.show_u64 n ∷ []))
  unfolding IsPressable press page_press with_argument argument mods_page text_eq
  mods-IsPressable server n lt = (refl, λ h c b. ground (arith, numbers.reads_back n lt))

  pub selection-HasSoundButtons :
      (h : MenuHistory) (statuses : List ServerStatus)
      → IsSound env h
      → HasSoundButtons env (selection_buttons h (codes "menu") page [] statuses)
  unfolding selection_buttons
  selection-HasSoundButtons h [] s = tt
  selection-HasSoundButtons h (x ∷ statuses) s = (
    enter_page-IsSound env _ h (pages-IsPressable env x.name []).1 s,
    selection-HasSoundButtons h statuses s,
  )

  pub mod_buttons-HasSoundButtons :
      (h : MenuHistory) (server : Text) (mods : List (ModInfo V))
      → IsSound env h
      → HasSoundButtons env (mod_buttons h server mods)
  unfolding mod_buttons
  mod_buttons-HasSoundButtons h server [] s = tt
  mod_buttons-HasSoundButtons h server (m ∷ mods) s = (
    enter_page-IsSound env _ h (pages-IsPressable env server m.mod_id).2 s,
    mod_buttons-HasSoundButtons h server mods s,
  )

  pub turn_buttons-HasSoundButtons :
      (h : MenuHistory) (server : Text) (number : ℕ) (finished : Bool)
      → number < 2 ^ 64
      → IsSound env h
      → HasSoundButtons env (turn_buttons env.show_u64 h server number finished)
  unfolding turn_buttons
  turn_buttons-HasSoundButtons h server number finished lt s =
      All-append _ _ _
        (if-HasSoundButtons env (number == 0) [] _ tt (turned (number - 1) (omega arith), tt))
        (if-HasSoundButtons env finished [] _ tt (turned ((number + 1) % 2 ^ 64) (omega arith), tt))
    where
      turned :
          (n : ℕ)
          → n < 2 ^ 64
          → IsSound env
              (record h { current = page_url (codes "mods") (server ∷ env.show_u64 n ∷ []) })
      turned n lt' = unfold IsSound in (mods-IsPressable server n lt', s.1)

  pub server_buttons-HasSoundButtons :
      (h : MenuHistory) (server : Text) (status : Status)
      → IsSound env h
      → HasSoundButtons env (server_buttons env.show_u64 h server status)
  unfolding server_buttons start_stop
  server_buttons-HasSoundButtons h server status s =
      let p = simple-IsPressable env server in
      by_status p.0 p.1 p.2 p.3 p.4 p.5 p.6 (mods-IsPressable server 0 (omega arith)) status
    where
      to : (u : MenuUrl) → IsPressable env u → IsSound env (enter_page u h)
      to u p = enter_page-IsSound env u h p s

      by_status :
          IsPressable env (action_url (codes "start") (server ∷ []))
          → IsPressable env (action_url (codes "stop") (server ∷ []))
          → IsPressable env (action_url (codes "reboot") (server ∷ []))
          → IsPressable env (action_url (codes "zip") (server ∷ []))
          → IsPressable env (action_url (codes "command") (server ∷ []))
          → IsPressable env (action_url (codes "backup") (server ∷ []))
          → IsPressable env (action_url (codes "restore") (server ∷ []))
          → IsPressable env (page_url (codes "mods") (server ∷ env.show_u64 0 ∷ []))
          → (status : Status) → HasSoundButtons env (server_buttons env.show_u64 h server status)
      by_status start _ reboot zip _ backup restore mods idle =
          (to _ start, (to _ reboot, (to _ mods, (to _ backup, (to _ restore, (to _ zip, tt))))))
      by_status start _ reboot zip _ _ _ _ stopping = (to _ start, (to _ reboot, (to _ zip, tt)))
      by_status _ stop reboot zip _ _ _ _ starting = (to _ stop, (to _ reboot, (to _ zip, tt)))
      by_status _ stop reboot zip command _ _ _ running =
          (to _ stop, (to _ reboot, (to _ command, (to _ zip, tt))))
      by_status _ _ reboot zip _ _ _ _ backing_up = (to _ reboot, (to _ zip, tt))
      by_status _ _ reboot zip _ _ _ _ restoring = (to _ reboot, (to _ zip, tt))
      by_status _ _ reboot zip _ _ _ _ packaging = (to _ reboot, (to _ zip, tt))
      by_status _ _ reboot _ _ _ _ _ modding = (to _ reboot, tt)
