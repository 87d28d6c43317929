-- ===== src/Mcayb/Presses/Reach.antt =====
-- mcayb/src/bot.rs: what a press of a button of a sound menu gives.
use mind_craft.Base.{
  ℕ, codes, true, Option, none, some, List, [], ◌∷◌, ◌++◌, ◌≡◌, refl, subst, arith, All, is_some,
}
use mind_craft.Mcayb.Menus.{MenuHistory, new_menu}
use mind_craft.Mcayb.Embeds.{Button, CreateMessage}
use mind_craft.Mcayb.Embeds.Rows.{all_buttons}
use mind_craft.Mcayb.Chat.{Env, Bot}
use mind_craft.Mcayb.Presses.{press}
use mind_craft.Mcayb.Arguments.{Answer, update_message}
use mind_craft.Mcayb.Presses.Ways.{
  IsPressable, IsSound, HasSoundButtons, LeadsOn, LeadsOn?, pages-IsPressable,
}
use mind_craft.Mcayb.Presses.Numbers.{HasNumbers}
use mind_craft.Mcayb.Presses.Replies.{press_of-LeadsOn}

-- An answer that is there, with all that it leads to.
abbrev Gives : {V : Type 0} → Env V → Option Answer → Type 0
Gives env o = (a : Answer) × (o ≡ some a) × LeadsOn env a

gives :
    {V : Type 0} (env : Env V) (o : Option Answer) → is_some o ≡ true → LeadsOn? env o → Gives env o
gives env none e l = absurd (ground (arith, e))
gives env (some a) e l = (a, refl, l)

-- A press of a button of a sound menu gives an answer, from which every button and every form leads to
-- a sound menu.
press-LeadsOn :
    {V : Type 0} (env : Env V) (h : MenuHistory) (comp : ℕ × ℕ) (b : Bot V)
    → HasNumbers env
    → IsSound env h
    → Gives env (press env h comp b).0
unfolding press IsSound IsPressable
press-LeadsOn env h comp b numbers s =
    gives env (press env h comp b).0 (s.0.1 h.history comp b)
      (press_of-LeadsOn env numbers h s h.current.kind comp b s.0.0)

-- The menus that presses of buttons lead to, whatever is done by others in between: each press finds
-- the bot in any state.
pub data Reach {V : Type 0} (env : Env V) (start : MenuHistory) : MenuHistory → Type 0 where
  begun : Reach env start start
  pressed :
      (h : MenuHistory) (comp : ℕ × ℕ) (b : Bot V) (msg : CreateMessage) (before : List Button)
      (x : Button) (after : List Button)
      → Reach env start h
      → (press env h comp b).0 ≡ some (update_message msg)
      → all_buttons msg.components ≡ before ++ x ∷ after
      → Reach env start x.target

All-at :
    (P : Button → Type 0) (before : List Button) (x : Button) (after : List Button)
    → All P (before ++ x ∷ after)
    → P x
All-at P [] x after a = a.0
All-at P (y ∷ before) x after a = All-at P before x after a.1

LeadsOn-at :
    {V : Type 0} (env : Env V) (a : Answer) (msg : CreateMessage) (before : List Button)
    (x : Button) (after : List Button)
    → LeadsOn env a
    → a ≡ update_message msg
    → all_buttons msg.components ≡ before ++ x ∷ after
    → IsSound env x.target
unfolding LeadsOn
LeadsOn-at env a msg before x after l e f =
    All-at (λ (y : Button). IsSound env y.target) before x after
      (subst (HasSoundButtons env) f (subst (LeadsOn env) e l))

Reach-IsSound :
    {V : Type 0} (env : Env V) (start : MenuHistory) {h : MenuHistory}
    → HasNumbers env
    → IsSound env start
    → Reach env start h
    → IsSound env h
Reach-IsSound env start numbers s begun = s
Reach-IsSound env start numbers s (pressed h comp b msg before x after r e f) =
    let (a, g, l) = press-LeadsOn env h comp b numbers (Reach-IsSound env start numbers s r) in
    LeadsOn-at env a msg before x after l (ground (arith, e, g)) f

dashboard-IsSound : {V : Type 0} (env : Env V) → IsSound env (new_menu (codes "dashboard"))
unfolding IsSound new_menu
dashboard-IsSound env = ((pages-IsPressable env [] []).0, tt)

-- However the buttons are pressed from the dashboard on, the next press is answered, if a number
-- below 2^64 is read back from its digits, and only such numbers are read.
pub press-Reach :
    {V : Type 0} (env : Env V) (h : MenuHistory) (comp : ℕ × ℕ) (b : Bot V)
    → HasNumbers env
    → Reach env (new_menu (codes "dashboard")) h
    → (a : Answer) × ((press env h comp b).0 ≡ some a)
press-Reach env h comp b numbers r =
    let start = dashboard-IsSound env in
    let (a, e, _) = press-LeadsOn env h comp b numbers (Reach-IsSound env _ numbers start r) in
    (a, e)
