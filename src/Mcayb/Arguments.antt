-- ===== src/Mcayb/Arguments.antt =====
-- mcayb/src/bot.rs: the answers of `interaction_create`, and the match on the url of a menu with its
-- arguments. A missing argument is a panic.
use mind_craft.Base.{
  ℕ, zero, suc, Text, codes, text_eq, Option, none, some, List, [], ◌∷◌, ◌++◌, if◌then◌else◌,
}
use mind_craft.Mcayb.Menus.{MenuHistory}
use mind_craft.Mcayb.Embeds.{CreateMessage, ProcessedMenu, message}
use mind_craft.Mcayb.Chat.{Act, pure}

-- `CreateInteractionResponse`: a form has its menu, its title and the labels of its inputs.
pub data Answer : Type 0 where
  update_message new_message : CreateMessage → Answer
  modal : MenuHistory → Text → List Text → Answer
  acknowledge : Answer

-- `arguments[n]`.
unfoldable pub argument : ℕ → List Text → Option Text
argument n [] = none
argument zero (a ∷ args) = some a
argument (suc n) (a ∷ args) = argument n args

-- `none` is a panic.
abbrev pub Handler : Type 0 → Type 0
Handler V = Act V (Option Answer)

abbrev pub confirm : Text
confirm = codes "yes, i confirm"

abbrev pub confirm_backup : Text
confirm_backup = codes "the last backup will be lost"

abbrev pub confirm_restore : Text
confirm_restore = codes "all changes will be lost"

abbrev pub ask_to_type : Text → Text
ask_to_type text = codes "type \"" ++ text ++ codes "\""

-- `UpdateMessage(menu.interaction())`.
abbrev pub updated : ProcessedMenu → Option Answer
updated menu = some (update_message (message menu))

module _ {V : Type 0} where
  -- The `match` on the text of a url, with the arm for all others last.
  unfoldable pub match_url : Text → List (Text × Handler V) → Handler V → Handler V
  match_url url [] otherwise = otherwise
  match_url url ((name, arm) ∷ arms) otherwise =
      if text_eq url name then arm else match_url url arms otherwise

  unfoldable pub on_argument : (Text → Handler V) → Option Text → Handler V
  on_argument f none = pure none
  on_argument f (some a) = f a

  unfoldable pub with_argument : ℕ → List Text → (Text → Handler V) → Handler V
  unfolding on_argument argument
  with_argument n args f = on_argument f (argument n args)
