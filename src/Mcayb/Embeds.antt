-- ===== src/Mcayb/Embeds.antt =====
-- mcayb/src/bot.rs: what a message of the bot shows, `Menu` and `ProcessedMenu`. A button holds the
-- menu whose id it is given; `Menus.to_id` and `Menus.from_id` are the way between the two.
pub mod Rows
use mind_craft.Base.{
  ℕ, ◌+◌, ◌%◌, Text, codes, Bool, true, false, not, ◌&&◌, ◌==◌, Option, none, some, List, [], ◌∷◌,
  ◌++◌, if◌then◌else◌, is_empty,
}
use mind_craft.Mcayb.Menus.{MenuHistory, exit_page, new_menu}

-- `ButtonStyle`.
pub data ButtonStyle : Type 0 where
  primary secondary success danger : ButtonStyle

-- `CreateButton`; an emoji is its code point.
pub record Button : Type 0 where
  pub target : MenuHistory
  pub label : Text
  pub emoji : Option ℕ
  pub style : ButtonStyle

-- `CreateEmbed`.
pub record Embed : Type 0 where
  pub color : ℕ × ℕ × ℕ
  pub title : Text
  pub description : Option Text
  pub fields : List (Text × Text × Bool)
  pub image : Option Text
  pub footer : Option Text
  pub author : Option Text
  pub url : Option Text

pub record Menu : Type 0 where
  pub embed : Embed
  pub buttons : List Button

pub record ProcessedMenu : Type 0 where
  pub menu : Menu
  pub current : MenuHistory
  pub back : Bool
  pub refresh : Bool

-- `CreateMessage`, `EditMessage` and `CreateInteractionResponseMessage`, as far as the bot fills them:
-- a poll is its question, and a file its bytes.
pub record CreateMessage : Type 0 where
  pub embed : Option Embed
  pub components : List (List Button)
  pub content : Option Text
  pub poll : Option Text
  pub file : Option (List ℕ)
  pub reference : Option ℕ

abbrev pub empty_message : CreateMessage
empty_message = record {
  embed = none;
  components = [];
  content = none;
  poll = none;
  file = none;
  reference = none;
}

unfoldable pub make_menu : ℕ × ℕ × ℕ → Text → Option Text → Menu
make_menu color title description = record {
  embed = record {
    color = color;
    title = title;
    description = description;
    fields = [];
    image = none;
    footer = none;
    author = none;
    url = none;
  };
  buttons = [];
}

unfoldable pub from_embed : Embed → Menu
from_embed e = record { embed = e; buttons = [] }

unfoldable pub with_fields : List (Text × Text × Bool) → Menu → Menu
with_fields fields m = record m { embed = record m.embed { fields = m.embed.fields ++ fields } }

unfoldable pub with_buttons : List Button → Menu → Menu
with_buttons buttons m = if is_empty buttons then m else record m { buttons = buttons }

unfoldable pub build : MenuHistory → Bool → Bool → Menu → ProcessedMenu
build current back refresh m = record {
  menu = m;
  current = current;
  back = back;
  refresh = refresh;
}

unfoldable pub put_refresh : ProcessedMenu → List Button → List Button
put_refresh p buttons =
    if p.refresh
    then record {
      target = p.current;
      label = codes "Refresh";
      emoji = some 0x1F504;
      style = primary;
    }
      ∷ buttons
    else buttons

unfoldable pub put_back : ProcessedMenu → List Button → List Button
put_back p buttons =
    if p.back
    then elim (exit_page p.current) [
      | none ↦ buttons
      | some previous ↦
          record { target = previous; label = codes "Back"; emoji = none; style = secondary }
          ∷ buttons
    ]
    else buttons

-- The loop over the buttons: `i` counts them and `row` is the row that is not full yet.
unfoldable pub split_buttons : ℕ → List Button → List Button → List (List Button)
split_buttons i row [] = if is_empty row then [] else row ∷ []
split_buttons i row (b ∷ buttons) =
    let full = (row ++ b ∷ []) ∷ split_buttons (i + 1) [] buttons in
    let more = split_buttons (i + 1) (row ++ b ∷ []) buttons in
    if (i + 1) % 5 == 0 && not (i == 0) then full else more

-- `ProcessedMenu::message`, `edit_message` and `interaction`.
unfoldable pub message : ProcessedMenu → CreateMessage
unfolding put_refresh put_back split_buttons
message p = record empty_message {
  embed = some p.menu.embed;
  components = split_buttons 0 [] (put_back p (put_refresh p p.menu.buttons));
}
