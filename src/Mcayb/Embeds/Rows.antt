-- ===== src/Mcayb/Embeds/Rows.antt =====
-- mcayb/src/bot.rs: the rows of buttons of a message.
use mind_craft.Base.{
  ℕ, ◌+◌, ◌/◌, ◌%◌, ◌≤◌, ◌<◌, true, false, not, ◌&&◌, Bool-cases, ◌==◌, List, [], ◌∷◌, ◌++◌, ◌≡◌,
  ◌≢◌, refl, sym, ◌∙◌, inl, inr, arith, length, length-append, append_assoc, All,
}
use mind_craft.Mcayb.Embeds.{Button, ProcessedMenu, split_buttons, message, put_back, put_refresh}

unfoldable pub all_buttons : List (List Button) → List Button
all_buttons [] = []
all_buttons (row ∷ rows) = row ++ all_buttons rows

-- A row that Discord takes.
pub IsRow : List Button → Type 0
IsRow row = (0 < length row) × (length row ≤ 5)

-- The test of the loop, where `i` buttons came before.
row_full : (i n : ℕ) → n ≡ i % 5 → ((i + 1) % 5 == 0 && not (i == 0)) ≡ true → n + 1 ≡ 5
row_full i n h e = let f : (i + 1) % 5 ≡ 0 = ground (arith, e) in omega arith

row_open : (i n : ℕ) → n ≡ i % 5 → ((i + 1) % 5 == 0 && not (i == 0)) ≡ false → n + 1 ≡ (i + 1) % 5
row_open i n h e = elim (Bool-cases ((i + 1) % 5 == 0)) [
  | inl f ↦
      let z : i ≡ 0 = ground (arith, e, f) in
      let g : (i + 1) % 5 ≡ 0 = ground (arith, f) in absurd (omega arith)
  | inr f ↦ let g : (i + 1) % 5 ≢ 0 = λ z. ground (arith, f, z) in omega (arith, g)
]

all_buttons-split_buttons :
    (i : ℕ) (row buttons : List Button) → all_buttons (split_buttons i row buttons) ≡ row ++ buttons
unfolding all_buttons split_buttons
all_buttons-split_buttons i [] [] = refl
all_buttons-split_buttons i (b ∷ row) [] = refl
all_buttons-split_buttons i row (b ∷ buttons) =
    elim (Bool-cases ((i + 1) % 5 == 0 && not (i == 0))) [
      | inl e ↦
          rw e
            (rw (all_buttons-split_buttons (i + 1) [] buttons) (append_assoc row (b ∷ []) buttons))
      | inr e ↦ rw e (
          all_buttons-split_buttons (i + 1) (row ++ b ∷ []) buttons
          ∙ append_assoc row (b ∷ []) buttons)
    ]

split_buttons-IsRow :
    (i : ℕ) (row buttons : List Button)
    → length row ≡ i % 5
    → All IsRow (split_buttons i row buttons)
unfolding split_buttons IsRow
split_buttons-IsRow i [] [] h = tt
split_buttons-IsRow i (b ∷ row) [] h = ((omega arith, omega (arith, h)), tt)
split_buttons-IsRow i row (b ∷ buttons) h =
    let more = length-append row (b ∷ []) in
    elim (Bool-cases ((i + 1) % 5 == 0 && not (i == 0))) [
      | inl e ↦
          let five = row_full i (length row) h e in
          let z : (i + 1) % 5 ≡ 0 = ground (arith, e) in
          rw e (
            (omega (arith, more, five), omega (arith, more, five)),
            split_buttons-IsRow (i + 1) [] buttons (sym z),
          )
      | inr e ↦
          rw e (
            split_buttons-IsRow (i + 1) (row ++ b ∷ []) buttons
              (more ∙ row_open i (length row) h e))
    ]

length-split_buttons :
    (i : ℕ) (row buttons : List Button)
    → length row ≡ i % 5
    → length (split_buttons i row buttons) ≡ (length row + length buttons + 4) / 5
unfolding split_buttons
length-split_buttons i [] [] h = refl
length-split_buttons i (b ∷ row) [] h = omega (arith, h)
length-split_buttons i row (b ∷ buttons) h =
    let more = length-append row (b ∷ []) in
    elim (Bool-cases ((i + 1) % 5 == 0 && not (i == 0))) [
      | inl e ↦
          let five = row_full i (length row) h e in
          let z : (i + 1) % 5 ≡ 0 = ground (arith, e) in
          rw e (omega (arith, five, length-split_buttons (i + 1) [] buttons (sym z)))
      | inr e ↦ rw e (
          omega (
            arith,
            more,
            length-split_buttons (i + 1) (row ++ b ∷ []) buttons
                (more ∙ row_open i (length row) h e),
          ))
    ]

-- A message shows all buttons of its menu in their order, after the way back and the refresh, in rows
-- of one to five, as few rows as there can be.
pub message-rows :
    (p : ProcessedMenu)
    → let buttons = put_back p (put_refresh p p.menu.buttons) in
      let rows = (message p).components in
      (all_buttons rows ≡ buttons) × All IsRow rows × (length rows ≡ (length buttons + 4) / 5)
unfolding message
message-rows p =
    let buttons = put_back p (put_refresh p p.menu.buttons) in
    (
      all_buttons-split_buttons 0 [] buttons,
      split_buttons-IsRow 0 [] buttons refl,
      omega (arith, length-split_buttons 0 [] buttons refl),
    )
