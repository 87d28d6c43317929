-- ===== src/Yapper/Escape.antt =====
-- yapper/src/lib.rs: text for discord messages, `escape_discord` and `pretty_status`.
use mathlib.Core.Path.{ap₂}
use mind_craft.Base.{
  ℕ, ◌≡◌, refl, any, Option, none, some, Bool, Text, codes, replace_char, [], ◌∷◌, ◌++◌, arith,
  ◌==◌, if◌then◌else◌, Bool-cases, inl, inr, ◌||◌, append_assoc, ap, ◌∙◌,
}
use mind_craft.Yapper.Types.{
  Status, idle, starting, running, stopping, backing_up, restoring, modding, packaging,
}

unfoldable pub pretty_status : Status → Text
pretty_status idle = codes ":zzz: **Idle**"
pretty_status running = codes ":white_check_mark: **Running**"
pretty_status stopping = codes ":octagonal_sign: **Stopping**"
pretty_status starting = codes ":stopwatch: **Starting**"
pretty_status backing_up = codes ":floppy_disk: **Creating backup**"
pretty_status restoring = codes ":leftwards_arrow_with_hook: **Restoring backup**"
pretty_status modding = codes ":stopwatch: **Modding**"
pretty_status packaging = codes ":package: **Packaging**"

-- The calls of `replace`, in their order.
unfoldable pub escape_discord : Text → Text
escape_discord display =
    let a = replace_char b'\\' (codes "\\\\") display in
    let b = replace_char b'\n' (codes "\\n*") a in
    let c = replace_char b'\r' (codes "\\r") b in
    let d = replace_char b'*' (codes "\\*") c in
    let e = replace_char b'~' (codes "\\~") d in
    let f = replace_char b'`' (codes "\\`") e in
    let g = replace_char b'#' (codes "\\#") f in
    let h = replace_char b'-' (codes "\\-") g in
    let i = replace_char b'>' (codes "\\>") h in
    let j = replace_char b':' (codes "\\:") i in
    let k = replace_char b'[' (codes "\\[") j in
    let l = replace_char b']' (codes "\\]") k in
    let m = replace_char b'(' (codes "\\(") l in replace_char b')' (codes "\\)") m

replace_char-append :
    (c : ℕ) (by s t : Text)
    → replace_char c by (s ++ t) ≡ replace_char c by s ++ replace_char c by t
unfolding replace_char
replace_char-append c by [] t = refl
replace_char-append c by (a ∷ s) t = elim (Bool-cases (a == c)) [
  | inl e ↦ rw e (simp (replace_char-append c by s t, append_assoc))
  | inr e ↦ rw e (rw (replace_char-append c by s t))
]

escape_discord-append :
    (s t : Text) → escape_discord (s ++ t) ≡ escape_discord s ++ escape_discord t
unfolding escape_discord
escape_discord-append s t = simp replace_char-append

-- The characters that get a backslash and are kept.
is_markup : ℕ → Bool
is_markup c =
    c == b'\\'
    || c == b'*'
    || c == b'~'
    || c == b'`'
    || c == b'#'
    || c == b'-'
    || c == b'>'
    || c == b':'
    || c == b'['
    || c == b']'
    || c == b'('
    || c == b')'

-- What one character becomes.
escape_char : ℕ → Text
unfolding is_markup
escape_char c =
    if c == b'\n'
    then codes "\\n\\*"
    else if c == b'\r'
    then codes "\\r"
    else if is_markup c
    then b'\\' ∷ c ∷ []
    else c ∷ []

escape_discord_one : (c : ℕ) → escape_discord (c ∷ []) ≡ escape_char c
unfolding escape_discord escape_char replace_char
escape_discord_one c = ground arith

-- The escape of each character, one by one.
pub escape_each : Text → Text
unfolding escape_char
escape_each [] = []
escape_each (c ∷ s) = escape_char c ++ escape_each s

-- The fourteen passes of `escape_discord` are one pass that escapes every character on its own.
pub escape_discord-eq-escape_each : (s : Text) → escape_discord s ≡ escape_each s
unfolding escape_each
escape_discord-eq-escape_each [] = unfold escape_discord replace_char in refl
escape_discord-eq-escape_each (c ∷ s) =
    escape_discord-append (c ∷ []) s
    ∙ ap₂ ◌++◌ (escape_discord_one c) (escape_discord-eq-escape_each s)

-- Where a reader of escaped text stands: at a character, after a backslash, or in a line break.
data Mode : Type 0 where
  plain slash break_slash break_star : Mode

-- What stands for formatting unless a backslash is before it.
is_special : ℕ → Bool
is_special c = any (λ d. c == d) (codes "\\*~`#->:[]()\n\r")

-- What a character is read as, and where the reader stands after it; a special character that has no
-- backslash is refused, and so is a backslash before any other one.
next : Mode → ℕ → Option (Mode × Text)
unfolding is_special
next plain a =
    if a == b'\\' then some (slash, []) else if is_special a then none else some (plain, a ∷ [])
next slash a =
    if a == b'n'
    then some (break_slash, b'\n' ∷ [])
    else if a == b'r'
    then some (plain, b'\r' ∷ [])
    else if is_special a
    then some (plain, a ∷ [])
    else none
next break_slash a = if a == b'\\' then some (break_star, []) else none
next break_star a = if a == b'*' then some (plain, []) else none

prepend : Text → Option Text → Option Text
prepend out none = none
prepend out (some t) = some (out ++ t)

unescape_from : Mode → Text → Option Text
unfolding next prepend
unescape_from plain [] = some []
unescape_from slash [] = none
unescape_from break_slash [] = none
unescape_from break_star [] = none
unescape_from m (a ∷ s) = elim (next m a) [
  | none ↦ none
  | some (m', out) ↦ prepend out (unescape_from m' s)
]

-- A reader of escaped text; no character may be taken for formatting.
pub unescape : Text → Option Text
unfolding unescape_from
unescape = unescape_from plain

unescape-escape_char :
    (c : ℕ) (t : Text) → unescape (escape_char c ++ t) ≡ prepend (c ∷ []) (unescape t)
unfolding unescape unescape_from next is_special escape_char prepend
unescape-escape_char c t = ground arith

unescape-escape_each : (s : Text) → unescape (escape_each s) ≡ some s
unfolding escape_each prepend
unescape-escape_each [] = unfold unescape in refl
unescape-escape_each (c ∷ s) =
    unescape-escape_char c (escape_each s) ∙ rw (unescape-escape_each s) refl

-- A reader that refuses each of \, *, ~, `, #, -, >, :, brackets, parentheses and line breaks where no
-- backslash is before it reads every escaped text, as the text that was escaped.
pub unescape-escape_discord : (s : Text) → unescape (escape_discord s) ≡ some s
unescape-escape_discord s = ap unescape (escape_discord-eq-escape_each s) ∙ unescape-escape_each s
