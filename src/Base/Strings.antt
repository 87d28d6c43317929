-- ===== src/Base/Strings.antt =====
-- Rust strings as lists of code points, with the operations of `str` that the program calls.
-- The order of UTF-8 bytes is that of code points, so `Ord` for `String` is the order below.
use Prim.Native.Nat.{ℕ}
use Prim.Native.Char.{code}
use Prim.Native.String.{String}
use mathlib.Core.Path.{◌≡◌, refl}
use mathlib.Core.Logic.{◌↔◌}
use mathlib.Core.Bool.{Bool, true, false, ◌||◌, ◌&&◌}
use mathlib.Core.List.{List, [], ◌∷◌, ◌++◌, reverse}
use mathlib.Core.Option.{Option, none, some}
use native.Mathlib.Omega.{arith}
use mind_craft.Base.Tests.{if◌then◌else◌, ◌==◌, ltb, leb}

abbrev pub Text : Type 0
Text = List ℕ

-- The code points of a literal. `String` has its own `[]` and `∷`.
abbrev pub codes : String → Text
codes String.[] = []
codes (String.◌∷◌ c s) = code c ∷ codes s

unfoldable pub text_eq : Text → Text → Bool
text_eq [] [] = true
text_eq [] (_ ∷ _) = false
text_eq (_ ∷ _) [] = false
text_eq (a ∷ s) (b ∷ t) = a == b && text_eq s t

pub text_eq_iff : (s t : Text) → (text_eq s t ≡ true) ↔ (s ≡ t)
unfolding text_eq
text_eq_iff [] [] = (λ _. refl, λ _. refl)
text_eq_iff [] (b ∷ t) = (λ h. cc, λ h. cc)
text_eq_iff (a ∷ s) [] = (λ h. cc, λ h. cc)
text_eq_iff (a ∷ s) (b ∷ t) =
    let (there, back) = text_eq_iff s t in (λ h. ground (arith, there), λ h. ground (arith, back))

pub text_eq_refl : (s : Text) → text_eq s s ≡ true
text_eq_refl s = (text_eq_iff s s).1 refl

-- `a <= b` for strings.
unfoldable pub text_leb : Text → Text → Bool
text_leb [] _ = true
text_leb (_ ∷ _) [] = false
text_leb (a ∷ s) (b ∷ t) = ltb a b || (a == b && text_leb s t)

pub text_leb_total : (s t : Text) → text_leb s t ≡ false → text_leb t s ≡ true
unfolding text_leb
text_leb_total [] t h = cc
text_leb_total (a ∷ s) [] h = refl
text_leb_total (a ∷ s) (b ∷ t) h = ground (arith, text_leb_total s t)

-- `starts_with`.
unfoldable pub starts_with : Text → Text → Bool
starts_with s [] = true
starts_with [] (_ ∷ _) = false
starts_with (a ∷ s) (b ∷ t) = a == b && starts_with s t

-- `ends_with`.
unfoldable pub ends_with : Text → Text → Bool
unfolding starts_with
ends_with s t = starts_with (reverse s) (reverse t)

-- `ends_with` for a pattern of one character.
unfoldable pub ends_with_char : Text → ℕ → Bool
ends_with_char [] c = false
ends_with_char (a ∷ []) c = a == c
ends_with_char (a ∷ b ∷ s) c = ends_with_char (b ∷ s) c

-- `&s[..s.len() - 1]` of a text that ends in a character of one byte.
unfoldable pub init : Text → Text
init [] = []
init (a ∷ []) = []
init (a ∷ b ∷ s) = a ∷ init (b ∷ s)

-- `split_once(c)`.
unfoldable pub split_once : ℕ → Text → Option (Text × Text)
split_once c [] = none
split_once c (a ∷ s) =
    if a == c
    then some ([], s)
    else elim (split_once c s) [ none ↦ none | some (l, r) ↦ some (a ∷ l, r) ]

push_first : ℕ → List Text → List Text
push_first a [] = (a ∷ []) ∷ []
push_first a (w ∷ ws) = (a ∷ w) ∷ ws

-- `split(c)`: one part more than separators.
unfoldable pub split : ℕ → Text → List Text
unfolding push_first
split c [] = [] ∷ []
split c (a ∷ s) = if a == c then [] ∷ split c s else push_first a (split c s)

-- The white space that `trim` takes off, in the ASCII range.
abbrev pub is_space : ℕ → Bool
is_space c = c == 32 || (leb 9 c && leb c 13)

unfoldable pub trim_start : Text → Text
trim_start [] = []
trim_start (c ∷ s) = if is_space c then trim_start s else c ∷ s

unfoldable pub trim : Text → Text
unfolding trim_start
trim s = reverse (trim_start (reverse (trim_start s)))

-- `replace(c, by)` for a pattern of one character.
unfoldable pub replace_char : ℕ → Text → Text → Text
replace_char c by [] = []
replace_char c by (a ∷ s) = if a == c then by ++ replace_char c by s else a ∷ replace_char c by s

pub split_once-append : (c : ℕ) (s l r : Text) → split_once c s ≡ some (l, r) → s ≡ l ++ c ∷ r
unfolding split_once
split_once-append c [] l r h = ground arith
split_once-append c (a ∷ s) [] r h = ground arith
split_once-append c (a ∷ s) (b ∷ l) r h = ground (arith, split_once-append c s l r)
