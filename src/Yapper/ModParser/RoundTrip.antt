-- ===== src/Yapper/ModParser/RoundTrip.antt =====
-- Version ranges in brackets: what the parser reads back from a written range.
use mind_craft.Base.{
  ℕ, Text, codes, text_eq, ends_with_char, init, split_once, false, any, none, some, ok, [], ◌∷◌,
  ◌++◌, ◌==◌, ◌≡◌, ◌≢◌, refl, arith, if◌then◌else◌,
}
use mind_craft.Yapper.Types.{Bound, included, excluded, unbounded, Versions}
use mind_craft.Yapper.ModParser.Range.{lo_bound, hi_bound, parse_range}

-- How a lower and an upper bound are written.
pub lo_text : Bound Text → Text
lo_text (included v) = b'[' ∷ v
lo_text (excluded v) = b'(' ∷ v
lo_text unbounded = codes "["

pub hi_text : Bound Text → Text
hi_text (included v) = v ++ codes "]"
hi_text (excluded v) = v ++ codes ")"
hi_text unbounded = codes ")"

-- A bound's version text: not empty, and without a comma.
unfoldable pub IsPlain : Bound Text → Type 0
IsPlain (included v) = (v ≢ []) × (any (λ c. c == b',') v ≡ false)
IsPlain (excluded v) = (v ≢ []) × (any (λ c. c == b',') v ≡ false)
IsPlain unbounded = Unit

abbrev pub map_bound : {V : Type 0} → Versions V → Bound Text → Bound V
map_bound vs (included v) = included (vs.new v)
map_bound vs (excluded v) = excluded (vs.new v)
map_bound vs unbounded = unbounded

-- The text before the first comma is found again.
split_once-found :
    (c : ℕ) (s t : Text) → any (λ d. d == c) s ≡ false → split_once c (s ++ c ∷ t) ≡ some (s, t)
unfolding split_once
split_once-found c [] t h = ground arith
split_once-found c (a ∷ s) t h = ground (arith, split_once-found c s t)

split_once-absent :
    (c e : ℕ) (s : Text)
    → any (λ d. d == c) s ≡ false
    → split_once c (s ++ e ∷ []) ≡ (if e == c then some (s, []) else none)
unfolding split_once
split_once-absent c e [] h = ground arith
split_once-absent c e (a ∷ s) h = ground (arith, split_once-absent c e s)

ends_with_char-append : (s : Text) (c d : ℕ) → ends_with_char (s ++ c ∷ []) d ≡ (c == d)
unfolding ends_with_char
ends_with_char-append [] c d = refl
ends_with_char-append (a ∷ []) c d = refl
ends_with_char-append (a ∷ b ∷ s) c d = ends_with_char-append (b ∷ s) c d

init-append : (s : Text) (c : ℕ) → init (s ++ c ∷ []) ≡ s
unfolding init
init-append [] c = refl
init-append (a ∷ []) c = refl
init-append (a ∷ b ∷ s) c = rw (init-append (b ∷ s) c)

text_eq-append-nil : (s : Text) (c : ℕ) → text_eq (s ++ c ∷ []) [] ≡ false
unfolding text_eq
text_eq-append-nil [] c = refl
text_eq-append-nil (a ∷ s) c = refl

module _ {V : Type 0} (vs : Versions V) where
  lo_bound-lo_text :
      (lo : Bound Text) → IsPlain lo → lo_bound vs (lo_text lo) ≡ ok (map_bound vs lo)
  unfolding lo_bound lo_text IsPlain
  lo_bound-lo_text (included []) h = absurd (h.0 refl)
  lo_bound-lo_text (included (c ∷ v)) h = refl
  lo_bound-lo_text (excluded v) h = refl
  lo_bound-lo_text unbounded h = refl

  hi_bound-hi_text :
      (hi : Bound Text) → IsPlain hi → hi_bound vs (hi_text hi) ≡ ok (map_bound vs hi)
  unfolding hi_bound hi_text IsPlain
  hi_bound-hi_text (included []) h = absurd (h.0 refl)
  hi_bound-hi_text (included (c ∷ v)) h = ground (
    arith,
    ends_with_char-append (c ∷ v) b']' b']',
    init-append (c ∷ v) b']',
    text_eq-append-nil v b']',
  )
  hi_bound-hi_text (excluded []) h = absurd (h.0 refl)
  hi_bound-hi_text (excluded (c ∷ v)) h = ground (
    arith,
    ends_with_char-append (c ∷ v) b')' b']',
    ends_with_char-append (c ∷ v) b')' b')',
    init-append (c ∷ v) b')',
    text_eq-append-nil v b')',
  )
  hi_bound-hi_text unbounded h = refl

  plain_lo_text : (lo : Bound Text) → IsPlain lo → any (λ c. c == b',') (lo_text lo) ≡ false
  unfolding lo_text IsPlain
  plain_lo_text (included v) h = h.1
  plain_lo_text (excluded v) h = h.1
  plain_lo_text unbounded h = refl

  -- A range of two bounds with a comma between them is read back as those bounds, whatever kinds they
  -- are, if no version is empty and none has a comma; a lower bound that is not there is written `[`.
  pub parse_range_written :
      (lo hi : Bound Text)
      → IsPlain lo
      → IsPlain hi
      → parse_range vs (lo_text lo ++ b',' ∷ hi_text hi) ≡ ok (map_bound vs lo, map_bound vs hi)
  unfolding parse_range
  parse_range_written lo hi hlo hhi = ground (
    arith,
    split_once-found b',' (lo_text lo) (hi_text hi),
    plain_lo_text lo hlo,
    lo_bound-lo_text lo hlo,
    hi_bound-hi_text hi hhi,
  )

  -- A single version in square brackets is read as both bounds, if it has no comma.
  parse_range_exact :
      (v : Text)
      → any (λ c. c == b',') v ≡ false
      → parse_range vs (b'[' ∷ v ++ codes "]") ≡ ok (included (vs.new v), included (vs.new v))
  unfolding parse_range
  parse_range_exact v h = ground (
    arith,
    split_once-absent b',' b']' v h,
    ends_with_char-append (b'[' ∷ v) b']' b']',
    init-append (b'[' ∷ v) b']',
  )

  -- A lower bound written as a lone parenthesis is read as the exclusion of the empty version, where
  -- a lone square bracket is read as no bound.
  pub parse_range_lone_parenthesis :
      (hi : Bound Text)
      → IsPlain hi
      → (parse_range vs (codes "(," ++ hi_text hi) ≡ ok (excluded (vs.new []), map_bound vs hi))
        × (parse_range vs (codes "[," ++ hi_text hi) ≡ ok (unbounded, map_bound vs hi))
  unfolding parse_range
  parse_range_lone_parenthesis hi h =
      (ground (arith, hi_bound-hi_text hi h), ground (arith, hi_bound-hi_text hi h))
