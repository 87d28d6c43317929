-- ===== src/Yapper/ModParser/Range.antt =====
-- yapper/src/mod_parser.rs: the version range of a dependency, `[lo,hi)` and its variants.
use mind_craft.Base.{
  Text, codes, text_eq, starts_with, ends_with_char, init, drop, split_once, is_empty, Option, none,
  some, Result, ok, err, ◌>>=◌, ◌&&◌, if◌then◌else◌,
}
use mind_craft.Yapper.Types.{Bound, included, excluded, unbounded, Versions}

module _ {V : Type 0} (vs : Versions V) where
  -- The part before the comma. The second test of the second branch is that of the source.
  unfoldable pub lo_bound : Text → Result (Bound V)
  unfolding starts_with text_eq
  lo_bound lo =
      if starts_with lo (codes "[")
      then if text_eq lo (codes "[") then ok unbounded else ok (included (vs.new (drop 1 lo)))
      else if starts_with lo (codes "(")
      then if text_eq lo (codes "[") then ok unbounded else ok (excluded (vs.new (drop 1 lo)))
      else err "Unparseable version range"

  -- The part behind the comma.
  unfoldable pub hi_bound : Text → Result (Bound V)
  unfolding ends_with_char text_eq init
  hi_bound hi =
      if ends_with_char hi b']'
      then if text_eq hi (codes "]") then ok unbounded else ok (included (vs.new (init hi)))
      else if ends_with_char hi b')'
      then if text_eq hi (codes ")") then ok unbounded else ok (excluded (vs.new (init hi)))
      else err "Unparseable version range"

  exact_bound : Text → Result (Bound V × Bound V)
  unfolding starts_with ends_with_char init
  exact_bound range =
      if starts_with range (codes "[") && ends_with_char range b']'
      then (let ver = vs.new (drop 1 (init range)) in ok (included ver, included ver))
      else err "Unparseable version range"

  unfoldable pub parse_range : Text → Result (Bound V × Bound V)
  unfolding split_once lo_bound hi_bound exact_bound
  parse_range range = elim (split_once b',' range) [
    | none ↦ exact_bound range
    | some (lo, hi) ↦ do l ← lo_bound lo; h ← hi_bound hi; ok (l, h)
  ]

  -- A dependency with no range, or an empty one, takes every version.
  unfoldable pub version_bounds : Option Text → Result (Bound V × Bound V)
  unfolding parse_range
  version_bounds none = ok (unbounded, unbounded)
  version_bounds (some range) =
      if is_empty range then ok (unbounded, unbounded) else parse_range range
