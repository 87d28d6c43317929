-- ===== src/SvManage/World/Keeps.antt =====
-- Invariants of actions: a rule for each way in which the handlers build them.
use mind_craft.Base.{
  Bool, true, false, if◌then◌else◌, Result, ok, err, panic, diverge, Error, Option, none, some,
}
use mind_craft.SvManage.World.{
  Exec, pure, fail, lift, gets, attempt, with_context, match_option, ◌>>=◌,
}

-- `m` keeps `P`, whether it returns, fails or panics.
pub record Keeps {S A : Type 0} (P : S → Type 0) (m : Exec S A) : Type 0 where
  pub at : (s : S) → P s → P (m s).1

module _ {S A : Type 0} {P : S → Type 0} where
  pub Keeps-if :
      (test : Bool) (above below : Exec S A)
      → Keeps P above
      → Keeps P below
      → Keeps P (if test then above else below)
  Keeps-if true above below kept _ = kept
  Keeps-if false above below _ kept = kept

  pub Keeps-lift : (r : Result A) → Keeps P (lift r)
  unfolding ◌>>=◌
  Keeps-lift r = record { at = λ _ holds. holds }

  pub Keeps-attempt : (act : Exec S A) → Keeps P act → Keeps P (attempt act)
  unfolding ◌>>=◌
  Keeps-attempt act kept = record { at = λ w holds. kept.at w holds }

  pub Keeps-fail : (e : Error) → Keeps P (fail {A = A} e)
  unfolding ◌>>=◌
  Keeps-fail e = record { at = λ _ holds. holds }

  pub Keeps-with_context : (e : Error) (act : Exec S A) → Keeps P act → Keeps P (with_context e act)
  unfolding ◌>>=◌
  Keeps-with_context e act kept = record { at = λ w holds. kept.at w holds }

  pub Keeps-gets : (view : S → A) → Keeps P (gets view)
  unfolding ◌>>=◌
  Keeps-gets view = record { at = λ _ holds. holds }

  pub Keeps-pure : (a : A) → Keeps P (pure a)
  unfolding ◌>>=◌
  Keeps-pure a = record { at = λ _ holds. holds }

module _ {S A B : Type 0} {P : S → Type 0} where
  pub Keeps-match_option :
      (o : Option A) (nothing : Exec S B) (just : A → Exec S B)
      → Keeps P nothing
      → ((a : A) → Keeps P (just a))
      → Keeps P (match_option o nothing just)
  unfolding ◌>>=◌
  Keeps-match_option none nothing just kept _ = kept
  Keeps-match_option (some a) nothing just _ kept = kept a

  -- After a value the next action runs, and after anything else nothing does.
  Keeps-continue :
      (r : Result A) (next : A → Exec S B)
      → ((a : A) → Keeps P (next a))
      → Keeps P (lift r >>= next)
  unfolding ◌>>=◌
  Keeps-continue panic next kept = record { at = λ _ holds. holds }
  Keeps-continue diverge next kept = record { at = λ _ holds. holds }
  Keeps-continue (err _) next kept = record { at = λ _ holds. holds }
  Keeps-continue (ok a) next kept = record { at = λ w holds. (kept a).at w holds }

  pub Keeps-bind :
      (first : Exec S A) (next : A → Exec S B)
      → Keeps P first
      → ((a : A) → Keeps P (next a))
      → Keeps P (first >>= next)
  unfolding ◌>>=◌
  Keeps-bind first next kept later = record {
    at = λ w holds. let r = first w in (Keeps-continue r.0 next later).at r.1 (kept.at w holds);
  }

pub ruleset keeps_rules = (
  Keeps-if, Keeps-match_option, Keeps-pure, Keeps-fail, Keeps-lift, Keeps-gets, Keeps-attempt,
  Keeps-with_context, Keeps-bind,
)
