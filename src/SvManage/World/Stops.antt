-- ===== src/SvManage/World/Stops.antt =====
-- Actions that return a value or an error: they neither panic nor run on for ever.
use mind_craft.Base.{Bool, true, false, if◌then◌else◌, Error, Result, ok, err, panic, diverge}
use mind_craft.SvManage.World.{Exec, pure, fail, lift, gets, modify, ◌>>=◌}

pub data IsHandled {A : Type 0} : Result A → Type 0 where
  by_value : {a : A} → IsHandled (ok a)
  by_error : {e : Error} → IsHandled {A = A} (err e)

pub record Stops {S A : Type 0} (m : Exec S A) : Type 0 where
  pub at : (s : S) → IsHandled (m s).0

module _ {S A : Type 0} where
  pub Stops-pure : (a : A) → Stops {S = S} (pure a)
  unfolding ◌>>=◌
  Stops-pure a = record { at = λ s. by_value }

  pub Stops-fail : (e : Error) → Stops {S = S} (fail {A = A} e)
  unfolding ◌>>=◌
  Stops-fail e = record { at = λ s. by_error }

  pub Stops-gets : (f : S → A) → Stops (gets f)
  unfolding ◌>>=◌
  Stops-gets f = record { at = λ s. by_value }

  pub Stops-if : (b : Bool) (m n : Exec S A) → Stops m → Stops n → Stops (if b then m else n)
  Stops-if true m n sm sn = sm
  Stops-if false m n sm sn = sn

pub Stops-modify : {S : Type 0} (f : S → S) → Stops (modify f)
unfolding ◌>>=◌
Stops-modify f = record { at = λ s. by_value }

module _ {S A B : Type 0} where
  Stops-continue :
      (r : Result A) (f : A → Exec S B)
      → IsHandled r
      → ((a : A) → Stops (f a))
      → Stops (lift r >>= f)
  unfolding ◌>>=◌
  Stops-continue (ok a) f h k = record { at = λ s. (k a).at s }
  Stops-continue (err e) f h k = record { at = λ s. by_error }
  Stops-continue panic f h k = elim h [ ]
  Stops-continue diverge f h k = elim h [ ]

  pub Stops-bind :
      (m : Exec S A) (f : A → Exec S B) → Stops m → ((a : A) → Stops (f a)) → Stops (m >>= f)
  unfolding ◌>>=◌
  Stops-bind m f sm sf = record {
    at = λ s. let r = m s in (Stops-continue r.0 f (sm.at s) sf).at r.1;
  }

  -- The next action is met at the value.
  pub Stops-pure_bind : (a : A) (f : A → Exec S B) → Stops (f a) → Stops (pure a >>= f)
  unfolding ◌>>=◌
  Stops-pure_bind a f sf = record { at = λ s. sf.at s }
