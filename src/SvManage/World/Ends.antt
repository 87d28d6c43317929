-- ===== src/SvManage/World/Ends.antt =====
-- What holds where an action returns a value.
use mind_craft.Base.{
  ◌≡◌, refl, Bool, true, false, if◌then◌else◌, Result, ok, err, panic, diverge, Error, arith,
  Option, none, some,
}
use mind_craft.SvManage.World.{
  Exec, pure, fail, lift, with_context, attempt, caught, match_option, contextual-ok, ◌>>=◌,
}

-- Where `m` returns `a`, `Q` holds of `a` and of the state after it.
pub record Ends {S A : Type 0} (Q : A → S → Type 0) (m : Exec S A) : Type 0 where
  pub at : (s : S) (a : A) → (m s).0 ≡ ok a → Q a (m s).1

ok-injective : {A : Type 0} → (a b : A) → ok a ≡ ok b → a ≡ b
ok-injective a b h = ground arith

module _ {S A : Type 0} {Q : A → S → Type 0} where
  pub Ends-fail : (e : Error) → Ends Q (fail {A = A} e)
  unfolding ◌>>=◌
  Ends-fail e = record { at = λ s a h. absurd (ground arith) }

  pub Ends-panic : Ends Q (lift {A = A} panic)
  unfolding ◌>>=◌
  Ends-panic = record { at = λ s a h. absurd (ground arith) }

  pub Ends-diverge : Ends Q (lift {A = A} diverge)
  unfolding ◌>>=◌
  Ends-diverge = record { at = λ s a h. absurd (ground arith) }

  pub Ends-if : (b : Bool) (m n : Exec S A) → Ends Q m → Ends Q n → Ends Q (if b then m else n)
  Ends-if true m n km kn = km
  Ends-if false m n km kn = kn

  pub Ends-pure : (a : A) → ((s : S) → Q a s) → Ends Q (pure a)
  unfolding ◌>>=◌
  Ends-pure a q = record { at = λ s b h. rw (ok-injective a b h) at (q s) }

  pub Ends-match_option :
      {B : Type 0}
      → (o : Option B) (m : Exec S A) (f : B → Exec S A) → Ends Q m
      → ((b : B) → Ends Q (f b))
      → Ends Q (match_option o m f)
  unfolding ◌>>=◌
  Ends-match_option none m f km kf = km
  Ends-match_option (some b) m f km kf = kf b

module _ {S A B : Type 0} {Q : B → S → Type 0} where
  Ends-continue :
      (r : Result A) (f : A → Exec S B) → ((a : A) → Ends Q (f a)) → Ends Q (lift r >>= f)
  unfolding ◌>>=◌
  Ends-continue (ok a) f k = record { at = λ s b h. (k a).at s b h }
  Ends-continue (err e) f k = record { at = λ s b h. absurd (ground arith) }
  Ends-continue panic f k = record { at = λ s b h. absurd (ground arith) }
  Ends-continue diverge f k = record { at = λ s b h. absurd (ground arith) }

  -- Only what comes last counts.
  pub Ends-bind : (m : Exec S A) (f : A → Exec S B) → ((a : A) → Ends Q (f a)) → Ends Q (m >>= f)
  unfolding ◌>>=◌
  Ends-bind m f k = record { at = λ s b h. let r = m s in (Ends-continue r.0 f k).at r.1 b h }

module _ {S A B : Type 0} {R : A → Type 0} {Q : B → S → Type 0} where
  Ends-continue_value :
      (r : Result A) (f : A → Exec S B)
      → ((a : A) → r ≡ ok a → R a)
      → ((a : A) → R a → Ends Q (f a))
      → Ends Q (lift r >>= f)
  unfolding ◌>>=◌
  Ends-continue_value (ok a) f q k = record { at = λ s b h. (k a (q a refl)).at s b h }
  Ends-continue_value (err e) f q k = record { at = λ s b h. absurd (ground arith) }
  Ends-continue_value panic f q k = record { at = λ s b h. absurd (ground arith) }
  Ends-continue_value diverge f q k = record { at = λ s b h. absurd (ground arith) }

  -- What comes first counts by its value.
  pub Ends-bind_value :
      (m : Exec S A) (f : A → Exec S B)
      → Ends (λ a _. R a) m
      → ((a : A) → R a → Ends Q (f a))
      → Ends Q (m >>= f)
  unfolding ◌>>=◌
  Ends-bind_value m f q k = record {
    at = λ s b h. let r = m s in (Ends-continue_value r.0 f (q.at s) k).at r.1 b h;
  }

module _ {S A : Type 0} {Q : A → S → Type 0} where
  pub Ends-with_context : (e : Error) (m : Exec S A) → Ends Q m → Ends Q (with_context e m)
  unfolding ◌>>=◌
  Ends-with_context e m k = record { at = λ s a h. k.at s a (contextual-ok e (m s).0 a h) }

caught-ok : {A : Type 0} → (r : Result A) (a : A) → caught r ≡ ok (ok a) → r ≡ ok a
unfolding caught
caught-ok (ok b) a h = ground (arith, h)
caught-ok (err e) a h = absurd (ground (arith, h))
caught-ok panic a h = absurd (ground (arith, h))
caught-ok diverge a h = absurd (ground (arith, h))

module _ {S A : Type 0} {R : A → Type 0} where
  -- A value that was caught is one that was returned.
  pub Ends-attempt :
      (m : Exec S A)
      → Ends (λ a _. R a) m
      → Ends (λ (r : Result A) _. (a : A) → r ≡ ok a → R a) (attempt m)
  unfolding ◌>>=◌
  Ends-attempt m k = record { at = λ s r h a e. k.at s a (caught-ok (m s).0 a (rw e at h)) }

pub ruleset ends_rules = (Ends-fail, Ends-if, Ends-match_option, Ends-bind)
