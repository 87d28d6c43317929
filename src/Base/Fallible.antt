-- ===== src/Base/Fallible.antt =====
-- `anyhow::Result` as a value. An error is the text of its outermost context; `panic` is a panic of
-- the thread, which no handler of the program catches, and `diverge` a call that does not return.
use Prim.Native.String.{String}
use mathlib.Core.Path.{◌≡◌, refl}
use mathlib.Core.Option.{Option, none, some}

abbrev pub Error : Type 0
Error = String

pub data Result {ℓ} (A : Type ℓ) : Type ℓ where
  ok : A → Result A
  err : Error → Result A
  panic : Result A
  diverge : Result A

infixl 5 ◌>>=◌ ◌>>◌
-- `?`: only a value goes on.
abbrev pub ◌>>=◌ {ℓ ℓ'} : {T : Type ℓ} {U : Type ℓ'} → Result T → (T → Result U) → Result U
panic >>= next = panic
diverge >>= next = diverge
err e >>= next = err e
ok t >>= next = next t

abbrev pub ◌>>◌ {ℓ ℓ'} : {T : Type ℓ} {U : Type ℓ'} → Result T → Result U → Result U
r >> after = r >>= λ _. after

-- `ok_or(anyhow!(e))` and `context(e)` on an `Option`.
abbrev pub ok_or {ℓ} : {A : Type ℓ} → Option A → Error → Result A
ok_or none e = err e
ok_or (some a) e = ok a

-- `Result::ok`, for a result that is no panic.
abbrev pub to_option {ℓ} : {A : Type ℓ} → Result A → Option A
to_option (ok a) = some a
to_option _ = none

-- `context(e)` on a `Result`.
abbrev pub context {ℓ} : {A : Type ℓ} → Result A → Error → Result A
context (err _) e = err e
context r e = r

-- What a chain that ends in a value went through.
pub >>=-eq-ok {ℓ ℓ'} :
    {T : Type ℓ} {U : Type ℓ'} (r : Result T) (next : T → Result U) {u : U}
    → (r >>= next) ≡ ok u
    → (t : T) × (r ≡ ok t) × (next t ≡ ok u)
>>=-eq-ok panic next e = cc
>>=-eq-ok diverge next e = cc
>>=-eq-ok (err _) next e = cc
>>=-eq-ok (ok t) next e = (t, refl, e)
