-- ===== src/SvManage/World.antt =====
-- sv_manage/src/server_loop.rs: the state that the thread of one server reads and writes, and the
-- actions over it. `Shared` is the struct of that name; the notification queue, the files and the
-- outcomes of system calls stand beside it.
pub mod Keeps
pub mod Ends
pub mod Leads
pub mod Stops
use mind_craft.Base.{
  ℕ, Text, Assoc, Bool, true, false, Option, none, some, List, [], ◌∷◌, Result, ok, err, panic,
  diverge, Error, ◌≡◌, refl, ◌++◌, arith,
}
use mind_craft.Yapper.Types.{Status, ModInfo, Notification}
use mind_craft.Yapper.ModParser.Parse.{Bytes, Libs}

pub record Shared (V : Type 0) : Type 0 where
  pub account : Text
  pub server : Text
  pub should_run : Bool
  pub reboot_queued : Bool
  pub status : Status
  pub zip_up_to_date : Bool
  pub mod_cache_up_to_date : Bool
  pub mods_cache : Option (List (ModInfo V))

pub data Node : Type 0 where
  file : Bytes → Node
  dir : Node

-- `faults` says of each system call to come whether it fails; with no entry left it works. `stdin` is
-- what was written to the running server.
pub record World (V : Type 0) : Type 0 where
  pub shared : Shared V
  pub notifs : Assoc (List Notification)
  pub fs : Assoc Node
  pub faults : List Bool
  pub stdin : List Text

-- What the thread uses of the system and of anyhow: `expanduser`, and the text of `{err:?}`.
pub record Host (V : Type 0) : Type 0 where
  pub libs : Libs V
  pub conf_path : Text
  pub expanduser : Text → Option Text
  pub debug_error : Error → Text

-- An action keeps what it wrote also where it fails.
abbrev pub Exec : Type 0 → Type 0 → Type 0
Exec S A = S → Result A × S

-- A `Result` that the caller looks at: the error is a value, and only a panic goes on.
caught : {A : Type 0} → Result A → Result (Result A)
caught (ok a) = ok (ok a)
caught (err e) = ok (err e)
caught panic = panic
caught diverge = diverge

pub contextual : {A : Type 0} → Error → Result A → Result A
contextual e (err _) = err e
contextual e r = r

pub contextual-ok :
    {A : Type 0} → (e : Error) (r : Result A) (a : A) → contextual e r ≡ ok a → r ≡ ok a
unfolding contextual
contextual-ok e (ok b) a h = h
contextual-ok e (err _) a h = absurd (ground arith)
contextual-ok e panic a h = absurd (ground arith)
contextual-ok e diverge a h = absurd (ground arith)

module _ {S A : Type 0} where
  pub pure : A → Exec S A
  pure a s = (ok a, s)

  pub fail : Error → Exec S A
  fail e s = (err e, s)

  pub lift : Result A → Exec S A
  lift r s = (r, s)

  pub gets : (S → A) → Exec S A
  gets f s = (ok (f s), s)

  -- `context(e)` on the result of an action.
  pub with_context : Error → Exec S A → Exec S A
  unfolding contextual
  with_context e m s = let r = m s in (contextual e r.0, r.1)

  pub attempt : Exec S A → Exec S (Result A)
  unfolding caught
  attempt m s = let r = m s in (caught r.0, r.1)

pub modify : {S : Type 0} → (S → S) → Exec S (Unit {0})
modify f s = (ok tt, f s)

-- A `match` on an option.
pub match_option : {S A B : Type 0} → Option A → Exec S B → (A → Exec S B) → Exec S B
match_option none m f = m
match_option (some a) m f = f a

module _ {S A B : Type 0} where
  continue : Result A → (A → Exec S B) → Exec S B
  continue (ok a) f s = f a s
  continue (err e) f s = (err e, s)
  continue panic f s = (panic, s)
  continue diverge f s = (diverge, s)

  infixl 5 ◌>>=◌ ◌>>◌
  -- Opening this opens the actions above too.
  unfoldable pub ◌>>=◌ : Exec S A → (A → Exec S B) → Exec S B
  unfolding pure fail lift gets with_context attempt modify match_option continue
  ◌>>=◌ m f s = let r = m s in continue r.0 f r.1

  abbrev pub ◌>>◌ : Exec S A → Exec S B → Exec S B
  m >> k = m >>= λ _. k
