-- ===== src/Mcayb/Forms/Guards.antt =====
-- mcayb/src/bot.rs: which forms send a command to the daemon.
use mind_craft.Base.{
  ℕ, Text, codes, text_eq, text_eq_iff, Bool, true, false, Bool-cases, ◌&&◌, Option, none, some,
  List, [], ◌∷◌, ◌≡◌, refl, ap, All, inl, inr, arith, starts_with,
}
use mind_craft.Yapper.Types.{ServerCommand, NetCommand, server_command}
use mind_craft.Mcayb.Menus.{MenuUrlKind, page, action, MenuHistory}
use mind_craft.Mcayb.Chat.{Env, Bot, Reply, asked}
use mind_craft.Mcayb.Presses.{other_url}
use mind_craft.Mcayb.Arguments.{
  Answer, Handler, argument, on_argument, with_argument, match_url, confirm, confirm_backup,
  confirm_restore,
}
use mind_craft.Mcayb.Forms.{
  eq_ignore_case, when_confirmed, console_form, confirmed_form, backup_reply, restore_reply,
  form_arms, submit_of, submit,
}

-- What a form with these inputs may ask of the daemon.
pub data Permits {V : Type 0} (h : MenuHistory) (inputs : List Text) : NetCommand V → Type 0 where
  console :
      (server command : Text)
      → h.current.url ≡ codes "command"
      → argument 0 h.current.arguments ≡ some server
      → argument 0 inputs ≡ some command
      → Permits h inputs (server_command server (ServerCommand.console command))
  backup :
      (server confirm1 confirm2 : Text)
      → h.current.url ≡ codes "backup"
      → argument 0 h.current.arguments ≡ some server
      → argument 0 inputs ≡ some confirm1
      → argument 1 inputs ≡ some confirm2
      → argument 2 inputs ≡ some server
      → eq_ignore_case confirm1 confirm ≡ true
      → eq_ignore_case confirm2 confirm_backup ≡ true
      → Permits h inputs (server_command server ServerCommand.backup)
  restore :
      (server confirm1 confirm2 : Text)
      → h.current.url ≡ codes "restore"
      → argument 0 h.current.arguments ≡ some server
      → argument 0 inputs ≡ some confirm1
      → argument 1 inputs ≡ some confirm2
      → argument 2 inputs ≡ some server
      → eq_ignore_case confirm1 confirm ≡ true
      → eq_ignore_case confirm2 confirm_restore ≡ true
      → Permits h inputs (server_command server ServerCommand.restore)

module _ {V : Type 0} (env : Env V) (h : MenuHistory) (b : Bot V) where
  -- Nothing is done, or one permitted command is asked.
  pub data Outcome (inputs : List Text) (after : Bot V) : Type 0 where
    untouched : after ≡ b → Outcome inputs after
    one_command :
        (cmd : NetCommand V)
        → Permits h inputs cmd
        → after ≡ record b { log = asked cmd ∷ b.log }
        → Outcome inputs after

  module _ (inputs : List Text) where
    on_argument-Outcome :
        (f : Text → Handler V) (found o : Option Text)
        → found ≡ o
        → ((a : Text) → found ≡ some a → Outcome inputs (f a b).1)
        → Outcome inputs (on_argument f o b).1
    unfolding on_argument
    on_argument-Outcome f found none e k = untouched refl
    on_argument-Outcome f found (some a) e k = k a e

    with_argument-Outcome :
        (n : ℕ) (args : List Text) (f : Text → Handler V)
        → ((a : Text) → argument n args ≡ some a → Outcome inputs (f a b).1)
        → Outcome inputs (with_argument n args f b).1
    unfolding with_argument
    with_argument-Outcome n args f k =
        on_argument-Outcome f (argument n args) (argument n args) refl k

    other_url-Outcome : Outcome inputs (other_url env h b).1
    unfolding other_url
    other_url-Outcome = elim (Bool-cases (starts_with h.current.url (codes "broken-"))) [
      | inl e ↦ rw e (untouched refl)
      | inr e ↦ rw e (untouched refl)
    ]

    match_url-Outcome :
        (url : Text) (arms : List (Text × Handler V))
        → All (λ (arm : Text × Handler V). url ≡ arm.0 → Outcome inputs (arm.1 b).1) arms
        → Outcome inputs (match_url url arms (other_url env h) b).1
    unfolding match_url
    match_url-Outcome url [] l = other_url-Outcome
    match_url-Outcome url ((name, arm) ∷ arms) l = elim (Bool-cases (text_eq url name)) [
      | inl e ↦ rw e (l.0 ((text_eq_iff url name).0 e))
      | inr e ↦ rw e (match_url-Outcome url arms l.1)
    ]

    console-Outcome :
        (server command : Text)
        → h.current.url ≡ codes "command"
        → argument 0 h.current.arguments ≡ some server
        → argument 0 inputs ≡ some command
        → Outcome inputs (console_form env h server command b).1
    unfolding console_form
    console-Outcome server command u s c = one_command _ (console server command u s c) refl

    confirmed-Outcome :
        (cmd : ServerCommand V) (reply : Text → Reply V → Option Answer) (phrase server : Text)
        → ((confirm1 confirm2 : Text)
            → argument 0 inputs ≡ some confirm1
            → argument 1 inputs ≡ some confirm2
            → argument 2 inputs ≡ some server
            → eq_ignore_case confirm1 confirm ≡ true
            → eq_ignore_case confirm2 phrase ≡ true
            → Permits h inputs (server_command server cmd))
        → Outcome inputs (confirmed_form env h cmd reply phrase server inputs b).1
    unfolding confirmed_form
    confirmed-Outcome cmd reply phrase server p = with_argument-Outcome 0 inputs _ λ c1 e1.
        with_argument-Outcome 1 inputs _ λ c2 e2. with_argument-Outcome 2 inputs _ λ c3 e3.
          tested c1 c2 c3 e1 e2 e3
            (eq_ignore_case c1 confirm && (eq_ignore_case c2 phrase && text_eq c3 server)) refl
      where
        tested :
            (c1 c2 c3 : Text)
            → argument 0 inputs ≡ some c1
            → argument 1 inputs ≡ some c2
            → argument 2 inputs ≡ some c3
            → (c : Bool)
            → (eq_ignore_case c1 confirm && (eq_ignore_case c2 phrase && text_eq c3 server)) ≡ c
            → Outcome inputs (when_confirmed env h cmd reply server c b).1
        tested c1 c2 c3 e1 e2 e3 false e = unfold when_confirmed in untouched refl
        tested c1 c2 c3 e1 e2 e3 true e =
            let same = (text_eq_iff c3 server).0 (ground (arith, e)) in
            let permit =
              p c1 c2 e1 e2 (rw e3 (ap some same)) (ground (arith, e)) (ground (arith, e)) in
            unfold when_confirmed in one_command _ permit refl

    submit_of-Outcome : (kind : MenuUrlKind) → Outcome inputs (submit_of env h kind inputs b).1
    unfolding submit_of form_arms
    submit_of-Outcome page = untouched refl
    submit_of-Outcome action =
        let args = h.current.arguments in
        match_url-Outcome h.current.url (form_arms env h inputs) (
          λ u. with_argument-Outcome 0 args _ λ server s.
              with_argument-Outcome 0 inputs _ λ command c. console-Outcome server command u s c,
          (
            λ u. with_argument-Outcome 0 args _ λ server s.
                confirmed-Outcome ServerCommand.backup (backup_reply env h) confirm_backup server
                  λ c1 c2 e1 e2 e3 f g. backup server c1 c2 u s e1 e2 e3 f g,
            (
              λ u. with_argument-Outcome 0 args _ λ server s.
                  confirmed-Outcome ServerCommand.restore (restore_reply env h) confirm_restore
                    server λ c1 c2 e1 e2 e3 f g. restore server c1 c2 u s e1 e2 e3 f g,
              tt,
            ),
          ),
        )

-- A form changes nothing but that it asks the daemon for one command at most: the command that is typed
-- in, or a backup or a restore of the server of the form, whose name and confirmations were typed in.
pub submit-Outcome :
    {V : Type 0} (env : Env V) (h : MenuHistory) (inputs : List Text) (b : Bot V)
    → Outcome env h b inputs (submit env h inputs b).1
unfolding submit
submit-Outcome env h inputs b = submit_of-Outcome env h b inputs h.current.kind
