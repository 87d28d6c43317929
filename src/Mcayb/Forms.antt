-- ===== src/Mcayb/Forms.antt =====
-- mcayb/src/bot.rs: `interaction_create` of the handler, for a form that is sent in.
pub mod Guards
use mind_craft.Base.{
  ℕ, ◌+◌, Text, codes, text_eq, Bool, true, false, ◌&&◌, Option, none, some, List, [], ◌∷◌, ◌++◌,
  if◌then◌else◌, map, leb,
}
use mind_craft.Yapper.Types.{NetCommand, server_command, ServerCommand, Response}
use mind_craft.Mcayb.Menus.{MenuUrlKind, page, action, MenuHistory}
use mind_craft.Mcayb.Embeds.{message}
use mind_craft.Mcayb.Replies.{result_menu, send_unknown, send_err, unknown_server, wtf_bad_bot}
use mind_craft.Mcayb.Chat.{Env, Act, pure, ◌>>=◌, Reply, response, failed, send_command}
use mind_craft.Mcayb.Presses.{other_url}
use mind_craft.Mcayb.Arguments.{
  Answer, new_message, updated, Handler, argument, with_argument, match_url, confirm,
  confirm_backup, confirm_restore,
}

-- `to_ascii_lowercase` of a character, and `eq_ignore_ascii_case`.
abbrev to_lower : ℕ → ℕ
to_lower c = if leb b'A' c && leb c b'Z' then c + 32 else c

unfoldable pub eq_ignore_case : Text → Text → Bool
unfolding text_eq
eq_ignore_case s t = text_eq (map to_lower s) (map to_lower t)

module _ {V : Type 0} (env : Env V) (h : MenuHistory) where
  console_reply : Text → Reply V → Option Answer
  unfolding result_menu unknown_server send_unknown send_err message
  console_reply server (response (Response.command_output output)) =
      updated (result_menu h true output)
  console_reply server (response Response.unknown_server) = updated (unknown_server env h server)
  console_reply server (response _) = updated (send_unknown h)
  console_reply server (failed e) = updated (send_err env h e)

  console_form : Text → Text → Handler V
  unfolding send_command console_reply
  console_form server command = do
    r ← send_command env (server_command server (ServerCommand.console command))
    pure (console_reply server r)

  backup_reply : Text → Reply V → Option Answer
  unfolding result_menu unknown_server send_unknown send_err message
  backup_reply server (response Response.ok) = updated (result_menu h true (codes "Backing up!"))
  backup_reply server (response Response.unknown_server) = updated (unknown_server env h server)
  backup_reply server (response _) = updated (send_unknown h)
  backup_reply server (failed e) = updated (send_err env h e)

  restore_reply : Text → Reply V → Option Answer
  unfolding result_menu unknown_server send_unknown send_err message
  restore_reply server (response Response.ok) =
      updated (result_menu h true (codes "Restoring backup!"))
  restore_reply server (response Response.unknown_server) = updated (unknown_server env h server)
  restore_reply server (response Response.no_backup) =
      updated (result_menu h false (codes "No backup exists!"))
  restore_reply server (response _) = updated (send_unknown h)
  restore_reply server (failed e) = updated (send_err env h e)

  when_confirmed : ServerCommand V → (Text → Reply V → Option Answer) → Text → Bool → Handler V
  unfolding send_command result_menu message
  when_confirmed cmd reply server true = do
    r ← send_command env (server_command server cmd)
    pure (reply server r)
  when_confirmed cmd reply server false =
      pure (updated (result_menu h false (codes "Please properly confirm this action!")))

  -- A command that is sent if the three inputs are as they should be.
  confirmed_form :
      ServerCommand V → (Text → Reply V → Option Answer) → Text → Text → List Text → Handler V
  unfolding with_argument when_confirmed eq_ignore_case text_eq
  confirmed_form cmd reply phrase server inputs = with_argument 0 inputs (λ confirm1.
      with_argument 1 inputs (λ confirm2. with_argument 2 inputs (λ confirm3.
        when_confirmed cmd reply server (
          eq_ignore_case confirm1 confirm
          && (eq_ignore_case confirm2 phrase && text_eq confirm3 server)))))

  form_arms : List Text → List (Text × Handler V)
  unfolding with_argument argument console_form confirmed_form backup_reply restore_reply
  form_arms inputs =
      let args = h.current.arguments in
      ((
        codes "command",
        with_argument 0 args
            (λ server. with_argument 0 inputs (λ command. console_form server command)),
      )
        ∷ (
          codes "backup",
          with_argument 0 args (λ server.
              confirmed_form ServerCommand.backup backup_reply confirm_backup server inputs),
        )
        ∷ (
          codes "restore",
          with_argument 0 args (λ server.
              confirmed_form ServerCommand.restore restore_reply confirm_restore server inputs),
        )
        ∷ [])

  -- A form that is sent in, with the values of its inputs.
  submit_of : MenuUrlKind → List Text → Handler V
  unfolding wtf_bad_bot message match_url form_arms other_url
  submit_of page inputs = pure (some (new_message (message (wtf_bad_bot env h))))
  submit_of action inputs = match_url h.current.url (form_arms inputs) (other_url env h)

  unfoldable pub submit : List Text → Handler V
  unfolding submit_of
  submit inputs = submit_of h.current.kind inputs
