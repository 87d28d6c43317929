-- ===== src/Mcayb/Presses/Evolution.antt =====
-- mcayb/src/bot.rs: what presses of buttons do to the table of polls.
use mind_craft.Base.{
  ℕ, Text, text_eq, Bool-cases, Option, none, some, Option-cases, List, [], ◌∷◌, ◌≡◌, refl, All,
  inl, inr, arith,
}
use mind_craft.Yapper.Types.{Response, ServerCommand, server_command}
use mind_craft.Mcayb.Menus.{MenuUrlKind, page, action, MenuHistory}
use mind_craft.Mcayb.Chat.{
  Env, Bot, Reply, response, failed, Fetched, mod_poll, remove, get_message, note, send_command,
  deleted,
}
use mind_craft.Mcayb.Polls.Table.{Evolves, stays, Evolves-of_same, key_of}
use mind_craft.Mcayb.Polls.Create.Evolution.{create_poll-Evolves}
use mind_craft.Mcayb.Pages.{
  dashboard_menu, server_menu, mod_menu, install_mod_menu, single_mod_menu,
}
use mind_craft.Mcayb.Presses.{
  other_url, mods_page, page_arms, page_press, simple_action, changed_message, start_download,
  install_press, uninstall_known, uninstall_press, form, action_arms, action_press, press_of, press,
}
use mind_craft.Mcayb.Arguments.{Handler, argument, on_argument, with_argument, match_url}

module _ {V : Type 0} (env : Env V) (b : Bot V) where
  on_argument-Evolves :
      (f : Text → Handler V) (found : Option Text)
      → ((a : Text) → Evolves b.polls (f a b).1.polls)
      → Evolves b.polls (on_argument f found b).1.polls
  unfolding on_argument
  on_argument-Evolves f none k = stays b.polls
  on_argument-Evolves f (some a) k = k a

  with_argument-Evolves :
      (n : ℕ) (args : List Text) (f : Text → Handler V)
      → ((a : Text) → Evolves b.polls (f a b).1.polls)
      → Evolves b.polls (with_argument n args f b).1.polls
  unfolding with_argument
  with_argument-Evolves n args f k = on_argument-Evolves f (argument n args) k

  module _ (h : MenuHistory) where
    other_url-Evolves : Evolves b.polls (other_url env h b).1.polls
    unfolding other_url
    other_url-Evolves = Evolves-of_same (ground arith)

    match_url-Evolves :
        (url : Text) (arms : List (Text × Handler V))
        → All (λ (arm : Text × Handler V). Evolves b.polls (arm.1 b).1.polls) arms
        → Evolves b.polls (match_url url arms (other_url env h) b).1.polls
    unfolding match_url
    match_url-Evolves url [] l = other_url-Evolves
    match_url-Evolves url ((name, arm) ∷ arms) l = elim (Bool-cases (text_eq url name)) [
      | inl e ↦ rw e l.0
      | inr e ↦ rw e (match_url-Evolves url arms l.1)
    ]

    mods_page-Evolves :
        (server : Text) (number : Option ℕ)
        → Evolves b.polls (mods_page env h server number b).1.polls
    unfolding mods_page mod_menu
    mods_page-Evolves server none = stays b.polls
    mods_page-Evolves server (some n) = stays b.polls

    page_press-Evolves : Evolves b.polls (page_press env h b).1.polls
    unfolding page_press page_arms dashboard_menu server_menu install_mod_menu single_mod_menu
    page_press-Evolves =
        let args = h.current.arguments in
        match_url-Evolves h.current.url (page_arms env h) (
          stays b.polls,
          (
            with_argument-Evolves 0 args _ λ server. stays b.polls,
            (
              with_argument-Evolves 0 args _
                  λ channel. with_argument-Evolves 0 args _ λ id. stays b.polls,
              (
                with_argument-Evolves 0 args _ λ server.
                    with_argument-Evolves 1 args _
                      λ number. mods_page-Evolves server (env.parse_u64 number),
                (
                  with_argument-Evolves 0 args _
                      λ server. with_argument-Evolves 1 args _ λ mod_id. stays b.polls,
                  tt,
                ),
              ),
            ),
          ),
        )

    start_download-polls :
        (server : Text) (channel : ℕ) (found : Option Fetched) (c : Bot V)
        → (start_download env h server channel found c).1.polls ≡ c.polls
    unfolding start_download changed_message
    start_download-polls server channel found c = ground arith

    install_press-Evolves :
        (comp : ℕ × ℕ) (server channel_id msg_id : Text)
        → Evolves b.polls (install_press env h comp server channel_id msg_id b).1.polls
    unfolding install_press
    install_press-Evolves comp server channel_id msg_id =
        elim (Option-cases (env.decode_id channel_id)) [
          | inl e ↦ rw (install_press, e) (stays b.polls)
          | inr (channel, e) ↦ elim (Option-cases (env.decode_id msg_id)) [
            | inl f ↦ rw (install_press, e, f) (stays b.polls)
            | inr (id, f) ↦
                let (found, c) = get_message env channel id b in
                let started =
                  start_download-polls server channel found (note (deleted comp.0 comp.1) c).1 in
                rw (install_press, e, f) (Evolves-of_same (ground (arith, started)))
          ]
        ]

    uninstall_known-Evolves :
        (server : Text) (r : Reply V) (c : Bot V)
        → Evolves c.polls (uninstall_known env h server r c).1.polls
    unfolding uninstall_known key_of
    uninstall_known-Evolves server (response (Response.mod_found info)) c =
        create_poll-Evolves env (mod_poll server info.mod_id) (remove server info) c refl
    uninstall_known-Evolves server (response _) c = stays c.polls
    uninstall_known-Evolves server (failed _) c = stays c.polls

    uninstall_press-Evolves :
        (server mod_id : Text) → Evolves b.polls (uninstall_press env h server mod_id b).1.polls
    unfolding uninstall_press
    uninstall_press-Evolves server mod_id =
        let (r, c) = send_command env (server_command server (ServerCommand.query_mod mod_id)) b in
        uninstall_known-Evolves server r c

    action_press-Evolves : (comp : ℕ × ℕ) → Evolves b.polls (action_press env h comp b).1.polls
    unfolding action_press action_arms simple_action form
    action_press-Evolves comp =
        let args = h.current.arguments in
        match_url-Evolves h.current.url (action_arms env h comp) (
          with_argument-Evolves 0 args _ λ server. stays b.polls,
          (
            with_argument-Evolves 0 args _ λ server. stays b.polls,
            (
              with_argument-Evolves 0 args _ λ server. stays b.polls,
              (
                with_argument-Evolves 0 args _ λ server. stays b.polls,
                (
                  with_argument-Evolves 0 args _ λ server. stays b.polls,
                  (
                    with_argument-Evolves 0 args _ λ server. stays b.polls,
                    (
                      with_argument-Evolves 0 args _ λ server.
                          with_argument-Evolves 1 args _ λ channel_id.
                            with_argument-Evolves 2 args _
                              λ msg_id. install_press-Evolves comp server channel_id msg_id,
                      (
                        with_argument-Evolves 0 args _ λ server.
                            with_argument-Evolves 1 args _
                              λ mod_id. uninstall_press-Evolves server mod_id,
                        (with_argument-Evolves 0 args _ λ server. stays b.polls, tt),
                      ),
                    ),
                  ),
                ),
              ),
            ),
          ),
        )

    press_of-Evolves :
        (kind : MenuUrlKind) (comp : ℕ × ℕ) → Evolves b.polls (press_of env h kind comp b).1.polls
    unfolding press_of
    press_of-Evolves page comp = page_press-Evolves
    press_of-Evolves action comp = action_press-Evolves comp

    pub press-Evolves : (comp : ℕ × ℕ) → Evolves b.polls (press env h comp b).1.polls
    unfolding press
    press-Evolves comp = press_of-Evolves h.current.kind comp
