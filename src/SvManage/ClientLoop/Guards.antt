-- ===== src/SvManage/ClientLoop/Guards.antt =====
-- sv_manage/src/client_loop.rs: what a command of a client does to the servers of its account.
use mind_craft.Base.{
  ℕ, Text, text_eq, text_eq_iff, true, false, Option, none, some, List, [], ◌∷◌, ◌≡◌, refl, ◌∙◌,
  arith, ok, if◌then◌else◌,
}
use mind_craft.Yapper.Types.{
  Status, idle, running, server_command, ServerCommand, Response, unknown_server, invalid_state,
}
use mind_craft.SvManage.World.{◌>>=◌}
use mind_craft.SvManage.Status.{status_eq}
use mind_craft.SvManage.Commands.{Command}
use mind_craft.SvManage.Accounts.{SvManageConf, accepted, refused, with_running}
use mind_craft.SvManage.Link.{Handled}
use mind_craft.SvManage.ClientLoop.{
  Server, Ctxt, update_server, find_server, set_running, ask_in, dispatch_server, dispatch,
}

-- The status that a command asks for.
unfoldable pub needs : {V : Type 0} → ServerCommand V → Option Status
needs (ServerCommand.console _) = some running
needs ServerCommand.backup = some idle
needs ServerCommand.restore = some idle
needs _ = none

-- Another server keeps everything, and the first server of the name is changed.
pub find-update_server :
    {V T : Type 0}
    → (s t : Text) (f : Server V T → Server V T) (xs : List (Server V T))
    → ((x : Server V T) → (f x).name ≡ x.name)
    → find_server t (update_server s f xs) ≡ (
        if text_eq s t
        then elim (find_server t xs) [ none ↦ none | some x ↦ some (f x) ]
        else find_server t xs)
unfolding find_server update_server
find-update_server s t f [] keeps = ground arith
find-update_server s t f (x ∷ xs) keeps = ground (
  arith,
  keeps x,
  text_eq_iff x.name s,
  text_eq_iff x.name t,
  text_eq_iff s t,
  find-update_server s t f xs keeps,
)

module _ {V T : Type 0} (handle : Command V → T → Handled (Response V) T) (rounds : ℕ)
    (account : Text) where
  guarded-server :
      (s : Text) (server : Server V T) (cmd : ServerCommand V) (st : Status) (c : Ctxt V T)
      → needs cmd ≡ some st
      → status_eq server.status st ≡ false
      → dispatch_server handle rounds account s server cmd c
        ≡ (ok (refused "Wrong status" invalid_state), c)
  unfolding dispatch_server ask_in needs ◌>>=◌
  guarded-server s server (ServerCommand.console _) st c n h = ground (arith, n, h)
  guarded-server s server ServerCommand.backup st c n h = ground (arith, n, h)
  guarded-server s server ServerCommand.restore st c n h = ground (arith, n, h)
  guarded-server s server cmd st c n h = absurd (ground (arith, n))

  -- A command that asks for a status is refused while the server has another one, and changes nothing.
  dispatch_guarded :
      (s : Text) (server : Server V T) (cmd : ServerCommand V) (st : Status) (c : Ctxt V T)
      → find_server s c.servers ≡ some server
      → needs cmd ≡ some st
      → status_eq server.status st ≡ false
      → dispatch handle rounds account (server_command s cmd) c
        ≡ (ok (refused "Wrong status" invalid_state), c)
  unfolding dispatch ◌>>=◌
  dispatch_guarded s server cmd st c here n h = rw here (guarded-server s server cmd st c n h)

  -- A command for a server that the account does not have is refused, and changes nothing.
  dispatch_unknown :
      (s : Text) (cmd : ServerCommand V) (c : Ctxt V T)
      → find_server s c.servers ≡ none
      → dispatch handle rounds account (server_command s cmd) c
        ≡ (ok (refused "Unknown server" unknown_server), c)
  unfolding dispatch ◌>>=◌
  dispatch_unknown s cmd c gone = rw gone refl

  -- A start is answered with `Ok` where the configuration has the server, which then runs in the
  -- configuration and is asked to run; the other servers stay as they were.
  dispatch-start :
      (s t : Text) (server : Server V T) (c : Ctxt V T) (conf : SvManageConf)
      → find_server s c.servers ≡ some server
      → with_running account s true c.config ≡ some conf
      → let (r, c') = dispatch handle rounds account (server_command s ServerCommand.start) c in
        (r ≡ ok (accepted Response.ok))
        × (c'.config ≡ conf)
        × (find_server t c'.servers ≡ (
            if text_eq s t
            then some (record server { should_run = true })
            else find_server t c.servers))
  unfolding dispatch dispatch_server set_running ◌>>=◌
  dispatch-start s t server c conf here there =
      rw (here, there)
        (
          refl,
          refl,
          find-update_server s t (λ x. record x { should_run = true }) c.servers (λ x. refl)
              ∙ ground (arith, text_eq_iff s t, here),
        )
