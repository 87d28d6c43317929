-- ===== src/SvManage/ClientLoop.antt =====
-- sv_manage/src/client_loop.rs with ctxt.rs: the answer to the one command of a
-- client that is logged in. The methods of `Server` that it calls are in server_loop.rs.
pub mod Guards
use mind_craft.Base.{
  ℕ, Text, codes, text_eq, Assoc, lookup, insert, find, map, Bool, true, false, not, ◌&&◌, ◌==◌,
  Option, none, some, List, [], ◌∷◌, Result, ok, err, panic, ok_or, Error, if◌then◌else◌,
}
use mind_craft.Yapper.Types.{
  Status, idle, running, ServerStatus, Notification, NetCommand, list_servers, server_command,
  ServerCommand, Response, unknown_server, invalid_state,
}
use mind_craft.SvManage.World.{Exec, pure, lift, gets, modify, match_option, ◌>>=◌, ◌>>◌}
use mind_craft.SvManage.Notifs.{Queues, get_notifs}
use mind_craft.SvManage.Status.{status_eq}
use mind_craft.SvManage.Commands.{Command}
use mind_craft.SvManage.Link.{Handled, Sent, no_answer, received, Link, send}
use mind_craft.SvManage.Accounts.{SvManageConf, Answer, accepted, refused, with_running, path_of}

-- One server of the account: what the client loop and the thread share, and the channels.
pub record Server (V T : Type 0) : Type 0 where
  pub name : Text
  pub should_run : Bool
  pub reboot_queued : Bool
  pub status : Status
  pub link : Link (Command V) (Response V) T

-- `Ctxt`, with the servers of the account that is logged in, and the queues of notifications.
pub record Ctxt (V T : Type 0) : Type 0 where
  pub config : SvManageConf
  pub servers : List (Server V T)
  pub notifs : Queues

-- The first server of that name is changed.
unfoldable pub update_server :
    {V T : Type 0} → Text → (Server V T → Server V T) → List (Server V T) → List (Server V T)
update_server s f [] = []
update_server s f (x ∷ xs) = if text_eq x.name s then f x ∷ xs else x ∷ update_server s f xs

unfoldable pub find_server : {V T : Type 0} → Text → List (Server V T) → Option (Server V T)
find_server s xs = find (λ x. text_eq x.name s) xs

module _ {V T : Type 0} (handle : Command V → T → Handled (Response V) T) (rounds : ℕ)
    (account : Text) where
  -- `Server::start`, `Server::stop` and the flag of `reboot`: a missing account or server panics.
  unfoldable pub set_running : Bool → Text → Exec (Ctxt V T) (Unit {0})
  unfolding with_running update_server
  set_running b s = do
    modify
        (λ c. record c { servers = update_server s (λ x. record x { should_run = b }) c.servers })
    conf ← gets (λ c. with_running account s b c.config)
    match_option conf (lift panic) λ conf'. modify (λ c. record c { config = conf' })

  unfoldable pub reboot_server : Text → Exec (Ctxt V T) (Unit {0})
  reboot_server s = do
    set_running true s
    modify (λ c. record c {
      servers = update_server s (λ x. record x { reboot_queued = true }) c.servers;
    })

  -- `server.send(cmd, 5 seconds)`, where a refusal and a timeout are errors for the client too.
  unfoldable pub ask : Text → Server V T → Command V → Exec (Ctxt V T) (Answer (Response V))
  ask s server cmd = do
    let (answer, link) = send handle cmd rounds server.link
    modify (λ c. record c { servers = update_server s (λ x. record x { link = link }) c.servers })
    pure (elim answer [
      | Sent.refused ↦ refused "Failed to send command" Response.err
      | no_answer ↦ refused "Failed to send command" Response.err
      | received r ↦ accepted r
    ])

  unfoldable pub ask_in :
      Status → Text → Server V T → Command V → Exec (Ctxt V T) (Answer (Response V))
  ask_in needed s server cmd =
      if not (status_eq server.status needed)
      then pure (refused "Wrong status" invalid_state)
      else ask s server cmd

  unfoldable pub status_of : Server V T → Exec (Ctxt V T) ServerStatus
  status_of server = do
    found ← gets (λ c. path_of account server.name c.config)
    match_option found (lift panic)
        λ path. pure (record { name = server.name; path = path; status = server.status })

  unfoldable pub statuses : List (Server V T) → Exec (Ctxt V T) (List ServerStatus)
  statuses [] = pure []
  statuses (x ∷ xs) = do st ← status_of x; sts ← statuses xs; pure (st ∷ sts)

  unfoldable pub dispatch_server :
      Text → Server V T → ServerCommand V → Exec (Ctxt V T) (Answer (Response V))
  dispatch_server s server ServerCommand.start = do set_running true s; pure (accepted Response.ok)
  dispatch_server s server ServerCommand.stop = do set_running false s; pure (accepted Response.ok)
  dispatch_server s server ServerCommand.status = do
    st ← status_of server
    pure (accepted (Response.status st))
  dispatch_server s server ServerCommand.reboot = do reboot_server s; pure (accepted Response.ok)
  dispatch_server s server (ServerCommand.console cmd) =
      ask_in running s server (Command.console cmd)
  dispatch_server s server ServerCommand.backup = ask_in idle s server Command.backup
  dispatch_server s server ServerCommand.restore = ask_in idle s server Command.restore
  dispatch_server s server (ServerCommand.list_mods n p) = ask s server (Command.list_mods n p)
  dispatch_server s server (ServerCommand.install_mod p f) = ask s server (Command.install_mod p f)
  dispatch_server s server (ServerCommand.uninstall_mod i) = ask s server (Command.uninstall_mod i)
  dispatch_server s server (ServerCommand.update_mod p f) = ask s server (Command.update_mod p f)
  dispatch_server s server (ServerCommand.query_mod i) = ask s server (Command.query_mod i)
  dispatch_server s server ServerCommand.generate_mods_zip = ask s server Command.generate_mods_zip
  dispatch_server s server (ServerCommand.resolve_deps m ms) =
      ask s server (Command.resolve_deps m ms)

  unfoldable pub take_notifs : Exec (Ctxt V T) (List Notification)
  unfolding get_notifs
  take_notifs c =
      let (notifs, q) = get_notifs account c.notifs in (ok notifs, record c { notifs = q })

  -- The closure for the one command of a client.
  unfoldable pub dispatch : NetCommand V → Exec (Ctxt V T) (Answer (Response V))
  dispatch list_servers = do
    servers ← gets (λ c. c.servers)
    sts ← statuses servers
    pure (accepted (Response.list sts))
  dispatch (server_command s cmd) = do
    found ← gets (λ c. find_server s c.servers)
    match_option found (pure (refused "Unknown server" unknown_server))
        λ server. dispatch_server s server cmd
  dispatch NetCommand.notifications = do
    notifs ← take_notifs
    pure (accepted (Response.notifications notifs))
