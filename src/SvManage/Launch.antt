-- ===== src/SvManage/Launch.antt =====
-- sv_manage/src/server_loop.rs: `start_server`, `cleanup` and the loop of `server_main` around them, as
-- rounds. In each round the rest of the system acts first: clients set the flags and send a command,
-- the child exits, RCON answers, time passes.
pub mod Cleanup
pub mod Keeps
pub mod Rounds
pub mod Answers
use mind_craft.Base.{
  ℕ, zero, suc, ◌+◌, ◌-◌, ◌*◌, Text, codes, text_eq, trim, is_empty, join, lookup, Assoc, Bool,
  true, false, not, ◌&&◌, ◌||◌, leb, ltb, ◌==◌, Option, none, some, List, [], ◌∷◌, ◌++◌, Result, ok,
  err, panic, diverge, ok_or, unwrap_or, if◌then◌else◌,
}
use mind_craft.Yapper.Types.{Response, idle, starting, running, stopping}
use mind_craft.Yapper.ModParser.Parse.{Bytes}
use mind_craft.SvManage.World.{
  World, Host, Exec, pure, fail, lift, gets, modify, attempt, with_context, match_option, ◌>>=◌,
  ◌>>◌,
}
use mind_craft.SvManage.Files.{syscall, next_fault, read_file}
use mind_craft.SvManage.Status.{update_status}
use mind_craft.SvManage.Install.{get_path}
use mind_craft.SvManage.Commands.{Command, Rcon, process_command_idle, process_command_inloop}
use mind_craft.SvManage.Deferred.{Services, run_deferred}

-- One look of `cleanup` at the child: whether it has exited, and the time of the clock in seconds.
pub record Tick : Type 0 where
  pub exited : Bool
  pub now : ℕ

-- What happens before and in a round; `start` and `last_stop` are the times that `cleanup` begins with.
pub record Beat (V : Type 0) : Type 0 where
  pub should_run : Bool
  pub reboot : Bool
  pub command : Option (Command V)
  pub rcon : Option Rcon
  pub exited : Bool
  pub start : ℕ
  pub last_stop : ℕ
  pub ticks : List Tick

pub record RconConfig : Type 0 where
  pub port : ℕ
  pub password : Text

-- Where the thread is: in the loop of a stopped server, at the head of the loop of `start_server`, or
-- in its inner loop, with the RCON client if there is one.
pub data Phase : Type 0 where
  waiting : Phase
  launching : Phase
  up : Option RconConfig → Option Rcon → Phase

-- `u16::from_str`.
digits : ℕ → Text → Option ℕ
digits n [] = some n
digits n (c ∷ s) = if leb b'0' c && leb c b'9' then digits (10 * n + (c - b'0')) s else none

below_u16 : Option ℕ → Option ℕ
below_u16 none = none
below_u16 (some n) = if ltb n 65536 then some n else none

unfoldable pub parse_u16 : Text → Option ℕ
unfolding digits below_u16
parse_u16 [] = none
parse_u16 (c ∷ s) =
    if c == b'+' && not (is_empty s) then below_u16 (digits 0 s) else below_u16 (digits 0 (c ∷ s))

checked_config : Option ℕ → Option Text → Option RconConfig
unfolding trim
checked_config (some port) (some password) =
    if not (is_empty (trim password))
    then some (record { port = port; password = password })
    else none
checked_config _ _ = none

port_of : Option Text → Option ℕ
unfolding trim parse_u16
port_of none = none
port_of (some t) = parse_u16 (trim t)

unfoldable pub rcon_config : Assoc Text → Option RconConfig
unfolding lookup text_eq trim checked_config port_of
rcon_config props = elim (lookup (codes "enable-rcon") props) [
  | none ↦ none
  | some enable_rcon ↦
      if text_eq (trim enable_rcon) (codes "true")
      then checked_config (port_of (lookup (codes "rcon.port") props))
          (lookup (codes "rcon.password") props)
      else none
]

module _ {V : Type 0} (host : Host V) where
  -- `now.duration_since(earlier).unwrap()`, a panic where the clock was set back.
  unfoldable pub duration_since : ℕ → ℕ → Exec (World V) ℕ
  duration_since now earlier = if ltb now earlier then lift panic else pure (now - earlier)

  -- The loop of `cleanup`, from its start and the time of the last "stop"; what fails or takes more than
  -- five minutes is an error.
  unfoldable pub await_exit : ℕ → ℕ → List Tick → Exec (World V) (Unit {0})
  unfolding duration_since
  await_exit start last_stop [] = lift diverge
  await_exit start last_stop (t ∷ ts) = do
    syscall "try_wait"
    if t.exited then syscall "wait" else (do
      waited ← duration_since t.now start
      if ltb 300 waited then fail "Timeout reached while stopping" else (do
        quiet ← duration_since t.now last_stop
        if ltb 5 quiet
            then (do
              syscall "write_all"
              modify (λ w. record w { stdin = w.stdin ++ codes "stop\n" ∷ [] })
              syscall "flush"
              await_exit start t.now ts)
            else await_exit start last_stop ts))

  -- After an error the child is killed, which shows nowhere.
  unfoldable pub killed : Result (Unit {0}) → Exec (World V) (Unit {0})
  killed (ok _) = pure tt
  killed (err _) = pure tt
  killed panic = lift panic
  killed diverge = lift diverge

  unfoldable pub cleanup : Bool → ℕ → ℕ → List Tick → Exec (World V) (Unit {0})
  cleanup exited start last_stop ticks = do
    result ←
        attempt
          (do syscall "try_wait"; if exited then pure tt else await_exit start last_stop ticks)
    killed result

module _ {V : Type 0} (host : Host V) (svc : Services)
    (properties : Bytes → Option (Assoc Text)) where
  -- The flags as the clients leave them.
  unfoldable pub listen : Beat V → Exec (World V) (Unit {0})
  listen beat = modify (λ w. record w {
    shared = record w.shared {
      should_run = beat.should_run;
      reboot_queued = w.shared.reboot_queued || beat.reboot;
    };
  })

  unfoldable pub load_properties : Exec (World V) (Assoc Text)
  load_properties = do
    base ← get_path host
    content ← read_file (join base (codes "server.properties"))
    bytes ← lift (ok_or content "Failed to open file")
    lift (ok_or (properties bytes) "Failed to parse file")

  unfoldable pub config_of : Result (Assoc Text) → Exec (World V) (Option RconConfig)
  config_of (ok props) = pure (rcon_config props)
  config_of (err _) = pure none
  config_of panic = lift panic
  config_of diverge = lift diverge

  -- A round of the loop of `server_main` for a stopped server: the answer goes to the client.
  unfoldable pub answered :
      Result (Response V × Command V) → Exec (World V) (Option (Response V) × Command V)
  answered (ok (r, deferred)) = pure (some r, deferred)
  answered (err _) = pure (some Response.err, Command.do_nothing)
  answered panic = lift panic
  answered diverge = lift diverge

  unfoldable pub idle_round : Option (Command V) → Exec (World V) (Option (Response V) × Phase)
  idle_round none = pure (none, waiting)
  idle_round (some command) = do
    result ← attempt (process_command_idle host command)
    (answer, deferred) ← answered result
    run_deferred host svc deferred
    pure (answer, waiting)

  -- The spawn of the child, where there is a path; an error of the path ends `start_server`.
  unfoldable pub spawned : Option RconConfig → Result Text → Exec (World V) Phase
  spawned config (ok _) = do
    failed ← next_fault
    if failed
        then pure launching
        else (do match_option config (update_status running) (λ _. pure tt); pure (up config none))
  spawned config (err _) = pure waiting
  spawned config panic = lift panic
  spawned config diverge = lift diverge

  unfoldable pub spawn : Option RconConfig → Exec (World V) Phase
  spawn config = do result ← attempt (get_path host); spawned config result

  -- A round of the outer loop of `start_server`.
  unfoldable pub launch_round : Exec (World V) Phase
  launch_round = do
    go ← gets (λ w. w.shared.should_run)
    if not go then (do update_status idle; pure waiting) else (do
      modify (λ w. record w { shared = record w.shared { reboot_queued = false } })
      update_status starting
      props ← attempt load_properties
      config ← config_of props
      spawn config)

  unfoldable pub connected :
      Option RconConfig → Option Rcon → Option Rcon → Exec (World V) (Option Rcon)
  connected (some config) none (some client) = do update_status running; pure (some client)
  connected _ client _ = pure client

  -- The way out of the inner loop.
  unfoldable pub leave : Beat V → Exec (World V) Phase
  leave beat = do
    update_status stopping
    cleanup host beat.exited beat.start beat.last_stop beat.ticks
    pure launching

  -- The answer to the command of the round, if there is one.
  unfoldable pub run_command :
      Option Rcon → Option (Command V) → Exec (World V) (Option (Response V))
  run_command client none = pure none
  run_command client (some command) = do
    r ← process_command_inloop host client command
    pure (some r)

  -- The end of a round: an error leaves the loop with no answer, and an exited child leaves it too.
  unfoldable pub close_round :
      Beat V
      → Option RconConfig
      → Option Rcon
      → Result (Option (Response V))
      → Exec (World V) (Option (Response V) × Phase)
  close_round beat config client (ok answer) = do
    lost ← next_fault
    if lost || beat.exited
        then (do phase ← leave beat; pure (answer, phase))
        else pure (answer, up config client)
  close_round beat config client (err _) = do phase ← leave beat; pure (none, phase)
  close_round beat config client panic = lift panic
  close_round beat config client diverge = lift diverge

  -- A round of the inner loop of `start_server`.
  unfoldable pub serve_round :
      Beat V → Option RconConfig → Option Rcon → Exec (World V) (Option (Response V) × Phase)
  serve_round beat config old = do
    go ← gets (λ w. w.shared.should_run)
    if not go then (do phase ← leave beat; pure (none, phase)) else (do
      client ← connected config old beat.rcon
      reboot ← gets (λ w. w.shared.reboot_queued)
      modify (λ w. record w { shared = record w.shared { reboot_queued = false } })
      if reboot then (do phase ← leave beat; pure (none, phase)) else (do
        result ← attempt (run_command client beat.command)
        close_round beat config client result))

  -- One round, from one phase to the next.
  unfoldable pub round : Beat V → Phase → Exec (World V) (Option (Response V) × Phase)
  round beat waiting = do
    listen beat
    go ← gets (λ w. w.shared.should_run)
    if go
        then (do
          result ← attempt (get_path host)
          pure (none, elim result [ ok _ ↦ launching | _ ↦ waiting ]))
        else idle_round beat.command
  round beat launching = do listen beat; phase ← launch_round; pure (none, phase)
  round beat (up config client) = do listen beat; serve_round beat config client

  -- `server_main`, as far as the beats go.
  unfoldable pub server_main :
      List (Beat V) → Phase → Exec (World V) (List (Option (Response V)) × Phase)
  server_main [] phase = pure ([], phase)
  server_main (b ∷ bs) phase = do
    (answer, next) ← round b phase
    (answers, last) ← server_main bs next
    pure (answer ∷ answers, last)
