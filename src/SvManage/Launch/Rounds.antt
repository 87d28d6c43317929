-- ===== src/SvManage/Launch/Rounds.antt =====
-- sv_manage/src/server_loop.rs: the thread of a server over its rounds.
use mind_craft.Base.{
  ℕ, Text, Assoc, not, ◌||◌, Option, none, some, List, [], ◌∷◌, Result, ok, err, panic, diverge,
}
use mind_craft.Yapper.Types.{Status, Response}
use mind_craft.SvManage.World.{World, Host}
use mind_craft.SvManage.World.Keeps.{
  Keeps, Keeps-bind, Keeps-if, Keeps-pure, Keeps-gets, Keeps-lift, Keeps-attempt,
  Keeps-match_option,
}
use mind_craft.SvManage.Files.Keeps.{next_fault-Keeps, read_file-Keeps}
use mind_craft.SvManage.Status.{update_status}
use mind_craft.SvManage.Status.Trail.{IsLinked, update_status-IsLinked}
use mind_craft.SvManage.Commands.{Command, Rcon}
use mind_craft.SvManage.Commands.Keeps.{
  IsLinked-open, process_command_idle-IsLinked, process_command_inloop-IsLinked,
}
use mind_craft.SvManage.Deferred.{Services}
use mind_craft.SvManage.Deferred.Keeps.{run_deferred-IsLinked}
use mind_craft.SvManage.Launch.{
  Beat, RconConfig, Phase, waiting, launching, up, listen, load_properties, config_of, answered,
  idle_round, spawned, spawn, launch_round, connected, leave, run_command, close_round, serve_round,
  round, server_main,
}
use mind_craft.SvManage.Launch.Keeps.{modify-Keeps, get_path-Keeps, cleanup-Keeps}

module _ {V : Type 0} (s : Status) (host : Host V) (svc : Services)
    (properties : List ℕ → Option (Assoc Text)) where
  listen-Keeps : (beat : Beat V) → Keeps (IsLinked s) (listen host svc properties beat)
  unfolding listen
  listen-Keeps beat = modify-Keeps s host _ λ w h. record { trail = h.trail }

  idle_round-Keeps :
      (command : Option (Command V)) → Keeps (IsLinked s) (idle_round host svc properties command)
  unfolding idle_round answered
  idle_round-Keeps none = Keeps-pure _
  idle_round-Keeps (some command) =
      Keeps-bind _ _
        (Keeps-attempt _ (record { at = process_command_idle-IsLinked s host command }))
        λ result. Keeps-bind _ _ (answered-Keeps result) λ (answer, deferred).
          Keeps-bind _ _ (record { at = run_deferred-IsLinked s host svc deferred })
            λ _. Keeps-pure _
    where
      answered-Keeps :
          (r : Result (Response V × Command V))
          → Keeps (IsLinked s) (answered host svc properties r)
      answered-Keeps (ok _) = Keeps-pure _
      answered-Keeps (err _) = Keeps-pure _
      answered-Keeps panic = Keeps-lift _
      answered-Keeps diverge = Keeps-lift _

  status-Keeps : (new : Status) → Keeps (IsLinked {V = V} s) (update_status new)
  status-Keeps new = update_status-IsLinked s new

  config_of-Keeps : (r : Result (Assoc Text)) → Keeps (IsLinked s) (config_of host svc properties r)
  unfolding config_of
  config_of-Keeps (ok _) = Keeps-pure _
  config_of-Keeps (err _) = Keeps-pure _
  config_of-Keeps panic = Keeps-lift _
  config_of-Keeps diverge = Keeps-lift _

  load_properties-Keeps : Keeps (IsLinked s) (load_properties host svc properties)
  unfolding load_properties
  load_properties-Keeps = Keeps-bind _ _ (get_path-Keeps s host) λ base.
      Keeps-bind _ _ (read_file-Keeps (IsLinked-open s).faults _)
        λ content. Keeps-bind _ _ (Keeps-lift _) λ bytes. Keeps-lift _

  spawned-Keeps :
      (config : Option RconConfig) (r : Result Text)
      → Keeps (IsLinked s) (spawned host svc properties config r)
  unfolding spawned
  spawned-Keeps config (ok _) = Keeps-bind _ _ (next_fault-Keeps (IsLinked-open s).faults) λ failed.
      Keeps-if failed _ _ (Keeps-pure _) (
        Keeps-bind _ _ (Keeps-match_option config _ _ (status-Keeps _) λ _. Keeps-pure _)
          λ _. Keeps-pure _)
  spawned-Keeps config (err _) = Keeps-pure _
  spawned-Keeps config panic = Keeps-lift _
  spawned-Keeps config diverge = Keeps-lift _

  launch_round-Keeps : Keeps (IsLinked s) (launch_round host svc properties)
  unfolding launch_round spawn
  launch_round-Keeps = Keeps-bind _ _ (Keeps-gets _) λ go.
      Keeps-if (not go) _ _ (Keeps-bind _ _ (status-Keeps _) λ _. Keeps-pure _) (
        Keeps-bind _ _ (modify-Keeps s host _ λ w h. record { trail = h.trail }) λ _.
          Keeps-bind _ _ (status-Keeps _) λ _.
            Keeps-bind _ _ (Keeps-attempt _ load_properties-Keeps) λ props.
              Keeps-bind _ _ (config_of-Keeps props) λ config.
                Keeps-bind _ _ (Keeps-attempt _ (get_path-Keeps s host))
                  λ result. spawned-Keeps config result)

  connected-Keeps :
      (config : Option RconConfig) (old new : Option Rcon)
      → Keeps (IsLinked s) (connected host svc properties config old new)
  unfolding connected
  connected-Keeps (some config) none (some client) =
      Keeps-bind _ _ (status-Keeps _) λ _. Keeps-pure _
  connected-Keeps _ client _ = Keeps-pure _

  leave-Keeps : (beat : Beat V) → Keeps (IsLinked s) (leave host svc properties beat)
  unfolding leave
  leave-Keeps beat = Keeps-bind _ _ (status-Keeps _) λ _.
      Keeps-bind _ _ (cleanup-Keeps s host beat.exited beat.start beat.last_stop beat.ticks)
        λ _. Keeps-pure _

  run_command-Keeps :
      (client : Option Rcon) (command : Option (Command V))
      → Keeps (IsLinked s) (run_command host svc properties client command)
  unfolding run_command
  run_command-Keeps client none = Keeps-pure _
  run_command-Keeps client (some command) =
      Keeps-bind _ _ (record { at = process_command_inloop-IsLinked s host client command })
        λ r. Keeps-pure _

  close_round-Keeps :
      (beat : Beat V) (config : Option RconConfig) (client : Option Rcon)
      (r : Result (Option (Response V)))
      → Keeps (IsLinked s) (close_round host svc properties beat config client r)
  unfolding close_round
  close_round-Keeps beat config client (ok answer) =
      Keeps-bind _ _ (next_fault-Keeps (IsLinked-open s).faults) λ lost.
        Keeps-if (lost || beat.exited) _ _ (Keeps-bind _ _ (leave-Keeps beat) λ phase. Keeps-pure _)
          (Keeps-pure _)
  close_round-Keeps beat config client (err _) =
      Keeps-bind _ _ (leave-Keeps beat) λ phase. Keeps-pure _
  close_round-Keeps beat config client panic = Keeps-lift _
  close_round-Keeps beat config client diverge = Keeps-lift _

  serve_round-Keeps :
      (beat : Beat V) (config : Option RconConfig) (old : Option Rcon)
      → Keeps (IsLinked s) (serve_round host svc properties beat config old)
  unfolding serve_round
  serve_round-Keeps beat config old = Keeps-bind _ _ (Keeps-gets _) λ go.
      Keeps-if (not go) _ _ (Keeps-bind _ _ (leave-Keeps beat) λ phase. Keeps-pure _) (
        Keeps-bind _ _ (connected-Keeps config old beat.rcon) λ client.
          Keeps-bind _ _ (Keeps-gets _) λ reboot.
            Keeps-bind _ _ (modify-Keeps s host _ λ w h. record { trail = h.trail }) λ _.
              Keeps-if reboot _ _ (Keeps-bind _ _ (leave-Keeps beat) λ phase. Keeps-pure _) (
                Keeps-bind _ _ (Keeps-attempt _ (run_command-Keeps client beat.command))
                  λ r. close_round-Keeps beat config client r))

  round-Keeps :
      (beat : Beat V) (phase : Phase) → Keeps (IsLinked s) (round host svc properties beat phase)
  unfolding round
  round-Keeps beat waiting = Keeps-bind _ _ (listen-Keeps beat) λ _.
      Keeps-bind _ _ (Keeps-gets _) λ go.
        Keeps-if go _ _
          (Keeps-bind _ _ (Keeps-attempt _ (get_path-Keeps s host)) λ result. Keeps-pure _)
          (idle_round-Keeps beat.command)
  round-Keeps beat launching =
      Keeps-bind _ _ (listen-Keeps beat)
        λ _. Keeps-bind _ _ launch_round-Keeps λ phase. Keeps-pure _
  round-Keeps beat (up config client) =
      Keeps-bind _ _ (listen-Keeps beat) λ _. serve_round-Keeps beat config client

  server_main-Keeps :
      (beats : List (Beat V)) (phase : Phase)
      → Keeps (IsLinked s) (server_main host svc properties beats phase)
  unfolding server_main
  server_main-Keeps [] phase = Keeps-pure _
  server_main-Keeps (b ∷ bs) phase =
      Keeps-bind _ _ (round-Keeps b phase)
        λ (answer, next). Keeps-bind _ _ (server_main-Keeps bs next) λ (answers, last). Keeps-pure _

  -- If the status notifications of the account lead from a status to the current one, then they still
  -- do after any rounds of the thread, with any commands, failures, reboots and exits of the server.
  pub server_main-IsLinked :
      (beats : List (Beat V)) (phase : Phase) (w : World V)
      → IsLinked s w
      → IsLinked s (server_main host svc properties beats phase w).1
  server_main-IsLinked beats phase w h = (server_main-Keeps beats phase).at w h
