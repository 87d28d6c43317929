-- ===== src/SvManage/Tests/Rounds.antt =====
-- sv_manage: the theorems on the rounds of a server at concrete inputs.
use mind_craft.Base.{
  true, arith, ℕ, Text, codes, text_eq, set_file_name, lookup, Assoc, false, Option, none, some,
  List, [], ◌∷◌, ◌≡◌, refl, ok,
}
use mind_craft.Yapper.Types.{Response, idle, running}
use mind_craft.SvManage.World.{Node, file, dir, World}
use mind_craft.SvManage.Status.Trail.{IsLinked, follow}
use mind_craft.SvManage.ListMods.{query_mod}
use mind_craft.SvManage.Install.{free_path, install_mod}
use mind_craft.SvManage.Commands.{Command}
use mind_craft.SvManage.Install.Files.{HasFile}
use mind_craft.SvManage.Install.Safety.{install_mod-HasFile}
use mind_craft.SvManage.Install.FreePath.{free_path_stuck}
use mind_craft.SvManage.Deferred.{Services}
use mind_craft.SvManage.Launch.{Tick, Beat, Phase, waiting, launching, cleanup, server_main}
use mind_craft.SvManage.Launch.Cleanup.{IsForward, cleanup-ok}
use mind_craft.SvManage.Launch.Rounds.{server_main-IsLinked}
use mind_craft.SvManage.Tests.Data.{host, world}

abbrev services : Services
services = record {
  get_size = λ _ _. some 0;
  zip_of = λ _. [];
  to_base64 = λ a s. a;
  post = λ _. ok (codes "u");
  parse_uuid = some;
  ip = codes "h";
}

abbrev no_properties : List ℕ → Option (Assoc Text)
no_properties _ = none

abbrev late_ticks : List Tick
late_ticks = record { exited = false; now = 1010 } ∷ record { exited = false; now = 1301 } ∷ []

late_ticks-IsForward : IsForward 1000 late_ticks
unfolding IsForward
late_ticks-IsForward = (omega arith, (omega arith, tt))

cleanup-ok_example : (cleanup host false 1000 1000 late_ticks world).0 ≡ ok tt
cleanup-ok_example =
    cleanup-ok host false 1000 1000 late_ticks world (omega arith) late_ticks-IsForward refl

abbrev starting_beat : Beat ℕ
starting_beat = record {
  should_run = true;
  reboot = false;
  command = none;
  rcon = none;
  exited = true;
  start = 1000;
  last_stop = 1000;
  ticks = [];
}

-- A server that is started, launched, and exits.
abbrev three_beats : List (Beat ℕ)
three_beats = starting_beat ∷ starting_beat ∷ starting_beat ∷ []

world-IsLinked : IsLinked idle world
unfolding follow lookup
world-IsLinked = record { trail = refl }

server_main-IsLinked_example :
    IsLinked idle (server_main host services no_properties three_beats waiting world).1
server_main-IsLinked_example =
    server_main-IsLinked idle host services no_properties three_beats waiting world world-IsLinked

abbrev running_world : World ℕ
running_world = record world {
  shared = record world.shared { should_run = true; status = running };
}

abbrev query_beat : Beat ℕ
query_beat = record starting_beat { command = some (Command.query_mod (codes "b")) }

abbrev no_answer : Option (Response ℕ)
no_answer = none

abbrev brought_down : Option (Response ℕ) × Phase
brought_down = (no_answer, launching)

abbrev taken : Assoc Node
taken = (codes "/m/a.jar", dir) ∷ (codes "/m/a.jar-2.jar", dir) ∷ []

free_path_stuck_example : free_path 4 (codes "a.jar") (codes "/m/a.jar") taken ≡ none
unfolding lookup text_eq set_file_name
free_path_stuck_example =
    free_path_stuck (codes "a.jar") taken 4 (codes "/m/a.jar") dir dir refl refl refl

abbrev mod_world : World ℕ
mod_world = record world {
  fs = (codes "/s/mods/a.jar", file (1 ∷ [])) ∷ (codes "/tmp/u", file (98 ∷ [])) ∷ world.fs;
}

mod_there : HasFile (codes "/s/mods/a.jar") (1 ∷ []) mod_world
unfolding lookup text_eq
mod_there = record { has = refl }

install_mod-HasFile_example :
    HasFile
      (codes "/s/mods/a.jar")
      (1 ∷ [])
      (install_mod host (codes "/tmp/u") (codes "a.jar") mod_world).1
unfolding text_eq
install_mod-HasFile_example =
    install_mod-HasFile host (codes "/s/mods/a.jar") (1 ∷ []) (codes "/tmp/u") (codes "a.jar")
      mod_world refl mod_there
