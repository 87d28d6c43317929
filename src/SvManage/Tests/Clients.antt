-- ===== src/SvManage/Tests/Clients.antt =====
-- sv_manage: the theorems on clients and their servers at concrete inputs.
use mind_craft.Base.{
  ℕ, zero, suc, ◌+◌, ◌≡◌, refl, codes, false, none, some, [], ◌∷◌, Result, ok, err, panic, diverge,
}
use mind_craft.Yapper.Types.{Response, idle}
use mind_craft.SvManage.World.{World}
use mind_craft.SvManage.Commands.{Command, process_command_inloop}
use mind_craft.SvManage.Tests.Data.{host, world}
use mind_craft.SvManage.Link.{Handled, answered, unanswered, ended, refused, received, Link, send}
use mind_craft.SvManage.Link.Order.{Takes, send-Takes}
use mind_craft.SvManage.Accounts.{SvManageConf}
use mind_craft.SvManage.ClientLoop.{Server, Ctxt}

-- What the thread of a running server does with a command: an error of the handler leaves it without an
-- answer, and a panic ends the thread.
abbrev after_command : Result (Response ℕ) → World ℕ → Handled (Response ℕ) (World ℕ)
after_command (ok r) w = answered r w
after_command (err _) w = unanswered w
after_command panic w = ended
after_command diverge w = ended

abbrev in_loop : Command ℕ → World ℕ → Handled (Response ℕ) (World ℕ)
in_loop cmd w = let (r, w') = process_command_inloop host none cmd w in after_command r w'

-- One command was posted and its sender gave up.
abbrev late : Link (Command ℕ) (Response ℕ) (World ℕ)
late = record { commands = Command.backup ∷ []; responses = []; thread = some world }

send-Takes_example :
    Takes in_loop
      (Command.uninstall_mod (codes "b"))
      late
      (send in_loop (Command.uninstall_mod (codes "b")) 2 late)
send-Takes_example = send-Takes in_loop (Command.uninstall_mod (codes "b")) 2 late

-- A thread that gives no answer to 0, ends at 1, and answers all else.
abbrev picky : ℕ → ℕ → Handled ℕ ℕ
picky zero n = unanswered n
picky (suc zero) n = ended
picky c n = answered c (n + 1)

abbrev waiting : Link ℕ ℕ ℕ
waiting = record { commands = 0 ∷ 7 ∷ 1 ∷ 9 ∷ []; responses = []; thread = some 0 }

taken_in_order : (send picky 8 2 waiting).0 ≡ received 7
unfolding send
taken_in_order = refl

gone_thread : (send picky 8 2 (send picky 8 3 waiting).1).0 ≡ refused
unfolding send
gone_thread = refl

abbrev conf : SvManageConf
conf = record {
  port = 1;
  accounts =
      (
        codes "me",
        record {
          password = 1 ∷ 2 ∷ [];
          servers = (codes "s", record { running = false; path = codes "/s" }) ∷ [];
        },
      )
      ∷ [];
}

abbrev stopped : Server ℕ ℕ
stopped = record {
  name = codes "s";
  should_run = false;
  reboot_queued = false;
  status = idle;
  link = record { commands = []; responses = []; thread = some 0 };
}

abbrev ctxt : Ctxt ℕ ℕ
ctxt = record { config = conf; servers = stopped ∷ []; notifs = [] }
