-- ===== src/SvManage/Launch/Answers.antt =====
-- sv_manage/src/server_loop.rs: which commands get an answer.
use mind_craft.Base.{
  ℕ, Text, Assoc, true, Option, none, some, is_some, List, ◌≡◌, refl, Result, ok, err, panic,
  diverge,
}
use mind_craft.Yapper.Types.{Response}
use mind_craft.SvManage.World.{World, Host, ◌>>=◌}
use mind_craft.SvManage.World.Ends.{
  Ends, Ends-bind, Ends-bind_value, Ends-pure, Ends-panic, Ends-diverge,
}
use mind_craft.SvManage.Commands.{Command}
use mind_craft.SvManage.Deferred.{Services}
use mind_craft.SvManage.Launch.{Phase, launching, answered, idle_round}

module _ {V : Type 0} (host : Host V) (svc : Services)
    (properties : List ℕ → Option (Assoc Text)) where
  answered-some :
      (r : Result (Response V × Command V))
      → Ends (λ x _. is_some x.0 ≡ true) (answered host svc properties r)
  unfolding answered
  answered-some (ok (r, deferred)) = Ends-pure _ λ w. refl
  answered-some (err _) = Ends-pure _ λ w. refl
  answered-some panic = Ends-panic
  answered-some diverge = Ends-diverge

  idle_round-Ends :
      (command : Command V)
      → Ends (λ x _. is_some x.0 ≡ true) (idle_round host svc properties (some command))
  unfolding idle_round
  idle_round-Ends command = Ends-bind _ _ λ result.
      Ends-bind_value {R = λ x. is_some x.0 ≡ true} _ _ (answered-some result)
        λ (answer, deferred) h. Ends-bind _ _ λ _. Ends-pure _ λ w. h

  -- A command that comes while the server is stopped gets an answer, if the round ends at all.
  idle_round-answer :
      (command : Command V) (w : World V) (answer : Option (Response V)) (phase : Phase)
      → (idle_round host svc properties (some command) w).0 ≡ ok (answer, phase)
      → is_some answer ≡ true
  idle_round-answer command w answer phase h = (idle_round-Ends command).at w (answer, phase) h

  -- What is left of a round that gave a command no answer.
  abbrev DownIfSilent : Option (Response V) × Phase → Type 0
  DownIfSilent x = x.0 ≡ none → x.1 ≡ launching
