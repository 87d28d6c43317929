-- ===== src/SvManage/Launch/Keeps.antt =====
-- sv_manage/src/server_loop.rs: `cleanup` leaves the status and the notifications alone.
use mind_craft.Base.{ℕ, Bool, List, [], ◌∷◌, Result, ok, err, panic, diverge}
use mind_craft.Yapper.Types.{Status}
use mind_craft.SvManage.World.{World, Host, modify, ◌>>=◌}
use mind_craft.SvManage.World.Keeps.{
  Keeps, Keeps-bind, Keeps-if, Keeps-pure, Keeps-fail, Keeps-lift, Keeps-attempt,
}
use mind_craft.SvManage.Files.Keeps.{syscall-Keeps}
use mind_craft.SvManage.Status.Trail.{IsLinked}
use mind_craft.SvManage.Install.{get_path}
use mind_craft.SvManage.Commands.Keeps.{IsLinked-open}
use mind_craft.SvManage.Launch.{Tick, duration_since, await_exit, killed, cleanup}

module _ {V : Type 0} (s : Status) (host : Host V) where
  pub modify-Keeps :
      (f : World V → World V)
      → ((w : World V) → IsLinked s w → IsLinked s (f w))
      → Keeps (IsLinked s) (modify f)
  unfolding ◌>>=◌
  modify-Keeps f k = record { at = k }

  pub get_path-Keeps : Keeps (IsLinked s) (get_path host)
  unfolding get_path
  get_path-Keeps = Keeps-bind _ _ (Keeps-lift _) λ path. Keeps-lift _

  duration_since-Keeps : (now earlier : ℕ) → Keeps (IsLinked s) (duration_since host now earlier)
  unfolding duration_since
  duration_since-Keeps now earlier = Keeps-if _ _ _ (Keeps-lift _) (Keeps-pure _)

  await_exit-Keeps :
      (start last_stop : ℕ) (ts : List Tick)
      → Keeps (IsLinked s) (await_exit host start last_stop ts)
  unfolding await_exit
  await_exit-Keeps start last_stop [] = Keeps-lift _
  await_exit-Keeps start last_stop (t ∷ ts) =
      Keeps-bind _ _ (syscall-Keeps (IsLinked-open s).faults _) λ _.
        Keeps-if _ _ _ (syscall-Keeps (IsLinked-open s).faults _) (
          Keeps-bind _ _ (duration_since-Keeps t.now start) λ waited.
            Keeps-if _ _ _ (Keeps-fail _) (
              Keeps-bind _ _ (duration_since-Keeps t.now last_stop) λ quiet.
                Keeps-if _ _ _
                  (Keeps-bind _ _ (syscall-Keeps (IsLinked-open s).faults _) λ _.
                    Keeps-bind _ _ (modify-Keeps _ λ w h. record { trail = h.trail }) λ _.
                      Keeps-bind _ _ (syscall-Keeps (IsLinked-open s).faults _)
                        λ _. await_exit-Keeps start t.now ts)
                  (await_exit-Keeps start last_stop ts)))

  killed-Keeps : (r : Result (Unit {0})) → Keeps (IsLinked s) (killed host r)
  unfolding killed
  killed-Keeps (ok _) = Keeps-pure _
  killed-Keeps (err _) = Keeps-pure _
  killed-Keeps panic = Keeps-lift _
  killed-Keeps diverge = Keeps-lift _

  pub cleanup-Keeps :
      (exited : Bool) (start last_stop : ℕ) (ticks : List Tick)
      → Keeps (IsLinked s) (cleanup host exited start last_stop ticks)
  unfolding cleanup
  cleanup-Keeps exited start last_stop ticks =
      Keeps-bind _ _
        (Keeps-attempt _ (
          Keeps-bind _ _ (syscall-Keeps (IsLinked-open s).faults _)
            λ _. Keeps-if _ _ _ (Keeps-pure _) (await_exit-Keeps start last_stop ticks)))
        killed-Keeps
