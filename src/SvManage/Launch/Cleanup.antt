-- ===== src/SvManage/Launch/Cleanup.antt =====
-- sv_manage/src/server_loop.rs: `cleanup` comes to an end.
use mind_craft.Base.{
  ℕ, ◌-◌, ◌≤◌, Bool, true, false, Bool-cases, any, ltb, ◌||◌, List, [], ◌∷◌, ◌≡◌, refl, inl, inr,
  Result, ok, err, panic, diverge, arith, if◌then◌else◌,
}
use mind_craft.SvManage.World.{World, Host, pure, attempt, ◌>>=◌}
use mind_craft.SvManage.World.Stops.{
  IsHandled, by_value, Stops, Stops-pure, Stops-fail, Stops-if, Stops-modify, Stops-bind,
  Stops-pure_bind,
}
use mind_craft.SvManage.Files.{syscall, next_fault}
use mind_craft.SvManage.Launch.{Tick, duration_since, await_exit, killed, cleanup}

-- A look that ends the wait: the child has exited, or it is more than five minutes old.
abbrev pub is_last : ℕ → Tick → Bool
is_last start t = t.exited || ltb 300 (t.now - start)

-- A clock that is never set back, from an earlier time on.
unfoldable pub IsForward : ℕ → List Tick → Type 0
IsForward earlier [] = Unit
IsForward earlier (t ∷ ts) = (earlier ≤ t.now) × IsForward t.now ts

module _ {V : Type 0} (host : Host V) where
  syscall-Stops : (e : _) → Stops (syscall {V = V} e)
  unfolding syscall next_fault
  syscall-Stops e =
      Stops-bind _ _ next_fault-Stops λ b. Stops-if b _ _ (Stops-fail e) (Stops-pure tt)
    where
      next_fault-Stops : Stops (next_fault {V = V})
      next_fault-Stops = record { at = λ w. by_value }

  duration_since-eq :
      (now earlier : ℕ) → earlier ≤ now → duration_since host now earlier ≡ pure (now - earlier)
  unfolding duration_since
  duration_since-eq now earlier h = ground (arith, h)

  -- The clock moves forward from the last look, `seen`, which is not before the start and the last "stop".
  await_exit-Stops :
      (start last_stop seen : ℕ) (ts : List Tick)
      → start ≤ seen
      → last_stop ≤ seen
      → IsForward seen ts
      → any (is_last start) ts ≡ true
      → Stops (await_exit host start last_stop ts)
  unfolding await_exit IsForward
  await_exit-Stops start last_stop seen [] s l f h = absurd (ground arith)
  await_exit-Stops start last_stop seen (t ∷ ts) s l (n, f) h =
      Stops-bind _ _ (syscall-Stops _) λ _. elim (Bool-cases t.exited) [
        | inl e ↦ rw e (syscall-Stops _)
        | inr e ↦
            rw
              (
                e,
                duration_since-eq t.now start (omega (arith, s, n)),
                duration_since-eq t.now last_stop (omega (arith, l, n)),
              )
              (Stops-pure_bind _ _ (elim (Bool-cases (ltb 300 (t.now - start))) [
                | inl late ↦ rw late (Stops-fail _)
                | inr early ↦ rw early (
                    Stops-pure_bind _ _ (
                      Stops-if (ltb 5 (t.now - last_stop)) _ _
                        (Stops-bind _ _ (syscall-Stops _) λ _. Stops-bind _ _ (Stops-modify _) λ _.
                          Stops-bind _ _ (syscall-Stops _) λ _.
                            await_exit-Stops start t.now t.now ts (omega (arith, s, n))
                              (omega arith) f (ground (arith, h, e, early)))
                        (await_exit-Stops start last_stop t.now ts (omega (arith, s, n))
                          (omega (arith, l, n)) f (ground (arith, h, e, early)))))
              ]))
      ]

  recovered-ok :
      (r : Result (Unit {0})) (w : World V)
      → IsHandled r
      → ((attempt (λ _. (r, w)) >>= killed host) w).0 ≡ ok tt
  unfolding ◌>>=◌ killed
  recovered-ok (ok tt) w h = refl
  recovered-ok (err e) w h = refl
  recovered-ok panic w h = elim h [ ]
  recovered-ok diverge w h = elim h [ ]

  waits-Stops :
      (exited : Bool) (start last_stop : ℕ) (ticks : List Tick)
      → start ≤ last_stop
      → IsForward last_stop ticks
      → (exited || any (is_last start) ticks) ≡ true
      → Stops (if exited then pure tt else await_exit host start last_stop ticks)
  waits-Stops true start last_stop ticks s f h = Stops-pure tt
  waits-Stops false start last_stop ticks s f h =
      await_exit-Stops start last_stop last_stop ticks s (omega arith) f h

  -- If the clock is never set back, and the child has exited, or exits at some look, or some look is more
  -- than five minutes after the start, then `cleanup` returns, whatever system calls fail.
  pub cleanup-ok :
      (exited : Bool) (start last_stop : ℕ) (ticks : List Tick) (w : World V)
      → start ≤ last_stop
      → IsForward last_stop ticks
      → (exited || any (is_last start) ticks) ≡ true
      → (cleanup host exited start last_stop ticks w).0 ≡ ok tt
  unfolding cleanup ◌>>=◌
  cleanup-ok exited start last_stop ticks w s f h =
      let wait =
        Stops-bind _ _ (syscall-Stops "try_wait")
          λ _. waits-Stops exited start last_stop ticks s f h in
      recovered-ok _ _ (wait.at w)
