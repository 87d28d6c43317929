-- ===== src/SvManage/World/Leads.antt =====
-- Actions that lead from one property of the state to another, however they end.
use mind_craft.Base.{Result, ok, err, panic, diverge}
use mind_craft.SvManage.World.{Exec, lift, ◌>>=◌}
use mind_craft.SvManage.World.Keeps.{Keeps}

pub record Leads {S A : Type 0} (P Q : S → Type 0) (m : Exec S A) : Type 0 where
  pub to : (s : S) → P s → Q (m s).1

module _ {S A : Type 0} {P Q : S → Type 0} where
  -- What is kept may be asked for more before, and less after.
  pub Leads-Keeps : (m : Exec S A) → ((s : S) → P s → Q s) → Keeps Q m → Leads P Q m
  Leads-Keeps m weaken kept = record { to = λ s h. kept.at s (weaken s h) }

module _ {S A B : Type 0} {R Q : S → Type 0} where
  Leads-continue :
      (r : Result A) (next : A → Exec S B)
      → ((s : S) → R s → Q s)
      → ((a : A) → Leads R Q (next a))
      → Leads R Q (lift r >>= next)
  unfolding ◌>>=◌
  Leads-continue (ok a) next weaken later = record { to = λ s h. (later a).to s h }
  Leads-continue (err _) next weaken later = record { to = weaken }
  Leads-continue panic next weaken later = record { to = weaken }
  Leads-continue diverge next weaken later = record { to = weaken }

module _ {S A B : Type 0} {P R Q : S → Type 0} where
  pub Leads-bind :
      (first : Exec S A) (next : A → Exec S B)
      → ((s : S) → R s → Q s)
      → Leads P R first
      → ((a : A) → Leads R Q (next a))
      → Leads P Q (first >>= next)
  unfolding ◌>>=◌
  Leads-bind first next weaken lead later = record {
    to = λ s h. let r = first s in (Leads-continue r.0 next weaken later).to r.1 (lead.to s h);
  }
