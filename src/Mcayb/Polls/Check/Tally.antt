-- ===== src/Mcayb/Polls/Check/Tally.antt =====
-- mcayb/src/bot.rs: how `check_poll` counts votes and members.
use mind_craft.Base.{
  ℕ, suc, ◌+◌, ◌==◌, Bool, true, false, find, length, retain, map, ap, if◌then◌else◌, Option, none,
  some, List, [], ◌∷◌, ◌≡◌, refl, arith,
}
use mind_craft.Mcayb.Chat.{count_people}
use mind_craft.Mcayb.Polls.Check.{sum_counts, count_of}

-- The votes for an answer: those of the first entry with its id, and none where there is no entry.
pub votes_for : ℕ → List (ℕ × ℕ) → ℕ
votes_for id counts = elim (find (λ (c : ℕ × ℕ). c.0 == id) counts) [ none ↦ 0 | some c ↦ c.1 ]

pub total : List ℕ → ℕ
total [] = 0
total (n ∷ ns) = n + total ns

-- The members that could be read and are no bots.
pub people : List (Option Bool) → ℕ
people members = length (
    retain (λ (m : Option Bool). elim m [ none ↦ false | some bot ↦ if bot then false else true ])
      members)

pub count_of-votes_for : (id : ℕ) (counts : List (ℕ × ℕ)) → count_of id counts ≡ votes_for id counts
unfolding count_of votes_for
count_of-votes_for id [] = refl
count_of-votes_for id ((i, n) ∷ counts) = ground (arith, count_of-votes_for id counts)

pub sum_counts-total :
    (counts : List (ℕ × ℕ)) → sum_counts counts ≡ total (map (λ (c : ℕ × ℕ). c.1) counts)
unfolding sum_counts total
sum_counts-total [] = refl
sum_counts-total ((_, n) ∷ counts) = ap (λ t. n + t) (sum_counts-total counts)

pub count_people-people : (members : List (Option Bool)) → count_people members ≡ people members
unfolding count_people people
count_people-people [] = refl
count_people-people (none ∷ members) = count_people-people members
count_people-people (some true ∷ members) = count_people-people members
count_people-people (some false ∷ members) = ap suc (count_people-people members)
