-- ===== src/Mcayb/Guild/Safe.antt =====
-- mcayb/src/bot.rs: what the parts of a round of `guild_loop` keep, and when they do not panic.
use mind_craft.Base.{
  Text, codes, true, Option, none, some, List, ◌≡◌, refl, ◌∙◌, arith, insert, All, is_some,
  contains_key, lookup-insert,
}
use mind_craft.Mcayb.Chat.{Bot, Notifs}
use mind_craft.Mcayb.Notices.{Run, then_run, when_running, set_msgs, the_groups}
use mind_craft.Mcayb.Polls.Table.{Evolves, stays, chains}

pub record IsSteady {V : Type 0} (b after : Bot V) : Type 0 where
  pub last_status : after.last_status ≡ b.last_status
  pub groups :
      (group : Text) → contains_key group b.msgs ≡ true → contains_key group after.msgs ≡ true
  pub polls : Evolves b.polls after.polls

pub IsSteady-refl : {V : Type 0} (b : Bot V) → IsSteady b b
IsSteady-refl b = record { last_status = refl; groups = λ group h. h; polls = stays b.polls }

pub IsSteady-trans : {V : Type 0} (b c d : Bot V) → IsSteady b c → IsSteady c d → IsSteady b d
IsSteady-trans b c d p q = record {
  last_status = q.last_status ∙ p.last_status;
  groups = λ group h. q.groups group (p.groups group h);
  polls = chains p.polls q.polls;
}

-- An action that does not touch the messages.
pub IsSteady-of_quiet :
    {V : Type 0} (b c : Bot V)
    → c.last_status ≡ b.last_status
    → c.msgs ≡ b.msgs
    → Evolves b.polls c.polls
    → IsSteady b c
IsSteady-of_quiet b c e f p = record { last_status = e; groups = λ group h. rw f h; polls = p }

-- Every group that `Notifs::get` is called for is there.
unfoldable pub HasGroups : Notifs → Type 0
HasGroups msgs = All (λ group. contains_key group msgs ≡ true) the_groups

-- A group that is there wherever all groups are.
abbrev pub IsKnown : Text → Type 0
IsKnown group = (msgs : Notifs) → HasGroups msgs → contains_key group msgs ≡ true

pub backup-IsKnown : IsKnown (codes "backup")
unfolding HasGroups
backup-IsKnown msgs g = g.0

pub restore-IsKnown : IsKnown (codes "restore")
unfolding HasGroups
restore-IsKnown msgs g = g.1.0

pub install_mod-IsKnown : IsKnown (codes "install_mod")
unfolding HasGroups
install_mod-IsKnown msgs g = g.1.1.0

pub zip-IsKnown : IsKnown (codes "zip")
unfolding HasGroups
zip-IsKnown msgs g = g.1.1.1.1.0

pub IsSteady-HasGroups :
    {V : Type 0} (b after : Bot V) → IsSteady b after → HasGroups b.msgs → HasGroups after.msgs
unfolding HasGroups
IsSteady-HasGroups b after s (g0, (g1, (g2, (g3, (g4, _))))) =
    (s.groups _ g0, (s.groups _ g1, (s.groups _ g2, (s.groups _ g3, (s.groups _ g4, tt)))))

-- An action keeps the groups, and does not panic where all groups are there.
pub record IsSafe {V A : Type 0} (b : Bot V) (x : Option A × Bot V) : Type 0 where
  pub steady : IsSteady b x.1
  pub runs : HasGroups b.msgs → is_some x.0 ≡ true

pub IsSafe-done : {V A : Type 0} (b c : Bot V) (a : A) → IsSteady b c → IsSafe b (some a, c)
IsSafe-done b c a s = record { steady = s; runs = λ _. refl }

-- After a part that keeps the groups.
pub IsSafe-after :
    {V A : Type 0} (b c : Bot V) (x : Option A × Bot V) → IsSteady b c → IsSafe c x → IsSafe b x
IsSafe-after b c x s t = record {
  steady = IsSteady-trans b c x.1 s t.steady;
  runs = λ g. t.runs (IsSteady-HasGroups b c s g);
}

pub when_running-IsSafe :
    {V A B : Type 0} (b c : Bot V) (o : Option A) (f : A → Run V B)
    → IsSafe b (o, c)
    → ((a : A) → IsSafe c (f a c))
    → IsSafe b (when_running o f c)
unfolding when_running
when_running-IsSafe b c none f s k = record {
  steady = s.steady;
  runs = λ g. absurd (ground (arith, s.runs g));
}
when_running-IsSafe b c (some a) f s k = IsSafe-after b c (f a c) s.steady (k a)

pub then_run-IsSafe :
    {V A B : Type 0} (m : Run V A) (f : A → Run V B) (b : Bot V)
    → IsSafe b (m b)
    → ((a : A) (c : Bot V) → IsSafe c (f a c))
    → IsSafe b (then_run m f b)
unfolding then_run
then_run-IsSafe m f b s k = when_running-IsSafe b (m b).1 (m b).0 f s (λ a. k a (m b).1)

pub contains_key-insert :
    {A : Type 0} (group k : Text) (v : A) (m : List (Text × A))
    → contains_key group m ≡ true
    → contains_key group (insert k v m) ≡ true
unfolding contains_key
contains_key-insert group k v m h = ground (arith, h, lookup-insert k group v m)

pub set_msgs-IsSafe :
    {V : Type 0} (o : Option Notifs) (b : Bot V)
    → (HasGroups b.msgs → is_some o ≡ true)
    → ((after : Notifs) (k : Text)
        → o ≡ some after
        → contains_key k b.msgs ≡ true
        → contains_key k after ≡ true)
    → IsSafe b (set_msgs o b)
unfolding set_msgs
set_msgs-IsSafe none b there keeps = record {
  steady = IsSteady-refl b;
  runs = λ g. absurd (ground (arith, there g));
}
set_msgs-IsSafe (some msgs) b there keeps =
    IsSafe-done b _ tt
      (record { last_status = refl; groups = λ k h. keeps msgs k refl h; polls = stays b.polls })
