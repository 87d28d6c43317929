-- ===== src/Mcayb/Polls/Keys.antt =====
-- mcayb/src/conf.rs: the keys of polls, and the table of polls by key.
use mind_craft.Base.{text_eq_iff, text_eq_refl, true, none, [], ◌∷◌, ◌≡◌, arith, if◌then◌else◌, ◌↔◌}
use mind_craft.Mcayb.Chat.{PollKey, mod_poll, restore_poll, Polls, key_eq, poll_at, remove_poll}

pub key_eq_refl : (k : PollKey) → key_eq k k ≡ true
unfolding key_eq
key_eq_refl (mod_poll server mod_id) = ground (arith, text_eq_refl server, text_eq_refl mod_id)
key_eq_refl (restore_poll server) = text_eq_refl server

pub key_eq_iff : (j k : PollKey) → (key_eq j k ≡ true) ↔ (j ≡ k)
unfolding key_eq
key_eq_iff (mod_poll s m) (mod_poll s' m') = ground (arith, text_eq_iff s s', text_eq_iff m m')
key_eq_iff (restore_poll s) (restore_poll s') = ground (arith, text_eq_iff s s')
key_eq_iff (mod_poll _ _) (restore_poll _) = ground arith
key_eq_iff (restore_poll _) (mod_poll _ _) = ground arith

pub poll_at-remove_poll :
    {V : Type 0} (k j : PollKey) (polls : Polls V)
    → poll_at j (remove_poll k polls) ≡ (if key_eq k j then none else poll_at j polls)
unfolding poll_at remove_poll
poll_at-remove_poll k j [] = ground arith
poll_at-remove_poll k j ((i, p) ∷ polls) =
    ground (arith, key_eq_iff k j, key_eq_iff i k, key_eq_iff i j, poll_at-remove_poll k j polls)
