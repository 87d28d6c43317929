-- ===== src/SvManage/Link.antt =====
-- sv_manage/src/server_loop.rs: `Server::send`, and the two channels between the connections of the
-- clients and the thread of a server. The thread handles commands in their order, at its own time; a
-- `send` posts a command, and takes the first answer that comes before its timeout. A command can be
-- left without an answer, and a panic ends the thread, with which its ends of the channels go.
pub mod Order
use mind_craft.Base.{ℕ, zero, suc, Option, none, some, List, [], ◌∷◌, ◌++◌}

-- What becomes of a command: an answer is sent, or the error of the handler leaves it without one and
-- the thread goes on, or the thread ends.
pub data Handled (R S : Type 0) : Type 0 where
  answered : R → S → Handled R S
  unanswered : S → Handled R S
  ended : Handled R S

-- What `send` gives: the error of a command that cannot be sent, the error of an answer that did not
-- come, or an answer.
pub data Sent (R : Type 0) : Type 0 where
  refused no_answer : Sent R
  received : R → Sent R

-- The commands that are not handled, the answers that are not taken, and the state of the thread, which
-- is `none` when it has ended.
pub record Link (C R S : Type 0) : Type 0 where
  pub commands : List C
  pub responses : List R
  pub thread : Option S

module _ {C R S : Type 0} (handle : C → S → Handled R S) where
  -- A command goes to the thread, which is there: see `send_to`.
  unfoldable pub post : C → Link C R S → Link C R S
  post c l = record l { commands = l.commands ++ c ∷ [] }

  -- The commands that wait are lost with the thread.
  unfoldable pub handled_with : Handled R S → List C → Link C R S → Link C R S
  handled_with (answered r s) cs l = record {
    commands = cs;
    responses = l.responses ++ r ∷ [];
    thread = some s;
  }
  handled_with (unanswered s) cs l = record l { commands = cs; thread = some s }
  handled_with ended cs l = record l { commands = []; thread = none }

  -- One round of the thread.
  unfoldable pub serve_with : List C → Option S → Link C R S → Link C R S
  unfolding handled_with
  serve_with (c ∷ cs) (some s) l = handled_with (handle c s) cs l
  serve_with [] (some s) l = l
  serve_with _ none l = l

  unfoldable pub serve : ℕ → Link C R S → Link C R S
  unfolding serve_with
  serve zero l = l
  serve (suc n) l = serve n (serve_with l.commands l.thread l)

  unfoldable pub receive : List R → Link C R S → Sent R × Link C R S
  receive [] l = (no_answer, l)
  receive (r ∷ rs) l = (received r, record l { responses = rs })

  unfoldable pub send_to : Option S → C → ℕ → Link C R S → Sent R × Link C R S
  unfolding post serve receive
  send_to none c rounds l = (refused, l)
  send_to (some _) c rounds l = let l' = serve rounds (post c l) in receive l'.responses l'

  -- `send`, where the thread makes `rounds` rounds before the timeout. A thread that has ended takes no
  -- command. An answer that is there already is taken at once, whatever the thread does in the meantime.
  unfoldable pub send : C → ℕ → Link C R S → Sent R × Link C R S
  unfolding send_to
  send c rounds l = send_to l.thread c rounds l
