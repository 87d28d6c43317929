-- ===== src/SvManage/Link/Order.antt =====
-- sv_manage/src/server_loop.rs: which answer a `send` takes.
use mind_craft.Base.{
  ℕ, zero, suc, ◌≡◌, refl, sym, ◌∙◌, ap, Option, none, some, List, [], ◌∷◌, ◌++◌, append_assoc,
  is_some, true, arith,
}
use mind_craft.SvManage.Link.{
  Handled, answered, unanswered, ended, Sent, refused, no_answer, received, Link, post,
  handled_with, serve, serve_with, receive, send_to, send,
}

module _ {R S : Type 0} where
  -- The state of the thread after a command, and the answer that it sent.
  unfoldable pub state_of : Handled R S → Option S
  state_of (answered r s) = some s
  state_of (unanswered s) = some s
  state_of ended = none

  unfoldable pub answer_of : Handled R S → List R
  answer_of (answered r s) = r ∷ []
  answer_of (unanswered s) = []
  answer_of ended = []

module _ {C R S : Type 0} (handle : C → S → Handled R S) where
  unfoldable pub handle_in : C → Option S → Handled R S
  handle_in c none = ended
  handle_in c (some s) = handle c s

  -- The answers of a thread to a list of commands, one after the other; none after its end.
  unfoldable pub answers : List C → Option S → List R
  answers [] o = []
  answers (c ∷ cs) o = let h = handle_in c o in answer_of h ++ answers cs (state_of h)

  unfoldable pub after : List C → Option S → Option S
  after [] o = o
  after (c ∷ cs) o = after cs (state_of (handle_in c o))

  -- The answers that are due: those that nobody has taken, and those to the commands that wait.
  abbrev pub due : Link C R S → List R
  due l = l.responses ++ answers l.commands l.thread

  -- The answer, if any, to a command that is handled after all that wait.
  abbrev pub reply : C → Link C R S → List R
  reply c l = answers (c ∷ []) (after l.commands l.thread)

  answers-snoc :
      (cs : List C) (c : C) (o : Option S)
      → answers (cs ++ c ∷ []) o ≡ answers cs o ++ answers (c ∷ []) (after cs o)
  unfolding answers after
  answers-snoc [] c o = refl
  answers-snoc (x ∷ cs) c o =
      let h = handle_in x o in
      ap (λ t. answer_of h ++ t) (answers-snoc cs c (state_of h))
      ∙ sym (append_assoc (answer_of h) _ _)

  due-post : (c : C) (l : Link C R S) → due (post handle c l) ≡ due l ++ reply c l
  unfolding post
  due-post c l =
      ap (λ t. l.responses ++ t) (answers-snoc l.commands c l.thread)
      ∙ sym (append_assoc l.responses (answers l.commands l.thread) (reply c l))

  answers-ended : (cs : List C) → answers cs none ≡ []
  unfolding answers handle_in answer_of state_of
  answers-ended [] = refl
  answers-ended (c ∷ cs) = answers-ended cs

  due-handled_with :
      (h : Handled R S) (cs : List C) (l : Link C R S)
      → due (handled_with handle h cs l) ≡ l.responses ++ (answer_of h ++ answers cs (state_of h))
  unfolding handled_with answer_of state_of
  due-handled_with (answered r s) cs l = append_assoc l.responses (r ∷ []) (answers cs (some s))
  due-handled_with (unanswered s) cs l = refl
  due-handled_with ended cs l =
      ap (λ t. l.responses ++ t) (answers-ended [] ∙ sym (answers-ended cs))

  due-serve_with :
      (cs : List C) (o : Option S) (l : Link C R S)
      → l.commands ≡ cs
      → l.thread ≡ o
      → due (serve_with handle cs o l) ≡ due l
  unfolding serve_with answers handle_in
  due-serve_with [] (some s) l e f = refl
  due-serve_with (c ∷ cs) (some s) l e f = due-handled_with (handle c s) cs l ∙ rw e (rw f refl)
  due-serve_with [] none l e f = refl
  due-serve_with (c ∷ cs) none l e f = refl

  due-serve : (n : ℕ) (l : Link C R S) → due (serve handle n l) ≡ due l
  unfolding serve
  due-serve zero l = refl
  due-serve (suc n) l =
      due-serve n (serve_with handle l.commands l.thread l)
      ∙ due-serve_with l.commands l.thread l refl refl

  -- What a send does to a link.
  abbrev pub Takes : C → Link C R S → Sent R × Link C R S → Type 0
  Takes c l (refused, l') = (l.thread ≡ none) × (l' ≡ l)
  Takes c l (no_answer, l') =
      (is_some l.thread ≡ true) × (l'.responses ≡ []) × (due l' ≡ due l ++ reply c l)
  Takes c l (received r, l') = (is_some l.thread ≡ true) × (r ∷ due l' ≡ due l ++ reply c l)

  receive-Takes :
      (c : C) (l l' : Link C R S) (rs : List R)
      → is_some l.thread ≡ true
      → l'.responses ≡ rs
      → due l' ≡ due l ++ reply c l
      → Takes c l (receive handle rs l')
  unfolding receive
  receive-Takes c l l' [] live e d = (live, e, d)
  receive-Takes c l l' (r ∷ rs) live e d = (live, rw e at d)

  send_to-Takes :
      (o : Option S) (c : C) (rounds : ℕ) (l : Link C R S)
      → l.thread ≡ o
      → Takes c l (send_to handle o c rounds l)
  unfolding send_to
  send_to-Takes none c rounds l e = (e, refl)
  send_to-Takes (some s) c rounds l e =
      let l' = serve handle rounds (post handle c l) in
      receive-Takes c l l' l'.responses (ground (arith, e)) refl
        (due-serve rounds (post handle c l) ∙ due-post c l)

  -- A send is refused if and only if the thread has ended, and then changes nothing. Another send adds
  -- the answer to its own command, if there is one, at the end of those that are due, and takes the
  -- first of them, or none: commands are answered in their order, and an answer that a timeout missed is
  -- for the next send.
  pub send-Takes : (c : C) (rounds : ℕ) (l : Link C R S) → Takes c l (send handle c rounds l)
  unfolding send
  send-Takes c rounds l = send_to-Takes l.thread c rounds l refl
