-- ===== src/SendStream/Refusal.antt =====
-- After the token of src/send_stream.rs has fired: which futures can still write, and what they
-- return.
use web_transport_quinn_py.Prelude.{
  Option, ℕ, ◌≡◌, refl, Bool, true, false, List, arith, if◌then◌else◌,
}
use web_transport_quinn_py.Prelude.Result.{ok, err}
use web_transport_quinn_py.Errors.Foreign.{Wire}
use web_transport_quinn_py.SendStream.{
  SendStream, Op, Quinn, Task, Event, idle, waiting, polling, suspended, cancelling, exiting_reset,
  exiting_finish, done, dropped, poll_at, cancel_at, give_back, heir, exit_reset_at, exit_finish_at,
  answer_at, start_at, aexit_at, drop_at, do_reset, do_set_priority, step, steps, steps-keep, start,
  poll, answer, drop_future, aexit, reset_locally, already_closed,
}

-- Places of an operation between two polls, or at its end if it was refused.
abbrev pub Refused : Task → Type 0
Refused (waiting op) = Unit
Refused (suspended op) = Unit
Refused cancelling = Unit
Refused dropped = Unit
Refused (done r) = r ≡ err reset_locally
Refused _ = ⊥

-- The token has fired, and the operation of future `i` is refused.
abbrev pub Off : ℕ → SendStream → Type 0
Off i s = (s.cancelled ≡ true) × Refused (s.tasks i)

poll_at-Off :
    (i : ℕ) (s : SendStream) (j : ℕ) (n : Option ℕ) (t : Task)
    → s.tasks j ≡ t
    → Off i s
    → Off i (poll_at s j n t)
unfolding poll_at cancel_at give_back heir exit_reset_at exit_finish_at
poll_at-Off i s j n (waiting op) e (c, r) = ground arith
poll_at-Off i s j n (suspended op) e (c, r) = ground arith
poll_at-Off i s j n cancelling e (c, r) = ground arith
poll_at-Off i s j n exiting_reset e (c, r) = ground arith
poll_at-Off i s j n exiting_finish e (c, r) = ground arith
poll_at-Off i s j n _ e h = h

answer_at-Off :
    (w : Wire) (i : ℕ) (s : SendStream) (j : ℕ) (q : Quinn) (n : Option ℕ) (t : Task)
    → s.tasks j ≡ t
    → Off i s
    → Off i (answer_at w s j q n t)
unfolding answer_at give_back heir
answer_at-Off w i s j q n (polling op) e (c, r) = ground arith
answer_at-Off w i s j q n _ e h = h

start_at-Off :
    (i : ℕ) (s : SendStream) (j : ℕ) (op : Op) (t : Task)
    → s.tasks j ≡ t
    → Off i s
    → Off i (start_at s j op t)
unfolding start_at
start_at-Off i s j op idle e (c, r) = ground arith
start_at-Off i s j op _ e h = h

aexit_at-Off :
    (i : ℕ) (s : SendStream) (j : ℕ) (b : Bool) (n : Option ℕ) (t : Task)
    → s.tasks j ≡ t
    → Off i s
    → Off i (aexit_at s j b n t)
unfolding aexit_at exit_reset_at exit_finish_at heir
aexit_at-Off i s j true n idle e (c, r) = ground arith
aexit_at-Off i s j false n idle e (c, r) = ground arith
aexit_at-Off i s j true n _ e h = h
aexit_at-Off i s j false n _ e h = h

drop_at-Off :
    (i : ℕ) (s : SendStream) (j : ℕ) (n : Option ℕ) (t : Task)
    → s.tasks j ≡ t
    → Off i s
    → Off i (drop_at s j n t)
unfolding drop_at give_back heir
drop_at-Off i s j n (waiting op) e (c, r) = ground arith
drop_at-Off i s j n (suspended op) e (c, r) = ground arith
drop_at-Off i s j n cancelling e (c, r) = ground arith
drop_at-Off i s j n exiting_reset e (c, r) = ground arith
drop_at-Off i s j n exiting_finish e (c, r) = ground arith
drop_at-Off i s j n _ e h = h

module _ (w : Wire) where
  step-Off : (i : ℕ) (s : SendStream) (e : Event) → Off i s → Off i (step w s e)
  unfolding step do_reset do_set_priority
  step-Off i s (start j op) h = start_at-Off i s j op _ refl h
  step-Off i s (poll j n) h = poll_at-Off i s j n _ refl h
  step-Off i s (answer j q n) h = answer_at-Off w i s j q n _ refl h
  step-Off i s (drop_future j n) h = drop_at-Off i s j n _ refl h
  step-Off i s (aexit j b n) h = aexit_at-Off i s j b n _ refl h
  step-Off i s (Event.reset c) (off, r) = ground arith
  step-Off i s (Event.set_priority v) (off, r) = ground arith

  -- Once the token has fired, an operation that is between two polls is refused for good, and so is
  -- one that starts later: whatever happens next, it is never again inside its write, and if it
  -- ends it raises `StreamClosedLocally`.
  pub reset_refuses :
      (s : SendStream) (i : ℕ) (es : List Event)
      → s.cancelled ≡ true
      → Refused (s.tasks i)
      → Refused ((steps w s es).tasks i) × ((steps w s es).cancelled ≡ true)
  reset_refuses s i es c r =
      let h : Off i (steps w s es) = steps-keep w (Off i) (step-Off i) es s (c, r) in (h.1, h.0)

  step-cancelled : (s : SendStream) (e : Event) → s.cancelled ≡ true → (step w s e).cancelled ≡ true
  unfolding step poll_at answer_at start_at aexit_at drop_at do_reset do_set_priority cancel_at
      give_back heir exit_reset_at exit_finish_at
  step-cancelled s (start i op) h = ground arith
  step-cancelled s (poll i n) h = ground arith
  step-cancelled s (answer i q n) h = ground arith
  step-cancelled s (drop_future i n) h = ground arith
  step-cancelled s (aexit i b n) h = ground arith
  step-cancelled s (Event.reset c) h = ground arith
  step-cancelled s (Event.set_priority v) h = ground arith

  do_reset-cancelled : (s : SendStream) (c : ℕ) → (do_reset s c).0.cancelled ≡ true
  unfolding do_reset
  do_reset-cancelled s c = ground arith

  do_reset_again :
      (s : SendStream) (c : ℕ) → s.cancelled ≡ true → do_reset s c ≡ (s, err already_closed)
  unfolding do_reset
  do_reset_again s c h = rw h

  do_reset_result :
      (s : SendStream) (c : ℕ)
      → (do_reset s c).1 ≡ (if s.cancelled then err already_closed else ok tt)
  unfolding do_reset
  do_reset_result s c = ground arith

  -- `reset` succeeds exactly if the token has not fired yet; and after one `reset`, whatever
  -- happens next, any other raises `StreamClosedLocally` and changes nothing.
  pub reset_once :
      (s : SendStream) (c d : ℕ) (es : List Event)
      → ((do_reset s c).1 ≡ (if s.cancelled then err already_closed else ok tt))
        × (do_reset (steps w (do_reset s c).0 es) d
            ≡ (steps w (do_reset s c).0 es, err already_closed))
  reset_once s c d es = (
    do_reset_result s c,
    do_reset_again _ d
        (steps-keep w (λ t. t.cancelled ≡ true) step-cancelled es _ (do_reset-cancelled s c)),
  )
