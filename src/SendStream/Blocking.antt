-- ===== src/SendStream/Blocking.antt =====
-- How long an operation of src/send_stream.rs waits: one that is pending holds the lock.
use web_transport_quinn_py.Prelude.{
  ℕ, ◌≡◌, ◌≢◌, refl, ◌⊎◌, Bool, true, false, Option, none, some, List, [], ◌∷◌, arith, All,
}
use web_transport_quinn_py.Errors.Foreign.{Wire}
use web_transport_quinn_py.SendStream.Lock.{OneOwner, step-OneOwner, steps-OneOwner}
use web_transport_quinn_py.SendStream.{
  SendStream, Op, Quinn, Task, Event, waiting, polling, suspended, cancelling, exiting_reset,
  exiting_finish, dropped, new, write_fn, poll_at, cancel_at, give_back, heir, exit_reset_at,
  exit_finish_at, answer_at, start_at, aexit_at, drop_at, do_set_priority, step, steps, start, poll,
  answer, drop_future, aexit, wait_closed,
}

-- Events that leave the `wait_closed` of future `i` pending: the inner stream answers nothing to it,
-- neither an end nor an error of the session, and Python neither gives the waiting up nor fires the token.
abbrev pub Pending : ℕ → Event → Type 0
Pending i (answer j q n) = q.stopped ≡ none
Pending i (drop_future j n) = j ≢ i
Pending i (aexit j true n) = ⊥
Pending i (Event.reset c) = ⊥
Pending i _ = Unit

abbrev is_waiter : Task → Bool
is_waiter (polling wait_closed) = true
is_waiter (suspended wait_closed) = true
is_waiter _ = false

-- The place of an operation that has not got the lock.
abbrev pub Outside : Op → Task → Type 0
Outside op t = (t ≡ waiting op) ⊎ (t ≡ dropped)

-- Future `i` is a `wait_closed` that holds the lock, and future `j` an operation without it.
pub record Held (i j : ℕ) (op : Op) (s : SendStream) : Type 0 where
  pub live : s.cancelled ≡ false
  pub owner : s.lock ≡ some i
  pub waiter : is_waiter (s.tasks i) ≡ true
  pub outside : Outside op (s.tasks j)

module _ (w : Wire) (i j : ℕ) (op : Op) where
  poll_at-Held :
      (s : SendStream) (k : ℕ) (n : Option ℕ) (t : Task)
      → s.tasks k ≡ t
      → Held i j op s
      → Held i j op (poll_at s k n t)
  unfolding poll_at cancel_at give_back heir exit_reset_at exit_finish_at
  poll_at-Held s k n (waiting o) e v = ground arith
  poll_at-Held s k n (suspended o) e v = ground arith
  poll_at-Held s k n cancelling e v = ground arith
  poll_at-Held s k n exiting_reset e v = ground arith
  poll_at-Held s k n exiting_finish e v = ground arith
  poll_at-Held s k n _ e v = v

  answer_at-Held :
      (s : SendStream) (k : ℕ) (q : Quinn) (n : Option ℕ) (t : Task)
      → s.tasks k ≡ t
      → q.stopped ≡ none
      → OneOwner s
      → Held i j op s
      → Held i j op (answer_at w s k q n t)
  unfolding answer_at write_fn give_back heir
  answer_at-Held s k q n (polling wait_closed) e p one v = ground (arith, one k)
  answer_at-Held s k q n (polling o) e p one v = ground (arith, one k)
  answer_at-Held s k q n _ e p one v = v

  drop_at-Held :
      (s : SendStream) (k : ℕ) (n : Option ℕ) (t : Task)
      → s.tasks k ≡ t
      → k ≢ i
      → OneOwner s
      → Held i j op s
      → Held i j op (drop_at s k n t)
  unfolding drop_at give_back heir
  drop_at-Held s k n (waiting o) e apart one v = ground (arith, one k)
  drop_at-Held s k n (suspended o) e apart one v = ground (arith, one k)
  drop_at-Held s k n cancelling e apart one v = ground (arith, one k)
  drop_at-Held s k n exiting_reset e apart one v = ground (arith, one k)
  drop_at-Held s k n exiting_finish e apart one v = ground (arith, one k)
  drop_at-Held s k n _ e apart one v = v

  step-Held :
      (s : SendStream) (e : Event)
      → Pending i e
      → OneOwner s
      → Held i j op s
      → Held i j op (step w s e)
  unfolding step start_at aexit_at do_set_priority exit_reset_at exit_finish_at heir
  step-Held s (start k o) h one v = ground arith
  step-Held s (poll k n) h one v = poll_at-Held s k n _ refl v
  step-Held s (answer k q n) h one v = answer_at-Held s k q n _ refl h one v
  step-Held s (drop_future k n) h one v = drop_at-Held s k n _ refl h one v
  step-Held s (aexit k true n) h one v = absurd h
  step-Held s (aexit k false n) h one v = ground arith
  step-Held s (Event.reset c) h one v = absurd h
  step-Held s (Event.set_priority p) h one v = ground arith

  steps-Held :
      (es : List Event) (s : SendStream)
      → All (Pending i) es
      → OneOwner s
      → Held i j op s
      → Held i j op (steps w s es)
  unfolding steps
  steps-Held [] s h one v = v
  steps-Held (e ∷ es) s h one v =
      steps-Held es (step w s e) h.1 (step-OneOwner w s e one) (step-Held s e h.0 one v)

  -- A pending `wait_closed` blocks the stream: while the inner stream answers nothing to it (the peer
  -- neither stops nor acknowledges the stream, and the session does not end), and Python neither
  -- gives the waiting up nor resets the stream nor leaves its block through an exception, an
  -- operation that has not got the lock never gets it, whatever else happens.
  pub wait_closed_blocks :
      (before es : List Event) (p : Option ℕ)
      → Held i j op (steps w (new p) before)
      → All (Pending i) es
      → Outside op ((steps w (steps w (new p) before) es).tasks j)
  wait_closed_blocks before es p v h = (steps-Held es _ h (steps-OneOwner w before p) v).outside
