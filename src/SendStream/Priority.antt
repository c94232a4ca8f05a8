-- ===== src/SendStream/Priority.antt =====
-- Priorities in src/send_stream.rs: what the inner stream was told, and what Python set.
use mathlib.Core.Option.{get_or}
use web_transport_quinn_py.Prelude.{ℕ, ◌≡◌, refl, Option, List, [], ◌∷◌, arith}
use web_transport_quinn_py.Errors.Foreign.{Wire}
use web_transport_quinn_py.SendStream.{
  SendStream, Op, Call, Task, Event, run, waiting, polling, suspended, cancelling, exiting_reset,
  exiting_finish, new, poll_at, cancel_at, give_back, heir, exit_reset_at, exit_finish_at,
  answer_at, start_at, aexit_at, drop_at, do_reset, do_set_priority, get_priority, step, steps,
  steps-keep, start, poll, answer, drop_future, aexit,
}

-- The priority of the inner stream: the last one it was given, or the one it had at first.
abbrev pub inner_priority : ℕ → List Call → ℕ
inner_priority p [] = p
inner_priority p (Call.set_priority v ∷ cs) = v
inner_priority p (Call.reset c ∷ cs) = inner_priority p cs
inner_priority p (run op ∷ cs) = inner_priority p cs

abbrev pub Synced : ℕ → SendStream → Type 0
Synced p s = inner_priority p s.calls ≡ s.synced_priority

module _ (p : ℕ) where
  poll_at-Synced :
      (s : SendStream) (i : ℕ) (n : Option ℕ) (t : Task) → Synced p s → Synced p (poll_at s i n t)
  unfolding poll_at cancel_at give_back heir exit_reset_at exit_finish_at
  poll_at-Synced s i n (waiting op) h = ground arith
  poll_at-Synced s i n (suspended op) h = ground arith
  poll_at-Synced s i n cancelling h = ground arith
  poll_at-Synced s i n exiting_reset h = ground arith
  poll_at-Synced s i n exiting_finish h = ground arith
  poll_at-Synced s i n _ h = h

  step-Synced : (w : Wire) (s : SendStream) (e : Event) → Synced p s → Synced p (step w s e)
  unfolding step answer_at start_at aexit_at drop_at do_reset do_set_priority exit_reset_at
      exit_finish_at heir give_back
  step-Synced w s (start i op) h = ground arith
  step-Synced w s (poll i n) h = poll_at-Synced s i n (s.tasks i) h
  step-Synced w s (answer i q n) h = ground arith
  step-Synced w s (drop_future i n) h = ground arith
  step-Synced w s (aexit i b n) h = ground arith
  step-Synced w s (Event.reset c) h = ground arith
  step-Synced w s (Event.set_priority v) h = ground arith

poll-entering :
    (w : Wire) (p : ℕ) (s : SendStream) (i : ℕ) (n : Option ℕ) (op : Op)
    → Synced p s
    → s.tasks i ≡ waiting op
    → (step w s (poll i n)).tasks i ≡ polling op
    → inner_priority p (step w s (poll i n)).calls ≡ get_priority (step w s (poll i n))
unfolding step poll_at get_priority cancel_at give_back heir exit_reset_at exit_finish_at
poll-entering w p s i n op h at went = ground arith

-- In any history of a new stream, a future that gets the lock and enters its write finds the inner
-- stream at the priority that the getter returns, however often and whenever Python has set it.
pub write_at_priority :
    (w : Wire) (es : List Event) (q : Option ℕ) (i : ℕ) (n : Option ℕ) (op : Op)
    → (steps w (new q) es).tasks i ≡ waiting op
    → (step w (steps w (new q) es) (poll i n)).tasks i ≡ polling op
    → inner_priority (get_or q 0) (step w (steps w (new q) es) (poll i n)).calls
      ≡ get_priority (step w (steps w (new q) es) (poll i n))
unfolding new
write_at_priority w es q i n op at went =
    poll-entering w p _ i n op (steps-keep w (Synced p) (step-Synced p w) es (new q) refl) at went
  where
    p : ℕ
    p = get_or q 0
