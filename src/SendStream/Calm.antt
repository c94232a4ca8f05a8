-- ===== src/SendStream/Calm.antt =====
-- The token in src/send_stream.rs: which futures there are only after it has fired.
use web_transport_quinn_py.Prelude.{ℕ, ◌≡◌, refl, Bool, true, false, Option, List, arith}
use web_transport_quinn_py.Errors.Foreign.{Wire}
use web_transport_quinn_py.SendStream.{
  SendStream, Task, Event, cancelling, exiting_reset, new, poll_at, cancel_at, give_back, heir,
  exit_reset_at, exit_finish_at, answer_at, start_at, aexit_at, drop_at, do_reset, do_set_priority,
  step, steps, steps-keep, start, poll, answer, drop_future, aexit,
}

-- A future that may stand where it does while the token is as given.
abbrev pub calm : Bool → Task → Bool
calm false cancelling = false
calm false exiting_reset = false
calm _ _ = true

abbrev pub Calm : SendStream → Type 0
Calm s = (j : ℕ) → calm s.cancelled (s.tasks j) ≡ true

module _ (w : Wire) where
  step-Calm : (s : SendStream) (e : Event) → Calm s → Calm (step w s e)
  unfolding step poll_at answer_at start_at aexit_at drop_at do_reset do_set_priority cancel_at
      give_back heir exit_reset_at exit_finish_at
  step-Calm s (start i op) h = λ j. ground (arith, h j)
  step-Calm s (poll i n) h = λ j. ground (arith, h j)
  step-Calm s (answer i q n) h = λ j. ground (arith, h j)
  step-Calm s (drop_future i n) h = λ j. ground (arith, h j)
  step-Calm s (aexit i b n) h = λ j. ground (arith, h j)
  step-Calm s (Event.reset c) h = λ j. ground (arith, h j)
  step-Calm s (Event.set_priority v) h = λ j. ground (arith, h j)

  pub steps-Calm : (es : List Event) (p : Option ℕ) → Calm (steps w (new p) es)
  unfolding new
  steps-Calm es p = steps-keep w Calm step-Calm es (new p) (λ j. refl)
