-- ===== src/RecvStream/Calm.antt =====
-- The token in src/recv_stream.rs: which futures there are only after it has fired.
use web_transport_quinn_py.Prelude.{ℕ, ◌≡◌, refl, Bool, true, false, List, arith}
use web_transport_quinn_py.Errors.Foreign.{Wire}
use web_transport_quinn_py.RecvStream.{
  RecvStream, Task, Event, cancelling, new, poll_at, cancel_at, give_back, heir, exit_at, answer_at,
  start_at, aexit_at, drop_at, do_stop, step, steps, steps-keep, start, poll, answer, drop_future,
  aexit,
}

-- A future that may stand where it does while the token is as given.
abbrev pub calm : Bool → Task → Bool
calm false cancelling = false
calm _ _ = true

abbrev pub Calm : RecvStream → Type 0
Calm s = (j : ℕ) → calm s.cancelled (s.tasks j) ≡ true

module _ (w : Wire) where
  step-Calm : (s : RecvStream) (e : Event) → Calm s → Calm (step w s e)
  unfolding step poll_at answer_at start_at aexit_at drop_at do_stop cancel_at give_back heir
      exit_at
  step-Calm s (start i op) h = λ j. ground (arith, h j)
  step-Calm s (poll i n) h = λ j. ground (arith, h j)
  step-Calm s (answer i q n) h = λ j. ground (arith, h j)
  step-Calm s (drop_future i n) h = λ j. ground (arith, h j)
  step-Calm s (aexit i b n) h = λ j. ground (arith, h j)
  step-Calm s (Event.stop c) h = λ j. ground (arith, h j)

  pub steps-Calm : (es : List Event) → Calm (steps w new es)
  unfolding new
  steps-Calm es = steps-keep w Calm step-Calm es new (λ j. refl)
