-- ===== src/SendStream/Apart.antt =====
-- Events of src/send_stream.rs that leave a given future and the token alone.
use web_transport_quinn_py.Prelude.{ℕ, ◌≡◌, ◌≢◌, refl, true, false, List, [], ◌∷◌, ◌++◌, arith, All}
use web_transport_quinn_py.Errors.Foreign.{Wire}
use web_transport_quinn_py.SendStream.{
  SendStream, Task, Event, poll_at, cancel_at, give_back, heir, answer_at, start_at, aexit_at,
  drop_at, do_reset, step, steps, start, poll, answer, drop_future, aexit, exit_reset_at,
  exit_finish_at, do_set_priority,
}

abbrev pub Apart : ℕ → Event → Type 0
Apart i (start j op) = j ≢ i
Apart i (poll j n) = j ≢ i
Apart i (answer j q n) = j ≢ i
Apart i (drop_future j n) = j ≢ i
Apart i (aexit j true n) = ⊥
Apart i (aexit j false n) = j ≢ i
Apart i (Event.reset c) = ⊥
Apart i (Event.set_priority v) = Unit

-- Future `i` stands at `t`, and the token has not fired.
abbrev pub Stands : ℕ → Task → SendStream → Type 0
Stands i t s = (s.cancelled ≡ false) × (s.tasks i ≡ t)

module _ (w : Wire) where
  step-Stands :
      (i : ℕ) (t : Task) (s : SendStream) (e : Event)
      → Apart i e
      → Stands i t s
      → Stands i t (step w s e)
  unfolding step start_at poll_at answer_at drop_at aexit_at do_reset cancel_at give_back heir
      exit_reset_at exit_finish_at do_set_priority
  step-Stands i t s (start j op) a (h, e) = ground arith
  step-Stands i t s (poll j n) a (h, e) = ground arith
  step-Stands i t s (answer j q n) a (h, e) = ground arith
  step-Stands i t s (drop_future j n) a (h, e) = ground arith
  step-Stands i t s (aexit j true n) a h = absurd a
  step-Stands i t s (aexit j false n) a (h, e) = ground arith
  step-Stands i t s (Event.reset c) a h = absurd a
  step-Stands i t s (Event.set_priority v) a (h, e) = ground arith

  pub steps-Stands :
      (i : ℕ) (t : Task) (es : List Event) (s : SendStream)
      → All (Apart i) es
      → Stands i t s
      → Stands i t (steps w s es)
  unfolding steps
  steps-Stands i t [] s a h = h
  steps-Stands i t (e ∷ es) s (a, rest) h =
      steps-Stands i t es (step w s e) rest (step-Stands i t s e a h)

  pub steps-append :
      (xs ys : List Event) (s : SendStream) → steps w s (xs ++ ys) ≡ steps w (steps w s xs) ys
  unfolding steps
  steps-append [] ys s = refl
  steps-append (x ∷ xs) ys s = steps-append xs ys (step w s x)
