-- ===== src/RecvStream/Apart.antt =====
-- Events of src/recv_stream.rs that leave a given future and the token alone.
use web_transport_quinn_py.Prelude.{ℕ, ◌≡◌, ◌≢◌, refl, true, false, List, [], ◌∷◌, ◌++◌, arith, All}
use web_transport_quinn_py.Errors.Foreign.{Wire}
use web_transport_quinn_py.RecvStream.{
  RecvStream, Task, Event, poll_at, cancel_at, give_back, heir, answer_at, start_at, aexit_at,
  drop_at, do_stop, step, steps, start, poll, answer, drop_future, aexit, exit_at,
}

-- Only the future that is inside a poll gets an answer; that is the given one here.
-- Only the future that is inside a poll gets an answer; that is the given one here.
-- Only the future that is inside a poll gets an answer; that is the given one here.
abbrev pub Apart : ℕ → Event → Type 0
Apart i (start j op) = j ≢ i
Apart i (poll j n) = j ≢ i
Apart i (answer j q n) = ⊥
Apart i (drop_future j n) = j ≢ i
Apart i (aexit j true n) = ⊥
Apart i (aexit j false n) = j ≢ i
Apart i (Event.stop c) = ⊥

-- Future `i` stands at `t`, the token has not fired, and the end was not seen.
abbrev pub Stands : ℕ → Task → RecvStream → Type 0
Stands i t s = (s.cancelled ≡ false) × (s.eof ≡ false) × (s.tasks i ≡ t)

module _ (w : Wire) where
  step-Stands :
      (i : ℕ) (t : Task) (s : RecvStream) (e : Event)
      → Apart i e
      → Stands i t s
      → Stands i t (step w s e)
  unfolding step start_at poll_at answer_at drop_at aexit_at do_stop cancel_at give_back heir
      exit_at
  step-Stands i t s (start j op) a (h, b, e) = ground arith
  step-Stands i t s (poll j n) a (h, b, e) = ground arith
  step-Stands i t s (answer j q n) a h = absurd a
  step-Stands i t s (drop_future j n) a (h, b, e) = ground arith
  step-Stands i t s (aexit j true n) a h = absurd a
  step-Stands i t s (aexit j false n) a (h, b, e) = ground arith
  step-Stands i t s (Event.stop c) a h = absurd a

  pub steps-Stands :
      (i : ℕ) (t : Task) (es : List Event) (s : RecvStream)
      → All (Apart i) es
      → Stands i t s
      → Stands i t (steps w s es)
  unfolding steps
  steps-Stands i t [] s a h = h
  steps-Stands i t (e ∷ es) s (a, rest) h =
      steps-Stands i t es (step w s e) rest (step-Stands i t s e a h)

  pub steps-append :
      (xs ys : List Event) (s : RecvStream) → steps w s (xs ++ ys) ≡ steps w (steps w s xs) ys
  unfolding steps
  steps-append [] ys s = refl
  steps-append (x ∷ xs) ys s = steps-append xs ys (step w s x)
