-- ===== src/RecvStream/Lock.antt =====
-- The mutex of src/recv_stream.rs has one owner.
use web_transport_quinn_py.Prelude.{
  not, ℕ, ◌≡◌, refl, Bool, true, false, Option, none, some, List, arith, ◌==◌,
}
use web_transport_quinn_py.Errors.Foreign.{Wire}
use web_transport_quinn_py.RecvStream.{
  RecvStream, Op, Quinn, Task, Event, idle, waiting, polling, suspended, cancelling, exiting, new,
  poll_at, cancel_at, give_back, heir, exit_at, answer_at, start_at, aexit_at, drop_at, do_stop,
  step, steps, steps-keep, start, poll, answer, drop_future, aexit,
}

-- A future that holds the lock.
abbrev pub holds : Task → Bool
holds (polling op) = true
holds (suspended op) = true
holds _ = false

abbrev pub owns : Option ℕ → ℕ → Bool
owns none j = false
owns (some i) j = i == j

-- A future may be the lock's owner if it holds the lock or waits for it, and it is if it holds it.
abbrev pub agrees : Bool → Task → Bool
agrees true (waiting op) = true
agrees true cancelling = true
agrees true exiting = true
agrees true t = holds t
agrees false t = not (holds t)

abbrev pub OneOwner : RecvStream → Type 0
OneOwner s = (j : ℕ) → agrees (owns s.lock j) (s.tasks j) ≡ true

poll_at-OneOwner :
    (s : RecvStream) (i : ℕ) (n : Option ℕ) (t : Task)
    → s.tasks i ≡ t
    → OneOwner s
    → OneOwner (poll_at s i n t)
unfolding poll_at cancel_at give_back heir exit_at
poll_at-OneOwner s i n (waiting op) e h j = ground (arith, h i, h j)
poll_at-OneOwner s i n (suspended op) e h j = ground (arith, h i, h j)
poll_at-OneOwner s i n cancelling e h j = ground (arith, h i, h j)
poll_at-OneOwner s i n exiting e h j = ground (arith, h i, h j)
poll_at-OneOwner s i n _ e h j = h j

answer_at-OneOwner :
    (w : Wire) (s : RecvStream) (i : ℕ) (q : Quinn) (n : Option ℕ) (t : Task)
    → s.tasks i ≡ t
    → OneOwner s
    → OneOwner (answer_at w s i q n t)
unfolding answer_at give_back heir
answer_at-OneOwner w s i q n (polling op) e h j = ground (arith, h i, h j)
answer_at-OneOwner w s i q n _ e h j = h j

drop_at-OneOwner :
    (s : RecvStream) (i : ℕ) (n : Option ℕ) (t : Task)
    → s.tasks i ≡ t
    → OneOwner s
    → OneOwner (drop_at s i n t)
unfolding drop_at give_back heir
drop_at-OneOwner s i n (waiting op) e h j = ground (arith, h i, h j)
drop_at-OneOwner s i n (suspended op) e h j = ground (arith, h i, h j)
drop_at-OneOwner s i n cancelling e h j = ground (arith, h i, h j)
drop_at-OneOwner s i n exiting e h j = ground (arith, h i, h j)
drop_at-OneOwner s i n _ e h j = h j

aexit_at-OneOwner :
    (s : RecvStream) (i : ℕ) (b : Bool) (n : Option ℕ) (t : Task)
    → s.tasks i ≡ t
    → OneOwner s
    → OneOwner (aexit_at s i b n t)
unfolding aexit_at exit_at heir
aexit_at-OneOwner s i true n idle e h j = ground (arith, h i, h j)
aexit_at-OneOwner s i false n idle e h j = ground (arith, h i, h j)
aexit_at-OneOwner s i true n _ e h j = h j
aexit_at-OneOwner s i false n _ e h j = h j

start_at-OneOwner :
    (s : RecvStream) (i : ℕ) (op : Op) (t : Task)
    → s.tasks i ≡ t
    → OneOwner s
    → OneOwner (start_at s i op t)
unfolding start_at
start_at-OneOwner s i op idle e h j = ground (arith, h i, h j)
start_at-OneOwner s i op _ e h j = h j

module _ (w : Wire) where
  pub step-OneOwner : (s : RecvStream) (e : Event) → OneOwner s → OneOwner (step w s e)
  unfolding step do_stop
  step-OneOwner s (start i op) h = start_at-OneOwner s i op _ refl h
  step-OneOwner s (poll i n) h = poll_at-OneOwner s i n _ refl h
  step-OneOwner s (answer i q n) h = answer_at-OneOwner w s i q n _ refl h
  step-OneOwner s (drop_future i n) h = drop_at-OneOwner s i n _ refl h
  step-OneOwner s (aexit i b n) h = aexit_at-OneOwner s i b n _ refl h
  step-OneOwner s (Event.stop c) h = λ j. ground (arith, h j)

  pub steps-OneOwner : (es : List Event) → OneOwner (steps w new es)
  unfolding new
  steps-OneOwner es = steps-keep w OneOwner step-OneOwner es new (λ j. refl)

  -- Whatever happens to a new stream, two futures are never at once in their reads: at most one
  -- holds the lock, and it is the lock's owner.
  pub one_reader :
      (es : List Event) (i j : ℕ)
      → holds ((steps w new es).tasks i) ≡ true
      → holds ((steps w new es).tasks j) ≡ true
      → (i ≡ j) × ((steps w new es).lock ≡ some i)
  one_reader es i j hi hj = ground (arith, steps-OneOwner es i, steps-OneOwner es j)
