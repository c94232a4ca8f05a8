-- ===== src/Server/Accepting.antt =====
-- src/server.rs: the futures of `Server.__anext__` and `Server.accept`, which share the inner server
-- behind a mutex.
pub mod Laws
mod Tests
use web_transport_quinn_py.Prelude.{
  ℕ, Bool, true, false, Option, none, some, List, [], ◌∷◌, ◌==◌, if◌then◌else◌,
}
use web_transport_quinn_py.Prelude.Family.{update}
use web_transport_quinn_py.Prelude.Result.{Result, ok, err, ◌>>=◌}
use web_transport_quinn_py.Errors.Exceptions.{PyErr, PyResult}
use web_transport_quinn_py.Server.{anext, accept}

-- Which method started a future.
pub data Method : Type 0 where
  anexts accepts : Method

-- What a method makes of the inner server's answer; `none` is Python's `None`.
unfoldable pub outcome {ℓ} : {R : Type ℓ} → Method → Option R → PyResult (Option R)
unfolding anext accept
outcome anexts answer = do request ← anext answer; ok (some request)
outcome accepts answer = accept answer

-- Where a future stands: it waits for the mutex, or for the inner server, with the mutex.
pub data Task (R : Type 0) : Type 0 where
  idle : Task R
  waiting : Method → Task R
  accepting : Method → Task R
  done : PyResult (Option R) → Task R
  dropped : Task R

-- The mutex, by the future that it was given to, the answers of the inner server with the futures
-- that asked (the latest first), and the futures that are under way, by number.
pub record Accepting (R : Type 0) : Type 0 where
  pub lock : Option ℕ
  pub answers : List (ℕ × Option R)
  pub tasks : ℕ → Task R

pub data Event (R : Type 0) : Type 0 where
  start : ℕ → Method → Event R
  poll : ℕ → Event R
  grant : ℕ → Event R
  answer : ℕ → Option R → Event R
  drop_future : ℕ → Event R

-- The owner of the mutex after future `i` lets go of what it may hold.
abbrev pub give_back : Option ℕ → ℕ → Option ℕ
give_back none i = none
give_back (some o) i = if o == i then none else some o

module _ {R : Type 0} where
  unfoldable pub new : Accepting R
  new = record { lock = none; answers = []; tasks = λ _. idle }

  abbrev pub set_task : Accepting R → ℕ → Task R → Accepting R
  set_task s i t = record s { tasks = update s.tasks i t }

  -- `lock().await`, then the call of the inner server, whose answer is awaited.
  unfoldable pub poll_at : Accepting R → ℕ → Task R → Accepting R
  poll_at s i (waiting m) = elim s.lock [
    | none ↦ record (set_task s i (accepting m)) { lock = some i }
    | some o ↦ if o == i then set_task s i (accepting m) else s
  ]
  poll_at s i _ = s

  -- The mutex picks future `i`, if that waits for it.
  unfoldable pub grant_at : Accepting R → ℕ → Task R → Accepting R
  grant_at s i (waiting m) = elim s.lock [ none ↦ record s { lock = some i } | some _ ↦ s ]
  grant_at s i _ = s

  -- The inner server answers future `i`.
  unfoldable pub answer_at : Accepting R → ℕ → Option R → Task R → Accepting R
  unfolding outcome
  answer_at s i a (accepting m) = record (set_task s i (done (outcome m a))) {
    lock = none;
    answers = (i, a) ∷ s.answers;
  }
  answer_at s i a _ = s

  unfoldable pub start_at : Accepting R → ℕ → Method → Task R → Accepting R
  start_at s i m idle = set_task s i (waiting m)
  start_at s i m _ = s

  -- Python cancels the awaiting task.
  unfoldable pub drop_at : Accepting R → ℕ → Task R → Accepting R
  drop_at s i (waiting m) = record (set_task s i dropped) { lock = give_back s.lock i }
  drop_at s i (accepting m) = record (set_task s i dropped) { lock = none }
  drop_at s i _ = s

  unfoldable pub step : Accepting R → Event R → Accepting R
  step s (start i m) = start_at s i m (s.tasks i)
  step s (poll i) = poll_at s i (s.tasks i)
  step s (grant i) = grant_at s i (s.tasks i)
  step s (answer i a) = answer_at s i a (s.tasks i)
  step s (drop_future i) = drop_at s i (s.tasks i)

  unfoldable pub steps : Accepting R → List (Event R) → Accepting R
  steps s [] = s
  steps s (e ∷ es) = steps (step s e) es

  -- What every event keeps holds after any events.
  pub steps-keep {κ} :
      (P : Accepting R → Type κ)
      → ((s : Accepting R) (e : Event R) → P s → P (step s e))
      → (es : List (Event R)) (s : Accepting R) → P s
      → P (steps s es)
  unfolding steps
  steps-keep P keep [] s h = h
  steps-keep P keep (e ∷ es) s h = steps-keep P keep es (step s e) (keep s e h)
