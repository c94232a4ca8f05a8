-- ===== src/SendStream.antt =====
-- src/send_stream.rs: `SendStream`, with the futures that its methods start.
mod State
pub mod Lock
pub mod Priority
pub mod Refusal
pub mod Calm
pub mod Delivery
pub mod Codes
pub mod Blocking
pub mod Apart
pub mod Exit
pub mod Answers
pub mod Completion
mod Tests
unfoldable pub use State.*
use mathlib.Core.Option
use web_transport_quinn_py.Prelude.{
  ℕ, Bool, true, false, Option, none, some, List, [], ◌∷◌, ◌==◌, if◌then◌else◌,
}
use web_transport_quinn_py.Prelude.Family.{update}
use web_transport_quinn_py.Prelude.Result.{Result, ok, err, ◌>>=◌, ◌>>◌, map_err}
use web_transport_quinn_py.Errors.Exceptions.{PyResult}
use web_transport_quinn_py.Errors.Foreign.{Wire}
use web_transport_quinn_py.Errors.Mapping.{map_write_error, map_session_error}

-- One poll of an operation's `write_fn`, with the lock held.
unfoldable pub write_fn : Wire → Quinn → Op → Option (PyResult Value)
write_fn w q (write bytes) =
    Option.map (λ r. do map_err (map_write_error w) r; ok nothing) (q.write_all bytes)
write_fn w q (write_some bytes) =
    Option.map (λ r. do n ← map_err (map_write_error w) r; ok (count n)) (q.write bytes)
write_fn w q finish = some (do map_err (λ _. already_closed) q.finish; ok nothing)
write_fn w q wait_closed =
    Option.map (λ r. do c ← map_err (map_session_error w) r; ok (code c)) q.stopped

-- The second branch of `select!` once the lock is free: take it, and bring the priority up to date.
unfoldable pub acquire : SendStream → ℕ → Op → SendStream
acquire s i op =
    let t = record s { lock = some i; tasks = update s.tasks i (polling op) } in
    if s.priority == s.synced_priority
    then t
    else record t { calls = Call.set_priority s.priority ∷ s.calls; synced_priority = s.priority }

-- A future that waits for the mutex.
abbrev pub awaits : Task → Bool
awaits (waiting op) = true
awaits cancelling = true
awaits exiting_reset = true
awaits exiting_finish = true
awaits _ = false

-- The mutex when future `i` lets go of it: it goes to `next` at once if that is another future that
-- waits for it, and is free otherwise.
unfoldable pub heir : SendStream → ℕ → Option ℕ → Option ℕ
heir s i none = none
heir s i (some j) = if j == i then none else if awaits (s.tasks j) then some j else none

-- The mutex when future `i` drops its guard, or its place in the queue.
unfoldable pub give_back : SendStream → ℕ → Option ℕ → Option ℕ
unfolding heir
give_back s i next = elim s.lock [ none ↦ none | some o ↦ if o == i then heir s i next else some o ]

-- `lock().await` in future `i`: if the mutex is free, or was handed to this future, it goes on as `k`
-- says; otherwise it waits, as `k'` says.
abbrev pub when_free : SendStream → ℕ → SendStream → SendStream → SendStream
when_free s i k k' = elim s.lock [ none ↦ k | some o ↦ if o == i then k else k' ]

-- The first branch of `select!`, in one poll as far as the mutex allows: lock, reset, and raise. What
-- the inner stream answers is not looked at.
unfoldable pub cancel_at : SendStream → ℕ → Option ℕ → SendStream
unfolding heir
cancel_at s i next =
    when_free s i
      (log (record (set_task s i (done (err reset_locally))) { lock = heir s i next })
        (Call.reset s.reset_code))
      (set_task s i cancelling)

-- The rest of `__aexit__`, from its `lock().await` on.
unfoldable pub exit_reset_at : SendStream → ℕ → Option ℕ → SendStream
unfolding heir
exit_reset_at s i next =
    when_free s i
      (log (record (set_task s i (done (ok nothing))) { lock = heir s i next }) (Call.reset 0))
      (set_task s i exiting_reset)

unfoldable pub exit_finish_at : SendStream → ℕ → Option ℕ → SendStream
unfolding heir
exit_finish_at s i next =
    when_free s i
      (log (record (set_task s i (done (ok nothing))) { lock = heir s i next }) (run finish))
      (set_task s i exiting_finish)

-- The executor polls future `i`, which stands at the given place. `select!` is biased: the token
-- is looked at first. When it fires, the write is dropped with the lock or the place in the queue that
-- it holds, and the same poll goes on with the first branch. `next` is the future that the mutex
-- goes to where it is let go, if one is queued.
unfoldable pub poll_at : SendStream → ℕ → Option ℕ → Task → SendStream
unfolding acquire give_back cancel_at exit_reset_at exit_finish_at
poll_at s i next (waiting op) =
    if s.cancelled
    then cancel_at (record s { lock = give_back s i next }) i next
    else when_free s i (acquire s i op) s
poll_at s i next (suspended op) =
    if s.cancelled
    then cancel_at (record s { lock = give_back s i next }) i next
    else set_task s i (polling op)
poll_at s i next cancelling = cancel_at s i next
poll_at s i next exiting_reset = exit_reset_at s i next
poll_at s i next exiting_finish = exit_finish_at s i next
poll_at s i next _ = s

-- The inner stream answers the poll of `write_fn` that future `i` is in.
unfoldable pub answer_at : Wire → SendStream → ℕ → Quinn → Option ℕ → Task → SendStream
unfolding give_back
answer_at w s i q next (polling op) = elim (write_fn w q op) [
  | none ↦ log (set_task s i (suspended op)) (run op)
  | some r ↦ log (record (set_task s i (done r)) { lock = give_back s i next }) (run op)
]
answer_at w s i q next _ = s

-- A method that goes through `cancellable_write` starts its future, under a number not yet used.
unfoldable pub start_at : SendStream → ℕ → Op → Task → SendStream
start_at s i op idle = set_task s i (waiting op)
start_at s i op _ = s

-- The future of `__aexit__` is started, and polled for the first time.
unfoldable pub aexit_at : SendStream → ℕ → Bool → Option ℕ → Task → SendStream
unfolding exit_reset_at exit_finish_at
aexit_at s i true next idle = exit_reset_at (record s { reset_code = 0; cancelled = true }) i next
aexit_at s i false next idle = exit_finish_at s i next
aexit_at s i _ next _ = s

-- Python cancels the awaiting task: the future is dropped between two polls, with its lock, or with
-- its place in the queue of the mutex.
unfoldable pub drop_at : SendStream → ℕ → Option ℕ → Task → SendStream
unfolding give_back
drop_at s i next (waiting op) = record (set_task s i dropped) { lock = give_back s i next }
drop_at s i next (suspended op) = record (set_task s i dropped) { lock = give_back s i next }
drop_at s i next cancelling = record (set_task s i dropped) { lock = give_back s i next }
drop_at s i next exiting_reset = record (set_task s i dropped) { lock = give_back s i next }
drop_at s i next exiting_finish = record (set_task s i dropped) { lock = give_back s i next }
drop_at s i next _ = s

-- `reset`
unfoldable pub do_reset : SendStream → ℕ → SendStream × PyResult (Unit {0})
do_reset s error_code =
    if s.cancelled
    then (s, err already_closed)
    else (let t = record s { reset_code = error_code; cancelled = true } in
        (elim t.lock [ none ↦ log t (Call.reset error_code) | some _ ↦ t ], ok tt))

-- The getter and the setter of `priority`.
unfoldable pub get_priority : SendStream → ℕ
get_priority s = s.priority

unfoldable pub do_set_priority : SendStream → ℕ → SendStream
do_set_priority s value =
    let t = record s { priority = value } in
    elim t.lock [
      | none ↦ record (log t (Call.set_priority value)) { synced_priority = value }
      | some _ ↦ t
    ]

-- What can happen next, with the future that the mutex is handed to if it is let go: the executor and the inner stream on one side, Python on the other.
pub data Event : Type 0 where
  start : ℕ → Op → Event
  poll : ℕ → (next : Option ℕ) → Event
  answer : ℕ → Quinn → (next : Option ℕ) → Event
  drop_future : ℕ → (next : Option ℕ) → Event
  aexit : ℕ → Bool → (next : Option ℕ) → Event
  reset : ℕ → Event
  set_priority : ℕ → Event

module _ (w : Wire) where
  unfoldable pub step : SendStream → Event → SendStream
  step s (start i op) = start_at s i op (s.tasks i)
  step s (poll i next) = poll_at s i next (s.tasks i)
  step s (answer i q next) = answer_at w s i q next (s.tasks i)
  step s (drop_future i next) = drop_at s i next (s.tasks i)
  step s (aexit i has_exception next) = aexit_at s i has_exception next (s.tasks i)
  step s (Event.reset error_code) = (do_reset s error_code).0
  step s (Event.set_priority value) = do_set_priority s value

  unfoldable pub steps : SendStream → List Event → SendStream
  steps s [] = s
  steps s (e ∷ es) = steps (step s e) es

  -- What every event keeps holds after any events.
  pub steps-keep {κ} :
      (P : SendStream → Type κ)
      → ((s : SendStream) (e : Event) → P s → P (step s e))
      → (es : List Event) (s : SendStream) → P s
      → P (steps s es)
  unfolding steps
  steps-keep P keep [] s h = h
  steps-keep P keep (e ∷ es) s h = steps-keep P keep es (step s e) (keep s e h)
