-- ===== src/RecvStream.antt =====
-- src/recv_stream.rs: `RecvStream`, with the futures that its methods start.
mod State
mod Reading
pub mod Lock
pub mod Refusal
pub mod Calm
pub mod Delivery
pub mod Eof
pub mod Bounds
pub mod Codes
pub mod Apart
pub mod Exit
pub mod Answers
pub mod Completion
mod Tests
unfoldable pub use State.*
unfoldable pub use Reading.*
use web_transport_quinn_py.Prelude.{
  ℕ, Bool, true, false, Option, none, some, List, [], ◌∷◌, ◌==◌, if◌then◌else◌,
}
use web_transport_quinn_py.Prelude.Result.{ok, err}
use web_transport_quinn_py.Errors.Exceptions.{PyResult}
use web_transport_quinn_py.Errors.Foreign.{Wire}

-- A future that waits for the mutex.
abbrev pub awaits : Task → Bool
awaits (waiting op) = true
awaits cancelling = true
awaits exiting = true
awaits _ = false

-- The mutex when future `i` lets go of it: it goes to `next` at once if that is another future that
-- waits for it, and is free otherwise.
unfoldable pub heir : RecvStream → ℕ → Option ℕ → Option ℕ
heir s i none = none
heir s i (some j) = if j == i then none else if awaits (s.tasks j) then some j else none

-- The mutex when future `i` drops its guard, or its place in the queue.
unfoldable pub give_back : RecvStream → ℕ → Option ℕ → Option ℕ
unfolding heir
give_back s i next = elim s.lock [ none ↦ none | some o ↦ if o == i then heir s i next else some o ]

-- `lock().await` in future `i`: if the mutex is free, or was handed to this future, it goes on as `k`
-- says; otherwise it waits, as `k'` says.
abbrev pub when_free : RecvStream → ℕ → RecvStream → RecvStream → RecvStream
when_free s i k k' = elim s.lock [ none ↦ k | some o ↦ if o == i then k else k' ]

-- The first branch of `select!`, in one poll as far as the mutex allows: lock, stop, and raise. What
-- the inner stream answers is not looked at.
unfoldable pub cancel_at : RecvStream → ℕ → Option ℕ → RecvStream
unfolding heir
cancel_at s i next =
    when_free s i
      (log (record (set_task s i (done (err stopped_locally))) { lock = heir s i next })
        (Call.stop s.stop_code))
      (set_task s i cancelling)

-- The rest of `__aexit__`, from its `lock().await` on.
unfoldable pub exit_at : RecvStream → ℕ → Option ℕ → RecvStream
unfolding heir
exit_at s i next =
    when_free s i
      (log (record (set_task s i (done (ok nothing))) { lock = heir s i next }) (Call.stop 0))
      (set_task s i exiting)

-- The executor polls future `i`, which stands at the given place. `select!` is biased: the token
-- is looked at first. When it fires, the read is dropped with the lock or the place in the queue that
-- it holds, and the same poll goes on with the first branch. `next` is the future that the mutex
-- goes to where it is let go, if one is queued.
unfoldable pub poll_at : RecvStream → ℕ → Option ℕ → Task → RecvStream
unfolding give_back cancel_at exit_at
poll_at s i next (waiting op) =
    if s.cancelled
    then cancel_at (record s { lock = give_back s i next }) i next
    else when_free s i (record (set_task s i (polling op)) { lock = some i }) s
poll_at s i next (suspended op) =
    if s.cancelled
    then cancel_at (record s { lock = give_back s i next }) i next
    else set_task s i (polling op)
poll_at s i next cancelling = cancel_at s i next
poll_at s i next exiting = exit_at s i next
poll_at s i next _ = s

-- The inner stream answers the poll of `read_fn` that future `i` is in.
unfoldable pub answer_at : Wire → RecvStream → ℕ → Quinn → Option ℕ → Task → RecvStream
unfolding give_back
answer_at w s i q next (polling op) = elim (read_fn w q s.eof op) [
  | returns r ↦ record (set_task s i (done r)) { lock = give_back s i next }
  | pending ↦ log (set_task s i (suspended op)) (run op)
  | ended e r ↦ log (record (set_task s i (done r)) { lock = give_back s i next; eof = e }) (run op)
]
answer_at w s i q next _ = s

-- A method that goes through `cancellable_read` starts its future, under a number not yet used.
unfoldable pub start_at : RecvStream → ℕ → Op → Task → RecvStream
start_at s i op idle = set_task s i (waiting op)
start_at s i op _ = s

-- The future of `__aexit__` is started, and polled for the first time.
unfoldable pub aexit_at : RecvStream → ℕ → Bool → Option ℕ → Task → RecvStream
unfolding exit_at
aexit_at s i true next idle = exit_at (record s { stop_code = 0; cancelled = true }) i next
aexit_at s i false next idle = if s.eof then set_task s i (done (ok nothing)) else exit_at s i next
aexit_at s i _ next _ = s

-- Python cancels the awaiting task: the future is dropped between two polls, with its lock, or with
-- its place in the queue of the mutex.
unfoldable pub drop_at : RecvStream → ℕ → Option ℕ → Task → RecvStream
unfolding give_back
drop_at s i next (waiting op) = record (set_task s i dropped) { lock = give_back s i next }
drop_at s i next (suspended op) = record (set_task s i dropped) { lock = give_back s i next }
drop_at s i next cancelling = record (set_task s i dropped) { lock = give_back s i next }
drop_at s i next exiting = record (set_task s i dropped) { lock = give_back s i next }
drop_at s i next _ = s

-- `stop`
unfoldable pub do_stop : RecvStream → ℕ → RecvStream × PyResult (Unit {0})
do_stop s error_code =
    if s.cancelled
    then (s, err already_closed)
    else (let t = record s { stop_code = error_code; cancelled = true } in
        (elim t.lock [ none ↦ log t (Call.stop error_code) | some _ ↦ t ], ok tt))

-- What can happen next, with the future that the mutex is handed to if it is let go: the executor and the inner stream on one side, Python on the other.
pub data Event : Type 0 where
  start : ℕ → Op → Event
  poll : ℕ → (next : Option ℕ) → Event
  answer : ℕ → Quinn → (next : Option ℕ) → Event
  drop_future : ℕ → (next : Option ℕ) → Event
  aexit : ℕ → Bool → (next : Option ℕ) → Event
  stop : ℕ → Event

module _ (w : Wire) where
  unfoldable pub step : RecvStream → Event → RecvStream
  step s (start i op) = start_at s i op (s.tasks i)
  step s (poll i next) = poll_at s i next (s.tasks i)
  step s (answer i q next) = answer_at w s i q next (s.tasks i)
  step s (drop_future i next) = drop_at s i next (s.tasks i)
  step s (aexit i has_exception next) = aexit_at s i has_exception next (s.tasks i)
  step s (Event.stop error_code) = (do_stop s error_code).0

  unfoldable pub steps : RecvStream → List Event → RecvStream
  steps s [] = s
  steps s (e ∷ es) = steps (step s e) es

  -- What every event keeps holds after any events.
  pub steps-keep {κ} :
      (P : RecvStream → Type κ)
      → ((s : RecvStream) (e : Event) → P s → P (step s e))
      → (es : List Event) (s : RecvStream) → P s
      → P (steps s es)
  unfolding steps
  steps-keep P keep [] s h = h
  steps-keep P keep (e ∷ es) s h = steps-keep P keep es (step s e) (keep s e h)
