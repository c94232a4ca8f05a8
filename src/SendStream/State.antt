-- ===== src/SendStream/State.antt =====
-- src/send_stream.rs: the stream object, its operations, and the places of their futures.
use mathlib.Core.Option.{get_or}
use web_transport_quinn_py.Prelude.{ℕ, Bool, false, Option, none, List, [], ◌∷◌}
use web_transport_quinn_py.Prelude.Family.{update}
use web_transport_quinn_py.Prelude.Result.{Result}
use web_transport_quinn_py.Errors.Classes.{stream_closed_locally}
use web_transport_quinn_py.Errors.Exceptions.{PyErr, PyResult, new_err}
use web_transport_quinn_py.Errors.Foreign.{WriteError, SessionError}

-- The operations that go through `cancellable_write`.
pub data Op : Type 0 where
  write : (bytes : List ℕ) → Op
  write_some : (bytes : List ℕ) → Op
  finish : Op
  wait_closed : Op

-- What an operation returns to Python.
pub data Value : Type 0 where
  nothing : Value
  count : ℕ → Value
  code : Option ℕ → Value

-- `web_transport_quinn::SendStream` answers a poll: `none` is pending.
pub record Quinn : Type 0 where
  pub write_all : List ℕ → Option (Result (Unit {0}) WriteError)
  pub write : List ℕ → Option (Result ℕ WriteError)
  pub finish : Result (Unit {0}) (Unit {0})
  pub stopped : Option (Result (Option ℕ) SessionError)

-- A call on the inner stream; `run` is a poll of an operation's future.
pub data Call : Type 0 where
  set_priority : ℕ → Call
  reset : ℕ → Call
  run : Op → Call

-- Where the future of a method stands between two polls. `polling` is inside a poll of `write_fn`:
-- calls from other threads may fall there. The lock is held in `polling` and `suspended`; a future
-- that waits for it may have been handed it, and takes it when it is polled.
pub data Task : Type 0 where
  idle : Task
  waiting : Op → Task
  polling : Op → Task
  suspended : Op → Task
  cancelling : Task
  exiting_reset exiting_finish : Task
  done : PyResult Value → Task
  dropped : Task

-- The stream object: the mutex, by who it was given to, the token, the atomics (an `i32` is kept as its
-- bit pattern, since it is only copied and compared), the calls made on the inner stream (the
-- latest first), and the futures that are under way, by number.
pub record SendStream : Type 0 where
  pub lock : Option ℕ
  pub cancelled : Bool
  pub reset_code : ℕ
  pub priority : ℕ
  pub synced_priority : ℕ
  pub calls : List Call
  pub tasks : ℕ → Task

-- `SendStream::new`, on a stream whose `priority()` is given.
unfoldable pub new : Option ℕ → SendStream
new inner_priority =
    let p = get_or inner_priority 0 in
    record {
      lock = none;
      cancelled = false;
      reset_code = 0;
      priority = p;
      synced_priority = p;
      calls = [];
      tasks = λ _. idle;
    }

abbrev pub set_task : SendStream → ℕ → Task → SendStream
set_task s i t = record s { tasks = update s.tasks i t }

abbrev pub log : SendStream → Call → SendStream
log s c = record s { calls = c ∷ s.calls }

abbrev pub reset_locally : PyErr
reset_locally = new_err stream_closed_locally "stream reset locally"

abbrev pub already_closed : PyErr
already_closed = new_err stream_closed_locally "stream already closed"
