-- ===== src/RecvStream/State.antt =====
-- src/recv_stream.rs: the stream object, its operations, and the places of their futures.
use web_transport_quinn_py.Prelude.{ℕ, ◌-◌, ◌^◌, Bool, false, Option, none, List, [], ◌∷◌}
use web_transport_quinn_py.Prelude.Int.{ℤ}
use web_transport_quinn_py.Prelude.Family.{update}
use web_transport_quinn_py.Prelude.Result.{Result}
use web_transport_quinn_py.Errors.Classes.{stream_closed_locally, stop_async_iteration}
use web_transport_quinn_py.Errors.Exceptions.{PyErr, PyResult, new_err}
use web_transport_quinn_py.Errors.Foreign.{ReadError, ReadToEndError, ReadExactError, SessionError}

-- The operations that go through `cancellable_read`. The `n` of `read` is an `i64`.
pub data Op : Type 0 where
  anext : Op
  read : (n : ℤ) (limit : Option ℕ) → Op
  readexactly : (n : ℕ) → Op
  wait_closed : Op

-- What an operation returns to Python.
pub data Value : Type 0 where
  nothing : Value
  chunk : List ℕ → Value
  code : Option ℕ → Value

-- `web_transport_quinn::RecvStream` answers a poll: `none` is pending. `read_exact n` fills a
-- buffer of `n` bytes, and answers with the buffer as it is then.
pub record Quinn : Type 0 where
  pub read_chunk : (max : ℕ) → Option (Result (Option (List ℕ)) ReadError)
  pub read_to_end : (limit : ℕ) → Option (Result (List ℕ) ReadToEndError)
  pub read_exact : (n : ℕ) → Option (List ℕ × Result (Unit {0}) ReadExactError)
  pub received_reset : Option (Result (Option ℕ) SessionError)

-- A call on the inner stream; `run` is a poll of an operation's future.
pub data Call : Type 0 where
  stop : ℕ → Call
  run : Op → Call

-- Where the future of a method stands between two polls. `polling` is inside a poll of `read_fn`:
-- calls from other threads may fall there. The lock is held in `polling` and `suspended`; a future
-- that waits for it may have been handed it, and takes it when it is polled.
pub data Task : Type 0 where
  idle : Task
  waiting : Op → Task
  polling : Op → Task
  suspended : Op → Task
  cancelling : Task
  exiting : Task
  done : PyResult Value → Task
  dropped : Task

-- The stream object: the mutex, by who it was given to, the token, the atomics, the calls made on the inner
-- stream (the latest first), and the futures that are under way, by number.
pub record RecvStream : Type 0 where
  pub lock : Option ℕ
  pub cancelled : Bool
  pub stop_code : ℕ
  pub eof : Bool
  pub calls : List Call
  pub tasks : ℕ → Task

-- `RecvStream::new`
unfoldable pub new : RecvStream
new = record {
  lock = none;
  cancelled = false;
  stop_code = 0;
  eof = false;
  calls = [];
  tasks = λ _. idle;
}

abbrev pub set_task : RecvStream → ℕ → Task → RecvStream
set_task s i t = record s { tasks = update s.tasks i t }

abbrev pub log : RecvStream → Call → RecvStream
log s c = record s { calls = c ∷ s.calls }

abbrev pub stopped_locally : PyErr
stopped_locally = new_err stream_closed_locally "stream stopped locally"

abbrev pub already_closed : PyErr
already_closed = new_err stream_closed_locally "stream already closed"

-- `PyStopAsyncIteration::new_err(())`
abbrev pub end_of_iteration : PyErr
end_of_iteration = record { cls = stop_async_iteration; args = []; attrs = [] }

abbrev pub chunk_size : ℕ
chunk_size = 65536

abbrev pub usize_max : ℕ
usize_max = 2 ^ 64 - 1
