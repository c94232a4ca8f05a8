-- ===== src/SendStream/Answers.antt =====
-- What the operations of src/send_stream.rs are to return, as a table of answers and results.
use web_transport_quinn_py.Prelude.{ℕ, ◌≡◌, Option, none, some, List}
use web_transport_quinn_py.Prelude.Result.{ok, err}
use web_transport_quinn_py.Errors.Exceptions.{PyResult}
use web_transport_quinn_py.Errors.Foreign.{Wire, WriteError, SessionError}
use web_transport_quinn_py.Errors.Mapping.{map_write_error, map_session_error}
use web_transport_quinn_py.SendStream.{
  Op, Value, Quinn, write, write_some, finish, wait_closed, nothing, count, code, already_closed,
  write_fn,
}

-- What an operation returns for an answer of the inner stream, and the answers that end it.
pub data Returns (w : Wire) (q : Quinn) : Op → PyResult Value → Type 0 where
  wrote :
      (bytes : List ℕ) → q.write_all bytes ≡ some (ok tt) → Returns w q (write bytes) (ok nothing)
  write_failed :
      (bytes : List ℕ) (e : WriteError)
      → q.write_all bytes ≡ some (err e)
      → Returns w q (write bytes) (err (map_write_error w e))
  wrote_some :
      (bytes : List ℕ) (n : ℕ)
      → q.write bytes ≡ some (ok n)
      → Returns w q (write_some bytes) (ok (count n))
  write_some_failed :
      (bytes : List ℕ) (e : WriteError)
      → q.write bytes ≡ some (err e)
      → Returns w q (write_some bytes) (err (map_write_error w e))
  finished : q.finish ≡ ok tt → Returns w q finish (ok nothing)
  finish_refused : q.finish ≡ err tt → Returns w q finish (err already_closed)
  was_closed : (c : Option ℕ) → q.stopped ≡ some (ok c) → Returns w q wait_closed (ok (code c))
  session_ended :
      (e : SessionError)
      → q.stopped ≡ some (err e)
      → Returns w q wait_closed (err (map_session_error w e))

-- The answers that leave it pending.
pub data Waits (q : Quinn) : Op → Type 0 where
  write_waits : (bytes : List ℕ) → q.write_all bytes ≡ none → Waits q (write bytes)
  write_some_waits : (bytes : List ℕ) → q.write bytes ≡ none → Waits q (write_some bytes)
  close_waits : q.stopped ≡ none → Waits q wait_closed

pub write_fn-Returns :
    (w : Wire) (q : Quinn) (op : Op) (r : PyResult Value)
    → Returns w q op r
    → write_fn w q op ≡ some r
unfolding write_fn
write_fn-Returns w q _ _ (wrote bytes a) = rw a
write_fn-Returns w q _ _ (write_failed bytes e a) = rw a
write_fn-Returns w q _ _ (wrote_some bytes n a) = rw a
write_fn-Returns w q _ _ (write_some_failed bytes e a) = rw a
write_fn-Returns w q _ _ (finished a) = rw a
write_fn-Returns w q _ _ (finish_refused a) = rw a
write_fn-Returns w q _ _ (was_closed c a) = rw a
write_fn-Returns w q _ _ (session_ended e a) = rw a

pub write_fn-Waits : (w : Wire) (q : Quinn) (op : Op) → Waits q op → write_fn w q op ≡ none
unfolding write_fn
write_fn-Waits w q _ (write_waits bytes a) = rw a
write_fn-Waits w q _ (write_some_waits bytes a) = rw a
write_fn-Waits w q _ (close_waits a) = rw a
