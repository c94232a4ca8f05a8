-- ===== src/RecvStream/Answers.antt =====
-- What the operations of src/recv_stream.rs are to return, as a table of answers and results.
use web_transport_quinn_py.Prelude.{
  ℕ, suc, ◌≡◌, ◌≤◌, Bool, true, false, Option, none, some, List, [], arith, length, take,
}
use web_transport_quinn_py.Prelude.Result.{ok, err}
use web_transport_quinn_py.Errors.Exceptions.{PyResult}
use web_transport_quinn_py.Errors.Foreign.{
  Wire, ReadError, ReadToEndError, ReadExactError, SessionError,
}
use web_transport_quinn_py.Errors.Exceptions.{new_stream_incomplete_read_error}
use web_transport_quinn_py.Errors.Mapping.{
  map_read_error, map_read_to_end_error, map_read_exact_error, map_session_error,
}
use web_transport_quinn_py.Errors.Laws.Streams.{map_read_exact_error-partial}
use web_transport_quinn_py.Prelude.Int.{pos, negsuc}
use web_transport_quinn_py.RecvStream.{
  Op, Value, Quinn, anext, read, readexactly, wait_closed, chunk, code, end_of_iteration, usize_max,
  read_fn, pending, ended,
}

-- What an operation returns for an answer of the inner stream, where the end was not seen before,
-- and whether it is seen then.
pub data Returns (w : Wire) (q : Quinn) : Op → Bool → PyResult Value → Type 0 where
  iterated :
      (bytes : List ℕ)
      → q.read_chunk 65536 ≡ some (ok (some bytes))
      → Returns w q anext false (ok (chunk bytes))
  iteration_ended :
      q.read_chunk 65536 ≡ some (ok none) → Returns w q anext true (err end_of_iteration)
  iteration_failed :
      (e : ReadError)
      → q.read_chunk 65536 ≡ some (err e)
      → Returns w q anext false (err (map_read_error w e))
  was_read :
      (n : ℕ) (limit : Option ℕ) (bytes : List ℕ)
      → q.read_chunk (suc n) ≡ some (ok (some bytes))
      → Returns w q (read (pos (suc n)) limit) false (ok (chunk bytes))
  read_ended :
      (n : ℕ) (limit : Option ℕ)
      → q.read_chunk (suc n) ≡ some (ok none)
      → Returns w q (read (pos (suc n)) limit) true (ok (chunk []))
  read_failed :
      (n : ℕ) (limit : Option ℕ) (e : ReadError)
      → q.read_chunk (suc n) ≡ some (err e)
      → Returns w q (read (pos (suc n)) limit) false (err (map_read_error w e))
  read_to_limit :
      (n l : ℕ) (bytes : List ℕ)
      → q.read_to_end l ≡ some (ok bytes)
      → Returns w q (read (negsuc n) (some l)) true (ok (chunk bytes))
  read_to_limit_failed :
      (n l : ℕ) (e : ReadToEndError)
      → q.read_to_end l ≡ some (err e)
      → Returns w q (read (negsuc n) (some l)) false (err (map_read_to_end_error w e l))
  read_all :
      (n : ℕ) (bytes : List ℕ)
      → q.read_to_end usize_max ≡ some (ok bytes)
      → Returns w q (read (negsuc n) none) true (ok (chunk bytes))
  read_all_failed :
      (n : ℕ) (e : ReadToEndError)
      → q.read_to_end usize_max ≡ some (err e)
      → Returns w q (read (negsuc n) none) false (err (map_read_to_end_error w e usize_max))
  filled :
      (n : ℕ) (buf : List ℕ)
      → q.read_exact n ≡ some (buf, ok tt)
      → Returns w q (readexactly n) false (ok (chunk buf))
  finished_early :
      (n k : ℕ) (buf : List ℕ)
      → q.read_exact n ≡ some (buf, err (ReadExactError.finished_early k))
      → k ≤ length buf
      → Returns w q (readexactly n) true (err (new_stream_incomplete_read_error n (take k buf)))
  fill_failed :
      (n : ℕ) (buf : List ℕ) (e : ReadError)
      → q.read_exact n ≡ some (buf, err (ReadExactError.read_error e))
      → Returns w q (readexactly n) false (err (map_read_error w e))
  was_closed :
      (c : Option ℕ) → q.received_reset ≡ some (ok c) → Returns w q wait_closed false (ok (code c))
  session_ended :
      (e : SessionError)
      → q.received_reset ≡ some (err e)
      → Returns w q wait_closed false (err (map_session_error w e))

-- The answers that leave it pending.
pub data Waits (q : Quinn) : Op → Type 0 where
  iteration_waits : q.read_chunk 65536 ≡ none → Waits q anext
  read_waits :
      (n : ℕ) (limit : Option ℕ) → q.read_chunk (suc n) ≡ none → Waits q (read (pos (suc n)) limit)
  read_to_limit_waits : (n l : ℕ) → q.read_to_end l ≡ none → Waits q (read (negsuc n) (some l))
  read_all_waits : (n : ℕ) → q.read_to_end usize_max ≡ none → Waits q (read (negsuc n) none)
  fill_waits : (n : ℕ) → q.read_exact n ≡ none → Waits q (readexactly n)
  close_waits : q.received_reset ≡ none → Waits q wait_closed

pub read_fn-Returns :
    (w : Wire) (q : Quinn) (op : Op) (b : Bool) (r : PyResult Value)
    → Returns w q op b r
    → read_fn w q false op ≡ ended b r
unfolding read_fn map_read_exact_error
read_fn-Returns w q _ _ _ (iterated bytes a) = rw a
read_fn-Returns w q _ _ _ (iteration_ended a) = rw a
read_fn-Returns w q _ _ _ (iteration_failed e a) = rw a
read_fn-Returns w q _ _ _ (was_read n limit bytes a) = rw a
read_fn-Returns w q _ _ _ (read_ended n limit a) = rw a
read_fn-Returns w q _ _ _ (read_failed n limit e a) = rw a
read_fn-Returns w q _ _ _ (read_to_limit n l bytes a) = rw a
read_fn-Returns w q _ _ _ (read_to_limit_failed n l e a) = rw a
read_fn-Returns w q _ _ _ (read_all n bytes a) = rw a
read_fn-Returns w q _ _ _ (read_all_failed n e a) = rw a
read_fn-Returns w q _ _ _ (filled n buf a) = ground (arith, a)
read_fn-Returns w q _ _ _ (finished_early n k buf a fits) =
    ground (arith, a, (map_read_exact_error-partial w k n buf fits).0)
read_fn-Returns w q _ _ _ (fill_failed n buf e a) = ground (arith, a)
read_fn-Returns w q _ _ _ (was_closed c a) = rw a
read_fn-Returns w q _ _ _ (session_ended e a) = rw a

pub read_fn-Waits : (w : Wire) (q : Quinn) (op : Op) → Waits q op → read_fn w q false op ≡ pending
unfolding read_fn
read_fn-Waits w q _ (iteration_waits a) = rw a
read_fn-Waits w q _ (read_waits n limit a) = rw a
read_fn-Waits w q _ (read_to_limit_waits n l a) = rw a
read_fn-Waits w q _ (read_all_waits n a) = rw a
read_fn-Waits w q _ (fill_waits n a) = ground (arith, a)
read_fn-Waits w q _ (close_waits a) = rw a
