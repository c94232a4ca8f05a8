-- ===== src/RecvStream/Bounds.antt =====
-- How many bytes a read of src/recv_stream.rs returns, and what a short `readexactly` reports.
use mathlib.Core.Option.{get_or}
use web_transport_quinn_py.Prelude.{
  ℕ, zero, suc, ◌≤◌, ◌≡◌, refl, Bool, true, false, Option, none, some, List, arith, length, take,
}
use web_transport_quinn_py.Prelude.Int.{pos, negsuc}
use web_transport_quinn_py.Prelude.Result.{Result, ok, err}
use web_transport_quinn_py.Errors.Exceptions.{PyResult, new_stream_incomplete_read_error}
use web_transport_quinn_py.Errors.Foreign.{Wire, ReadError, ReadToEndError, ReadExactError}
use web_transport_quinn_py.Errors.Laws.Streams.{map_read_exact_error-partial}
use web_transport_quinn_py.RecvStream.{
  Op, Value, Quinn, anext, read, readexactly, wait_closed, chunk, read_fn, chunk_read, to_end_read,
  exact_read, Polled, returns, ended, chunk_size, usize_max,
}

-- What the documentation of the inner stream says of its answers.
pub record IsBounded (q : Quinn) : Type 0 where
  pub chunk_fits :
      (max : ℕ) (bytes : List ℕ) → q.read_chunk max ≡ some (ok (some bytes)) → length bytes ≤ max
  pub rest_fits :
      (limit : ℕ) (bytes : List ℕ) → q.read_to_end limit ≡ some (ok bytes) → length bytes ≤ limit
  pub buffer_full :
      (n : ℕ) (buf : List ℕ) (r : Result (Unit {0}) ReadExactError)
      → q.read_exact n ≡ some (buf, r)
      → length buf ≡ n
  pub early :
      (n k : ℕ) (buf : List ℕ)
      → q.read_exact n ≡ some (buf, err (ReadExactError.finished_early k))
      → k ≤ n

-- The number of bytes that an operation may return.
abbrev pub room : Op → ℕ
room anext = chunk_size
room (read (negsuc _) limit) = get_or limit usize_max
room (read (pos n) limit) = n
room (readexactly n) = n
room wait_closed = 0

-- The outcome of a poll respects the room.
abbrev pub Fits : ℕ → Polled → Type 0
Fits n (returns (ok (chunk bytes))) = length bytes ≤ n
Fits n (ended e (ok (chunk bytes))) = length bytes ≤ n
Fits n _ = Unit

module _ (w : Wire) where
  chunk_read-Fits :
      (n : ℕ) (last : PyResult Value) (a : Option (Result (Option (List ℕ)) ReadError))
      → Fits n (ended true last)
      → ((bytes : List ℕ) → a ≡ some (ok (some bytes)) → length bytes ≤ n)
      → Fits n (chunk_read w last false a)
  unfolding chunk_read
  chunk_read-Fits n last none l h = tt
  chunk_read-Fits n last (some (err e)) l h = tt
  chunk_read-Fits n last (some (ok none)) l h = l
  chunk_read-Fits n last (some (ok (some bytes))) l h = h bytes refl

  to_end_read-Fits :
      (n : ℕ) (a : Option (Result (List ℕ) ReadToEndError))
      → ((bytes : List ℕ) → a ≡ some (ok bytes) → length bytes ≤ n)
      → Fits n (to_end_read w n false a)
  unfolding to_end_read
  to_end_read-Fits n none h = tt
  to_end_read-Fits n (some (err e)) h = tt
  to_end_read-Fits n (some (ok bytes)) h = h bytes refl

  exact_read-Fits :
      (n : ℕ) (eof : Bool) (a : Option (List ℕ × Result (Unit {0}) ReadExactError))
      → ((buf : List ℕ) (r : Result (Unit {0}) ReadExactError) → a ≡ some (buf, r) → length buf ≡ n)
      → Fits n (exact_read w n eof a)
  unfolding exact_read
  exact_read-Fits n eof none h = tt
  exact_read-Fits n eof (some (buf, ok x)) h = omega (arith, h buf (ok x) refl)
  exact_read-Fits n eof (some (buf, err e)) h = tt

  -- No operation returns more bytes than was asked for: at most `n` for `read(n)` and
  -- `readexactly(n)`, at most `limit` for a read to the end, and at most one chunk for an
  -- iteration, if the inner stream keeps to its own bounds.
  pub read_fn-Fits :
      (q : Quinn) (eof : Bool) (op : Op) → IsBounded q → Fits (room op) (read_fn w q eof op)
  unfolding read_fn
  read_fn-Fits q true anext b = tt
  read_fn-Fits q false anext b = chunk_read-Fits _ _ _ tt (b.chunk_fits _)
  read_fn-Fits q true (read (pos n) l) b = omega arith
  read_fn-Fits q true (read (negsuc n) l) b = omega arith
  read_fn-Fits q false (read (negsuc n) l) b = to_end_read-Fits _ _ (b.rest_fits _)
  read_fn-Fits q false (read (pos zero) l) b = omega arith
  read_fn-Fits q false (read (pos (suc n)) l) b =
      chunk_read-Fits _ _ _ (omega arith) (b.chunk_fits _)
  read_fn-Fits q true (readexactly zero) b = exact_read-Fits _ _ _ (b.buffer_full _)
  read_fn-Fits q true (readexactly (suc n)) b = ground arith
  read_fn-Fits q false (readexactly zero) b = exact_read-Fits _ _ _ (b.buffer_full _)
  read_fn-Fits q false (readexactly (suc n)) b =
      ground (arith, exact_read-Fits (suc n) false (q.read_exact (suc n)) (b.buffer_full (suc n)))
  read_fn-Fits q eof wait_closed b = ground arith

  -- A `readexactly` that meets the end early raises with the bytes that were read, marks the end,
  -- and never panics on the slice, if the inner stream keeps to its own bounds.
  pub readexactly_short :
      (q : Quinn) (n k : ℕ) (buf : List ℕ)
      → IsBounded q
      → q.read_exact n ≡ some (buf, err (ReadExactError.finished_early k))
      → (read_fn w q false (readexactly n)
          ≡ ended true (err (new_stream_incomplete_read_error n (take k buf))))
        × (length (take k buf) ≡ k)
  unfolding read_fn
  readexactly_short q n k buf b h =
      ground
        (arith, map_read_exact_error-partial w k n buf, b.early n k buf h, b.buffer_full n buf _ h)
