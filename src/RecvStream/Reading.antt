-- ===== src/RecvStream/Reading.antt =====
-- src/recv_stream.rs: what the closures that the methods pass to `cancellable_read` do with the inner stream.
use mathlib.Core.Option.{get_or}
use web_transport_quinn_py.Prelude.{
  ℕ, zero, suc, Bool, true, false, ◌&&◌, Option, none, some, List, [], ltb, if◌then◌else◌,
}
use web_transport_quinn_py.Prelude.Int.{ℤ, pos, negsuc}
use web_transport_quinn_py.Prelude.Result.{Result, ok, err, ◌>>=◌, map_err}
use web_transport_quinn_py.Errors.Exceptions.{PyResult, new_stream_incomplete_read_error}
use web_transport_quinn_py.Errors.Foreign.{Wire, ReadError, ReadToEndError, ReadExactError}
use web_transport_quinn_py.Errors.Mapping.{
  map_read_error, map_read_to_end_error, map_read_exact_error, map_session_error,
}
use web_transport_quinn_py.RecvStream.State.{
  Op, anext, read, readexactly, wait_closed, Value, chunk, code, Quinn, end_of_iteration,
  chunk_size, usize_max,
}

-- One poll of an operation's `read_fn`: it returns without a call on the inner stream, or the inner
-- stream is called and is pending, or it answers, which leaves `eof` as given.
pub data Polled : Type 0 where
  returns : PyResult Value → Polled
  pending : Polled
  ended : (eof : Bool) → PyResult Value → Polled

-- The end of `read_chunk`: `at_end` is what the operation returns at the end of the stream.
unfoldable pub chunk_read :
    Wire → PyResult Value → Bool → Option (Result (Option (List ℕ)) ReadError) → Polled
chunk_read w at_end eof none = pending
chunk_read w at_end eof (some (err e)) = ended eof (err (map_read_error w e))
chunk_read w at_end eof (some (ok (some bytes))) = ended eof (ok (chunk bytes))
chunk_read w at_end eof (some (ok none)) = ended true at_end

unfoldable pub to_end_read : Wire → ℕ → Bool → Option (Result (List ℕ) ReadToEndError) → Polled
to_end_read w limit eof none = pending
to_end_read w limit eof (some (err e)) = ended eof (err (map_read_to_end_error w e limit))
to_end_read w limit eof (some (ok bytes)) = ended true (ok (chunk bytes))

abbrev pub is_finished_early : ReadExactError → Bool
is_finished_early (ReadExactError.finished_early _) = true
is_finished_early (ReadExactError.read_error _) = false

unfoldable pub exact_read :
    Wire → ℕ → Bool → Option (List ℕ × Result (Unit {0}) ReadExactError) → Polled
exact_read w n eof none = pending
exact_read w n eof (some (buf, ok _)) = ended eof (ok (chunk buf))
exact_read w n eof (some (buf, err e)) =
    ended (if is_finished_early e then true else eof) (err (map_read_exact_error w e n buf))

-- `read`, past the test of `eof`
unfoldable pub read_more : Wire → Quinn → ℤ → Option ℕ → Polled
unfolding chunk_read to_end_read
read_more w q (negsuc _) limit =
    let l = get_or limit usize_max in to_end_read w l false (q.read_to_end l)
read_more w q (pos zero) limit = returns (ok (chunk []))
read_more w q (pos (suc n)) limit = chunk_read w (ok (chunk [])) false (q.read_chunk (suc n))

unfoldable pub read_fn : Wire → Quinn → Bool → Op → Polled
unfolding read_more exact_read
read_fn w q eof anext =
    if eof
    then returns (err end_of_iteration)
    else chunk_read w (err end_of_iteration) eof (q.read_chunk chunk_size)
read_fn w q eof (read n limit) = if eof then returns (ok (chunk [])) else read_more w q n limit
read_fn w q eof (readexactly n) =
    if ltb 0 n && eof
    then returns (err (new_stream_incomplete_read_error n []))
    else exact_read w n eof (q.read_exact n)
read_fn w q eof wait_closed = elim q.received_reset [
  | none ↦ pending
  | some r ↦ ended eof (do c ← map_err (map_session_error w) r; ok (code c))
]
