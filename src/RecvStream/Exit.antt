-- ===== src/RecvStream/Exit.antt =====
-- Leaving an `async with` block of src/recv_stream.rs without an exception.
use web_transport_quinn_py.Prelude.{
  ℕ, ◌≡◌, Bool, true, false, ◌||◌, Option, none, some, ◌∷◌, ◌==◌, arith, if◌then◌else◌,
}
use web_transport_quinn_py.Prelude.Result.{ok}
use web_transport_quinn_py.Errors.Foreign.{Wire}
use web_transport_quinn_py.RecvStream.{
  RecvStream, Call, nothing, idle, exiting, done, poll_at, heir, exit_at, aexit_at, step, aexit,
  poll,
}

-- The mutex is free, or was handed to future `j`.
abbrev pub available : Option ℕ → ℕ → Bool
available none j = true
available (some o) j = o == j

module _ (w : Wire) where
  -- A clean exit, in its first poll: at the end of the stream it returns without a call, and without
  -- the mutex; before the end it calls `stop` with code 0 on the inner stream and returns if the
  -- mutex is free, and else waits for it without a call. It never touches the token, the code or a
  -- mutex that another future has.
  pub clean_exit :
      (s : RecvStream) (j : ℕ) (m : Option ℕ)
      → s.tasks j ≡ idle
      → ((step w s (aexit j false m)).calls ≡ (
          if s.eof then s.calls else if available s.lock j then Call.stop 0 ∷ s.calls else s.calls))
        × ((step w s (aexit j false m)).tasks j
            ≡ (if s.eof || available s.lock j then done (ok nothing) else exiting))
        × ((step w s (aexit j false m)).lock
            ≡ (if s.eof then s.lock else if available s.lock j then heir s j m else s.lock))
        × ((step w s (aexit j false m)).cancelled ≡ s.cancelled)
        × ((step w s (aexit j false m)).stop_code ≡ s.stop_code)
  unfolding step aexit_at exit_at
  clean_exit s j m e = (ground arith, ground arith, ground arith, ground arith, ground arith)

  -- A clean exit that waits, polled when the mutex is free or was handed to it, calls `stop` with
  -- code 0 and returns; polled otherwise, it stays where it is.
  pub exiting_stops :
      (s : RecvStream) (j : ℕ) (n : Option ℕ)
      → s.tasks j ≡ exiting
      → ((step w s (poll j n)).calls
          ≡ (if available s.lock j then Call.stop 0 ∷ s.calls else s.calls))
        × ((step w s (poll j n)).tasks j
            ≡ (if available s.lock j then done (ok nothing) else exiting))
  unfolding step poll_at exit_at
  exiting_stops s j n e = (ground arith, ground arith)
