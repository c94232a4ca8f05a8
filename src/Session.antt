-- ===== src/Session.antt =====
-- src/session.rs: `Session`, a thin layer over `web_transport_quinn::Session`. A method's future is
-- a function of what the inner session answers in the end.
pub mod Laws
mod Tests
use mathlib.Core.Option
use web_transport_quinn_py.Prelude.{ℕ, String, Option, none, some, List, [], ◌∷◌}
use web_transport_quinn_py.Prelude.Result.{Result, ok, err, ◌>>=◌, map_err}
use web_transport_quinn_py.Errors.Exceptions.{PyErr, PyResult}
use web_transport_quinn_py.Errors.Foreign.{Wire, SessionError}
use web_transport_quinn_py.Errors.Mapping.{map_session_error}
use web_transport_quinn_py.SendStream
use web_transport_quinn_py.SendStream.{SendStream}
use web_transport_quinn_py.RecvStream
use web_transport_quinn_py.RecvStream.{RecvStream}

-- The calls on the inner session that do not return a stream or a datagram.
pub data Call : Type 0 where
  close : (code : ℕ) (reason : String) → Call
  closed : Call
  send_datagram : List ℕ → Call

-- The session object, by the calls made on the inner session, the latest first.
pub record Session : Type 0 where
  pub calls : List Call

-- `Session::new`
unfoldable pub new : Session
new = record { calls = [] }

abbrev log : Session → Call → Session
log s c = record s { calls = c ∷ s.calls }

-- A new inner send stream is given by its priority, if it has one.
abbrev pub InnerSend : Type 0
InnerSend = Option ℕ

module _ (w : Wire) where
  unfoldable pub open_bi : Result InnerSend SessionError → PyResult (SendStream × RecvStream)
  open_bi answer = do
    send ← map_err (map_session_error w) answer
    ok (SendStream.new send, RecvStream.new)

  unfoldable pub open_uni : Result InnerSend SessionError → PyResult SendStream
  open_uni answer = do send ← map_err (map_session_error w) answer; ok (SendStream.new send)

  unfoldable pub accept_bi : Result InnerSend SessionError → PyResult (SendStream × RecvStream)
  accept_bi answer = do
    send ← map_err (map_session_error w) answer
    ok (SendStream.new send, RecvStream.new)

  unfoldable pub accept_uni : Result (Unit {0}) SessionError → PyResult RecvStream
  accept_uni answer = do _ ← map_err (map_session_error w) answer; ok RecvStream.new

  unfoldable pub send_datagram_with :
      Session → List ℕ → Result (Unit {0}) SessionError → Session × PyResult (Unit {0})
  send_datagram_with s bytes answer =
      (log s (send_datagram bytes), do _ ← map_err (map_session_error w) answer; ok tt)

  unfoldable pub receive_datagram : Result (List ℕ) SessionError → PyResult (List ℕ)
  receive_datagram answer = do bytes ← map_err (map_session_error w) answer; ok bytes

  -- The getter `close_reason`: the exception, or nothing while the session is open.
  unfoldable pub close_reason : Option SessionError → Option PyErr
  close_reason = Option.map (map_session_error w)

-- `close`, and the futures of `wait_closed` and `__aexit__`, which drop what they wait for.
unfoldable pub do_close : Session → ℕ → String → Session
do_close s code reason = log s (close code reason)

unfoldable pub wait_closed : Session → SessionError → Session × PyResult (Unit {0})
wait_closed s reason = (log s closed, ok tt)

unfoldable pub aexit : Session → SessionError → Session × PyResult (Unit {0})
unfolding do_close wait_closed
aexit s reason = wait_closed (do_close s 0 "") reason
