-- ===== src/Session/Laws.antt =====
-- What the methods of src/session.rs raise, and what state they hand out.
use web_transport_quinn_py.Prelude.{◌≡◌, Option, not, some}
use web_transport_quinn_py.Errors.Classes.{is_subclass, session_error}
use web_transport_quinn_py.Errors.Exceptions.{PyErr}
use web_transport_quinn_py.Errors.Foreign.{Wire, SessionError}
use web_transport_quinn_py.Errors.Laws.{is_datagram, map_session_error-class}
use web_transport_quinn_py.SendStream
use web_transport_quinn_py.SendStream.{SendStream}
use web_transport_quinn_py.RecvStream
use web_transport_quinn_py.RecvStream.{RecvStream}
use web_transport_quinn_py.SendStream.Completion as Sending
use web_transport_quinn_py.SendStream.Answers as Written
use web_transport_quinn_py.RecvStream.Answers as Given
use web_transport_quinn_py.RecvStream.Completion as Receiving
use web_transport_quinn_py.SendStream.Apart.{Apart as SendApart}
use web_transport_quinn_py.RecvStream.Apart.{Apart as RecvApart}
use web_transport_quinn_py.Session.{close_reason}
use mathlib.Core.Option.{some-injective}

module _ (w : Wire) where
  -- The exception that `close_reason` returns is a `SessionError`, unless the inner session says
  -- that it was closed by an error of a datagram.
  pub close_reason-class :
      (reason : SessionError) (e : PyErr)
      → close_reason w (some reason) ≡ some e
      → is_subclass e.cls session_error ≡ not (is_datagram reason)
  unfolding close_reason
  close_reason-class reason e h = rw (← some-injective _ _ h) (map_session_error-class w reason).0
