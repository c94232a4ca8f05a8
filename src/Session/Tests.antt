-- ===== src/Session/Tests.antt =====
-- The theorems about src/session.rs at concrete inputs.
use web_transport_quinn_py.Prelude.{◌≡◌, refl, none, some, [], ◌∷◌}
use web_transport_quinn_py.Prelude.Result.{ok}
use web_transport_quinn_py.Errors.Foreign.{Wire, SessionError, ConnectionError}
use web_transport_quinn_py.SendStream
use web_transport_quinn_py.RecvStream
use web_transport_quinn_py.SendStream.Completion as Sending
use web_transport_quinn_py.SendStream.Answers as Written
use web_transport_quinn_py.RecvStream.Answers as Given
use web_transport_quinn_py.RecvStream.Completion as Receiving
use web_transport_quinn_py.Session.{new, close, closed, aexit}

abbrev plain_wire : Wire
plain_wire = record { error_from_http3 = λ c. some c; from_utf8_lossy = λ _. "" }

abbrev timed_out : SessionError
timed_out = SessionError.connection_error ConnectionError.timed_out

abbrev busy : SendStream.Quinn
busy = record { write_all = λ _. none; write = λ _. none; finish = ok tt; stopped = none }

aexit_closes : (aexit new timed_out).0.calls ≡ closed ∷ close 0 "" ∷ []
unfolding aexit new
aexit_closes = refl

abbrev at_its_end : RecvStream.Quinn
at_its_end = record {
  read_chunk = λ _. some (ok none);
  read_to_end = λ _. some (ok []);
  read_exact = λ _. none;
  received_reset = none;
}
