-- ===== src/Errors/Classes.antt =====
-- src/errors.rs: the exception hierarchy that `create_exception!` builds, and `register`.
use mathlib.Core.Logic.{ite}
use web_transport_quinn_py.Prelude.{
  ℕ, zero, suc, ◌≡◌, refl, String, Bool, true, false, Option, none, some, List, [], ◌∷◌,
}

-- The classes of the module, and the classes of Python and PyO3 that it derives from or raises.
pub data ExcClass : Type 0 where
  base_exception exception value_error stop_async_iteration panic_exception : ExcClass
  web_transport_error : ExcClass
  session_error connect_error session_rejected : ExcClass
  session_closed session_closed_by_peer session_closed_locally : ExcClass
  session_timeout protocol_error : ExcClass
  stream_error stream_closed stream_closed_by_peer stream_closed_locally : ExcClass
  stream_too_long_error stream_incomplete_read_error : ExcClass
  datagram_error datagram_too_large_error datagram_not_supported_error : ExcClass

unfoldable pub ExcClass-discrete : Discrete ExcClass
ExcClass-discrete = hlevel

-- The class that a class is created from: the last argument of `create_exception!`.
unfoldable pub base : ExcClass → Option ExcClass
base base_exception = none
base panic_exception = some base_exception
base exception = some base_exception
base value_error = some exception
base stop_async_iteration = some exception
base web_transport_error = some exception
base session_error = some web_transport_error
base connect_error = some session_error
base session_rejected = some connect_error
base session_closed = some session_error
base session_closed_by_peer = some session_closed
base session_closed_locally = some session_closed
base session_timeout = some session_error
base protocol_error = some session_error
base stream_error = some web_transport_error
base stream_closed = some stream_error
base stream_closed_by_peer = some stream_closed
base stream_closed_locally = some stream_closed
base stream_too_long_error = some stream_error
base stream_incomplete_read_error = some stream_error
base datagram_error = some web_transport_error
base datagram_too_large_error = some datagram_error
base datagram_not_supported_error = some datagram_error

-- `issubclass`, by at most `n` steps up the hierarchy.
unfoldable pub climbs : ℕ → ExcClass → ExcClass → Bool
climbs zero c d = ite (ExcClass-discrete c d) true false
climbs (suc n) c d =
    ite (ExcClass-discrete c d) true (elim (base c) [ none ↦ false | some b ↦ climbs n b d ])

-- No class is more than five steps below `BaseException`, so five are enough.
unfoldable pub is_subclass : ExcClass → ExcClass → Bool
unfolding climbs base ExcClass-discrete
is_subclass = climbs 5

-- The names under which `register` adds the classes to the module, in its order.
unfoldable pub register : List (String × ExcClass)
register =
    ("WebTransportError", web_transport_error)
    ∷ ("SessionError", session_error)
    ∷ ("ConnectError", connect_error)
    ∷ ("SessionRejected", session_rejected)
    ∷ ("SessionClosed", session_closed)
    ∷ ("SessionClosedByPeer", session_closed_by_peer)
    ∷ ("SessionClosedLocally", session_closed_locally)
    ∷ ("SessionTimeout", session_timeout)
    ∷ ("ProtocolError", protocol_error)
    ∷ ("StreamError", stream_error)
    ∷ ("StreamClosed", stream_closed)
    ∷ ("StreamClosedByPeer", stream_closed_by_peer)
    ∷ ("StreamClosedLocally", stream_closed_locally)
    ∷ ("StreamTooLongError", stream_too_long_error)
    ∷ ("StreamIncompleteReadError", stream_incomplete_read_error)
    ∷ ("DatagramError", datagram_error)
    ∷ ("DatagramTooLargeError", datagram_too_large_error)
    ∷ ("DatagramNotSupportedError", datagram_not_supported_error)
    ∷ []

rejected_is_session_error : is_subclass session_rejected session_error ≡ true
unfolding is_subclass
rejected_is_session_error = refl
