-- ===== src/Errors/Laws.antt =====
-- src/errors.rs: the classes that are registered, and those of session errors.
pub mod Streams
mod Tests
use text.Mathlib.Text.{◌==◌ as str_eq}
use mathlib.Core.Logic.{ite}
use web_transport_quinn_py.Prelude.{
  ℕ, ◌≡◌, refl, ◌≤◌, ◌↔◌, ◌⊎◌, inl, inr, String, Bool, true, false, ◌&&◌, not, Option, none, some,
  List, [], ◌∷◌, arith, any, length, take, length-take,
}
use web_transport_quinn_py.Errors.Classes.{
  ExcClass, ExcClass-discrete, is_subclass, register, web_transport_error, session_error,
  connect_error, session_rejected, session_closed_by_peer, stream_error, stream_closed_by_peer,
  stream_closed_locally, datagram_error,
}
use web_transport_quinn_py.Errors.Exceptions.{
  PyErr, Attr, str, int, opt_int, bytes, new_session_closed_by_peer, new_stream_closed_by_peer,
  new_stream_incomplete_read_error, new_session_rejected, new_datagram_not_supported_error,
}
use web_transport_quinn_py.Errors.Foreign.{
  Wire, ConnectionError, SendDatagramError, WebTransportError, SessionError, WriteError, ReadError,
  ReadToEndError, ReadExactError, ClientError, ServerError,
}
use web_transport_quinn_py.Errors.Mapping.{
  map_client_error, map_connection_error, map_send_datagram_error, map_session_error,
  map_write_error, map_read_error, map_read_to_end_error, map_read_exact_error, map_server_error,
}

abbrev pub is_registered : ExcClass → Bool
is_registered c = any (λ (_, d). ite (ExcClass-discrete d c) true false) register

-- `register` adds exactly the classes that derive from `WebTransportError`.
pub register_complete : (c : ExcClass) → is_registered c ≡ is_subclass c web_transport_error
unfolding is_subclass register
register_complete ExcClass.base_exception = refl
register_complete _ = refl

-- The errors of `send_datagram` that do not come from a lost connection.
abbrev pub is_datagram : SessionError → Bool
is_datagram (SessionError.send_datagram_error (SendDatagramError.connection_lost ce)) = false
is_datagram (SessionError.send_datagram_error _) = true
is_datagram _ = false

module _ (w : Wire) where
  map_connection_error-class :
      (e : ConnectionError)
      → (is_subclass (map_connection_error w e).cls session_error ≡ true)
        × (is_subclass (map_connection_error w e).cls datagram_error ≡ false)
  unfolding map_connection_error new_session_closed_by_peer is_subclass
  map_connection_error-class ConnectionError.reset = (refl, refl)
  map_connection_error-class _ = (refl, refl)

  -- A session error is raised as a `SessionError`, except that a refused datagram is raised as a
  -- `DatagramError` instead.
  pub map_session_error-class :
      (e : SessionError)
      → (is_subclass (map_session_error w e).cls session_error ≡ not (is_datagram e))
        × (is_subclass (map_session_error w e).cls datagram_error ≡ is_datagram e)
  unfolding map_session_error map_send_datagram_error new_session_closed_by_peer
      new_datagram_not_supported_error is_subclass
  map_session_error-class (SessionError.connection_error ce) = map_connection_error-class ce
  map_session_error-class (SessionError.web_transport_error (WebTransportError.closed c r)) =
      (refl, refl)
  map_session_error-class (SessionError.web_transport_error (WebTransportError.other d)) =
      (refl, refl)
  map_session_error-class
        (SessionError.send_datagram_error (SendDatagramError.connection_lost ce)) =
      map_connection_error-class ce
  map_session_error-class (SessionError.send_datagram_error SendDatagramError.disabled) =
      (refl, refl)
  map_session_error-class (SessionError.send_datagram_error SendDatagramError.too_large) =
      (refl, refl)
  map_session_error-class (SessionError.send_datagram_error SendDatagramError.unsupported_by_peer) =
      (refl, refl)
