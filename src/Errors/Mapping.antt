-- ===== src/Errors/Mapping.antt =====
-- src/errors.rs: the functions `map_*_error`.
use web_transport_quinn_py.Prelude.{
  ℕ, ◌<>◌, none, some, List, [], ◌∷◌, if◌then◌else◌, leb, length, take, decimal,
}
use web_transport_quinn_py.Errors.Classes.{
  session_closed_locally, session_timeout, protocol_error, stream_closed_locally,
  stream_too_long_error, datagram_too_large_error, connect_error, panic_exception,
}
use web_transport_quinn_py.Errors.Classes
use web_transport_quinn_py.Errors.Exceptions.{
  PyErr, int, new_err, set_attrs, new_session_closed_by_peer, new_stream_closed_by_peer,
  new_stream_incomplete_read_error, new_session_rejected, new_datagram_not_supported_error,
}
use web_transport_quinn_py.Errors.Foreign.{
  Wire, ConnectionError, SendDatagramError, WebTransportError, SessionError, WriteError, ReadError,
  ReadToEndError, ReadExactError, ClientError, ServerError, http_error, proto_error, wrong_status,
}

unfoldable pub map_client_error : ClientError → PyErr
map_client_error e = elim e.kind [
  | http_error (proto_error (wrong_status (some status))) ↦ new_session_rejected status e.display
  | _ ↦ new_err connect_error e.display
]

module _ (w : Wire) where
  open w use {error_from_http3, from_utf8_lossy}

  unfoldable pub map_connection_error : ConnectionError → PyErr
  map_connection_error ConnectionError.timed_out = new_err session_timeout "session timed out"
  map_connection_error ConnectionError.locally_closed =
      new_err session_closed_locally "session closed locally"
  map_connection_error (ConnectionError.application_closed error_code reason) =
      new_session_closed_by_peer "application" (error_from_http3 error_code)
        (from_utf8_lossy reason)
  map_connection_error (ConnectionError.connection_closed error_code reason) =
      new_session_closed_by_peer "transport" (some error_code) (from_utf8_lossy reason)
  map_connection_error ConnectionError.reset = new_session_closed_by_peer "connection-reset" none ""
  map_connection_error (ConnectionError.transport_error display) = new_err protocol_error display
  map_connection_error ConnectionError.version_mismatch =
      new_err protocol_error "QUIC version mismatch"
  map_connection_error ConnectionError.cids_exhausted =
      new_err protocol_error "connection IDs exhausted"

  unfoldable pub map_send_datagram_error : SendDatagramError → PyErr
  map_send_datagram_error SendDatagramError.unsupported_by_peer =
      new_datagram_not_supported_error "unsupported_by_peer"
  map_send_datagram_error SendDatagramError.disabled =
      new_datagram_not_supported_error "disabled_locally"
  map_send_datagram_error SendDatagramError.too_large =
      new_err datagram_too_large_error "datagram too large"
  map_send_datagram_error (SendDatagramError.connection_lost ce) = map_connection_error ce

  unfoldable pub map_session_error : SessionError → PyErr
  map_session_error (SessionError.connection_error ce) = map_connection_error ce
  map_session_error (SessionError.web_transport_error (WebTransportError.closed code reason)) =
      new_session_closed_by_peer "session" (some code) reason
  map_session_error (SessionError.web_transport_error (WebTransportError.other display)) =
      new_err protocol_error display
  map_session_error (SessionError.send_datagram_error sde) = map_send_datagram_error sde

  unfoldable pub map_write_error : WriteError → PyErr
  map_write_error (WriteError.stopped code) = new_stream_closed_by_peer "stop" code
  map_write_error WriteError.invalid_stopped =
      new_err protocol_error "peer sent STOP_SENDING with invalid error code"
  map_write_error (WriteError.session_error se) = map_session_error se
  map_write_error WriteError.closed_stream = new_err stream_closed_locally "stream already closed"

  unfoldable pub map_read_error : ReadError → PyErr
  map_read_error (ReadError.reset code) = new_stream_closed_by_peer "reset" code
  map_read_error ReadError.invalid_reset =
      new_err protocol_error "peer sent RESET_STREAM with invalid error code"
  map_read_error (ReadError.session_error se) = map_session_error se
  map_read_error ReadError.closed_stream = new_err stream_closed_locally "stream already closed"
  map_read_error ReadError.illegal_ordered_read =
      new_err protocol_error "illegal ordered read on unordered stream"

  unfoldable pub map_read_to_end_error : ReadToEndError → ℕ → PyErr
  map_read_to_end_error ReadToEndError.too_long limit =
      set_attrs
        (new_err stream_too_long_error
          ("stream data exceeded " <> (decimal limit <> " byte limit")))
        (("limit", int limit) ∷ [])
  map_read_to_end_error (ReadToEndError.read_error re) limit = map_read_error re

  -- The slice `buf[..bytes_read]` panics past the end of the buffer.
  unfoldable pub map_read_exact_error : ReadExactError → ℕ → List ℕ → PyErr
  map_read_exact_error (ReadExactError.finished_early bytes_read) expected buf =
      if leb bytes_read (length buf)
      then new_stream_incomplete_read_error expected (take bytes_read buf)
      else new_err panic_exception (
          "range end index "
          <> (decimal bytes_read <> (" out of range for slice of length " <> decimal (length buf))))
  map_read_exact_error (ReadExactError.read_error re) expected buf = map_read_error re

  unfoldable pub map_server_error : ServerError → PyErr
  map_server_error (ServerError.connection ce) = map_connection_error ce
  map_server_error (ServerError.unexpected_end display) = new_err Classes.session_error display
  map_server_error (ServerError.write_error display) = new_err Classes.session_error display
  map_server_error (ServerError.read_error display) = new_err Classes.session_error display
  map_server_error (ServerError.settings_error display) = new_err Classes.session_error display
  map_server_error (ServerError.connect_error display) = new_err Classes.session_error display
  map_server_error (ServerError.io_error display) = new_err Classes.session_error display
  map_server_error (ServerError.rustls display) = new_err Classes.session_error display
