-- ===== src/Errors/Laws/Tests.antt =====
-- The mapping of errors at concrete inputs.
use web_transport_quinn_py.Prelude.{String, Option, ℕ, ◌≡◌, ◌↔◌, refl, true, false, some, [], ◌∷◌}
use web_transport_quinn_py.Errors.Classes.{
  is_subclass, web_transport_error, session_error, datagram_error, connect_error, session_rejected,
  stream_closed_by_peer, stream_closed_locally, session_timeout,
}
use web_transport_quinn_py.Errors.Exceptions.{str, int, new_session_closed_by_peer, code_str}
use web_transport_quinn_py.Prelude.{decimal}
use web_transport_quinn_py.Errors.Foreign.{
  http_error, proto_error, wrong_status, Wire, SessionError, WriteError, ReadError, ClientError,
  WebTransportError,
}
use web_transport_quinn_py.Errors.Mapping.{
  map_client_error, map_session_error, map_write_error, map_read_error,
}
use web_transport_quinn_py.Errors.Laws.{is_registered, register_complete, map_session_error-class}
use web_transport_quinn_py.Errors.Laws.Streams.{
  ClosesSession, closed_attrs, map_session_error-attrs, map_write_error-class, map_read_error-class,
  map_client_error-class,
}

abbrev plain_wire : Wire
plain_wire = record { error_from_http3 = λ c. some c; from_utf8_lossy = λ _. "" }

abbrev closed_by_peer : SessionError
closed_by_peer = SessionError.web_transport_error (WebTransportError.closed 42 "bye")

peer_message :
    (map_session_error plain_wire closed_by_peer).args ≡ "peer closed session (code 42): bye" ∷ []
unfolding map_session_error new_session_closed_by_peer code_str decimal
peer_message = refl

register_complete_example :
    is_registered session_timeout ≡ is_subclass session_timeout web_transport_error
register_complete_example = register_complete session_timeout

map_session_error-class_example :
    (is_subclass (map_session_error plain_wire closed_by_peer).cls session_error ≡ true)
    × (is_subclass (map_session_error plain_wire closed_by_peer).cls datagram_error ≡ false)
map_session_error-class_example = map_session_error-class plain_wire closed_by_peer

map_session_error-attrs_example :
    (source : String) × (code : Option ℕ) × (reason : String) × ClosesSession plain_wire
      closed_by_peer source code reason
    × ((map_session_error plain_wire closed_by_peer).attrs
        ≡ closed_attrs plain_wire source code reason)
unfolding map_session_error new_session_closed_by_peer
map_session_error-attrs_example = map_session_error-attrs plain_wire closed_by_peer refl

map_write_error-class_example :
    (((map_write_error plain_wire (WriteError.stopped 7)).cls ≡ stream_closed_by_peer) ↔ (
      (code : ℕ) × (WriteError.stopped 7 ≡ WriteError.stopped code)
      × ((map_write_error plain_wire (WriteError.stopped 7)).attrs
          ≡ ("kind", str "stop") ∷ ("code", int code) ∷ [])))
    × (((map_write_error plain_wire (WriteError.stopped 7)).cls ≡ stream_closed_locally)
        ↔ (WriteError.stopped 7 ≡ WriteError.closed_stream))
map_write_error-class_example = map_write_error-class plain_wire (WriteError.stopped 7)

map_read_error-class_example :
    (((map_read_error plain_wire (ReadError.reset 7)).cls ≡ stream_closed_by_peer) ↔ (
      (code : ℕ) × (ReadError.reset 7 ≡ ReadError.reset code)
      × ((map_read_error plain_wire (ReadError.reset 7)).attrs
          ≡ ("kind", str "reset") ∷ ("code", int code) ∷ [])))
    × (((map_read_error plain_wire (ReadError.reset 7)).cls ≡ stream_closed_locally)
        ↔ (ReadError.reset 7 ≡ ReadError.closed_stream))
map_read_error-class_example = map_read_error-class plain_wire (ReadError.reset 7)

abbrev forbidden : ClientError
forbidden = record {
  kind = http_error (proto_error (wrong_status (some 403)));
  display = "wrong status: 403";
}

map_client_error-class_example :
    (is_subclass (map_client_error forbidden).cls connect_error ≡ true)
    × (((map_client_error forbidden).cls ≡ session_rejected) ↔ (
        (status : ℕ) × (http_error (proto_error (wrong_status (some 403)))
          ≡ http_error (proto_error (wrong_status (some status))))
        × ((map_client_error forbidden).attrs ≡ ("status_code", int status) ∷ [])))
map_client_error-class_example = map_client_error-class forbidden
