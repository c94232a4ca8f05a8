-- ===== src/Errors/Laws/Streams.antt =====
-- src/errors.rs: the errors of streams, of requests and of connecting.
use web_transport_quinn_py.Prelude.{
  ℕ, ◌≡◌, refl, ◌≤◌, String, true, false, Option, none, some, List, [], ◌∷◌, arith, length, take,
  length-take, ◌≢◌, ◌↔◌,
}
use web_transport_quinn_py.Errors.Classes.{
  ExcClass, is_subclass, session_error, connect_error, session_rejected, session_closed_by_peer,
  stream_error, stream_closed_by_peer, stream_closed_locally,
}
use web_transport_quinn_py.Errors.Exceptions.{
  Attr, str, int, opt_int, new_session_closed_by_peer, new_stream_closed_by_peer,
  new_stream_incomplete_read_error, new_session_rejected, new_datagram_not_supported_error,
}
use web_transport_quinn_py.Errors.Foreign.{
  Wire, ConnectionError, SendDatagramError, WebTransportError, SessionError, WriteError, ReadError,
  ReadExactError, ClientError, ServerError, ClientErrorKind, http_error, proto_error, wrong_status,
  other_proto_error, other_connect_error, other_client_error,
}
use web_transport_quinn_py.Errors.Mapping.{
  map_client_error, map_connection_error, map_send_datagram_error, map_session_error,
  map_write_error, map_read_error, map_read_exact_error, map_server_error,
}

module _ (w : Wire) where
  -- How a connection was closed by the peer, as `source`, `code` and `reason` report it.
  pub data Closes : ConnectionError → String → Option ℕ → String → Type 0 where
    by_application :
        (c : ℕ) (reason : List ℕ)
        → Closes
            (ConnectionError.application_closed c reason)
            "application"
            (w.error_from_http3 c)
            (w.from_utf8_lossy reason)
    by_transport :
        (c : ℕ) (reason : List ℕ)
        → Closes
            (ConnectionError.connection_closed c reason)
            "transport"
            (some c)
            (w.from_utf8_lossy reason)
    by_reset : Closes ConnectionError.reset "connection-reset" none ""

  -- How a session was closed by the peer: by a capsule, or with its connection.
  pub data ClosesSession : SessionError → String → Option ℕ → String → Type 0 where
    by_session :
        (c : ℕ) (reason : String)
        → ClosesSession
            (SessionError.web_transport_error (WebTransportError.closed c reason))
            "session"
            (some c)
            reason
    with_connection :
        (e : ConnectionError) (source : String) (code : Option ℕ) (reason : String)
        → Closes e source code reason
        → ClosesSession (SessionError.connection_error e) source code reason
    with_datagram :
        (e : ConnectionError) (source : String) (code : Option ℕ) (reason : String)
        → Closes e source code reason
        → ClosesSession
            (SessionError.send_datagram_error (SendDatagramError.connection_lost e))
            source
            code
            reason

  -- The attributes of a `SessionClosedByPeer`.
  abbrev pub closed_attrs : String → Option ℕ → String → List (String × Attr)
  closed_attrs source code reason =
      ("source", str source) ∷ ("code", opt_int code) ∷ ("reason", str reason) ∷ []

  map_connection_error-Closes :
      (e : ConnectionError)
      → (map_connection_error w e).cls ≡ session_closed_by_peer
      → (source : String) × (code : Option ℕ) × (reason : String) × Closes e source code reason
        × ((map_connection_error w e).attrs ≡ closed_attrs source code reason)
  unfolding map_connection_error new_session_closed_by_peer
  map_connection_error-Closes ConnectionError.reset h = (_, _, _, by_reset, refl)
  map_connection_error-Closes (ConnectionError.application_closed c r) h =
      (_, _, _, by_application c r, refl)
  map_connection_error-Closes (ConnectionError.connection_closed c r) h =
      (_, _, _, by_transport c r, refl)
  map_connection_error-Closes _ h = cc

  -- A session error that is raised as a `SessionClosedByPeer` was one of four closes by the peer, and
  -- the attributes are its own: `source` names it, `code` is its code, translated from HTTP/3 for a
  -- close by the application and `None` only if there is none, and `reason` is its text.
  pub map_session_error-attrs :
      (e : SessionError)
      → (map_session_error w e).cls ≡ session_closed_by_peer
      → (source : String) × (code : Option ℕ) × (reason : String) × ClosesSession e source code
          reason
        × ((map_session_error w e).attrs ≡ closed_attrs source code reason)
  unfolding map_session_error map_send_datagram_error new_session_closed_by_peer
      new_datagram_not_supported_error
  map_session_error-attrs (SessionError.connection_error ce) h =
      let (source, code, reason, c, a) = map_connection_error-Closes ce h in
      (source, code, reason, with_connection ce source code reason c, a)
  map_session_error-attrs (SessionError.web_transport_error (WebTransportError.closed c r)) h =
      (_, _, _, by_session c r, refl)
  map_session_error-attrs (SessionError.web_transport_error (WebTransportError.other d)) h = cc
  map_session_error-attrs (SessionError.send_datagram_error (SendDatagramError.connection_lost ce))
        h =
      let (source, code, reason, c, a) = map_connection_error-Closes ce h in
      (source, code, reason, with_datagram ce source code reason c, a)
  map_session_error-attrs (SessionError.send_datagram_error SendDatagramError.disabled) h = cc
  map_session_error-attrs (SessionError.send_datagram_error SendDatagramError.too_large) h = cc
  map_session_error-attrs (SessionError.send_datagram_error SendDatagramError.unsupported_by_peer)
        h =
      cc

  -- no session error is a stream error
  map_connection_error-stream :
      (e : ConnectionError) → is_subclass (map_connection_error w e).cls stream_error ≡ false
  unfolding map_connection_error new_session_closed_by_peer is_subclass
  map_connection_error-stream ConnectionError.reset = refl
  map_connection_error-stream _ = refl

  map_session_error-stream :
      (e : SessionError) → is_subclass (map_session_error w e).cls stream_error ≡ false
  unfolding map_session_error map_send_datagram_error new_session_closed_by_peer
      new_datagram_not_supported_error is_subclass
  map_session_error-stream (SessionError.connection_error ce) = map_connection_error-stream ce
  map_session_error-stream (SessionError.web_transport_error (WebTransportError.closed c r)) = refl
  map_session_error-stream (SessionError.web_transport_error (WebTransportError.other d)) = refl
  map_session_error-stream
        (SessionError.send_datagram_error (SendDatagramError.connection_lost ce)) =
      map_connection_error-stream ce
  map_session_error-stream (SessionError.send_datagram_error SendDatagramError.disabled) = refl
  map_session_error-stream (SessionError.send_datagram_error SendDatagramError.too_large) = refl
  map_session_error-stream
        (SessionError.send_datagram_error SendDatagramError.unsupported_by_peer) =
      refl

  stream_class :
      (e : SessionError) (c : ExcClass)
      → is_subclass c stream_error ≡ true
      → (map_session_error w e).cls ≢ c
  stream_class e c h q = cc (rw q at (map_session_error-stream e), h)

  -- A write raises `StreamClosedByPeer` exactly for STOP_SENDING, with the peer's code, and
  -- `StreamClosedLocally` exactly for a stream that was closed here before.
  pub map_write_error-class :
      (e : WriteError)
      → (((map_write_error w e).cls ≡ stream_closed_by_peer) ↔ (
          (code : ℕ) × (e ≡ WriteError.stopped code)
          × ((map_write_error w e).attrs ≡ ("kind", str "stop") ∷ ("code", int code) ∷ [])))
        × (((map_write_error w e).cls ≡ stream_closed_locally) ↔ (e ≡ WriteError.closed_stream))
  unfolding map_write_error new_stream_closed_by_peer is_subclass
  map_write_error-class (WriteError.stopped code) =
      ((λ _. (code, refl, refl), λ _. refl), (λ h. cc, λ h. cc))
  map_write_error-class WriteError.invalid_stopped =
      ((λ h. cc, λ (c, q, _). cc), (λ h. cc, λ h. cc))
  map_write_error-class (WriteError.session_error se) = (
    (λ h. absurd (stream_class se _ refl h), λ (c, q, _). cc),
    (λ h. absurd (stream_class se _ refl h), λ h. cc),
  )
  map_write_error-class WriteError.closed_stream =
      ((λ h. cc, λ (c, q, _). cc), (λ _. refl, λ _. refl))

  -- A read raises `StreamClosedByPeer` exactly for RESET_STREAM, with the peer's code, and
  -- `StreamClosedLocally` exactly for a stream that was closed here before.
  pub map_read_error-class :
      (e : ReadError)
      → (((map_read_error w e).cls ≡ stream_closed_by_peer) ↔ (
          (code : ℕ) × (e ≡ ReadError.reset code)
          × ((map_read_error w e).attrs ≡ ("kind", str "reset") ∷ ("code", int code) ∷ [])))
        × (((map_read_error w e).cls ≡ stream_closed_locally) ↔ (e ≡ ReadError.closed_stream))
  unfolding map_read_error new_stream_closed_by_peer is_subclass
  map_read_error-class (ReadError.reset code) =
      ((λ _. (code, refl, refl), λ _. refl), (λ h. cc, λ h. cc))
  map_read_error-class ReadError.invalid_reset = ((λ h. cc, λ (c, q, _). cc), (λ h. cc, λ h. cc))
  map_read_error-class (ReadError.session_error se) = (
    (λ h. absurd (stream_class se _ refl h), λ (c, q, _). cc),
    (λ h. absurd (stream_class se _ refl h), λ h. cc),
  )
  map_read_error-class ReadError.closed_stream =
      ((λ h. cc, λ (c, q, _). cc), (λ _. refl, λ _. refl))
  map_read_error-class ReadError.illegal_ordered_read =
      ((λ h. cc, λ (c, q, _). cc), (λ h. cc, λ h. cc))

  -- A short read reports the bytes that were read, and no more, as long as the stream reports no
  -- more bytes than the buffer holds.
  pub map_read_exact_error-partial :
      (k expected : ℕ) (buf : List ℕ)
      → k ≤ length buf
      → (map_read_exact_error w (ReadExactError.finished_early k) expected buf
          ≡ new_stream_incomplete_read_error expected (take k buf))
        × (length (take k buf) ≡ k)
  unfolding map_read_exact_error
  map_read_exact_error-partial k expected buf h = (ground arith, omega (arith, length-take k buf))

  -- Whatever fails while a request is answered, the exception is a `SessionError`.
  pub map_server_error-class :
      (e : ServerError) → is_subclass (map_server_error w e).cls session_error ≡ true
  unfolding map_server_error map_connection_error new_session_closed_by_peer is_subclass
  map_server_error-class (ServerError.connection ConnectionError.reset) = refl
  map_server_error-class (ServerError.connection _) = refl
  map_server_error-class _ = refl

map_client_error-kind :
    (e : ClientError) (k : ClientErrorKind)
    → e.kind ≡ k
    → (is_subclass (map_client_error e).cls connect_error ≡ true)
      × (((map_client_error e).cls ≡ session_rejected) ↔ (
          (status : ℕ) × (e.kind ≡ http_error (proto_error (wrong_status (some status))))
          × ((map_client_error e).attrs ≡ ("status_code", int status) ∷ [])))
unfolding map_client_error new_session_rejected is_subclass
map_client_error-kind e (http_error (proto_error (wrong_status (some status)))) q =
    rw (q, map_client_error) (refl, (λ _. (status, refl, refl), λ _. refl))
map_client_error-kind e (http_error (proto_error (wrong_status none))) q =
    rw (q, map_client_error) (refl, (λ h. cc, λ (c, k, _). cc))
map_client_error-kind e (http_error (proto_error other_proto_error)) q =
    rw (q, map_client_error) (refl, (λ h. cc, λ (c, k, _). cc))
map_client_error-kind e (http_error other_connect_error) q =
    rw (q, map_client_error) (refl, (λ h. cc, λ (c, k, _). cc))
map_client_error-kind e other_client_error q =
    rw (q, map_client_error) (refl, (λ h. cc, λ (c, k, _). cc))

-- Whatever fails while a client connects, the exception is a `ConnectError`; it is a
-- `SessionRejected`, with the server's status code, exactly if the server answered with one.
pub map_client_error-class :
    (e : ClientError)
    → (is_subclass (map_client_error e).cls connect_error ≡ true)
      × (((map_client_error e).cls ≡ session_rejected) ↔ (
          (status : ℕ) × (e.kind ≡ http_error (proto_error (wrong_status (some status))))
          × ((map_client_error e).attrs ≡ ("status_code", int status) ∷ [])))
map_client_error-class e = map_client_error-kind e e.kind refl
