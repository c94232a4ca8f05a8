-- ===== src/Errors/Foreign.antt =====
-- The errors of quinn and web_transport_quinn that src/errors.rs matches on, with the payloads that
-- it reads. Of a payload that is only printed, `display` is what its `to_string()` gives.
use web_transport_quinn_py.Prelude.{ℕ, String, Option, List}

-- What the mapping calls in other crates: the code of an HTTP/3 error, and lossy UTF-8 decoding.
pub record Wire : Type 0 where
  pub error_from_http3 : ℕ → Option ℕ
  pub from_utf8_lossy : List ℕ → String

pub data ConnectionError : Type 0 where
  version_mismatch : ConnectionError
  transport_error : (display : String) → ConnectionError
  connection_closed : (error_code : ℕ) (reason : List ℕ) → ConnectionError
  application_closed : (error_code : ℕ) (reason : List ℕ) → ConnectionError
  reset timed_out locally_closed cids_exhausted : ConnectionError

pub data SendDatagramError : Type 0 where
  unsupported_by_peer disabled too_large : SendDatagramError
  connection_lost : ConnectionError → SendDatagramError

pub data WebTransportError : Type 0 where
  closed : (code : ℕ) (reason : String) → WebTransportError
  other : (display : String) → WebTransportError

pub data SessionError : Type 0 where
  connection_error : ConnectionError → SessionError
  web_transport_error : WebTransportError → SessionError
  send_datagram_error : SendDatagramError → SessionError

pub data WriteError : Type 0 where
  stopped : (code : ℕ) → WriteError
  invalid_stopped : WriteError
  session_error : SessionError → WriteError
  closed_stream : WriteError

pub data ReadError : Type 0 where
  reset : (code : ℕ) → ReadError
  invalid_reset : ReadError
  session_error : SessionError → ReadError
  closed_stream illegal_ordered_read : ReadError

pub data ReadToEndError : Type 0 where
  too_long : ReadToEndError
  read_error : ReadError → ReadToEndError

pub data ReadExactError : Type 0 where
  finished_early : (bytes_read : ℕ) → ReadExactError
  read_error : ReadError → ReadExactError

-- Of the three nested errors of connecting, the variants that the code names, and all the others.
pub data ProtoConnectError : Type 0 where
  wrong_status : Option ℕ → ProtoConnectError
  other_proto_error : ProtoConnectError

pub data HttpConnectError : Type 0 where
  proto_error : ProtoConnectError → HttpConnectError
  other_connect_error : HttpConnectError

pub data ClientErrorKind : Type 0 where
  http_error : HttpConnectError → ClientErrorKind
  other_client_error : ClientErrorKind

-- A `ClientError`, with its text.
pub record ClientError : Type 0 where
  pub kind : ClientErrorKind
  pub display : String

pub data ServerError : Type 0 where
  connection : ConnectionError → ServerError
  unexpected_end write_error read_error settings_error connect_error io_error rustls :
      (display : String) → ServerError
