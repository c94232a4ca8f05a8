-- ===== src/Client.antt =====
-- src/client.rs: `Client`. Certificate verification is in Client/Verify.antt.
pub mod Verify
pub mod Laws
mod Tests
use web_transport_quinn_py.Prelude.{ℕ, String, ◌<>◌, Bool, Option, none, some, List, [], ◌∷◌}
use web_transport_quinn_py.Prelude.Result.{Result, ok, err, ◌>>=◌, map_err}
use web_transport_quinn_py.Errors.Classes.{value_error}
use web_transport_quinn_py.Errors.Exceptions.{PyErr, PyResult, new_err}
use web_transport_quinn_py.Errors.Foreign.{ClientError}
use web_transport_quinn_py.Errors.Mapping.{map_client_error}
use web_transport_quinn_py.Config.{
  Conversions, TransportConfig, transport_config, prefixed, EndpointCall, close, wait_idle,
  close_endpoint,
}
use web_transport_quinn_py.Session
use web_transport_quinn_py.Session.{Session}
use Verify.{Verifier, choose_verifier}

-- The steps of `new` and `connect` that other crates do, each with the text of its error. `Roots`
-- is the store of root certificates; `add` leaves it as it is where it refuses a certificate.
pub record Platform (F D T Roots Tls Quic Endpoint Url : Type 0) : Type 0 where
  pub conversions : Conversions F D T
  pub tls13_only : Result (Unit {0}) String
  pub native_certs : List (List ℕ)
  pub no_roots : Roots
  pub add : Roots → List ℕ → Roots
  pub client_config : Verifier Roots → Tls
  pub with_h3 : Tls → Tls
  pub quic_config : Tls → Result Quic String
  pub client_endpoint : Result Endpoint String
  pub from_u64 : ℕ → Option ℕ
  pub parse_url : String → Result Url String

-- The client object: its endpoint, the configuration of its connections, and the calls made on the
-- endpoint, the latest first.
pub record Client (D T Quic Endpoint : Type 0) : Type 0 where
  pub endpoint : Endpoint
  pub quic : Quic
  pub transport : TransportConfig D T
  pub calls : List EndpointCall

-- The keyword arguments of `Client(...)`.
pub record Args (F : Type 0) : Type 0 where
  pub server_certificate_hashes : Option (List (List ℕ))
  pub no_cert_verification : Bool
  pub congestion_control : String
  pub max_idle_timeout : Option F
  pub keep_alive_interval : Option F

module _ {F D T Roots Tls Quic Endpoint Url : Type 0}
    (p : Platform F D T Roots Tls Quic Endpoint Url) where
  unfoldable pub new : Args F → PyResult (Client D T Quic Endpoint)
  unfolding choose_verifier
  new a = do
    _ ← map_err (prefixed "TLS config error: ") p.tls13_only
    let tls = p.client_config (
        choose_verifier p.add p.no_roots p.native_certs a.no_cert_verification
          a.server_certificate_hashes)
    transport ←
        transport_config p.conversions a.max_idle_timeout a.keep_alive_interval a.congestion_control
    quic ← map_err (prefixed "QUIC config error: ") (p.quic_config (p.with_h3 tls))
    endpoint ← map_err (prefixed "failed to create endpoint: ") p.client_endpoint
    ok (record { endpoint = endpoint; quic = quic; transport = transport; calls = [] })

  -- `close`
  unfoldable pub do_close :
      Client D T Quic Endpoint → ℕ → String → Client D T Quic Endpoint × PyResult (Unit {0})
  unfolding close_endpoint
  do_close s code reason =
      let (calls, r) = close_endpoint p.from_u64 s.calls code reason in
      (record s { calls = calls }, r)

  -- The part of `connect` that runs at once: the URL that its future connects to.
  unfoldable pub connect : String → PyResult Url
  connect url = map_err (prefixed "invalid URL: ") (p.parse_url url)

-- The future of `connect`, by what `client.connect` answers.
unfoldable pub connect_future : Result (Unit {0}) ClientError → PyResult Session
connect_future answer = do _ ← map_err map_client_error answer; ok Session.new

module _ {D T Quic Endpoint : Type 0} where
  -- `wait_closed`, and `__aexit__`, which closes with code 0 before it waits.
  unfoldable pub wait_closed :
      Client D T Quic Endpoint → Client D T Quic Endpoint × PyResult (Unit {0})
  wait_closed s = (record s { calls = wait_idle ∷ s.calls }, ok tt)

  unfoldable pub aexit : Client D T Quic Endpoint → Client D T Quic Endpoint × PyResult (Unit {0})
  unfolding wait_closed
  aexit s = wait_closed (record s { calls = close 0 "" ∷ s.calls })
