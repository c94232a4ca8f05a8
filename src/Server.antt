-- ===== src/Server.antt =====
-- src/server.rs: `Server`. `SessionRequest` is in Server/Request.antt.
pub mod Request
pub mod Accepting
pub mod Laws
mod Tests
use web_transport_quinn_py.Prelude.{ℕ, String, ◌<>◌, Option, none, some, List, [], ◌∷◌}
use web_transport_quinn_py.Prelude.Result.{Result, ok, err, ◌>>=◌, map_err}
use web_transport_quinn_py.Errors.Classes.{value_error, stop_async_iteration}
use web_transport_quinn_py.Errors.Exceptions.{PyErr, PyResult, new_err}
use web_transport_quinn_py.Config.{
  Conversions, TransportConfig, transport_config, prefixed, EndpointCall, close, wait_idle,
  close_endpoint,
}

-- The steps of `new` that other crates do, each with the text of its error: the parsing of the
-- address and of the key, the TLS configuration, the QUIC configuration, and the socket.
pub record Platform (F D T Addr Key Tls Quic Endpoint : Type 0) : Type 0 where
  pub conversions : Conversions F D T
  pub parse_addr : String → Result Addr String
  pub private_key : List ℕ → Result Key String
  pub tls13_only : Result (Unit {0}) String
  pub single_cert : List (List ℕ) → Key → Result Tls String
  pub with_h3 : Tls → Tls
  pub quic_config : Tls → Result Quic String
  pub bind : Quic → TransportConfig D T → Addr → Result Endpoint String
  pub local_addr : Endpoint → Result (String × ℕ) String
  pub from_u64 : ℕ → Option ℕ

-- The server object: its endpoint, the calls made on it, the latest first, and its address.
pub record Server (Endpoint : Type 0) : Type 0 where
  pub endpoint : Endpoint
  pub calls : List EndpointCall
  pub local_addr : String × ℕ

-- The keyword arguments of `Server(...)`.
pub record Args (F : Type 0) : Type 0 where
  pub certificate_chain : List (List ℕ)
  pub private_key : List ℕ
  pub bind : String
  pub congestion_control : String
  pub max_idle_timeout : Option F
  pub keep_alive_interval : Option F

module _ {F D T Addr Key Tls Quic Endpoint : Type 0}
    (p : Platform F D T Addr Key Tls Quic Endpoint) where
  unfoldable pub new : Args F → PyResult (Server Endpoint)
  new a = do
    addr ← map_err (prefixed "invalid bind address: ") (p.parse_addr a.bind)
    key ← map_err (prefixed "invalid private key: ") (p.private_key a.private_key)
    _ ← map_err (prefixed "TLS config error: ") p.tls13_only
    tls ← map_err (prefixed "certificate error: ") (p.single_cert a.certificate_chain key)
    transport ←
        transport_config p.conversions a.max_idle_timeout a.keep_alive_interval a.congestion_control
    quic ← map_err (prefixed "QUIC config error: ") (p.quic_config (p.with_h3 tls))
    endpoint ← map_err (prefixed "failed to bind: ") (p.bind quic transport addr)
    local ← map_err (prefixed "failed to get local addr: ") (p.local_addr endpoint)
    ok (record { endpoint = endpoint; calls = []; local_addr = local })

  -- `close`
  unfoldable pub do_close : Server Endpoint → ℕ → String → Server Endpoint × PyResult (Unit {0})
  unfolding close_endpoint
  do_close s code reason =
      let (calls, r) = close_endpoint p.from_u64 s.calls code reason in
      (record s { calls = calls }, r)

module _ {Endpoint : Type 0} where
  -- `wait_closed`, and `__aexit__`, which closes with code 0 before it waits.
  unfoldable pub wait_closed : Server Endpoint → Server Endpoint × PyResult (Unit {0})
  wait_closed s = (record s { calls = wait_idle ∷ s.calls }, ok tt)

  unfoldable pub aexit : Server Endpoint → Server Endpoint × PyResult (Unit {0})
  unfolding wait_closed
  aexit s = wait_closed (record s { calls = close 0 "" ∷ s.calls })

-- `__anext__` and `accept`, by what the inner server answers once the future has its lock.
unfoldable pub anext {ℓ} : {R : Type ℓ} → Option R → PyResult R
anext (some request) = ok request
anext none = err (record { cls = stop_async_iteration; args = []; attrs = [] })

unfoldable pub accept {ℓ} : {R : Type ℓ} → Option R → PyResult (Option R)
accept (some request) = ok (some request)
accept none = ok none
