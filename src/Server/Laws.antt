-- ===== src/Server/Laws.antt =====
-- How `Server(...)` and its `close` of src/server.rs fail.
use web_transport_quinn_py.Prelude.{◌≡◌, String, true, [], sym, ap, subst}
use web_transport_quinn_py.Prelude.Result.{Result, ok, err, map_err, >>=-eq-ok, ok-injective}
use web_transport_quinn_py.Config.{transport_config, prefixed}
use web_transport_quinn_py.Config.Laws.{
  OnlyValueError, >>=-OnlyValueError, checked, transport_config-OnlyValueError, is_known,
  transport_config-known,
}
use web_transport_quinn_py.Server.{Platform, Server, Args, new}

module _ {F D T Addr Key Tls Quic Endpoint : Type 0}
    (p : Platform F D T Addr Key Tls Quic Endpoint) where
  -- Whatever is wrong with the arguments of `Server(...)`, or fails below it, the exception is a
  -- `ValueError`.
  pub server_new-OnlyValueError : (a : Args F) → OnlyValueError (new p a)
  unfolding new
  server_new-OnlyValueError a = checked _ (p.parse_addr a.bind) _ λ addr.
      checked _ (p.private_key a.private_key) _ λ key. checked _ p.tls13_only _ λ u.
        checked _ (p.single_cert a.certificate_chain key) _ λ tls.
          >>=-OnlyValueError
            (transport_config p.conversions a.max_idle_timeout a.keep_alive_interval
              a.congestion_control)
            _
            (transport_config-OnlyValueError p.conversions a.max_idle_timeout a.keep_alive_interval
              a.congestion_control)
            λ t. checked _ (p.quic_config (p.with_h3 tls)) _ λ quic.
              checked _ (p.bind quic t addr) _
                λ endpoint. checked _ (p.local_addr endpoint) _ λ local. tt

  map_err_ok :
      {A : Type 0} (what : String) (m : Result A String) (a : A)
      → map_err (prefixed what) m ≡ ok a
      → m ≡ ok a
  map_err_ok what (ok b) a h = rw (ok-injective b a h)
  map_err_ok what (err e) a h = cc

  -- A server object exists only if the congestion control was a documented one; its address is the
  -- one that its endpoint reports, and nothing was done to the endpoint yet.
  pub server_new_ok :
      (a : Args F) (s : Server Endpoint)
      → new p a ≡ ok s
      → (is_known a.congestion_control ≡ true)
        × (p.local_addr s.endpoint ≡ ok s.local_addr)
        × (s.calls ≡ [])
  unfolding new
  server_new_ok a s h =
      let (addr, _, h1) =
        >>=-eq-ok (map_err (prefixed "invalid bind address: ") (p.parse_addr a.bind)) _ h in
      let (key, _, h2) =
        >>=-eq-ok (map_err (prefixed "invalid private key: ") (p.private_key a.private_key)) _ h1 in
      let (u, _, h3) = >>=-eq-ok (map_err (prefixed "TLS config error: ") p.tls13_only) _ h2 in
      let (tls, _, h4) =
        >>=-eq-ok (map_err (prefixed "certificate error: ") (p.single_cert a.certificate_chain key))
          _ h3 in
      let (t, ht, h5) =
        >>=-eq-ok
          (transport_config p.conversions a.max_idle_timeout a.keep_alive_interval
            a.congestion_control)
          _ h4 in
      let (quic, _, h6) =
        >>=-eq-ok (map_err (prefixed "QUIC config error: ") (p.quic_config (p.with_h3 tls))) _ h5 in
      let (endpoint, _, h7) =
        >>=-eq-ok (map_err (prefixed "failed to bind: ") (p.bind quic t addr)) _ h6 in
      let (local, hl, h8) =
        >>=-eq-ok (map_err (prefixed "failed to get local addr: ") (p.local_addr endpoint)) _ h7 in
      let same = ok-injective _ _ h8 in
      (
        (transport_config-known p.conversions a.max_idle_timeout a.keep_alive_interval
            a.congestion_control t ht),
        subst (λ (x : Server Endpoint). p.local_addr x.endpoint ≡ ok x.local_addr) same
            (map_err_ok "failed to get local addr: " (p.local_addr endpoint) local hl),
        ap (λ x. x.calls) (sym same),
      )
