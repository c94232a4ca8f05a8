-- ===== src/Client/Laws.antt =====
-- How `Client(...)` of src/client.rs fails.
use web_transport_quinn_py.Config.{transport_config}
use web_transport_quinn_py.Config.Laws.{
  OnlyValueError, >>=-OnlyValueError, checked, transport_config-OnlyValueError,
}
use web_transport_quinn_py.Client.{Platform, Args, new}

module _ {F D T Roots Tls Quic Endpoint Url : Type 0}
    (p : Platform F D T Roots Tls Quic Endpoint Url) where
  -- Whatever is wrong with the arguments of `Client(...)`, or fails below it, the exception is a
  -- `ValueError`.
  pub client_new-OnlyValueError : (a : Args F) → OnlyValueError (new p a)
  unfolding new
  client_new-OnlyValueError a = checked _ p.tls13_only _ λ u.
      >>=-OnlyValueError
        (transport_config p.conversions a.max_idle_timeout a.keep_alive_interval
          a.congestion_control)
        _
        (transport_config-OnlyValueError p.conversions a.max_idle_timeout a.keep_alive_interval
          a.congestion_control)
        λ t. checked _ (p.quic_config _) _ λ quic. checked _ p.client_endpoint _ λ e. tt
