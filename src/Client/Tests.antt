-- ===== src/Client/Tests.antt =====
-- `Client(...)` and `connect` over other crates that accept what they are given.
use web_transport_quinn_py.Prelude.{ℕ, ◌≡◌, refl, String, false, Option, none, some, List, [], ◌∷◌}
use web_transport_quinn_py.Prelude.Result.{ok, err}
use web_transport_quinn_py.Errors.Classes.{value_error}
use web_transport_quinn_py.Errors.Exceptions.{new_err}
use web_transport_quinn_py.Config.Tests.{seconds, var_int}
use web_transport_quinn_py.Config.{transport_config}
use web_transport_quinn_py.Client.{Platform, Args, new}
use web_transport_quinn_py.Client.Verify.{Verifier}

abbrev willing :
    Platform ℕ ℕ ℕ (List (List ℕ)) (Verifier (List (List ℕ))) (Verifier (List (List ℕ))) ℕ String
willing = record {
  conversions = seconds;
  tls13_only = ok tt;
  native_certs = (7 ∷ []) ∷ [];
  no_roots = [];
  add = λ roots cert. cert ∷ roots;
  client_config = λ verifier. verifier;
  with_h3 = λ tls. tls;
  quic_config = λ tls. ok tls;
  client_endpoint = ok 5;
  from_u64 = var_int;
  parse_url = λ s. ok s;
}

abbrev args_with : Option ℕ → Args ℕ
args_with idle = record {
  server_certificate_hashes = none;
  no_cert_verification = false;
  congestion_control = "default";
  max_idle_timeout = idle;
  keep_alive_interval = none;
}

refused_timeout :
    new willing (args_with (some 200)) ≡ err (new_err value_error "invalid idle timeout: too long")
unfolding new transport_config
refused_timeout = refl
