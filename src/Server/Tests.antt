-- ===== src/Server/Tests.antt =====
-- `Server(...)` over other crates that accept what they are given.
use web_transport_quinn_py.Prelude.{
  ℕ, ◌≡◌, ◌^◌, refl, String, Bool, true, false, none, some, List, [], ◌∷◌, if◌then◌else◌,
}
use web_transport_quinn_py.Prelude.Result.{ok, err}
use web_transport_quinn_py.Errors.Classes.{value_error}
use web_transport_quinn_py.Errors.Exceptions.{new_err}
use web_transport_quinn_py.Config.{transport_config, close, wait_idle}
use web_transport_quinn_py.Config.Tests.{seconds, var_int}
use web_transport_quinn_py.Config.Laws.{OnlyValueError, is_known}
use web_transport_quinn_py.Server.{Platform, Server, Args, new, do_close, aexit}
use web_transport_quinn_py.Server.Laws.{server_new-OnlyValueError, server_new_ok}

abbrev is_empty : List ℕ → Bool
is_empty [] = true
is_empty (b ∷ rest) = false

abbrev willing : Platform ℕ ℕ ℕ String (List ℕ) (List ℕ) (List ℕ) ℕ
willing = record {
  conversions = seconds;
  parse_addr = λ s. ok s;
  private_key = λ der. if is_empty der then err "no key" else ok der;
  tls13_only = ok tt;
  single_cert = λ _ key. ok key;
  with_h3 = λ tls. tls;
  quic_config = λ tls. ok tls;
  bind = λ _ _ _. ok 5;
  local_addr = λ port. ok ("::1", port);
  from_u64 = var_int;
}

abbrev args_with : String → List ℕ → Args ℕ
args_with control key = record {
  certificate_chain = [];
  private_key = key;
  bind = "[::1]:0";
  congestion_control = control;
  max_idle_timeout = some 30;
  keep_alive_interval = none;
}

abbrev bound : Server ℕ
bound = record { endpoint = 5; calls = []; local_addr = ("::1", 5) }

-- The key is refused before the algorithm is looked at.
refused_key :
    new willing (args_with "fastest" []) ≡ err (new_err value_error "invalid private key: no key")
unfolding new transport_config
refused_key = refl

refused_code :
    do_close willing bound (2 ^ 62) ""
    ≡ (bound, err (new_err value_error "code must be less than 2**62"))
unfolding do_close
refused_code = refl

left : (aexit bound).0.calls ≡ wait_idle ∷ close 0 "" ∷ []
unfolding aexit
left = refl

server_new-OnlyValueError_example : OnlyValueError (new willing (args_with "fastest" (1 ∷ [])))
server_new-OnlyValueError_example = server_new-OnlyValueError willing (args_with "fastest" (1 ∷ []))

server_new_ok_example :
    (is_known "throughput" ≡ true)
    × (willing.local_addr bound.endpoint ≡ ok bound.local_addr)
    × (bound.calls ≡ [])
unfolding new transport_config
server_new_ok_example = server_new_ok willing (args_with "throughput" (1 ∷ [])) bound refl
