-- ===== src/Config/Tests.antt =====
-- The settings at concrete inputs. Seconds are natural numbers here, and at most 100 are a timeout.
use web_transport_quinn_py.Prelude.{
  ◌↔◌, ℕ, ◌≡◌, ◌^◌, refl, true, Option, none, some, ltb, if◌then◌else◌,
}
use web_transport_quinn_py.Prelude.Result.{ok, err}
use web_transport_quinn_py.Errors.Classes.{value_error}
use web_transport_quinn_py.Errors.Exceptions.{new_err}
use web_transport_quinn_py.Config.{Controller, Conversions, transport_config}
use web_transport_quinn_py.Config.Laws.{is_known, IdleIs, AliveIs, transport_config_exact}

abbrev pub seconds : Conversions ℕ ℕ ℕ
seconds = record {
  try_from_secs_f64 = λ n. ok n;
  idle_timeout = λ n. if ltb n 100 then ok n else err "too long";
}

abbrev pub var_int : ℕ → Option ℕ
var_int n = if ltb n (2 ^ 62) then some n else none

too_long_idle :
    transport_config seconds (some 200) none "default"
    ≡ err (new_err value_error "invalid idle timeout: too long")
unfolding transport_config
too_long_idle = refl

transport_config_exact_example :
    ((k : Option Controller) × (transport_config seconds (some 30) none "low_latency"
        ≡ ok (record { max_idle_timeout = some 30; keep_alive_interval = none; controller = k })))
    ↔ ((is_known "low_latency" ≡ true)
        × IdleIs seconds (some 30) (some 30)
        × AliveIs seconds none none)
transport_config_exact_example =
    transport_config_exact seconds (some 30) none "low_latency" (some 30) none
