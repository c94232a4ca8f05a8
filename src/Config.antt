-- ===== src/Config.antt =====
-- The settings that src/client.rs and src/server.rs read in the same words: the transport
-- configuration and the congestion control; and the close code of an endpoint.
pub mod Laws
pub mod Tests
use text.Mathlib.Text.{◌==◌ as str_eq}
use web_transport_quinn_py.Prelude.{
  ℕ, String, ◌<>◌, Option, none, some, List, [], ◌∷◌, if◌then◌else◌,
}
use web_transport_quinn_py.Prelude.Result.{Result, ok, err, ◌>>=◌, map_err}
use web_transport_quinn_py.Errors.Classes.{value_error}
use web_transport_quinn_py.Errors.Exceptions.{PyErr, PyResult, new_err}

-- `Option::map` with a fallible function, then `transpose`.
unfoldable pub try_map {ℓ κ μ} :
    {A : Type ℓ} {B : Type κ} {E : Type μ} → (A → Result B E) → Option A → Result (Option B) E
try_map f none = ok none
try_map f (some a) = do b ← f a; ok (some b)

-- The conversions of seconds: `Duration::try_from_secs_f64` over the floats `F`, whose error is not
-- read, and `quinn::IdleTimeout::try_from`, whose error is printed.
pub record Conversions (F D T : Type 0) : Type 0 where
  pub try_from_secs_f64 : F → Result D (Unit {0})
  pub idle_timeout : D → Result T String

pub data Controller : Type 0 where
  cubic bbr : Controller

-- `quinn::TransportConfig`, as far as it is set; no controller is the default one.
pub record TransportConfig (D T : Type 0) : Type 0 where
  pub max_idle_timeout : Option T
  pub keep_alive_interval : Option D
  pub controller : Option Controller

unfoldable pub congestion_controller : String → PyResult (Option Controller)
congestion_controller name =
    if str_eq name "default"
    then ok none
    else if str_eq name "throughput"
    then ok (some cubic)
    else if str_eq name "low_latency"
    then ok (some bbr)
    else err (new_err value_error ("unknown congestion control: " <> name))

-- `PyValueError::new_err(format!("{what}{e}"))`
abbrev pub prefixed : String → String → PyErr
prefixed what e = new_err value_error (what <> e)

module _ {F D T : Type 0} (c : Conversions F D T) where
  open c use {try_from_secs_f64, idle_timeout}

  unfoldable pub idle_setting : Option F → PyResult (Option T)
  unfolding try_map
  idle_setting seconds = do
    d ←
        map_err (λ _. new_err value_error "invalid max_idle_timeout")
          (try_map try_from_secs_f64 seconds)
    map_err (λ e. new_err value_error ("invalid idle timeout: " <> e)) (try_map idle_timeout d)

  unfoldable pub keep_alive_setting : Option F → PyResult (Option D)
  unfolding try_map
  keep_alive_setting seconds =
      map_err (λ _. new_err value_error "invalid keep_alive_interval")
        (try_map try_from_secs_f64 seconds)

  -- The part of `new` that builds the transport configuration.
  unfoldable pub transport_config : Option F → Option F → String → PyResult (TransportConfig D T)
  unfolding idle_setting keep_alive_setting congestion_controller
  transport_config max_idle_timeout keep_alive_interval congestion_control = do
    idle ← idle_setting max_idle_timeout
    alive ← keep_alive_setting keep_alive_interval
    cc ← congestion_controller congestion_control
    ok (record { max_idle_timeout = idle; keep_alive_interval = alive; controller = cc })

-- What the code does to a `quinn::Endpoint`.
pub data EndpointCall : Type 0 where
  close : (code : ℕ) (reason : String) → EndpointCall
  wait_idle : EndpointCall

-- `close` of `Server` and of `Client`: the calls made on the endpoint, the latest first, and the
-- outcome. `from_u64` is `quinn::VarInt::from_u64`.
unfoldable pub close_endpoint :
    (ℕ → Option ℕ) → List EndpointCall → ℕ → String → List EndpointCall × PyResult (Unit {0})
close_endpoint from_u64 calls code reason = elim (from_u64 code) [
  | none ↦ (calls, err (new_err value_error "code must be less than 2**62"))
  | some var_code ↦ (close var_code reason ∷ calls, ok tt)
]
