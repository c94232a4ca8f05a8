-- ===== src/Config/Laws.antt =====
-- Which settings are accepted, and how the others are refused.
use text.Mathlib.Text.{◌==◌ as str_eq}
use web_transport_quinn_py.Prelude.{
  Bool-cases, ◌↔◌, inl, inr, Bool, ◌≡◌, refl, String, Bool, true, any, Option, none, some, [], ◌∷◌,
  arith, ap,
}
use web_transport_quinn_py.Prelude.Result.{
  Result-cases, Result, ok, err, map_err, ◌>>=◌, >>=-eq-ok, ok-injective,
}
use web_transport_quinn_py.Errors.Classes.{value_error}
use web_transport_quinn_py.Errors.Exceptions.{PyErr, PyResult}
use web_transport_quinn_py.Config.{
  Conversions, TransportConfig, Controller, cubic, bbr, try_map, congestion_controller,
  idle_setting, keep_alive_setting, transport_config, prefixed,
}

-- The outcome is a value, or a `ValueError`.
abbrev pub OnlyValueError {ℓ} : {A : Type ℓ} → PyResult A → Type 0
OnlyValueError (ok a) = Unit
OnlyValueError (err e) = e.cls ≡ value_error

-- A chain of steps that fail by `ValueError` only fails by `ValueError` only.
pub >>=-OnlyValueError {ℓ κ} :
    {A : Type ℓ} {B : Type κ} (m : PyResult A) (f : A → PyResult B)
    → OnlyValueError m
    → ((a : A) → OnlyValueError (f a))
    → OnlyValueError (m >>= f)
>>=-OnlyValueError (ok a) f h k = k a
>>=-OnlyValueError (err e) f h k = h

pub map_err-OnlyValueError {ℓ κ} :
    {A : Type ℓ} {E : Type κ} (f : E → PyErr) (m : Result A E)
    → ((e : E) → (f e).cls ≡ value_error)
    → OnlyValueError (map_err f m)
map_err-OnlyValueError f (ok a) h = tt
map_err-OnlyValueError f (err e) h = h e

-- A step of another crate, with its error printed behind a prefix.
pub checked {ℓ κ} :
    {A : Type ℓ} {B : Type κ} (what : String) (m : Result A String) (f : A → PyResult B)
    → ((a : A) → OnlyValueError (f a))
    → OnlyValueError (map_err (prefixed what) m >>= f)
checked what m f h =
    >>=-OnlyValueError (map_err (prefixed what) m) f (map_err-OnlyValueError _ m (λ e. refl)) h

-- The algorithms that the interface documents.
abbrev pub is_known : String → Bool
is_known name = any (str_eq name) ("default" ∷ "throughput" ∷ "low_latency" ∷ [])

pub congestion_controller-OnlyValueError :
    (name : String) → OnlyValueError (congestion_controller name)
unfolding congestion_controller
congestion_controller-OnlyValueError name = ground arith

module _ {F D T : Type 0} (c : Conversions F D T) where
  idle_setting-OnlyValueError : (seconds : Option F) → OnlyValueError (idle_setting c seconds)
  unfolding idle_setting
  idle_setting-OnlyValueError seconds =
      >>=-OnlyValueError (map_err _ (try_map c.try_from_secs_f64 seconds)) _
        (map_err-OnlyValueError _ (try_map c.try_from_secs_f64 seconds) (λ _. refl))
        (λ d. map_err-OnlyValueError _ (try_map c.idle_timeout d) (λ e. refl))

  keep_alive_setting-OnlyValueError :
      (seconds : Option F) → OnlyValueError (keep_alive_setting c seconds)
  unfolding keep_alive_setting
  keep_alive_setting-OnlyValueError seconds =
      map_err-OnlyValueError _ (try_map c.try_from_secs_f64 seconds) (λ _. refl)

  pub transport_config-OnlyValueError :
      (idle alive : Option F) (name : String) → OnlyValueError (transport_config c idle alive name)
  unfolding transport_config
  transport_config-OnlyValueError idle alive name =
      >>=-OnlyValueError (idle_setting c idle) _ (idle_setting-OnlyValueError idle) λ t.
        >>=-OnlyValueError (keep_alive_setting c alive) _ (keep_alive_setting-OnlyValueError alive)
          λ d.
            >>=-OnlyValueError (congestion_controller name) _
              (congestion_controller-OnlyValueError name) λ k. tt

congestion_controller_ok :
    (name : String) (k : Option Controller)
    → congestion_controller name ≡ ok k
    → is_known name ≡ true
unfolding congestion_controller
congestion_controller_ok name k h = ground arith

congestion_controller_known :
    (name : String)
    → is_known name ≡ true
    → (k : Option Controller) × (congestion_controller name ≡ ok k)
unfolding congestion_controller
congestion_controller_known name h = elim (Bool-cases (str_eq name "default")) [
  | inl e ↦ (none, rw e refl)
  | inr e ↦ elim (Bool-cases (str_eq name "throughput")) [
    | inl f ↦ (some cubic, rw (e, f) refl)
    | inr f ↦ elim (Bool-cases (str_eq name "low_latency")) [
      | inl g ↦ (some bbr, rw (e, f, g) refl)
      | inr g ↦ absurd (ground arith)
    ]
  ]
]

module _ {F D T : Type 0} (c : Conversions F D T) where
  -- A setting `None` stays unset; one of seconds is set to what they are converted to.
  pub data IdleIs : Option F → Option T → Type 0 where
    disabled : IdleIs none none
    timeout :
        (f : F) (d : D) (t : T)
        → c.try_from_secs_f64 f ≡ ok d
        → c.idle_timeout d ≡ ok t
        → IdleIs (some f) (some t)

  pub data AliveIs : Option F → Option D → Type 0 where
    no_pings : AliveIs none none
    interval : (f : F) (d : D) → c.try_from_secs_f64 f ≡ ok d → AliveIs (some f) (some d)

  idle_setting_ok :
      (seconds : Option F) (t : Option T) → idle_setting c seconds ≡ ok t → IdleIs seconds t
  unfolding idle_setting try_map
  idle_setting_ok none t h = rw (← ok-injective none t h) disabled
  idle_setting_ok (some f) t h = elim (Result-cases (c.try_from_secs_f64 f)) [
    | inr (e, failed) ↦ absurd (ground (arith, failed))
    | inl (d, made) ↦ elim (Result-cases (c.idle_timeout d)) [
      | inr (e, failed) ↦ absurd (ground (arith, made, failed))
      | inl (v, fits) ↦
          let same : t ≡ some v = ground (arith, made, fits) in rw same (timeout f d v made fits)
    ]
  ]

  keep_alive_setting_ok :
      (seconds : Option F) (d : Option D) → keep_alive_setting c seconds ≡ ok d → AliveIs seconds d
  unfolding keep_alive_setting try_map
  keep_alive_setting_ok none d h = rw (← ok-injective none d h) no_pings
  keep_alive_setting_ok (some f) d h = elim (Result-cases (c.try_from_secs_f64 f)) [
    | inr (e, failed) ↦ absurd (ground (arith, failed))
    | inl (v, made) ↦ let same : d ≡ some v = ground (arith, made) in rw same (interval f v made)
  ]

  IdleIs-setting :
      (seconds : Option F) (t : Option T) → IdleIs seconds t → idle_setting c seconds ≡ ok t
  unfolding idle_setting try_map
  IdleIs-setting _ _ disabled = refl
  IdleIs-setting _ _ (timeout f d t made fits) = ground (arith, made, fits)

  AliveIs-setting :
      (seconds : Option F) (d : Option D) → AliveIs seconds d → keep_alive_setting c seconds ≡ ok d
  unfolding keep_alive_setting try_map
  AliveIs-setting _ _ no_pings = refl
  AliveIs-setting _ _ (interval f d made) = ground (arith, made)

  -- A configuration is accepted exactly if the name of the algorithm is one of the three that the
  -- interface allows and the conversions of the two times succeed, and then it holds the converted
  -- timeout and interval, each unset for `None`.
  pub transport_config_exact :
      (idle alive : Option F) (name : String) (t : Option T) (d : Option D)
      → ((k : Option Controller) × (transport_config c idle alive name
            ≡ ok (record { max_idle_timeout = t; keep_alive_interval = d; controller = k })))
        ↔ ((is_known name ≡ true) × IdleIs idle t × AliveIs alive d)
  unfolding transport_config
  transport_config_exact idle alive name t d = (
    (λ (k, h).
        let (t', ht, after_idle) = >>=-eq-ok (idle_setting c idle) _ h in
        let (d', hd, after_alive) = >>=-eq-ok (keep_alive_setting c alive) _ after_idle in
        let (k', hk, made) = >>=-eq-ok (congestion_controller name) _ after_alive in
        let same = ok-injective _ _ made in
        (
          congestion_controller_ok name k' hk,
          rw (← ap (λ r. r.max_idle_timeout) same) (idle_setting_ok idle t' ht),
          rw (← ap (λ r. r.keep_alive_interval) same) (keep_alive_setting_ok alive d' hd),
        )),
    (λ (known, is_idle, is_alive).
        let (k, hk) = congestion_controller_known name known in
        (k, rw (IdleIs-setting idle t is_idle, AliveIs-setting alive d is_alive, hk) refl)),
  )

  pub transport_config-known :
      (idle alive : Option F) (name : String) (cfg : TransportConfig D T)
      → transport_config c idle alive name ≡ ok cfg
      → is_known name ≡ true
  transport_config-known idle alive name cfg h =
      ((transport_config_exact idle alive name cfg.max_idle_timeout cfg.keep_alive_interval).0
        (cfg.controller, h)).0
