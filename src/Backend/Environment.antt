-- ===== src/Backend/Environment.antt =====
-- backend/app/config.py: `_bool`, `_int`, `_csv` and `Settings.from_env`. The environment and Python's
-- operations on text are a parameter; `int_of` is `none` for text that is no natural number, which
-- `int` refuses or every minimum does. The fields that no modelled code reads are left out.
use ignis_test.Prelude.{
  ℕ, ◌≤◌, ◌≡◌, refl, Bool, true, false, not, ◌&&◌, Option, none, some, List, [], ◌∷◌, String,
  str_eq, leb, if◌then◌else◌, codes, map, arith, keep,
}
use ignis_test.Backend.Settings.{Settings, SettingsError, validate}

pub record Environment : Type 0 where
  pub getenv : String → Option String
  pub int_of : String → Option ℕ
  pub strip : String → String
  pub lower : String → String
  pub split_commas : String → List String

-- The `ValueError`s of `from_env`.
pub data EnvironmentError : Type 0 where
  not_boolean not_in_range : String → EnvironmentError
  invalid : SettingsError → EnvironmentError

pub data Loaded {ℓ} (A : Type ℓ) : Type ℓ where
  loaded : A → Loaded A
  refused : EnvironmentError → Loaded A

abbrev and_then {ℓ} : {A B : Type ℓ} → Loaded A → (A → Loaded B) → Loaded B
and_then (loaded a) rest = rest a
and_then (refused e) rest = refused e

abbrev among : String → List String → Bool
among s [] = false
among s (t ∷ ts) = if str_eq s t then true else among s ts

module _ (env : Environment) where
  abbrev text : String → String → String
  text name default = elim (env.getenv name) [ none ↦ default | some raw ↦ raw ]

  abbrev bool_of : String → Bool → Option String → Loaded Bool
  bool_of name default none = loaded default
  bool_of name default (some raw) =
      let word = env.lower (env.strip raw) in
      if among word ("1" ∷ "true" ∷ "yes" ∷ "on" ∷ [])
      then loaded true
      else if among word ("0" ∷ "false" ∷ "no" ∷ "off" ∷ [])
      then loaded false
      else refused (not_boolean name)

  -- `_bool`
  abbrev read_bool : String → Bool → Loaded Bool
  read_bool name default = bool_of name default (env.getenv name)

  abbrev number_of : Option String → ℕ → Option ℕ
  number_of none default = some default
  number_of (some raw) default = env.int_of raw

  abbrev in_range : String → ℕ → ℕ → Option ℕ → Loaded ℕ
  in_range name minimum maximum none = refused (not_in_range name)
  in_range name minimum maximum (some value) =
      if leb minimum value && leb value maximum then loaded value else refused (not_in_range name)

  -- `_int`
  abbrev read_int : String → ℕ → ℕ → ℕ → Loaded ℕ
  read_int name default minimum maximum =
      in_range name minimum maximum (number_of (env.getenv name) default)

  -- `_csv`
  abbrev read_csv : String → List String
  read_csv name =
      keep (λ item. not (str_eq item "")) (map env.strip (env.split_commas (text name "")))

  abbrev checked : Settings → Option SettingsError → Loaded Settings
  checked s none = loaded s
  checked s (some e) = refused (invalid e)

  unfoldable pub settings_of : Bool → ℕ → ℕ → ℕ → Settings
  settings_of enabled cooldown max_calls timeout = record {
    app_env = text "APP_ENV" "development";
    device_token = text "IGNIS_DEVICE_TOKEN" "replace-me";
    expected_device_id = text "IGNIS_EXPECTED_DEVICE_ID" "ignis-qnxpi-01";
    elevenlabs_api_key = text "ELEVENLABS_API_KEY" "";
    occupant_agent_id = text "ELEVENLABS_OCCUPANT_AGENT_ID" "";
    dispatch_agent_id = text "ELEVENLABS_DISPATCH_AGENT_ID" "";
    phone_number_id = text "ELEVENLABS_PHONE_NUMBER_ID" "";
    demo_calls_enabled = enabled;
    demo_dispatch_number = codes (env.strip (text "DEMO_DISPATCH_NUMBER" ""));
    demo_allowed_numbers = map codes (read_csv "DEMO_ALLOWED_NUMBERS");
    global_call_cooldown_seconds = cooldown;
    max_calls_per_incident = max_calls;
    call_provider = env.lower (env.strip (text "DEMO_CALL_PROVIDER" "elevenlabs"));
    provider_webhook_secret = text "PROVIDER_WEBHOOK_SECRET" "";
    max_payload_bytes = 2_097_152;
    action_rate_limit_per_minute = 30;
    response_timeout_seconds = timeout;
  }

  -- The reads that may raise, in the order of the source.
  unfoldable pub from_env : Loaded Settings
  from_env = and_then (read_int "APP_PORT" 8000 1 65_535) (λ port.
      and_then (read_int "QNX_TCP_PORT" 9001 0 65_535) (λ tcp_port.
        and_then (read_bool "DEMO_CALLS_ENABLED" false) (λ enabled.
          and_then (read_int "DEMO_GLOBAL_CALL_COOLDOWN_SECONDS" 60 0 86_400) (λ cooldown.
            and_then (read_int "DEMO_MAX_CALLS_PER_INCIDENT" 1 1 3) (λ max_calls.
              and_then (read_bool "ENABLE_SIMULATOR_ENDPOINTS" true) (λ simulator.
                and_then (read_int "IGNIS_RESPONSE_TIMEOUT_SECONDS" 10 2 300) (λ timeout.
                  let s = settings_of enabled cooldown max_calls timeout in
                  checked s (validate s))))))))

  in_range_bounds :
      (name : String) (minimum maximum n : ℕ) (o : Option ℕ)
      → in_range name minimum maximum o ≡ loaded n
      → (minimum ≤ n) × (n ≤ maximum)
  in_range_bounds name minimum maximum n none h = absurd (cc)
  in_range_bounds name minimum maximum n (some value) h = ground arith

  loaded_by {ℓ} :
      {A B : Type ℓ} (m : Loaded A) (rest : A → Loaded B) (b : B)
      → and_then m rest ≡ loaded b
      → (a : A) × (m ≡ loaded a) × (rest a ≡ loaded b)
  loaded_by (loaded a) rest b h = (a, refl, h)
  loaded_by (refused e) rest b h = absurd (cc)

  checked_by :
      (s t : Settings) (o : Option SettingsError) → checked s o ≡ loaded t → (o ≡ none) × (s ≡ t)
  checked_by s t none h = ground arith
  checked_by s t (some e) h = absurd (cc)

  -- Settings that `from_env` returns pass `validate`; they allow one to three calls per incident, a
  -- cooldown of at most a day, and a wait for the occupant of two seconds to five minutes.
  pub from_env_bounds :
      (s : Settings)
      → from_env ≡ loaded s
      → (validate s ≡ none)
        × (1 ≤ s.max_calls_per_incident)
        × (s.max_calls_per_incident ≤ 3)
        × (s.global_call_cooldown_seconds ≤ 86_400)
        × (2 ≤ s.response_timeout_seconds)
        × (s.response_timeout_seconds ≤ 300)
  unfolding from_env settings_of
  from_env_bounds s h =
      let (port, p, h1) = loaded_by (read_int "APP_PORT" 8000 1 65_535) _ s h in
      let (tcp, q, h2) = loaded_by (read_int "QNX_TCP_PORT" 9001 0 65_535) _ s h1 in
      let (enabled, b, h3) = loaded_by (read_bool "DEMO_CALLS_ENABLED" false) _ s h2 in
      let (cooldown, c, h4) =
        loaded_by (read_int "DEMO_GLOBAL_CALL_COOLDOWN_SECONDS" 60 0 86_400) _ s h3 in
      let (max_calls, m, h5) = loaded_by (read_int "DEMO_MAX_CALLS_PER_INCIDENT" 1 1 3) _ s h4 in
      let (simulator, d, h6) = loaded_by (read_bool "ENABLE_SIMULATOR_ENDPOINTS" true) _ s h5 in
      let (timeout, t, h7) =
        loaded_by (read_int "IGNIS_RESPONSE_TIMEOUT_SECONDS" 10 2 300) _ s h6 in
      let (valid, same) = checked_by (settings_of enabled cooldown max_calls timeout) s _ h7 in
      let calls =
        in_range_bounds "DEMO_MAX_CALLS_PER_INCIDENT" 1 3 max_calls
          (number_of (env.getenv "DEMO_MAX_CALLS_PER_INCIDENT") 1) m in
      let wait =
        in_range_bounds "IGNIS_RESPONSE_TIMEOUT_SECONDS" 2 300 timeout
          (number_of (env.getenv "IGNIS_RESPONSE_TIMEOUT_SECONDS") 10) t in
      let pause =
        in_range_bounds "DEMO_GLOBAL_CALL_COOLDOWN_SECONDS" 0 86_400 cooldown
          (number_of (env.getenv "DEMO_GLOBAL_CALL_COOLDOWN_SECONDS") 60) c in
      rw⁻¹ same (valid, calls.0, calls.1, pause.1, wait.0, wait.1)
