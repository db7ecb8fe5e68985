-- ===== src/Backend/Settings.antt =====
-- backend/app/config.py: the settings that the modelled code reads, and `Settings.validate`.
use ignis_test.Prelude.{
  ℕ, Bool, not, ◌&&◌, ◌||◌, Option, none, some, List, String, str_eq, ltb, ◌==◌, length, codes,
  if◌then◌else◌,
}

pub record Settings : Type 0 where
  pub app_env : String
  pub device_token : String
  pub expected_device_id : String
  pub elevenlabs_api_key : String
  pub occupant_agent_id : String
  pub dispatch_agent_id : String
  pub phone_number_id : String
  pub demo_calls_enabled : Bool
  pub demo_dispatch_number : List ℕ
  pub demo_allowed_numbers : List (List ℕ)
  pub global_call_cooldown_seconds : ℕ
  pub max_calls_per_incident : ℕ
  pub call_provider : String
  pub provider_webhook_secret : String
  pub max_payload_bytes : ℕ
  pub action_rate_limit_per_minute : ℕ
  pub response_timeout_seconds : ℕ

-- The `ValueError` of each test of `validate`.
pub data SettingsError : Type 0 where
  token_length development_token unknown_provider mock_in_production : SettingsError
  number_required : SettingsError

-- `none` where `validate` returns
unfoldable pub validate : Settings → Option SettingsError
validate s =
    if str_eq s.device_token "" || ltb 512 (length (codes s.device_token))
    then some token_length
    else if str_eq s.app_env "production" && str_eq s.device_token "replace-me"
    then some development_token
    else if not (str_eq s.call_provider "elevenlabs" || str_eq s.call_provider "mock")
    then some unknown_provider
    else if str_eq s.call_provider "mock" && str_eq s.app_env "production"
    then some mock_in_production
    else if s.demo_calls_enabled && length s.demo_dispatch_number == 0
    then some number_required
    else none
