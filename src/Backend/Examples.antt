-- ===== src/Backend/Examples.antt =====
-- Runs of the backend's policies, and each theorem at an input.
use ignis_test.Prelude.{
  ℕ, ◌≤◌, ◌≡◌, refl, Bool, true, false, none, some, List, [], ◌∷◌, arith, String, codes, drop,
  count_by,
}
use ignis_test.Verifier.Decimal.{decimal}
use ignis_test.Store.Table.{find, update_where, upsert}
use ignis_test.Store.Schema.{Db, ok}
use ignis_test.Store.Incidents.{fresh_incident, merge_incident, upsert_incident}
use ignis_test.Store.Calls.{
  reserve_for, reserve_call_attempt, reserved, update_call, find_call, update_call_attempt,
}
use ignis_test.Store.Calls.Policy.{MayCall}
use ignis_test.Store.Examples.{burning}
use ignis_test.Backend.RateLimit.{expire, allow, granted, new_limiter, is_recent, granted_in_window}
use ignis_test.Backend.Settings.{Settings, validate}
use ignis_test.Backend.Destination.{
  destination_not_valid_e164, emergency_numbers_are_forbidden, destination_not_allowlisted,
  duplicate_or_max_calls_reached, all_of, contains, lstrip_plus, last_three, is_e164,
  validate_destination, IsCallable, validate_destination_sound,
}
use ignis_test.Backend.Environment.{Environment, settings_of, from_env, from_env_bounds}
use ignis_test.Backend.Dispatch.{refused, place_call, call_for, begin_call}
use ignis_test.Backend.Dispatch.Safety.{placed_call_allowed, second_call_refused}

environment_program : Unit {0}
unfolding settings_of from_env validate
environment_program = tt

program : Unit {0}
unfolding find update_where upsert fresh_incident merge_incident upsert_incident
    reserve_call_attempt reserve_for update_call find_call update_call_attempt expire allow granted
    all_of contains lstrip_plus last_three is_e164 validate_destination place_call call_for
    begin_call drop decimal validate
program = tt

abbrev requests : List (ℕ × String)
requests = (0, "a") ∷ (1, "a") ∷ (2, "b") ∷ (3, "a") ∷ (11, "a") ∷ []

-- Two requests in ten units.
grants : granted "a" requests (new_limiter 2 10) ≡ 0 ∷ 1 ∷ 11 ∷ []
unfolding program
grants = refl

granted_in_window_example : count_by (is_recent 10 12) (granted "a" requests (new_limiter 2 10)) ≤ 2
granted_in_window_example = granted_in_window 2 10 "a" requests 0 12 (omega arith) (omega arith)

abbrev no_other : ℕ → Bool
no_other c = false

abbrev number : List ℕ
number = codes "+14165550123"

number_checks :
    (validate_destination no_other number (number ∷ []) ≡ none)
    × (validate_destination no_other number [] ≡ some destination_not_allowlisted)
    × (validate_destination no_other (codes "+14165550911") (codes "+14165550911" ∷ [])
        ≡ some emergency_numbers_are_forbidden)
    × (validate_destination no_other (codes "911") (codes "911" ∷ [])
        ≡ some destination_not_valid_e164)
unfolding program
number_checks = (refl, refl, refl, refl)

validate_destination_sound_example : IsCallable number (number ∷ [])
unfolding program
validate_destination_sound_example = validate_destination_sound no_other number (number ∷ []) refl

abbrev hash : List ℕ → String
hash n = "hash"

abbrev settings : Settings
settings = record {
  app_env = "development";
  device_token = "token";
  expected_device_id = "device";
  elevenlabs_api_key = "key";
  occupant_agent_id = "occupant";
  dispatch_agent_id = "dispatch";
  phone_number_id = "phone";
  demo_calls_enabled = true;
  demo_dispatch_number = number;
  demo_allowed_numbers = number ∷ [];
  global_call_cooldown_seconds = 60;
  max_calls_per_incident = 1;
  call_provider = "elevenlabs";
  provider_webhook_secret = "secret";
  max_payload_bytes = 2_097_152;
  action_rate_limit_per_minute = 30;
  response_timeout_seconds = 10;
}

settings_valid : validate settings ≡ none
unfolding program
settings_valid = refl

abbrev called : Db ℕ ℕ
called = reserved 1_000 "fire-1" "hash" burning

placed_call_allowed_example :
    (true ≡ true)
    × (number ≡ number)
    × IsCallable number (number ∷ [])
    × MayCall 1_000 "fire-1" "hash" 60 1 burning
    × (reserve_call_attempt 1_000 "fire-1" "hash" 60 1 burning ≡ ok (called, 1))
unfolding program
placed_call_allowed_example =
    placed_call_allowed no_other hash settings 1_000 "fire-1" burning called 1 number refl

second_call_refused_example :
    begin_call no_other hash settings 2_000 "fire-1" called ≡ refused duplicate_or_max_calls_reached
unfolding program
second_call_refused_example =
    second_call_refused no_other hash settings 1_000 "fire-1" burning called 1 number 2_000 refl
      refl

abbrev empty_environment : Environment
empty_environment = record {
  getenv = λ name. none;
  int_of = λ raw. none;
  strip = λ raw. raw;
  lower = λ raw. raw;
  split_commas = λ raw. raw ∷ [];
}

from_env_bounds_example :
    (validate (settings_of empty_environment false 60 1 10) ≡ none)
    × (1 ≤ 1)
    × (1 ≤ 3)
    × (60 ≤ 86_400)
    × (2 ≤ 10)
    × (10 ≤ 300)
unfolding environment_program
from_env_bounds_example =
    from_env_bounds empty_environment (settings_of empty_environment false 60 1 10) refl
