-- ===== src/Store/Examples.antt =====
-- A small database, the transactions on it, and each theorem at an input. A confidence is a number
-- of thousandths, and a JSON value a number.
use ignis_test.Prelude.{
  ℕ, suc, ◌-◌, ◌≤◌, ◌≡◌, ◌≢◌, ◌↔◌, ◌⊎◌, refl, true, false, none, some, arith, String, leb, ltb,
  str_eq, if◌then◌else◌,
}
use ignis_test.Prelude.Floats.{Floats}
use ignis_test.Store.Table.{find, update_where, upsert}
use ignis_test.Store.Schema.{
  HazardState, ResponseState, CallStatus, initiated, failed, Incident, Device, Db, empty_db, Result,
  ok, err,
}
use ignis_test.Store.Devices.{
  Hello, get_device, upsert_device, mark_device_disconnected, greeted, disconnect_after_hello,
}
use ignis_test.Store.Incidents.{
  IncidentUpdate, get_incident, fresh_incident, merge_incident, upsert_incident,
  update_incident_response,
}
use ignis_test.Store.Incidents.Laws.{Keeps, upsert_incident-Keeps}
use ignis_test.Store.Calls.{
  active_calls, reserve_for, reserve_call_attempt, reserved, CallReport, update_call, find_call,
  update_call_attempt, is_some,
}
use ignis_test.Store.Calls.Policy.{MayCall, reserve_call_attempt_iff, reserve_call_attempt_limits}
use ignis_test.Store.Configuration.{get_configuration, put_configuration}

abbrev pub floats : Floats ℕ
floats = record {
  zero_float = 0;
  geb = λ a b. leb b a;
  gtb = λ a b. ltb b a;
  seconds_between = λ a b. a - b;
}

total : (x y : ℕ) → (leb y x ≡ true) ⊎ (leb x y ≡ true)
total x y = ground arith

program : Unit {0}
unfolding find update_where upsert fresh_incident merge_incident upsert_incident
    update_incident_response reserve_call_attempt reserve_for update_call find_call
    update_call_attempt put_configuration get_configuration upsert_device mark_device_disconnected
program = tt

abbrev pub sighting : HazardState → ResponseState → IncidentUpdate ℕ
sighting hazard response = record {
  incident_id = "fire-1";
  device_id = none;
  boot_id = none;
  hazard_state = hazard;
  response_state = response;
  first_detection_monotonic_ns = 5;
  updated_monotonic_ns = 9;
  fire_confidence = 800;
  smoke_confidence = 100;
  seconds_persistent = 2;
  first_zone = "Kitchen";
  current_zone = "Kitchen";
  primary_fire_bbox = none;
  primary_smoke_bbox = none;
  fire_region_growth_percent = none;
  smoke_first = none;
  smoke_to_fire_delay_seconds = none;
  occupant_visible = none;
  camera_health = "HEALTHY";
  inference_health = "HEALTHY";
}

abbrev pub burning : Db ℕ ℕ
burning =
    upsert_incident floats 100 (sighting HazardState.confirmed ResponseState.awaiting_response)
      "device" "boot" empty_db

abbrev pub row : Incident ℕ
row =
    fresh_incident 100 (sighting HazardState.confirmed ResponseState.awaiting_response) "device"
      "boot"

known : get_incident "fire-1" burning ≡ some row
unfolding program
known = refl

upsert_incident-Keeps_example :
    (new : Incident ℕ) × (get_incident "fire-1" (
        upsert_incident floats 200
          (sighting HazardState.visual_signature_lost ResponseState.idle)
          "device"
          "boot"
          burning)
      ≡ some new)
    × Keeps floats 200 (sighting HazardState.visual_signature_lost ResponseState.idle) row new
unfolding program
upsert_incident-Keeps_example =
    upsert_incident-Keeps floats total 200
      (sighting HazardState.visual_signature_lost ResponseState.idle) "device" "boot" burning row
      refl

abbrev called : Db ℕ ℕ
called = reserved 1_000 "fire-1" "hash" burning

may_call : MayCall 1_000 "fire-1" "hash" 60 1 burning
unfolding program
may_call = record {
  incident = row;
  known = refl;
  seen = refl;
  not_cancelled = λ e. cc;
  below_limit = omega arith;
  apart = tt;
}

reserve_call_attempt_iff_example :
    (reserve_call_attempt 1_000 "fire-1" "hash" 60 1 burning ≡ ok (called, 1))
    ↔ MayCall 1_000 "fire-1" "hash" 60 1 burning
unfolding program
reserve_call_attempt_iff_example = reserve_call_attempt_iff 1_000 "fire-1" "hash" 60 1 burning

reserve_call_attempt_limits_example :
    (active_calls "fire-1" called.call_attempts ≤ 1)
    × (active_calls "fire-1" called.call_attempts
        ≡ suc (active_calls "fire-1" burning.call_attempts))
    × ((r : Incident ℕ) × (get_incident "fire-1" called ≡ some r)
        × (r.response_state ≡ ResponseState.call_requested)
        × (is_some r.confirmed_at ≡ true))
    × ((j : String) → j ≢ "fire-1" → get_incident j called ≡ get_incident j burning)
unfolding program
reserve_call_attempt_limits_example =
    reserve_call_attempt_limits 1_000 "fire-1" "hash" 60 1 burning called 1 refl

-- A call that is first reported as failed and then as initiated is active again: with a second
-- reservation in between, an incident that may have one call has two that are active.
abbrev report : CallStatus → CallReport
report status = record {
  status = status;
  conversation_id = none;
  call_sid = none;
  error_code = none;
  error_message_safe = none;
}

abbrev then_do {ℓ} : {A : Type ℓ} → Db ℕ ℕ → Result A → (A → Db ℕ ℕ) → Db ℕ ℕ
then_do old (ok a) f = f a
then_do old (err e) f = old

abbrev missed : Db ℕ ℕ
missed = then_do called (update_call_attempt 1_001 1 (report failed) called) (λ d. d)

abbrev again : Db ℕ ℕ
again = then_do missed (reserve_call_attempt 1_002 "fire-1" "hash" 60 1 missed) (λ d. d.0)

abbrev revived : Db ℕ ℕ
revived = then_do again (update_call_attempt 1_003 1 (report initiated) again) (λ d. d)

two_active_calls : active_calls "fire-1" revived.call_attempts ≡ 2
unfolding program
two_active_calls = refl

abbrev boot_a : Hello ℕ
boot_a = record { device_id = "device"; boot_id = "a"; software_version = "1"; capabilities = 0 }

disconnect_after_hello_example :
    (d : Device ℕ) × (get_device "device" (greeted 1 2 boot_a 0 "b" burning) ≡ some d)
    × (d.connected ≡ true)
    × (get_device "device"
          (mark_device_disconnected 2 "device" "b" (greeted 1 2 boot_a 0 "b" burning))
        ≡ some (
            if str_eq "a" "b"
            then record d { connected = false; disconnected_at = some 2; last_seen_at = 2 }
            else d))
disconnect_after_hello_example = disconnect_after_hello 1 2 boot_a 0 "b" burning
