-- ===== src/Backend/Dispatch/Safety.antt =====
-- When `request_demo_call` places a call, and that it places no second one.
use ignis_test.Prelude.{
  ℕ, ◌≤◌, ◌≡◌, Bool, true, false, not, ◌&&◌, Option, none, some, List, String, str_eq, arith,
  le→leb,
}
use ignis_test.Store.Schema.{ResponseState, policy_max_calls, Result, ok, err, Incident, Db}
use ignis_test.Store.Incidents.{get_incident}
use ignis_test.Store.Calls.{is_some, active_calls, reserve_call_attempt, reserve_for}
use ignis_test.Store.Calls.Policy.{MayCall, allowed, reserve_call_attempt_limits}
use ignis_test.Backend.Settings.{Settings}
use ignis_test.Backend.Destination.{
  duplicate_or_max_calls_reached, validate_destination, validate_destination_sound, IsCallable,
}
use ignis_test.Backend.Dispatch.{refused, dial, begin_call, call_for, place_call}

module _ (is_other_digit : ℕ → Bool) (sha256_hex : List ℕ → String) (settings : Settings) where
  open settings use {
    demo_calls_enabled, demo_dispatch_number, demo_allowed_numbers, global_call_cooldown_seconds,
    max_calls_per_incident,
  }

  module _ {F J : Type 0} (now : ℕ) (id : String) (db after : Db F J) (n : ℕ)
      (number : List ℕ) where
    abbrev reservation : Result (Db F J × ℕ)
    reservation =
        reserve_call_attempt now id (sha256_hex demo_dispatch_number) global_call_cooldown_seconds
          max_calls_per_incident db

    placed :
        (r : Result (Db F J × ℕ))
        → place_call is_other_digit sha256_hex settings now r ≡ dial after n number
        → (r ≡ ok (after, n)) × (number ≡ demo_dispatch_number)
    unfolding place_call
    placed (err e) h = absurd (cc)
    placed (ok (d, m)) h = ground arith

    called :
        (o : Option (Incident F))
        → call_for is_other_digit sha256_hex settings now id o db ≡ dial after n number
        → (reservation ≡ ok (after, n)) × (number ≡ demo_dispatch_number)
    unfolding call_for
    called none h = absurd (cc)
    called (some r) h = placed reservation (ground arith)

    begun :
        begin_call is_other_digit sha256_hex settings now id db ≡ dial after n number
        → (demo_calls_enabled ≡ true)
          × (validate_destination is_other_digit demo_dispatch_number demo_allowed_numbers ≡ none)
          × (call_for is_other_digit sha256_hex settings now id (get_incident id db) db
              ≡ dial after n number)
    unfolding begin_call
    begun h = ground arith

    -- A call is placed only if calls are enabled, to the configured number, which is on the allowlist
    -- and is and ends in no emergency number, for an incident that the policy allows a call for; and
    -- it was reserved first.
    pub placed_call_allowed :
        begin_call is_other_digit sha256_hex settings now id db ≡ dial after n number
        → (demo_calls_enabled ≡ true)
          × (number ≡ demo_dispatch_number)
          × IsCallable number demo_allowed_numbers
          × MayCall now id
              (sha256_hex demo_dispatch_number)
              global_call_cooldown_seconds
              max_calls_per_incident
              db
          × (reservation ≡ ok (after, n))
    placed_call_allowed h =
        let (enabled, valid, call) = begun h in
        let (held, same) = called (get_incident id db) call in
        (
          enabled,
          same,
          rw same (
              validate_destination_sound is_other_digit demo_dispatch_number demo_allowed_numbers
                valid),
          (allowed now id (sha256_hex demo_dispatch_number) global_call_cooldown_seconds
              max_calls_per_incident db held).0,
          held,
        )

    abbrev unconfigured : Bool
    unconfigured =
        str_eq settings.call_provider "elevenlabs"
        && not (
            not (str_eq settings.elevenlabs_api_key "")
            && (not (str_eq settings.dispatch_agent_id "")
                && not (str_eq settings.phone_number_id "")))

    configured :
        (o : Option (Incident F))
        → call_for is_other_digit sha256_hex settings now id o db ≡ dial after n number
        → unconfigured ≡ false
    unfolding call_for
    configured none h = absurd (cc)
    configured (some r) h = ground arith

    reserve_again :
        (later : ℕ) (hash : String) (r : Incident F)
        → get_incident id after ≡ some r
        → r.response_state ≡ ResponseState.call_requested
        → is_some r.confirmed_at ≡ true
        → max_calls_per_incident ≤ active_calls id after.call_attempts
        → reserve_call_attempt later id hash global_call_cooldown_seconds max_calls_per_incident
            after
          ≡ err policy_max_calls
    unfolding reserve_call_attempt reserve_for
    reserve_again later hash r row requested seen full =
        rw row
          (ground (arith, le→leb max_calls_per_incident (active_calls id after.call_attempts) full))

    refused_again :
        (later : ℕ) (r : Incident F)
        → get_incident id after ≡ some r
        → r.response_state ≡ ResponseState.call_requested
        → is_some r.confirmed_at ≡ true
        → unconfigured ≡ false
        → max_calls_per_incident ≤ active_calls id after.call_attempts
        → call_for is_other_digit sha256_hex settings later id (some r) after
          ≡ refused duplicate_or_max_calls_reached
    unfolding call_for
    refused_again later r row requested seen ready full = rw (
      seen,
      requested,
      ready,
      reserve_again later (sha256_hex demo_dispatch_number) r row requested seen full,
    )

    -- With one call to an incident allowed, once a request for it has gone on to place a call, a second
    -- request on the database that the first one left, at whatever time, is refused as a duplicate.
    pub second_call_refused :
        (later : ℕ)
        → max_calls_per_incident ≡ 1
        → begin_call is_other_digit sha256_hex settings now id db ≡ dial after n number
        → begin_call is_other_digit sha256_hex settings later id after
          ≡ refused duplicate_or_max_calls_reached
    unfolding begin_call
    second_call_refused later one h =
        let (enabled, valid, call) = begun h in
        let (held, same) = called (get_incident id db) call in
        let (below, more, (r, row, requested, seen), others) =
          reserve_call_attempt_limits now id (sha256_hex demo_dispatch_number)
            global_call_cooldown_seconds max_calls_per_incident db after n held in
        rw (enabled, valid, row)
          (refused_again later r row requested seen (configured (get_incident id db) call)
            (omega (arith, more, one)))
