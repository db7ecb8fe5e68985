-- ===== src/Backend/Http/Cancelled/Calls.antt =====
-- Calls and timeouts leave a cancelled incident alone.
use ignis_test.Prelude.{
  ℕ, ◌≡◌, ◌≢◌, inl, inr, refl, ◌∙◌, Bool, true, false, ◌&&◌, Option, none, some, List, String,
  str_eq, str_eq_iff, Bool-cases, if◌then◌else◌, arith,
}
use ignis_test.Store.Schema
use ignis_test.Store.Schema.{ResponseState, cancelled, Incident, Event, Db}
use ignis_test.Store.Incidents.{get_incident}
use ignis_test.Store.Calls.{reserve_call_attempt}
use ignis_test.Store.Calls.Policy.{reserve_call_attempt_limits}
use ignis_test.Backend.Settings.{Settings}
use ignis_test.Backend.Dispatch.{
  Begun, refused, answered, dial, Reply, begin_call, call_for, place_call,
}
use ignis_test.Backend.Dispatch.Safety.{placed_call_allowed}
use ignis_test.Backend.Escalation.{
  TimeoutEnd, ignored, escalated, crashed, on_timeout, is_awaiting, is_burning,
}
use ignis_test.Backend.Escalation.Timeout.{on_timeout_escalates}
use ignis_test.Backend.Http.Cancelled.{IsCancelled}

module _ {F J : Type 0} where
  -- The database when `begin_call` ends.
  abbrev pub begun_db : Begun F J → Db F J → Db F J
  begun_db (refused e) db = db
  begun_db (answered after reply) db = after
  begun_db (dial after n number) db = after

  abbrev call_db : Option (Begun F J) → Db F J → Db F J
  call_db none db = db
  call_db (some begun) db = begun_db begun db

  -- The database when `_wait` has asked for its call.
  abbrev pub ended_db : TimeoutEnd F J → Db F J → Db F J
  ended_db ignored db = db
  ended_db crashed db = db
  ended_db (escalated after event call) db = call_db call after

  pub same_state :
      (id : String) (db : Db F J) (r : Incident F)
      → get_incident id db ≡ some r
      → IsCancelled id db.incidents
      → r.response_state ≡ cancelled
  same_state id db r known (s, found, e) = ground (arith, e)

  IsCancelled-moved :
      (id : String) (before after : Db F J)
      → get_incident id after ≡ get_incident id before
      → IsCancelled id before.incidents
      → IsCancelled id after.incidents
  IsCancelled-moved id before after same (r, known, e) = (r, same ∙ known, e)

module _ (is_other_digit : ℕ → Bool) (sha256_hex : List ℕ → String) (settings : Settings)
    {F J : Type 0} (now : ℕ) (id : String) (db after : Db F J) (n : ℕ) (number : List ℕ) where
  pub IsCancelled-not-dial :
      IsCancelled id db.incidents
      → begin_call is_other_digit sha256_hex settings now id db ≢ dial after n number
  IsCancelled-not-dial c h =
      let (enabled, same, callable, may, held) =
        placed_call_allowed is_other_digit sha256_hex settings now id db after n number h in
      may.not_cancelled (same_state id db may.incident may.known c)

module _ (is_other_digit : ℕ → Bool) (sha256_hex : List ℕ → String) (settings : Settings)
    (real : str_eq settings.call_provider "mock" ≡ false) where
  open settings use {
    demo_dispatch_number, demo_allowed_numbers, global_call_cooldown_seconds,
    max_calls_per_incident,
  }

  module _ {F J : Type 0} (now : ℕ) (j : String) (db : Db F J) where
    -- Only the mock provider answers at once.
    place_call-waits :
        (r : Schema.Result (Db F J × ℕ)) (after : Db F J) (reply : Reply)
        → place_call is_other_digit sha256_hex settings now r ≢ answered after reply
    unfolding place_call
    place_call-waits (Schema.err e) after reply h = cc
    place_call-waits (Schema.ok (d, n)) after reply h = ground arith

    call_for-waits :
        (o : Option (Incident F)) (after : Db F J) (reply : Reply)
        → call_for is_other_digit sha256_hex settings now j o db ≢ answered after reply
    unfolding call_for
    call_for-waits none after reply h = cc
    call_for-waits (some r) after reply h =
        place_call-waits
          (reserve_call_attempt now j (sha256_hex demo_dispatch_number) global_call_cooldown_seconds
            max_calls_per_incident db)
          after reply (ground arith)

    pub begin_call-waits :
        (after : Db F J) (reply : Reply)
        → begin_call is_other_digit sha256_hex settings now j db ≢ answered after reply
    unfolding begin_call
    begin_call-waits after reply h = call_for-waits (get_incident j db) after reply (ground arith)

    pub begin_call-IsCancelled :
        (id : String)
        → IsCancelled id db.incidents
        → IsCancelled id
            (begun_db (begin_call is_other_digit sha256_hex settings now j db) db).incidents
    begin_call-IsCancelled id c =
        by_end (begin_call is_other_digit sha256_hex settings now j db) refl
      where
        by_end :
            (b : Begun F J)
            → begin_call is_other_digit sha256_hex settings now j db ≡ b
            → IsCancelled id (begun_db b db).incidents
        by_end (refused e) h = c
        by_end (answered after reply) h = absurd (begin_call-waits after reply h)
        by_end (dial after n number) h =
            let (enabled, same, callable, may, held) =
              placed_call_allowed is_other_digit sha256_hex settings now j db after n number h in
            let (below, more, row, others) =
              reserve_call_attempt_limits now j (sha256_hex demo_dispatch_number)
                global_call_cooldown_seconds max_calls_per_incident db after n held in
            elim (Bool-cases (str_eq id j)) [
              | inl hit ↦ absurd (
                  IsCancelled-not-dial is_other_digit sha256_hex settings now j db after n number
                    (rw ((str_eq_iff id j).0 hit) at c) h)
              | inr other ↦
                  IsCancelled-moved id db after (others id (λ e. cc (other, (str_eq_iff id j).1 e)))
                    c
            ]

  module _ {F J : Type 0} (payload : J) (now : ℕ) (j : String) (db : Db F J) where
    pub on_timeout-IsCancelled :
        (id : String)
        → IsCancelled id db.incidents
        → IsCancelled id
            (ended_db (on_timeout is_other_digit sha256_hex settings payload now j db) db).incidents
    on_timeout-IsCancelled id c =
        elim (on_timeout_escalates is_other_digit sha256_hex settings payload now j db) [
          | inl (quiet, why) ↦ rw quiet c
          | inr
                (
                  old, new, final, event, call, was, loud, done, row, state, evidence, writes,
                  others, of, asked,
                ) ↦
              rw (done, asked)
                (elim (Bool-cases (str_eq id j)) [
                  | inl hit ↦
                      absurd (
                        awake old loud
                          (same_state j db old was (rw ((str_eq_iff id j).0 hit) at c)))
                  | inr other ↦ by_call settings.demo_calls_enabled final (
                      IsCancelled-moved id db final
                        (others id (λ e. cc (other, (str_eq_iff id j).1 e))) c)
                ])
        ]
      where
        awake :
            (r : Incident F)
            → (is_awaiting r.response_state && is_burning r.hazard_state) ≡ true
            → r.response_state ≢ cancelled
        awake r loud e = ground arith

        by_call :
            (b : Bool) (final : Db F J)
            → IsCancelled id final.incidents
            → IsCancelled id
                (call_db
                  (if b
                    then some (begin_call is_other_digit sha256_hex settings now j final)
                    else none)
                  final).incidents
        by_call true final h = begin_call-IsCancelled now j final id h
        by_call false final h = h
