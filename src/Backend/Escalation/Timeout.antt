-- ===== src/Backend/Escalation/Timeout.antt =====
-- What the end of the wait for an occupant does.
use ignis_test.Prelude.{
  ℕ, ◌≡◌, ◌≢◌, ◌⊎◌, inl, inr, refl, ap, ◌∙◌, Bool, true, false, ◌&&◌, Option, none, some, List, [],
  ◌∷◌, ◌++◌, ◌+◌, arith, String, Bool-cases, Option-cases, if◌then◌else◌,
}
use ignis_test.Store.Schema.{ResponseState, ok, escalating, Incident, Event, Db}
use ignis_test.Store.Incidents.{get_incident, add_event, event_row, update_incident_response}
use ignis_test.Store.Incidents.Laws.{SameEvidence, Writes, update_incident_response_lem}
use ignis_test.Backend.Settings.{Settings}
use ignis_test.Backend.Dispatch.{Begun, begin_call}
use ignis_test.Backend.Escalation.{
  is_awaiting, is_burning, ignored, escalated, on_timeout, announce,
}

module _ {F J : Type 0} (payload : J) (now : ℕ) (id : String) where
  -- One event of the incident has been recorded, under the next id.
  pub record Records (before after : Db F J) (event : Event J) : Type 0 where
    pub events : after.events ≡ before.events ++ event ∷ []
    pub counted : after.last_event ≡ before.last_event + 1
    pub numbered : event.id ≡ before.last_event + 1
    pub of : event.incident_id ≡ id
    pub kind : event.event_type ≡ "NO_OCCUPANT_RESPONSE"
    pub source : event.source ≡ "backend_timeout"
    pub content : event.payload ≡ payload
    pub received : event.received_at ≡ now
    pub calls : after.call_attempts ≡ before.call_attempts

module _ (is_other_digit : ℕ → Bool) (sha256_hex : List ℕ → String) (settings : Settings)
    {F J : Type 0} (payload : J) (now : ℕ) (id : String) (db : Db F J) where
  abbrev noted : Db F J → Db F J
  noted after = record after {
    events =
        after.events
        ++ event_row now id "NO_OCCUPANT_RESPONSE" "backend_timeout" payload none none after ∷ [];
    last_event = after.last_event + 1;
  }

  announce-known :
      (r : Incident F) (after : Db F J)
      → get_incident id after ≡ some r
      → (event : Event J) × (call : Option (Begun F J)) × (final : Db F J) × (announce
            is_other_digit sha256_hex settings payload now id
            (add_event now id "NO_OCCUPANT_RESPONSE" "backend_timeout" payload none none after)
          ≡ escalated final event call)
        × (final.incidents ≡ after.incidents)
        × Records payload now id after final event
        × (call ≡ (
            if settings.demo_calls_enabled
            then some (begin_call is_other_digit sha256_hex settings now id final)
            else none))
  unfolding add_event
  announce-known r after known = (
    event_row now id "NO_OCCUPANT_RESPONSE" "backend_timeout" payload none none after,
    if settings.demo_calls_enabled
        then some (begin_call is_other_digit sha256_hex settings now id (noted after))
        else none,
    noted after,
    rw known refl,
    refl,
    record {
      events = refl;
      counted = refl;
      numbered = refl;
      of = refl;
      kind = refl;
      source = refl;
      content = refl;
      received = refl;
      calls = refl;
    },
    refl,
  )

  -- `update_incident_response` writes no other table.
  other_tables :
      (after : Db F J) (response : ResponseState) (answer : Option String)
      → update_incident_response now id response answer none db ≡ ok after
      → (after.events ≡ db.events)
        × (after.last_event ≡ db.last_event)
        × (after.call_attempts ≡ db.call_attempts)
  unfolding update_incident_response
  other_tables after response answer e = ground arith

  only_incidents :
      (after final : Db F J) (event : Event J)
      → (after.events ≡ db.events)
        × (after.last_event ≡ db.last_event)
        × (after.call_attempts ≡ db.call_attempts)
      → Records payload now id after final event
      → Records payload now id db final event
  only_incidents after final event (events, count, calls) r = record {
    events = r.events ∙ ap (λ xs. xs ++ event ∷ []) events;
    counted = r.counted ∙ ap (λ k. k + 1) count;
    numbered = r.numbered ∙ ap (λ k. k + 1) count;
    of = r.of;
    kind = r.kind;
    source = r.source;
    content = r.content;
    received = r.received;
    calls = r.calls ∙ calls;
  }

  same_row : (r s : Incident F) → get_incident id db ≡ some r → get_incident id db ≡ some s → r ≡ s
  same_row r s known e = ground arith

  -- The end of the wait, up to its call, never raises. It does nothing where the incident is unknown, was
  -- answered or is not burning. Otherwise the incident is escalating with the answer "no_response",
  -- and its hazard state, evidence and call stay, as does every other incident; one event of it is
  -- appended, with the next id; no call is written yet, and one is asked for exactly where calls are
  -- enabled.
  pub on_timeout_escalates :
      ((on_timeout is_other_digit sha256_hex settings payload now id db ≡ ignored)
        × ((r : Incident F)
            → get_incident id db ≡ some r
            → (is_awaiting r.response_state && is_burning r.hazard_state) ≡ false))
      ⊎ ((old : Incident F) × (new : Incident F) × (final : Db F J) × (event : Event J)
          × (call : Option (Begun F J)) × (get_incident id db ≡ some old)
          × ((is_awaiting old.response_state && is_burning old.hazard_state) ≡ true)
          × (on_timeout is_other_digit sha256_hex settings payload now id db
              ≡ escalated final event call)
          × (get_incident id final ≡ some new)
          × (new.response_state ≡ escalating)
          × SameEvidence old new
          × Writes now (some "no_response") none old new
          × ((j : String) → j ≢ id → get_incident j final ≡ get_incident j db)
          × Records payload now id db final event
          × (call ≡ (
              if settings.demo_calls_enabled
              then some (begin_call is_other_digit sha256_hex settings now id final)
              else none)))
  unfolding on_timeout
  on_timeout_escalates = elim (Option-cases (get_incident id db)) [
    | inl missing ↦ inl (rw missing refl, λ r e. absurd (cc))
    | inr (r, known) ↦
        elim (Bool-cases (is_awaiting r.response_state && is_burning r.hazard_state)) [
          | inr quiet ↦ inl (rw (known, quiet) refl, λ s e. rw (same_row r s known e) at quiet)
          | inl loud ↦
              elim (update_incident_response_lem now id escalating (some "no_response") none db) [
                | inl (missing, raised) ↦ absurd (cc)
                | inr (old, new, after, was, written, row, state, evidence, writes, others) ↦
                    let (event, call, final, noted_so, same, recorded, off) =
                      announce-known new after row in
                    inr (
                      old,
                      new,
                      final,
                      event,
                      call,
                      was,
                      rw (same_row r old known was) at loud,
                      rw (known, loud, written, noted_so) refl,
                      rw same row,
                      state,
                      evidence,
                      writes,
                      λ j other. rw same (others j other),
                      only_incidents after final event
                          (other_tables after escalating (some "no_response") written) recorded,
                      off,
                    )
              ]
        ]
  ]
