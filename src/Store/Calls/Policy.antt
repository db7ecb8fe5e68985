-- ===== src/Store/Calls/Policy.antt =====
-- The call policy: what `reserve_call_attempt` refuses, and what a reservation leaves.
use ignis_test.Prelude.{
  ℕ, suc, ◌+◌, ◌*◌, ◌≤◌, ◌<◌, ◌≡◌, ◌≢◌, ◌↔◌, refl, ap, ◌∙◌, true, false, Option, none, some, List,
  [], ◌∷◌, String, str_eq_refl, str_eq-ne, arith, count_by-append, All,
}
use ignis_test.Store.Table.{find-update_where}
use ignis_test.Store.Schema.{ResponseState, Result, ok, Incident, CallAttempt, Db}
use ignis_test.Store.Incidents.{get_incident}
use ignis_test.Store.Calls.{
  is_active, is_cancelled, is_some, second, is_active_call_of, active_calls, latest_request,
  cooling, call_row, requested_row, reserved, reserve_for, reserve_call_attempt,
}

-- Every active call was requested at least `gap` microseconds before `now`.
abbrev pub Apart : ℕ → ℕ → List CallAttempt → Type 0
Apart now gap = All (λ a. is_active a.status ≡ true → a.requested_at + gap ≤ now)

cooling→Apart :
    (now cooldown_seconds : ℕ) (calls : List CallAttempt)
    → cooling now cooldown_seconds (latest_request calls) ≡ false
    → Apart now (cooldown_seconds * second) calls
cooling→Apart now cooldown_seconds [] h = tt
cooling→Apart now cooldown_seconds (a ∷ calls) h =
    (λ active. ground arith, cooling→Apart now cooldown_seconds calls (ground arith))

Apart→cooling :
    (now cooldown_seconds : ℕ) (calls : List CallAttempt)
    → Apart now (cooldown_seconds * second) calls
    → cooling now cooldown_seconds (latest_request calls) ≡ false
Apart→cooling now cooldown_seconds [] h = refl
Apart→cooling now cooldown_seconds (a ∷ calls) h =
    ground (arith, h.0, Apart→cooling now cooldown_seconds calls h.1)

module _ {F J : Type 0} (now : ℕ) (id destination_hash : String) (cooldown_seconds max_calls : ℕ)
    (db : Db F J) where
  -- What the policy asks of a call for the incident `id`.
  pub record MayCall : Type 0 where
    pub incident : Incident F
    pub known : get_incident id db ≡ some incident
    pub seen : is_some incident.confirmed_at ≡ true
    pub not_cancelled : incident.response_state ≢ ResponseState.cancelled
    pub below_limit : active_calls id db.call_attempts < max_calls
    pub apart : Apart now (cooldown_seconds * second) db.call_attempts

  abbrev outcome : Result (Db F J × ℕ)
  outcome = reserve_call_attempt now id destination_hash cooldown_seconds max_calls db

  passed :
      (r : Incident F) {x : Db F J × ℕ}
      → reserve_for (some r) now id destination_hash cooldown_seconds max_calls db ≡ ok x
      → (is_some r.confirmed_at ≡ true)
        × (is_cancelled r.response_state ≡ false)
        × (active_calls id db.call_attempts < max_calls)
        × (cooling now cooldown_seconds (latest_request db.call_attempts) ≡ false)
        × (x ≡ (reserved now id destination_hash db, db.last_attempt + 1))
  unfolding reserve_for
  passed r h = ground arith

  allowed_by :
      (o : Option (Incident F)) {x : Db F J × ℕ}
      → get_incident id db ≡ o
      → reserve_for o now id destination_hash cooldown_seconds max_calls db ≡ ok x
      → MayCall × (x ≡ (reserved now id destination_hash db, db.last_attempt + 1))
  unfolding reserve_for
  allowed_by none e h = absurd (cc)
  allowed_by (some r) e h =
      let (seen, live, below, cool, same) = passed r h in
      (
        record {
          incident = r;
          known = e;
          seen = seen;
          not_cancelled = λ c. cc (ap is_cancelled c);
          below_limit = below;
          apart = cooling→Apart now cooldown_seconds db.call_attempts cool;
        },
        same,
      )

  pub allowed :
      {x : Db F J × ℕ}
      → outcome ≡ ok x
      → MayCall × (x ≡ (reserved now id destination_hash db, db.last_attempt + 1))
  unfolding reserve_call_attempt
  allowed h = allowed_by (get_incident id db) refl h

  live_response : (r : ResponseState) → r ≢ ResponseState.cancelled → is_cancelled r ≡ false
  live_response ResponseState.cancelled n = absurd (n refl)
  live_response _ n = refl

  -- A reservation is made exactly when the policy allows the call: the incident is known, was
  -- visually confirmed and is not cancelled, its active calls are below the limit, and every active
  -- call of any incident is a cooldown old. It then adds one requested call, under the next id, and
  -- marks the incident.
  pub reserve_call_attempt_iff :
      (outcome ≡ ok (reserved now id destination_hash db, db.last_attempt + 1)) ↔ MayCall
  unfolding reserve_call_attempt reserve_for
  reserve_call_attempt_iff = (
    λ h. (allowed h).0,
    λ m. rw m.known (
        ground (
          arith,
          m.seen,
          live_response m.incident.response_state m.not_cancelled,
          m.below_limit,
          Apart→cooling now cooldown_seconds db.call_attempts m.apart,
        )),
  )

  -- After a reservation the incident has at most the allowed number of active calls, it is marked as
  -- requested and still confirmed, and no other incident's row has changed.
  pub reserve_call_attempt_limits :
      (after : Db F J) (n : ℕ)
      → outcome ≡ ok (after, n)
      → (active_calls id after.call_attempts ≤ max_calls)
        × (active_calls id after.call_attempts ≡ suc (active_calls id db.call_attempts))
        × ((r : Incident F) × (get_incident id after ≡ some r)
            × (r.response_state ≡ ResponseState.call_requested)
            × (is_some r.confirmed_at ≡ true))
        × ((j : String) → j ≢ id → get_incident j after ≡ get_incident j db)
  reserve_call_attempt_limits after n h =
      let (m, same) = allowed h in
      let made : after ≡ reserved now id destination_hash db = ap (λ (x : Db F J × ℕ). x.0) same in
      let calls : active_calls id (reserved now id destination_hash db).call_attempts
          ≡ suc (active_calls id db.call_attempts) =
        count_by-append (is_active_call_of id) db.call_attempts
          (call_row now (db.last_attempt + 1) id destination_hash ∷ [])
        ∙ rw str_eq_refl (omega arith) in
      rw made (
        omega (arith, calls, m.below_limit),
        calls,
        (
          requested_row now m.incident,
          find-update_where (λ r. r.incident_id) id id (requested_row now) db.incidents (λ r. refl)
              ∙ rw (str_eq_refl id, m.known) refl,
          refl,
          m.seen,
        ),
        λ j other.
            find-update_where (λ r. r.incident_id) id j (requested_row now) db.incidents (λ r. refl)
            ∙ rw (str_eq-ne id j other) refl,
      )
