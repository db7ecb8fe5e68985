-- ===== src/Store/Incidents/Laws.antt =====
-- What a device's update and an occupant's answer do to the row of an incident.
use ignis_test.Prelude.{
  ℕ, ◌≤◌, ◌≡◌, ◌≢◌, refl, ◌∙◌, true, false, Option, none, some, String, str_eq, str_eq_iff,
  if◌then◌else◌, arith, Option-cases, str_eq-ne, ◌⊎◌, inl, inr,
}
use ignis_test.Prelude.Floats.{Floats}
use ignis_test.Store.Table.{update_where, find-upsert, find-update_where, upserted, changed}
use ignis_test.Store.Schema.{HazardState, ResponseState, ok, err, incident_not_found, Incident, Db}
use ignis_test.Store.Incidents.{
  IncidentUpdate, get_incident, fresh_incident, merge_incident, upsert_incident, respond,
  update_incident_response, is_sticky, max_float, max_growth, box_or_null, coalesce, stamp,
  is_confirmed, is_resolved,
}

module _ {F J : Type 0} (floats : Floats F) (now : ℕ) (u : IncidentUpdate F)
    (default_device_id boot_id : String) (db : Db F J) where
  abbrev after : Db F J
  after = upsert_incident floats now u default_device_id boot_id db

  -- An update creates its incident, or merges with the row that is there, and touches no other.
  pub get_incident-upsert_incident :
      (id : String)
      → get_incident id after ≡ (
          if str_eq u.incident_id id
          then some (
              upserted
                (λ r. r.incident_id)
                (fresh_incident now u default_device_id boot_id)
                (merge_incident floats (fresh_incident now u default_device_id boot_id))
                (get_incident id db))
          else get_incident id db)
  unfolding upsert_incident fresh_incident merge_incident
  get_incident-upsert_incident id =
      find-upsert (λ r. r.incident_id) id (fresh_incident now u default_device_id boot_id)
        (merge_incident floats (fresh_incident now u default_device_id boot_id)) db.incidents
        (λ r. refl)

max_float_bounds :
    {F : Type 0} (floats : Floats F) (a b : F)
    → ((x y : F) → (floats.geb x y ≡ true) ⊎ (floats.geb y x ≡ true))
    → (floats.geb (max_float floats a b) a ≡ true) × (floats.geb (max_float floats a b) b ≡ true)
max_float_bounds floats a b total = ground (arith, total a a, total b b, total a b)

-- The columns that say what an incident is, and that no write changes.
pub record SameIdentity {F : Type 0} (old new : Incident F) : Type 0 where
  pub incident_id : new.incident_id ≡ old.incident_id
  pub device_id : new.device_id ≡ old.device_id
  pub boot_id : new.boot_id ≡ old.boot_id
  pub first_detection : new.first_detection_monotonic_ns ≡ old.first_detection_monotonic_ns
  pub first_detected : new.first_detected_at ≡ old.first_detected_at
  pub first_zone : new.first_zone ≡ old.first_zone
  pub created : new.created_at ≡ old.created_at

-- The columns of the provider's call.
pub record SameCall {F : Type 0} (old new : Incident F) : Type 0 where
  pub call_status : new.call_status ≡ old.call_status
  pub conversation : new.call_conversation_id ≡ old.call_conversation_id
  pub call_sid : new.call_sid ≡ old.call_sid

-- The states in which neither the occupant has answered nor the backend has acted.
abbrev pub IsUnanswered : ResponseState → Type 0
IsUnanswered r = (r ≡ ResponseState.idle) ⊎ (r ≡ ResponseState.awaiting_response)

-- A number that is there stays, or a greater one takes its place.
abbrev pub IsRaised : {F : Type 0} → Floats F → Option F → Option F → Type 0
IsRaised {F} floats new old =
    (a : F) → old ≡ some a → (b : F) × (new ≡ some b) × (floats.geb b a ≡ true)

-- The column is the first of the two that is not null.
abbrev pub Prefers : {A : Type 0} → Option A → Option A → Option A → Type 0
Prefers {A} first second column =
    ((a : A) → first ≡ some a → column ≡ some a) × (first ≡ none → column ≡ second)

-- What an update of a known incident does to its row; `old` and `new` are the row before and after.
pub record Keeps {F : Type 0} (floats : Floats F) (now : ℕ) (u : IncidentUpdate F)
    (old new : Incident F) : Type 0 where
  pub identity : SameIdentity old new
  pub answer : new.occupant_response ≡ old.occupant_response
  pub call : SameCall old new
  pub answer_kept : ¬ IsUnanswered old.response_state → new.response_state ≡ old.response_state
  pub device_state : IsUnanswered old.response_state → new.response_state ≡ u.response_state
  pub latest :
      (new.hazard_state ≡ u.hazard_state)
      × (new.current_zone ≡ u.current_zone)
      × (new.camera_health ≡ u.camera_health)
      × (new.inference_health ≡ u.inference_health)
  pub confirmed_once : (t : ℕ) → old.confirmed_at ≡ some t → new.confirmed_at ≡ some t
  pub confirmed_now :
      old.confirmed_at ≡ none → u.hazard_state ≡ HazardState.confirmed → new.confirmed_at ≡ some now
  pub unconfirmed :
      old.confirmed_at ≡ none → u.hazard_state ≢ HazardState.confirmed → new.confirmed_at ≡ none
  pub order : Prefers old.smoke_first u.smoke_first new.smoke_first
  pub delay :
      Prefers old.smoke_to_fire_delay_seconds u.smoke_to_fire_delay_seconds
        new.smoke_to_fire_delay_seconds
  pub seen : Prefers u.occupant_visible old.occupant_visible new.occupant_visible
  pub clock_forward :
      (old.updated_monotonic_ns ≤ new.updated_monotonic_ns)
      × (u.updated_monotonic_ns ≤ new.updated_monotonic_ns)
  pub fire_peak :
      (floats.geb new.peak_fire_confidence old.peak_fire_confidence ≡ true)
      × (floats.geb new.peak_fire_confidence u.fire_confidence ≡ true)
  pub smoke_peak :
      (floats.geb new.peak_smoke_confidence old.peak_smoke_confidence ≡ true)
      × (floats.geb new.peak_smoke_confidence u.smoke_confidence ≡ true)
  pub longest :
      (floats.geb new.seconds_persistent old.seconds_persistent ≡ true)
      × (floats.geb new.seconds_persistent u.seconds_persistent ≡ true)
  pub growth : IsRaised floats new.max_growth_percent old.max_growth_percent
  pub growth_now : IsRaised floats new.max_growth_percent u.fire_region_growth_percent
  pub no_growth :
      old.max_growth_percent ≡ none
      → u.fire_region_growth_percent ≡ none
      → new.max_growth_percent ≡ none
  pub resolved : u.hazard_state ≡ HazardState.resolved → new.resolved_at ≡ some now
  pub unresolved : u.hazard_state ≢ HazardState.resolved → new.resolved_at ≡ old.resolved_at
  pub fire_box :
      Prefers (box_or_null u.primary_fire_bbox) old.primary_fire_bbox new.primary_fire_bbox
  pub smoke_box :
      Prefers (box_or_null u.primary_smoke_bbox) old.primary_smoke_bbox new.primary_smoke_bbox
  pub written_at : new.updated_at ≡ now

sticky_or_IsUnanswered :
    (r : ResponseState) → (is_sticky r ≡ true) ⊎ ((is_sticky r ≡ false) × IsUnanswered r)
sticky_or_IsUnanswered ResponseState.idle = inr (refl, inl refl)
sticky_or_IsUnanswered ResponseState.awaiting_response = inr (refl, inr refl)
sticky_or_IsUnanswered _ = inl refl

sticky-answered : (r : ResponseState) → is_sticky r ≡ true → ¬ IsUnanswered r
sticky-answered r e (inl idle) = absurd (let f = rw idle at e in cc)
sticky-answered r e (inr awaiting) = absurd (let f = rw awaiting at e in cc)

kept_state :
    (old u : ResponseState)
    → (¬ IsUnanswered old → (if is_sticky old then old else u) ≡ old)
      × (IsUnanswered old → (if is_sticky old then old else u) ≡ u)
kept_state old u = elim (sticky_or_IsUnanswered old) [
  | inl s ↦ rw s (λ a. refl, λ w. absurd (sticky-answered old s w))
  | inr (f, w) ↦ rw f (λ a. absurd (a w), λ v. refl)
]

module _ {F : Type 0} (floats : Floats F)
    (total : (x y : F) → (floats.geb x y ≡ true) ⊎ (floats.geb y x ≡ true)) (now : ℕ)
    (u : IncidentUpdate F) (default_device_id boot_id : String) where
  confirmation :
      (o : Option ℕ) (h : HazardState)
      → ((t : ℕ) → o ≡ some t → coalesce o (stamp (is_confirmed h) now) ≡ some t)
        × (o ≡ none
            → h ≡ HazardState.confirmed
            → coalesce o (stamp (is_confirmed h) now) ≡ some now)
        × (o ≡ none → h ≢ HazardState.confirmed → coalesce o (stamp (is_confirmed h) now) ≡ none)
  confirmation (some t) h = (λ s e. e, λ e. absurd (cc), λ e. absurd (cc))
  confirmation none HazardState.confirmed =
      (λ s e. absurd (cc), λ e c. refl, λ e c. absurd (c refl))
  confirmation none h = (λ s e. absurd (cc), λ e c. absurd (cc), λ e c. refl)

  resolution_once :
      (o : Option ℕ) (h : HazardState)
      → (h ≡ HazardState.resolved → coalesce (stamp (is_resolved h) now) o ≡ some now)
        × (h ≢ HazardState.resolved → coalesce (stamp (is_resolved h) now) o ≡ o)
  resolution_once o HazardState.resolved = (λ e. refl, λ e. absurd (e refl))
  resolution_once o h = (λ e. absurd (cc), λ e. refl)

  max_growth-IsRaised :
      (old new : Option F)
      → IsRaised floats (max_growth floats old new) old
        × IsRaised floats (max_growth floats old new) new
  max_growth-IsRaised none none = (λ a e. absurd (cc), λ a e. absurd (cc))
  max_growth-IsRaised (some x) none = (λ a e. (a, e, ground (arith, total a a)), λ a e. absurd (cc))
  max_growth-IsRaised none (some y) = (λ a e. absurd (cc), λ a e. (a, e, ground (arith, total a a)))
  max_growth-IsRaised (some x) (some y) =
      let (old, new) = max_float_bounds floats x y total in
      (
        λ a e. (max_float floats x y, refl, grind (arith, old)),
        λ a e. (max_float floats x y, refl, grind (arith, new)),
      )

  merge_incident-Keeps :
      (old : Incident F)
      → Keeps floats now u old
          (merge_incident floats (fresh_incident now u default_device_id boot_id) old)
  unfolding merge_incident fresh_incident
  merge_incident-Keeps old =
      let (sticky, open_state) = kept_state old.response_state u.response_state in
      let (once, on, off) = confirmation old.confirmed_at u.hazard_state in
      record {
        identity = record {
          incident_id = refl;
          device_id = refl;
          boot_id = refl;
          first_detection = refl;
          first_detected = refl;
          first_zone = refl;
          created = refl;
        };
        answer = refl;
        call = record { call_status = refl; conversation = refl; call_sid = refl };
        answer_kept = sticky;
        device_state = open_state;
        latest = (refl, refl, refl, refl);
        confirmed_once = once;
        confirmed_now = on;
        unconfirmed = off;
        order = (λ b e. rw e refl, λ e. rw e refl);
        delay = (λ t e. rw e refl, λ e. rw e refl);
        seen = (λ b e. rw e refl, λ e. rw e refl);
        clock_forward = (omega arith, omega arith);
        fire_peak = max_float_bounds floats old.peak_fire_confidence u.fire_confidence total;
        smoke_peak = max_float_bounds floats old.peak_smoke_confidence u.smoke_confidence total;
        longest = max_float_bounds floats old.seconds_persistent u.seconds_persistent total;
        growth = (max_growth-IsRaised old.max_growth_percent u.fire_region_growth_percent).0;
        growth_now = (max_growth-IsRaised old.max_growth_percent u.fire_region_growth_percent).1;
        no_growth = λ e f. rw (e, f) refl;
        resolved = (resolution_once old.resolved_at u.hazard_state).0;
        unresolved = (resolution_once old.resolved_at u.hazard_state).1;
        fire_box = (λ a e. rw e refl, λ e. rw e refl);
        smoke_box = (λ a e. rw e refl, λ e. rw e refl);
        written_at = refl;
      }

  -- An update of an incident that is known keeps its identity, the occupant's answer and the
  -- call's columns; its response state once it is neither idle nor awaiting an answer, and takes
  -- the device's before; the time of the first confirmation, which the first confirmed update
  -- sets; and the order and the delay of the signatures, which an update gives where there are
  -- none. Its hazard state, zone and healths are the update's, as are its boxes and the
  -- occupant's visibility where the update has them; an update that says resolved stamps the
  -- time. Its peaks, growth, duration and device clock are no lower than its own and the
  -- update's, where the floats are totally ordered.
  pub upsert_incident-Keeps :
      {J : Type 0} (db : Db F J) (old : Incident F)
      → get_incident u.incident_id db ≡ some old
      → (new : Incident F) × (get_incident u.incident_id
            (upsert_incident floats now u default_device_id boot_id db)
          ≡ some new)
        × Keeps floats now u old new
  upsert_incident-Keeps db old known = (
    merge_incident floats (fresh_incident now u default_device_id boot_id) old,
    get_incident-upsert_incident floats now u default_device_id boot_id db u.incident_id
        ∙ rw ((str_eq_iff u.incident_id u.incident_id).1 refl, known) refl,
    merge_incident-Keeps old,
  )

-- What an answer of the occupant may not touch: the evidence, and the call.
pub record SameEvidence {F : Type 0} (old new : Incident F) : Type 0 where
  pub identity : SameIdentity old new
  pub call : SameCall old new
  pub updated : new.updated_monotonic_ns ≡ old.updated_monotonic_ns
  pub confirmed_at : new.confirmed_at ≡ old.confirmed_at
  pub current_zone : new.current_zone ≡ old.current_zone
  pub peaks :
      (new.peak_fire_confidence ≡ old.peak_fire_confidence)
      × (new.peak_smoke_confidence ≡ old.peak_smoke_confidence)
  pub growth : new.max_growth_percent ≡ old.max_growth_percent
  pub signatures :
      (new.smoke_first ≡ old.smoke_first)
      × (new.smoke_to_fire_delay_seconds ≡ old.smoke_to_fire_delay_seconds)
  pub seconds : new.seconds_persistent ≡ old.seconds_persistent
  pub visible : new.occupant_visible ≡ old.occupant_visible
  pub boxes :
      (new.primary_fire_bbox ≡ old.primary_fire_bbox)
      × (new.primary_smoke_bbox ≡ old.primary_smoke_bbox)
  pub healths :
      (new.camera_health ≡ old.camera_health) × (new.inference_health ≡ old.inference_health)

-- The hazard and the answer, where the write names no hazard state: the hazard stays, and a missing
-- answer leaves the one that was given.
-- Where it names one, both are written, and a resolved incident is stamped.
abbrev pub Writes :
    {F : Type 0} → ℕ → Option String → Option HazardState → Incident F → Incident F → Type 0
Writes now answer none old new =
    (new.hazard_state ≡ old.hazard_state)
    × (new.resolved_at ≡ old.resolved_at)
    × (answer ≡ none → new.occupant_response ≡ old.occupant_response)
    × ((a : String) → answer ≡ some a → new.occupant_response ≡ some a)
Writes now answer (some hazard) old new =
    (new.hazard_state ≡ hazard)
    × (new.occupant_response ≡ answer)
    × (hazard ≡ HazardState.resolved → new.resolved_at ≡ some now)
    × (hazard ≢ HazardState.resolved → new.resolved_at ≡ old.resolved_at)

resolution :
    (now : ℕ) (o : Option ℕ) (h : HazardState)
    → (h ≡ HazardState.resolved → (if is_resolved h then some now else o) ≡ some now)
      × (h ≢ HazardState.resolved → (if is_resolved h then some now else o) ≡ o)
resolution now o HazardState.resolved = (λ e. refl, λ e. absurd (e refl))
resolution now o h = (λ e. absurd (cc), λ e. refl)

module _ {F J : Type 0} (now : ℕ) (id : String) (response : ResponseState) (answer : Option String)
    (hazard : Option HazardState) (db : Db F J) where
  respond-SameEvidence :
      (h : Option HazardState) (old : Incident F)
      → SameEvidence old (respond now response answer h old)
  respond-SameEvidence none old = ground arith
  respond-SameEvidence (some h) old = ground arith

  respond-Writes :
      (h : Option HazardState) (old : Incident F)
      → Writes now answer h old (respond now response answer h old)
  respond-Writes none old = (refl, refl, λ e. rw e, λ a e. rw e)
  respond-Writes (some h) old =
      (refl, refl, (resolution now old.resolved_at h).0, (resolution now old.resolved_at h).1)

  response-respond :
      (h : Option HazardState) (old : Incident F)
      → (respond now response answer h old).response_state ≡ response
  response-respond none old = refl
  response-respond (some h) old = refl

  key-respond :
      (h : Option HazardState) (r : Incident F)
      → (respond now response answer h r).incident_id ≡ r.incident_id
  key-respond none r = refl
  key-respond (some h) r = refl

  abbrev written : Db F J
  written = record db {
    incidents =
        update_where (λ r. r.incident_id) id (respond now response answer hazard) db.incidents;
  }

  get_incident-written :
      (j : String)
      → get_incident j written ≡ (
          if str_eq id j
          then changed
              (λ (r : Incident F). r.incident_id)
              (respond now response answer hazard)
              (get_incident j db)
          else get_incident j db)
  get_incident-written j =
      find-update_where (λ r. r.incident_id) id j (respond now response answer hazard) db.incidents
        (key-respond hazard)

  pub update_incident_response_lem :
      ((get_incident id db ≡ none)
        × (update_incident_response now id response answer hazard db ≡ err incident_not_found))
      ⊎ ((old : Incident F) × (new : Incident F) × (after : Db F J) × (get_incident id db
            ≡ some old)
          × (update_incident_response now id response answer hazard db ≡ ok after)
          × (get_incident id after ≡ some new)
          × (new.response_state ≡ response)
          × SameEvidence old new
          × Writes now answer hazard old new
          × ((j : String) → j ≢ id → get_incident j after ≡ get_incident j db))
  unfolding update_incident_response
  update_incident_response_lem = elim (Option-cases (get_incident id db)) [
    | inl missing ↦ inl (missing, rw missing)
    | inr (old, known) ↦ inr (
      old,
      respond now response answer hazard old,
      written,
      known,
      rw known,
      get_incident-written id ∙ rw ((str_eq_iff id id).1 refl, known) refl,
      response-respond hazard old,
      respond-SameEvidence hazard old,
      respond-Writes hazard old,
      λ j other. get_incident-written j ∙ rw (str_eq-ne id j other) refl,
    )
  ]
