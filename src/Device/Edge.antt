-- ===== src/Device/Edge.antt =====
-- poc/pi/ignis_poc/edge.py: `run` behind the camera and the detector, over `BackendStream`, and
-- `frame_payload` of poc/pi/ignis_poc/protocol.py. What a round reads is a `Round`: the clocks, the
-- picture, the detections, and how the sockets behave at each packet. A round in which the camera or
-- the detector raises ends the loop: it is the end of the list. The local log is a list of its entries,
-- `Writer` is `json.dumps` on the payloads. The sleep at the end of a round is not modelled.

pub mod Warranted
pub mod Alarms
mod Examples
use ignis_test.Prelude.{
  ℕ, ◌+◌, ◌^◌, Bool, Option, none, some, List, [], ◌∷◌, ◌++◌, String, str_eq, leb, ltb, ◌==◌,
  if◌then◌else◌, length, keep,
}
use ignis_test.Prelude.Floats.{Floats}
use ignis_test.Wire.Bytes.{be}
use ignis_test.Wire.Packet
use ignis_test.Wire.Packet.{
  PacketType, frame, detections, incident_update, incident_timeline_event, health_update, WireError,
  field_out_of_range, ok, err,
}
use ignis_test.Verifier.Gate.{
  Detection, HazardState, clear, suspected, verifying, confirmed_fire, visual_signature_lost,
  resolved, degraded, FireState, FireVerifier, new_verifier, update,
}
use ignis_test.Device.Stream.{
  BackendStream, new_stream, Dial, Outcome, returned, raised, connect, send, close,
}

pub data Response : Type 0 where
  idle awaiting_response : Response

-- The payload of an INCIDENT_UPDATE; what is the same in every one is left to the writer.
pub record Report (F : Type 0) : Type 0 where
  pub incident_id : String
  pub hazard_state : HazardState
  pub response_state : Response
  pub first_detection_ns : ℕ
  pub updated_ns : ℕ
  pub fire_confidence : F
  pub smoke_confidence : F
  pub seconds_persistent : F
  pub primary_fire_bbox : Option (F × F × F × F)
  pub primary_smoke_bbox : Option (F × F × F × F)

-- What a round sends: the frame's number, width, height and JPEG; the detections with their frame,
-- time and duration; an incident; a change of its state; the latency of the health.
pub data Message (F : Type 0) : Type 0 where
  picture : ℕ → ℕ → ℕ → List ℕ → Message F
  findings : ℕ → ℕ → F → List (Detection F) → Message F
  incident : Report F → Message F
  change : String → HazardState → Message F
  health : F → Message F

-- `json.dumps(…)` of the payloads, as bytes
pub record Writer (F : Type 0) : Type 0 where
  pub hello_json : List ℕ
  pub metadata_json : ℕ → ℕ → ℕ → List ℕ
  pub findings_json : ℕ → ℕ → F → List (Detection F) → List ℕ
  pub incident_json : Report F → List ℕ
  pub change_json : String → HazardState → List ℕ
  pub health_json : F → List ℕ

-- An entry of the local log: a state that is new, or the health.
pub data LogEntry (F : Type 0) : Type 0 where
  local_state : F → ℕ → String → HazardState → F → F → LogEntry F
  poc_health : F → ℕ → F → Bool → LogEntry F

pub record Socket : Type 0 where
  pub dial : Dial
  pub broken : Option String

-- `late` is the clock when the health is due or not.
pub record Round (F : Type 0) : Type 0 where
  pub monotonic_ns : ℕ
  pub late : ℕ
  pub time_unix : F
  pub found : List (Detection F)
  pub inference_ms : F
  pub width : ℕ
  pub height : ℕ
  pub jpeg : List ℕ
  pub at_picture : Socket
  pub at_findings : Socket
  pub at_incident : Socket
  pub at_change : Socket
  pub at_health : Socket

-- The local variables of `run` that change.
pub record DeviceLoop (F : Type 0) : Type 0 where
  pub verifier : FireVerifier F
  pub stream : BackendStream
  pub frame_sequence : ℕ
  pub last_health : ℕ
  pub last_local_log : ℕ
  pub last_state : HazardState
  pub log : List (LogEntry F)

-- A state, and the exception that is on its way to `finally`.
abbrev pub Going : Type 0 → Type 0
Going F = DeviceLoop F × Option WireError

abbrev hazard_code : HazardState → ℕ
hazard_code clear = 0
hazard_code suspected = 1
hazard_code verifying = 2
hazard_code confirmed_fire = 3
hazard_code visual_signature_lost = 4
hazard_code resolved = 5
hazard_code degraded = 6

abbrev pub type_of : {F : Type 0} → Message F → PacketType
type_of (picture n w h jpeg) = frame
type_of (findings n t d ds) = detections
type_of (incident r) = incident_update
type_of (change id hazard) = incident_timeline_event
type_of (health d) = health_update

-- `struct.pack("!I", len(encoded)) + encoded + jpeg`
unfoldable pub frame_payload : List ℕ → List ℕ → Packet.Result (List ℕ)
frame_payload encoded jpeg =
    if ltb (length encoded) (2 ^ 32)
    then ok (be 4 (length encoded) ++ (encoded ++ jpeg))
    else err field_out_of_range

module _ {F : Type 0} (floats : Floats F) (w : Writer F) where
  open floats use {gtb}

  largest : Detection F → List (Detection F) → Detection F
  largest best [] = best
  largest best (d ∷ ds) = largest (if gtb d.confidence best.confidence then d else best) ds

  box_among : List (Detection F) → Option (F × F × F × F)
  unfolding largest
  box_among [] = none
  box_among (d ∷ ds) = some (largest d ds).bbox

  -- `_primary_box`
  unfoldable pub primary_box : List (Detection F) → String → Option (F × F × F × F)
  unfolding box_among
  primary_box found class_name = box_among (keep (λ d. str_eq d.class_name class_name) found)

  unfoldable pub payload_of : Message F → Packet.Result (List ℕ)
  unfolding frame_payload
  payload_of (picture n width height jpeg) = frame_payload (w.metadata_json n width height) jpeg
  payload_of (findings n t d ds) = ok (w.findings_json n t d ds)
  payload_of (incident r) = ok (w.incident_json r)
  payload_of (change id hazard) = ok (w.change_json id hazard)
  payload_of (health d) = ok (w.health_json d)

  abbrev pub went : DeviceLoop F → BackendStream × Outcome → Going F
  went s (stream, returned b) = (record s { stream = stream }, none)
  went s (stream, raised e) = (record s { stream = stream }, some e)

  abbrev pub sending : Socket → ℕ → PacketType → Packet.Result (List ℕ) → DeviceLoop F → Going F
  sending k now t (err e) s = (s, some e)
  sending k now t (ok payload) s = went s (send k.dial w.hello_json t payload now k.broken s.stream)

  -- `stream.send(…)`, unless an exception was raised before
  unfoldable pub offer : Socket → ℕ → Message F → Going F → Going F
  unfolding send payload_of
  offer k now message (s, some e) = (s, some e)
  offer k now message (s, none) = sending k now (type_of message) (payload_of message) s

  -- An assignment or an entry of the log, unless an exception was raised before
  abbrev pub then_set : (DeviceLoop F → DeviceLoop F) → Going F → Going F
  then_set f (s, some e) = (s, some e)
  then_set f (s, none) = (f s, none)

  abbrev pub report_of : Round F → String → FireState F → Report F
  report_of i id state = record {
    incident_id = id;
    hazard_state = state.hazard_state;
    response_state = if state.confirmed then awaiting_response else idle;
    first_detection_ns = state.first_detection_ns;
    updated_ns = i.monotonic_ns;
    fire_confidence = state.fire_confidence;
    smoke_confidence = state.smoke_confidence;
    seconds_persistent = state.seconds_persistent;
    primary_fire_bbox = primary_box i.found "fire";
    primary_smoke_bbox = primary_box i.found "smoke";
  }

  abbrev pub state_entry : Round F → String → FireState F → LogEntry F
  state_entry i id state =
      local_state i.time_unix i.monotonic_ns id state.hazard_state state.fire_confidence
        state.smoke_confidence

  -- `last_state = state.hazard_state`
  abbrev pub set_state : HazardState → DeviceLoop F → DeviceLoop F
  set_state hazard s = record s { last_state = hazard }

  -- `_append_local_log(args.log, event)`
  abbrev pub log_state : Round F → String → FireState F → DeviceLoop F → DeviceLoop F
  log_state i id state s = record s { log = s.log ++ state_entry i id state ∷ [] }

  -- `if state.hazard_state != last_state:`
  unfoldable pub report_change : Round F → String → FireState F → HazardState → Going F → Going F
  unfolding offer
  report_change i id state last g =
      if hazard_code state.hazard_state == hazard_code last
      then g
      else then_set (set_state state.hazard_state) (
          offer i.at_change i.monotonic_ns (change id state.hazard_state)
            (then_set (log_state i id state) g))

  -- `if state.incident_id:`; a name that was given is never empty.
  unfoldable pub report_incident :
      Round F → FireState F → HazardState → Option String → Going F → Going F
  unfolding offer report_change
  report_incident i state last none g = g
  report_incident i state last (some id) g =
      report_change i id state last
        (offer i.at_incident i.monotonic_ns (incident (report_of i id state)) g)

  -- `last_health = time.monotonic()`
  abbrev pub set_health : Round F → DeviceLoop F → DeviceLoop F
  set_health i s = record s { last_health = i.late }

  -- `if time.monotonic() - last_health >= 1:`
  unfoldable pub report_health : Round F → ℕ → Going F → Going F
  unfolding offer
  report_health i last g =
      if leb (last + 1_000_000_000) i.late
      then offer i.at_health i.monotonic_ns (health i.inference_ms) (then_set (set_health i) g)
      else g

  abbrev pub health_entry : Round F → Bool → LogEntry F
  health_entry i connected = poc_health i.time_unix i.monotonic_ns i.inference_ms connected

  -- `last_local_log = time.monotonic()` and the entry
  abbrev pub set_logged : Round F → DeviceLoop F → DeviceLoop F
  set_logged i s = record s {
    last_local_log = i.late;
    log = s.log ++ health_entry i s.stream.is_connected ∷ [];
  }

  -- `if time.monotonic() - last_local_log >= 10:`
  unfoldable pub log_health : Round F → ℕ → Going F → Going F
  log_health i last g = if leb (last + 10_000_000_000) i.late then then_set (set_logged i) g else g

  -- The two packets that every round sends.
  unfoldable pub report_frame : Round F → Going F → Going F
  unfolding offer
  report_frame i (s, e) =
      offer i.at_findings i.monotonic_ns
        (findings s.frame_sequence i.monotonic_ns i.inference_ms i.found)
        (offer i.at_picture i.monotonic_ns (picture s.frame_sequence i.width i.height i.jpeg)
          (s, e))

  -- The body of `while True:`
  unfoldable pub round : Round F → DeviceLoop F → Going F
  unfolding update report_frame report_incident report_health log_health
  round i s =
      let verifier = update floats i.monotonic_ns i.found s.verifier in
      let begun = record s { verifier = verifier; frame_sequence = s.frame_sequence + 1 } in
      log_health i s.last_local_log (
        report_health i s.last_health (
          report_incident i verifier.state s.last_state verifier.state.incident_id
            (report_frame i (begun, none))))

  -- The loop: an exception ends it.
  unfoldable pub rounds_from : List (Round F) → Going F → Going F
  unfolding round
  rounds_from [] g = g
  rounds_from (i ∷ rounds) (s, some e) = (s, some e)
  rounds_from (i ∷ rounds) (s, none) = rounds_from rounds (round i s)

  -- `finally:`
  abbrev pub closed : Going F → Going F
  closed (s, e) = (record s { stream = close s.stream }, e)

  -- The variables before the loop; the thresholds are the defaults 0.55 and 0.65 of `FireVerifier`.
  abbrev pub fresh_loop : String → String → F → F → DeviceLoop F
  fresh_loop device_id boot_id fire_threshold smoke_threshold = record {
    verifier =
        new_verifier floats device_id boot_id 10 6 fire_threshold smoke_threshold 1_500_000_000
          5_000_000_000 10_000_000_000;
    stream = new_stream;
    frame_sequence = 0;
    last_health = 0;
    last_local_log = 0;
    last_state = clear;
    log = [];
  }

  -- `run`, from `stream.connect()` on
  unfoldable pub run_device : Dial → ℕ → List (Round F) → DeviceLoop F → Going F
  unfolding connect rounds_from
  run_device dial now rounds s =
      closed (rounds_from rounds (went s (connect dial w.hello_json now s.stream)))
