-- ===== src/Device/Edge/Warranted.antt =====
-- What a round of the device sends: each step keeps the verifier, and what every packet says.
use ignis_test.Prelude.{
  ℕ, ◌+◌, ◌≤◌, ◌≡◌, refl, true, ◌⊎◌, inl, inr, Option, none, some, List, [], ◌∷◌, String, All,
  arith, Bool-cases, leb, ◌==◌,
}
use ignis_test.Prelude.Floats.{Floats}
use ignis_test.Wire.Packet
use ignis_test.Wire.Packet.{PacketType, hello, incident_update, Packet, ok, err, WireError}
use ignis_test.Verifier.Gate.{
  HazardState, confirmed_fire, visual_signature_lost, FireVerifier, FireState,
}
use ignis_test.Verifier.Invariant.{IsConsistent}
use ignis_test.Verifier.Traces.{Frame}
use ignis_test.Device.Stream.{BackendStream, packet_of, Outcome, returned, raised, send}
use ignis_test.Device.Stream.Packets.{All-send}
use ignis_test.Device.Edge.{
  awaiting_response, Report, Message, picture, findings, incident, change, health, Writer, Socket,
  Round, DeviceLoop, Going, type_of, payload_of, went, sending, offer, then_set, report_of,
  report_change, report_incident, report_health, log_health, report_frame, set_state, log_state,
  set_health, set_logged, hazard_code,
}

-- A report that a fire is confirmed, or was and is out of sight, or that the occupant is to answer.
abbrev pub IsAlarm : {F : Type 0} → Report F → Type 0
IsAlarm r =
    (r.hazard_state ≡ confirmed_fire)
    ⊎ (r.hazard_state ≡ visual_signature_lost)
    ⊎ (r.response_state ≡ awaiting_response)

module _ {F : Type 0} (floats : Floats F) (w : Writer F) where
  -- An INCIDENT_UPDATE is the JSON of a report, which is an alarm only where `bound` is at most `n`.
  abbrev pub IsWarranted : ℕ → ℕ → Packet → Type 0
  IsWarranted bound n k =
      k.packet_type ≡ incident_update
      → (r : Report F) × (k.payload ≡ w.incident_json r) × (IsAlarm r → bound ≤ n)

  -- The frame of a round, as the verifier sees it.
  abbrev pub frame_of : Round F → Frame F
  frame_of i = (i.monotonic_ns, i.found)

  module _ (bound n : ℕ) (v : FireVerifier F) where
    -- The verifier of the round, and what was sent so far.
    abbrev pub Warranted : Going F → Type 0
    Warranted g = (g.0.verifier ≡ v) × All (IsWarranted bound n) g.0.stream.sent

    Warranted-went :
        (s : DeviceLoop F) (r : BackendStream × Outcome)
        → s.verifier ≡ v
        → All (IsWarranted bound n) r.0.sent
        → Warranted (went floats w s r)
    Warranted-went s (stream, returned b) q h = (q, h)
    Warranted-went s (stream, raised e) q h = (q, h)

    Warranted-then_set :
        (f : DeviceLoop F → DeviceLoop F)
        → ((s : DeviceLoop F) → ((f s).verifier ≡ s.verifier) × ((f s).stream ≡ s.stream))
        → (g : Going F) → Warranted g
        → Warranted (then_set floats w f g)
    Warranted-then_set f same (s, some e) h = h
    Warranted-then_set f same (s, none) h = (rw (same s).0 h.0, rw (same s).1 h.1)

    abbrev MessageWarranted : Message F → Type 0
    MessageWarranted (incident r) = IsAlarm r → bound ≤ n
    MessageWarranted (picture a b c d) = Unit {0}
    MessageWarranted (findings a b c d) = Unit {0}
    MessageWarranted (change a b) = Unit {0}
    MessageWarranted (health a) = Unit {0}

    IsWarranted-packet_of :
        (message : Message F) (payload : List ℕ) (now sequence : ℕ)
        → payload_of floats w message ≡ ok payload
        → MessageWarranted message
        → IsWarranted bound n (packet_of (type_of message) payload sequence now)
    unfolding payload_of
    IsWarranted-packet_of (incident r) payload now sequence e h = λ t. (r, cc, h)
    IsWarranted-packet_of (picture a b c d) payload now sequence e h = λ t. absurd (cc)
    IsWarranted-packet_of (findings a b c d) payload now sequence e h = λ t. absurd (cc)
    IsWarranted-packet_of (change a b) payload now sequence e h = λ t. absurd (cc)
    IsWarranted-packet_of (health a) payload now sequence e h = λ t. absurd (cc)

    Warranted-offer :
        (k : Socket) (now : ℕ) (message : Message F) (g : Going F)
        → MessageWarranted message
        → Warranted g
        → Warranted (offer floats w k now message g)
    unfolding offer
    Warranted-offer k now message (s, some e) a h = h
    Warranted-offer k now message (s, none) a h = by_payload (payload_of floats w message) refl
      where
        by_payload :
            (p : Packet.Result (List ℕ))
            → payload_of floats w message ≡ p
            → Warranted (sending floats w k now (type_of message) p s)
        by_payload (err e) q = h
        by_payload (ok payload) q =
            Warranted-went s
              (send k.dial w.hello_json (type_of message) payload now k.broken s.stream) h.0
              (All-send (IsWarranted bound n) now w.hello_json (λ sequence t. absurd (cc))
                (type_of message) payload
                (λ sequence. IsWarranted-packet_of message payload now sequence q a) k.dial k.broken
                s.stream h.1)

    Warranted-report_change :
        (i : Round F) (id : String) (state : FireState F) (last : HazardState) (g : Going F)
        → Warranted g
        → Warranted (report_change floats w i id state last g)
    unfolding report_change
    Warranted-report_change i id state last g h =
        elim (Bool-cases (hazard_code state.hazard_state == hazard_code last)) [
          | inl same ↦ rw same h
          | inr other ↦
              let logged = then_set floats w (log_state floats w i id state) g in
              rw other (
                Warranted-then_set (set_state floats w state.hazard_state) (λ s. (refl, refl))
                  (offer floats w i.at_change i.monotonic_ns (change id state.hazard_state) logged)
                  (Warranted-offer i.at_change i.monotonic_ns (change id state.hazard_state) logged
                    tt
                    (Warranted-then_set (log_state floats w i id state) (λ s. (refl, refl)) g h)))
        ]

    pub Warranted-report_health :
        (i : Round F) (last : ℕ) (g : Going F)
        → Warranted g
        → Warranted (report_health floats w i last g)
    unfolding report_health
    Warranted-report_health i last g h = elim (Bool-cases (leb (last + 1_000_000_000) i.late)) [
      | inl due ↦ rw due (
          Warranted-offer i.at_health i.monotonic_ns (health i.inference_ms) _ tt
            (Warranted-then_set (set_health floats w i) (λ s. (refl, refl)) g h))
      | inr early ↦ rw early h
    ]

    pub Warranted-log_health :
        (i : Round F) (last : ℕ) (g : Going F)
        → Warranted g
        → Warranted (log_health floats w i last g)
    unfolding log_health
    Warranted-log_health i last g h = elim (Bool-cases (leb (last + 10_000_000_000) i.late)) [
      | inl due ↦ rw due (Warranted-then_set (set_logged floats w i) (λ s. (refl, refl)) g h)
      | inr early ↦ rw early h
    ]

    pub Warranted-report_frame :
        (i : Round F) (g : Going F) → Warranted g → Warranted (report_frame floats w i g)
    unfolding report_frame
    Warranted-report_frame i (s, e) h =
        Warranted-offer i.at_findings i.monotonic_ns
          (findings s.frame_sequence i.monotonic_ns i.inference_ms i.found) _ tt
          (Warranted-offer i.at_picture i.monotonic_ns
            (picture s.frame_sequence i.width i.height i.jpeg) (s, e) tt h)

    -- The verifier behind an alarm has confirmed the incident.
    alarm_confirmed :
        (i : Round F) (id : String)
        → IsConsistent v
        → v.state.incident_id ≡ some id
        → IsAlarm (report_of floats w i id v.state)
        → v.state.confirmed ≡ true
    alarm_confirmed i id c named alarm = ground (arith, c.unflagged id)

    pub Warranted-report_incident :
        (i : Round F) (last : HazardState) (o : Option String) (g : Going F)
        → IsConsistent v
        → (v.state.confirmed ≡ true → bound ≤ n)
        → v.state.incident_id ≡ o
        → Warranted g
        → Warranted (report_incident floats w i v.state last o g)
    unfolding report_incident
    Warranted-report_incident i last none g c k named h = h
    Warranted-report_incident i last (some id) g c k named h =
        Warranted-report_change i id v.state last _ (
          Warranted-offer i.at_incident i.monotonic_ns (incident (report_of floats w i id v.state))
            g (λ alarm. k (alarm_confirmed i id c named alarm)) h)

  pub IsWarranted-mono :
      (bound n k : ℕ) (ks : List Packet)
      → n ≤ k
      → All (IsWarranted bound n) ks
      → All (IsWarranted bound k) ks
  IsWarranted-mono bound n k [] l h = tt
  IsWarranted-mono bound n k (x ∷ ks) l h = (
    λ t. let (r, e, a) = h.0 t in (r, e, λ alarm. omega (arith, a alarm)),
    IsWarranted-mono bound n k ks l h.1,
  )
