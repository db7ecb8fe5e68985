-- ===== src/Device/Stream/Packets.antt =====
-- A property of packets that every HELLO has, and the packet that is sent: `send` keeps it.
use ignis_test.Prelude.{
  ℕ, Bool, true, false, Option, none, some, List, [], ◌∷◌, String, ltb, if◌then◌else◌, All,
  All-append, Bool-cases, inl, inr,
}
use ignis_test.Wire.Packet
use ignis_test.Wire.Packet.{PacketType, hello, Packet, ok, err, WireError}
use ignis_test.Device.Stream.{
  BackendStream, Dial, no_connection, no_ack, unreadable_ack, misled, accepted, Outcome, returned,
  raised, encode_packet, packet_of, by_encoding, pass_on, greeted, dialled, connect, passed,
  send_if, send,
}

module _ (P : Packet → Type 0) (now : ℕ) (greeting : List ℕ)
    (is_hello : (sequence : ℕ) → P (packet_of hello greeting sequence now)) where
  All-by_encoding :
      (t : PacketType) (payload : List ℕ) (s : BackendStream) (r : Packet.Result (List ℕ))
      → P (packet_of t payload s.sequence now)
      → All P s.sent
      → All P (by_encoding t payload now s r).0.sent
  All-by_encoding t payload s (err e) p h = h
  All-by_encoding t payload s (ok bytes) p h =
      All-append P s.sent (packet_of t payload s.sequence now ∷ []) h (p, tt)

  All-pass_on :
      (t : PacketType) (payload : List ℕ) (s : BackendStream)
      → P (packet_of t payload s.sequence now)
      → All P s.sent
      → All P (pass_on t payload now s).0.sent
  unfolding pass_on
  All-pass_on t payload s = All-by_encoding t payload s (encode_packet t payload s.sequence now)

  All-greeted :
      (o : Option String) (r : BackendStream × Option WireError)
      → All P r.0.sent
      → All P (greeted now o r).0.sent
  All-greeted o (s, some e) h = h
  All-greeted (some message) (s, none) h = h
  All-greeted none (s, none) h = h

  All-misled : (r : BackendStream × Option WireError) → All P r.0.sent → All P (misled r).0.sent
  All-misled (s, some e) h = h
  All-misled (s, none) h = h

  All-dialled :
      (dial : Dial) (s : BackendStream) → All P s.sent → All P (dialled dial greeting now s).0.sent
  All-dialled (no_connection message) s h = h
  All-dialled (no_ack message) s h =
      All-greeted (some message) (pass_on hello greeting now s)
        (All-pass_on hello greeting s (is_hello s.sequence) h)
  All-dialled unreadable_ack s h =
      All-misled (pass_on hello greeting now s)
        (All-pass_on hello greeting s (is_hello s.sequence) h)
  All-dialled accepted s h =
      All-greeted none (pass_on hello greeting now s)
        (All-pass_on hello greeting s (is_hello s.sequence) h)

  pub All-connect :
      (dial : Dial) (s : BackendStream) → All P s.sent → All P (connect dial greeting now s).0.sent
  unfolding connect
  All-connect dial s h = elim (Bool-cases (ltb now s.next_reconnect)) [
    | inl soon ↦ rw soon h
    | inr late ↦ rw late (All-dialled dial s h)
  ]

  All-passed :
      (o : Option String) (r : BackendStream × Option WireError)
      → All P r.0.sent
      → All P (passed now o r).0.sent
  All-passed o (s, some e) h = h
  All-passed (some message) (s, none) h = h
  All-passed none (s, none) h = h

  module _ (t : PacketType) (payload : List ℕ)
      (is_sent : (sequence : ℕ) → P (packet_of t payload sequence now)) where
    All-send_if :
        (broken : Option String) (r : BackendStream × Outcome)
        → All P r.0.sent
        → All P (send_if t payload now broken r).0.sent
    All-send_if broken (s, raised e) h = h
    All-send_if broken (s, returned false) h = h
    All-send_if broken (s, returned true) h =
        All-passed broken (pass_on t payload now s) (All-pass_on t payload s (is_sent s.sequence) h)

    pub All-send :
        (dial : Dial) (broken : Option String) (s : BackendStream)
        → All P s.sent
        → All P (send dial greeting t payload now broken s).0.sent
    unfolding send
    All-send dial broken s h = by_state s.is_connected
      where
        by_state :
            (b : Bool)
            → All P
                (send_if t payload now broken
                  (if b then (s, returned true) else connect dial greeting now s)).0.sent
        by_state true = All-send_if broken (s, returned true) h
        by_state false = All-send_if broken (connect dial greeting now s) (All-connect dial s h)
