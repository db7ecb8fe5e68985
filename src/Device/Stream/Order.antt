-- ===== src/Device/Stream/Order.antt =====
-- The sequences of the packets that a device sends.
use ignis_test.Prelude.{
  ℕ, ◌+◌, ◌<◌, ◌≡◌, refl, Bool, true, false, Option, none, some, List, [], ◌∷◌, ◌++◌, String, ltb,
  if◌then◌else◌, All, All-append, arith, Bool-cases, inl, inr,
}
use ignis_test.Wire.Packet
use ignis_test.Wire.Packet.{PacketType, hello, Packet, ok, err, WireError}
use ignis_test.Device.Stream.{
  BackendStream, Dial, no_connection, no_ack, unreadable_ack, misled, accepted, Outcome, returned,
  raised, encode_packet, packet_of, by_encoding, pass_on, greeted, dialled, connect, passed,
  send_if, send,
}

-- The sequences rise, and stay below `top`.
abbrev pub Rising : ℕ → List Packet → Type 0
Rising top [] = Unit
Rising top (k ∷ ks) =
    (k.sequence < top) × (All (λ (x : Packet). k.sequence < x.sequence) ks × Rising top ks)

Rising-append :
    (top : ℕ) (ks : List Packet) (k : Packet)
    → k.sequence ≡ top
    → Rising top ks
    → Rising (top + 1) (ks ++ k ∷ [])
Rising-append top [] k e r = (omega arith, (tt, tt))
Rising-append top (x ∷ ks) k e (below, (above, rest)) = (
  omega arith,
  (
    All-append (λ (y : Packet). x.sequence < y.sequence) ks (k ∷ []) above (omega arith, tt),
    Rising-append top ks k e rest,
  ),
)

-- Every sequence that was sent is below the next one, and they rise.
abbrev pub IsOrdered : BackendStream → Type 0
IsOrdered s = Rising s.sequence s.sent

IsOrdered-by_encoding :
    (t : PacketType) (payload : List ℕ) (now : ℕ) (s : BackendStream) (r : Packet.Result (List ℕ))
    → IsOrdered s
    → IsOrdered (by_encoding t payload now s r).0
IsOrdered-by_encoding t payload now s (err e) o = o
IsOrdered-by_encoding t payload now s (ok bytes) o =
    Rising-append s.sequence s.sent (packet_of t payload s.sequence now) refl o

IsOrdered-pass_on :
    (t : PacketType) (payload : List ℕ) (now : ℕ) (s : BackendStream)
    → IsOrdered s
    → IsOrdered (pass_on t payload now s).0
unfolding pass_on
IsOrdered-pass_on t payload now s o =
    IsOrdered-by_encoding t payload now s (encode_packet t payload s.sequence now) o

IsOrdered-greeted :
    (now : ℕ) (m : Option String) (r : BackendStream × Option WireError)
    → IsOrdered r.0
    → IsOrdered (greeted now m r).0
IsOrdered-greeted now m (s, some e) o = o
IsOrdered-greeted now (some message) (s, none) o = o
IsOrdered-greeted now none (s, none) o = o

IsOrdered-misled : (r : BackendStream × Option WireError) → IsOrdered r.0 → IsOrdered (misled r).0
IsOrdered-misled (s, some e) o = o
IsOrdered-misled (s, none) o = o

IsOrdered-dialled :
    (dial : Dial) (payload : List ℕ) (now : ℕ) (s : BackendStream)
    → IsOrdered s
    → IsOrdered (dialled dial payload now s).0
IsOrdered-dialled (no_connection message) payload now s o = o
IsOrdered-dialled (no_ack message) payload now s o =
    IsOrdered-greeted now (some message) (pass_on hello payload now s)
      (IsOrdered-pass_on hello payload now s o)
IsOrdered-dialled unreadable_ack payload now s o =
    IsOrdered-misled (pass_on hello payload now s) (IsOrdered-pass_on hello payload now s o)
IsOrdered-dialled accepted payload now s o =
    IsOrdered-greeted now none (pass_on hello payload now s)
      (IsOrdered-pass_on hello payload now s o)

IsOrdered-connect :
    (dial : Dial) (payload : List ℕ) (now : ℕ) (s : BackendStream)
    → IsOrdered s
    → IsOrdered (connect dial payload now s).0
unfolding connect
IsOrdered-connect dial payload now s o = elim (Bool-cases (ltb now s.next_reconnect)) [
  | inl soon ↦ rw soon o
  | inr late ↦ rw late (IsOrdered-dialled dial payload now s o)
]

IsOrdered-passed :
    (now : ℕ) (m : Option String) (r : BackendStream × Option WireError)
    → IsOrdered r.0
    → IsOrdered (passed now m r).0
IsOrdered-passed now m (s, some e) o = o
IsOrdered-passed now (some message) (s, none) o = o
IsOrdered-passed now none (s, none) o = o

IsOrdered-send_if :
    (t : PacketType) (payload : List ℕ) (now : ℕ) (broken : Option String)
    (r : BackendStream × Outcome)
    → IsOrdered r.0
    → IsOrdered (send_if t payload now broken r).0
IsOrdered-send_if t payload now broken (s, raised e) o = o
IsOrdered-send_if t payload now broken (s, returned false) o = o
IsOrdered-send_if t payload now broken (s, returned true) o =
    IsOrdered-passed now broken (pass_on t payload now s) (IsOrdered-pass_on t payload now s o)

-- However the sockets behave, `send` keeps the sequences of the packets that were passed to a socket
-- strictly rising, over reconnections too, and below the next one.
pub send-IsOrdered :
    (dial : Dial) (greeting : List ℕ) (t : PacketType) (payload : List ℕ) (now : ℕ)
    (broken : Option String) (s : BackendStream)
    → IsOrdered s
    → IsOrdered (send dial greeting t payload now broken s).0
unfolding send
send-IsOrdered dial greeting t payload now broken s o = by_state s.is_connected
  where
    by_state :
        (b : Bool)
        → IsOrdered
            (send_if t payload now broken
              (if b then (s, returned true) else connect dial greeting now s)).0
    by_state true = IsOrdered-send_if t payload now broken (s, returned true) o
    by_state false =
        IsOrdered-send_if t payload now broken (connect dial greeting now s)
          (IsOrdered-connect dial greeting now s o)
