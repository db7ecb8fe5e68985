-- ===== src/Backend/Session/Safety.antt =====
-- What a connection may do before it has logged in, when it repeats itself, and when it ends.
use ignis_test.Prelude.{
  ℕ, ◌≡◌, ◌⊎◌, inl, inr, refl, ◌∙◌, Bool, true, false, Option, none, some, List, [], ◌∷◌, String,
  str_eq, str_eq_iff, ltb, Bool-cases,
}
use ignis_test.Prelude.Floats.{Floats}
use ignis_test.Wire.Packet
use ignis_test.Wire.Packet.{PacketType, Packet}
use ignis_test.Wire.Frame.{Json, packet_json}
use ignis_test.Store.Devices.{Hello}
use ignis_test.Backend.Settings.{Settings}
use ignis_test.Backend.Session.{
  Greeting, Values, World, Ended, failed, Session, Moment, Progress, SessionError, is_hello, go_by,
}
use ignis_test.Backend.Session.Login.{authenticate, check_greeting, check_token}
use ignis_test.Backend.Session.Loop.{handle, handle_by, handle_all}

module _ {F J : Type 0} (floats : Floats F) (json : Json J) (values : Values F J)
    (compare_digest : String → String → Option Bool) (settings : Settings) where
  -- The packet is a HELLO of the expected device with the device's token.
  pub record IsAuthentic (k : Packet) : Type 0 where
    pub value : J
    pub greeting : Greeting J
    pub is_hello_packet : is_hello k.packet_type ≡ true
    pub read : packet_json json k ≡ Packet.ok value
    pub complete : values.greeting_of value ≡ some greeting
    pub version_one : greeting.is_version_one ≡ true
    pub expected : greeting.hello.device_id ≡ settings.expected_device_id
    pub token : compare_digest greeting.device_token settings.device_token ≡ some true

  abbrev Refused : World F J → World F J × Ended (Hello J) → Type 0
  Refused w r = (e : SessionError) × (r ≡ (w, failed e))

  authenticate_needs :
      (now writer : ℕ) (drained : Bool) (k : Packet) (w : World F J)
      → is_hello k.packet_type ≡ true
      → Refused w (authenticate json values compare_digest settings now writer drained k w)
        ⊎ IsAuthentic k
  unfolding authenticate check_greeting check_token
  authenticate_needs now writer drained k w h = by_json (packet_json json k) refl
    where
      by_token :
          (o : Option Bool) (g : Greeting J) (value : J)
          → compare_digest g.device_token settings.device_token ≡ o
          → packet_json json k ≡ Packet.ok value
          → values.greeting_of value ≡ some g
          → g.is_version_one ≡ true
          → g.hello.device_id ≡ settings.expected_device_id
          → Refused w
              (check_token json values compare_digest settings now writer g.hello drained o w)
            ⊎ IsAuthentic k
      by_token none g value t r c v d = inl (_, refl)
      by_token (some false) g value t r c v d = inl (_, refl)
      by_token (some true) g value t r c v d = inr (record {
        value = value;
        greeting = g;
        is_hello_packet = h;
        read = r;
        complete = c;
        version_one = v;
        expected = d;
        token = t;
      })

      by_greeting :
          (o : Option (Greeting J)) (value : J)
          → packet_json json k ≡ Packet.ok value
          → values.greeting_of value ≡ o
          → Refused w (check_greeting json values compare_digest settings now writer drained o w)
            ⊎ IsAuthentic k
      by_greeting none value r c = inl (_, refl)
      by_greeting (some g) value r c = elim (Bool-cases g.is_version_one) [
        | inr other ↦ inl (rw other (_, refl))
        | inl one ↦ elim (Bool-cases (str_eq g.hello.device_id settings.expected_device_id)) [
          | inr unknown ↦ inl (rw (one, unknown) (_, refl))
          | inl same ↦
              rw (one, same)
                (by_token (compare_digest g.device_token settings.device_token) g value refl r c one
                  ((str_eq_iff g.hello.device_id settings.expected_device_id).0 same))
        ]
      ]

      by_json :
          (r : Packet.Result J)
          → packet_json json k ≡ r
          → Refused w (authenticate json values compare_digest settings now writer drained k w)
            ⊎ IsAuthentic k
      by_json (Packet.err e) r = inl (rw r (_, refl))
      by_json (Packet.ok value) r = rw r (by_greeting (values.greeting_of value) value r refl)

  abbrev Kept : World F J → Progress F J → Type 0
  Kept w p = (p.session.hello ≡ none) × (p.world.db ≡ w.db)

  handle_needs :
      (m : Moment) (k : Packet) (s : Session J) (w : World F J)
      → s.hello ≡ none
      → Kept w (handle floats json values compare_digest settings m k s w) ⊎ IsAuthentic k
  unfolding handle handle_by
  handle_needs m k s w out = elim (Bool-cases (ltb k.sequence s.next_sequence)) [
    | inl old ↦ inl (rw old (out, refl))
    | inr new ↦ elim (Bool-cases (is_hello k.packet_type)) [
      | inr other ↦ inl (rw (new, out, other) (refl, refl))
      | inl greeting ↦ elim (authenticate_needs m.now s.writer m.drained k w greeting) [
        | inr proved ↦ inr proved
        | inl (e, refused) ↦ inl (rw (new, out, greeting, refused) (refl, refl))
      ]
    ]
  ]

  abbrev pub Among : Packet → List Packet → Type 0
  Among k [] = ⊥
  Among k (x ∷ xs) = (k ≡ x) ⊎ Among k xs

  -- Whatever a peer sends on a fresh connection, the database is as before, or one of the packets is a
  -- HELLO with the expected device's id and a token that `compare_digest` finds equal to the device's.
  pub login_before_writes :
      (at : Packet → Moment) (ks : List Packet) (s : Session J) (w : World F J)
      → s.hello ≡ none
      → ((handle_all floats json values compare_digest settings at ks s w).world.db ≡ w.db)
        ⊎ ((k : Packet) × Among k ks × IsAuthentic k)
  unfolding handle_all
  login_before_writes at [] s w out = inl refl
  login_before_writes at (k ∷ ks) s w out = elim (handle_needs (at k) k s w out) [
    | inr proved ↦ inr (k, inl refl, proved)
    | inl (still, same) ↦
        by_stop (login_before_writes at ks)
          (handle floats json values compare_digest settings (at k) k s w)
          (handle floats json values compare_digest settings (at k) k s w).stopped still same
  ]
    where
      by_stop :
          ((t : Session J) (v : World F J)
            → t.hello ≡ none
            → ((handle_all floats json values compare_digest settings at ks t v).world.db ≡ v.db)
              ⊎ ((x : Packet) × Among x ks × IsAuthentic x))
          → (p : Progress F J) (o : Option SessionError) → p.session.hello ≡ none
          → p.world.db ≡ w.db
          → ((go_by o (handle_all floats json values compare_digest settings at ks) p).world.db
              ≡ w.db)
            ⊎ ((x : Packet) × Among x (k ∷ ks) × IsAuthentic x)
      by_stop later p (some e) still same = inl same
      by_stop later p none still same = elim (later p.session p.world still) [
        | inl kept ↦ inl (kept ∙ same)
        | inr (x, among, proved) ↦ inr (x, inr among, proved)
      ]
