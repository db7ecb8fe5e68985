-- ===== src/Backend/Session/Replay.antt =====
-- A connection that repeats a packet, and one that was replaced.
use ignis_test.Prelude.{
  ℕ, ◌<◌, ◌≤◌, List, [], ◌∷◌, ltb_false→le, ◌≡◌, ◌≢◌, ◌∙◌, inl, inr, refl, sym, Bool, false, Option,
  none, some, String, ltb, lt→ltb, ltb→lt, Bool-cases, arith,
}
use ignis_test.Prelude.Floats.{Floats}
use ignis_test.Wire.Packet.{Packet}
use ignis_test.Wire.Frame.{Json}
use ignis_test.Store.Devices.{Hello}
use ignis_test.Backend.Settings.{Settings}
use ignis_test.Backend.Registry.{DeviceConnection, DeviceRegistry, register, close_writer}
use ignis_test.Backend.Registry.Turns.{unregister-register, connections-register}
use ignis_test.Backend.Session.{
  Values, World, Ended, done, failed, Session, Moment, Progress, SessionError, Done, is_hello,
  go_on,
}
use ignis_test.Backend.Session.Dispatch.{dispatch}
use ignis_test.Backend.Session.Incidents.{dispatch-keeps}
use ignis_test.Backend.Session.Loop.{
  handle, handle_by, handle_all, finish, welcomed, dispatched, report_error, is_reported,
}

module _ {F J : Type 0} (floats : Floats F) (json : Json J) (values : Values F J)
    (compare_digest : String → String → Option Bool) (settings : Settings) where
  next-welcomed :
      (s : Session J) (r : World F J × Ended (Hello J))
      → (welcomed floats json values compare_digest settings s r).session.next_sequence
        ≡ s.next_sequence
  next-welcomed s (w, done greeted) = refl
  next-welcomed s (w, failed e) = refl

  next-dispatched :
      (s : Session J) (r : World F J × Ended Done)
      → (dispatched floats json values compare_digest settings s r).session.next_sequence
        ≡ s.next_sequence
  next-dispatched s (w, done r) = refl
  next-dispatched s (w, failed e) = refl

  next-handle_by :
      (o : Option (Hello J)) (m : Moment) (k : Packet) (s : Session J) (w : World F J)
      → (handle_by floats json values compare_digest settings o m k s w).session.next_sequence
        ≡ s.next_sequence
  unfolding handle_by
  next-handle_by none m k s w = elim (Bool-cases (is_hello k.packet_type)) [
    | inl greeting ↦ rw greeting (next-welcomed s _)
    | inr other ↦ rw other refl
  ]
  next-handle_by (some greeted) m k s w = next-dispatched s _

  next-handle :
      (m : Moment) (k : Packet) (s : Session J) (w : World F J)
      → k.sequence
        < (handle floats json values compare_digest settings m k s w).session.next_sequence
  unfolding handle
  next-handle m k s w = elim (Bool-cases (ltb k.sequence s.next_sequence)) [
    | inl old ↦ rw old (ltb→lt k.sequence s.next_sequence old)
    | inr new ↦ rw (new, next-handle_by) (omega arith)
  ]

  -- The number that is expected next never falls.
  next-handle-le :
      (m : Moment) (k : Packet) (s : Session J) (w : World F J)
      → s.next_sequence
        ≤ (handle floats json values compare_digest settings m k s w).session.next_sequence
  unfolding handle
  next-handle-le m k s w = elim (Bool-cases (ltb k.sequence s.next_sequence)) [
    | inl old ↦ rw old (omega arith)
    | inr new ↦
        rw (new, next-handle_by) (omega (arith, ltb_false→le k.sequence s.next_sequence new))
  ]

  abbrev after : (Packet → Moment) → List Packet → Session J → World F J → Progress F J
  after at ks s w = handle_all floats json values compare_digest settings at ks s w

  next-go_on :
      (at : Packet → Moment) (ks : List Packet) (p : Progress F J)
      → ((s : Session J) (w : World F J)
          → s.next_sequence ≤ (after at ks s w).session.next_sequence)
      → p.session.next_sequence ≤ (go_on (after at ks) p).session.next_sequence
  next-go_on at ks p ih = by_end p.stopped refl
    where
      by_end :
          (o : Option SessionError)
          → p.stopped ≡ o
          → p.session.next_sequence ≤ (go_on (after at ks) p).session.next_sequence
      by_end none e = rw e (ih p.session p.world)
      by_end (some x) e = rw e (omega arith)

  next-handle_all-le :
      (at : Packet → Moment) (ks : List Packet) (s : Session J) (w : World F J)
      → s.next_sequence ≤ (after at ks s w).session.next_sequence
  unfolding handle_all
  next-handle_all-le at [] s w = omega arith
  next-handle_all-le at (k ∷ ks) s w = omega (
    arith,
    next-handle-le (at k) k s w,
    next-go_on at ks (handle floats json values compare_digest settings (at k) k s w)
        (next-handle_all-le at ks),
  )

  -- Once a packet was handled, and after whatever packets came behind it on the connection, that
  -- packet, or any with a number no higher, changes nothing of the session, the database or the
  -- registry, and does not end the connection.
  pub replay_ignored :
      (m later : Moment) (k : Packet) (s : Session J) (w : World F J) (at : Packet → Moment)
      (ks : List Packet) (old : Packet)
      → old.sequence ≤ k.sequence
      → let first = handle floats json values compare_digest settings m k s w in
        let p =
          handle_all floats json values compare_digest settings at ks first.session first.world in
        let q = handle floats json values compare_digest settings later old p.session p.world in
        (q.session ≡ p.session)
        × (q.world.db ≡ p.world.db)
        × (q.world.registry ≡ p.world.registry)
        × (q.stopped ≡ none)
  unfolding handle
  replay_ignored m later k s w at ks old no_higher =
      let first = handle floats json values compare_digest settings m k s w in
      let p = after at ks first.session first.world in
      let low : old.sequence < p.session.next_sequence = omega (
        arith,
        no_higher,
        next-handle m k s w,
        next-handle_all-le at ks first.session first.world,
      ) in
      rw (lt→ltb old.sequence _ low) (refl, refl, refl, refl)

module _ {F J : Type 0} (floats : Floats F) (json : Json J) (values : Values F J) where
  -- While the system is disarmed, no packet of a device changes an incident.
  pub disarmed_keeps_incidents :
      (now : ℕ) (drained : Bool) (greeted : Hello J) (k : Packet) (w : World F J)
      → (dispatch floats json values now false drained greeted k w).0.db.incidents ≡ w.db.incidents
  disarmed_keeps_incidents now drained greeted k w =
      dispatch-keeps floats json values (λ xs. xs ≡ w.db.incidents) now false drained greeted k w
        (λ on t u h. absurd (cc)) refl

module _ {F J : Type 0} where
  report_error-keeps :
      (o : Option SessionError) (w : World F J)
      → ((report_error o w).db ≡ w.db) × ((report_error o w).registry ≡ w.registry)
  report_error-keeps none w = (refl, refl)
  report_error-keeps (some e) w = elim (Bool-cases (is_reported e)) [
    | inl r ↦ rw r (refl, refl)
    | inr r ↦ rw r (refl, refl)
  ]

module _ {F J : Type 0} (now : ℕ) (c old : DeviceConnection) (greeted : Hello J)
    (before : DeviceRegistry J) (p : Progress F J) where
  -- When another connection of the device has taken the place of one that was logged in, the end of
  -- the old one writes nothing to the database and leaves the new one registered.
  pub replaced_connection_ends :
      p.session.hello ≡ some greeted
      → greeted.device_id ≡ c.device_id
      → before.connections c.device_id ≡ some old
      → old.writer ≡ p.session.writer
      → p.session.writer ≢ c.writer
      → p.world.registry ≡ register c before
      → ((finish now p).db ≡ p.world.db)
        × ((finish now p).registry.connections c.device_id ≡ some c)
  unfolding finish close_writer
  replaced_connection_ends h d known mine other current =
      let (closed, kept, gone_now, none_left) =
        unregister-register c before old known (λ e. other (sym mine ∙ e)) in
      let (db, registry) = report_error-keeps p.stopped p.world in
      rw (h, d, registry ∙ current, sym mine, kept) (db, connections-register c before)
