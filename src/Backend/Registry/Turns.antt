-- ===== src/Backend/Registry/Turns.antt =====
-- When connections of one device replace each other.
use ignis_test.Prelude.{
  ℕ, ◌≡◌, ◌≢◌, refl, sym, true, false, Option, none, some, String, str_eq_refl, ◌==◌, ==_iff,
  ==_refl, Bool-cases, inl, inr, arith,
}
use ignis_test.Backend.Registry.{
  DeviceConnection, DeviceRegistry, register, close_old, close_writer, unregister, remove_if, put,
}

==-ne : (a b : ℕ) → a ≢ b → (a == b) ≡ false
==-ne a b other = elim (Bool-cases (a == b)) [
  | inl same ↦ absurd (other ((==_iff a b).0 same))
  | inr different ↦ different
]

module _ {J : Type 0} (c : DeviceConnection) (r : DeviceRegistry J) where
  connections-close_old :
      (o : Option DeviceConnection) (w : ℕ) (s : DeviceRegistry J) (id : String)
      → (close_old o w s).connections id ≡ s.connections id
  unfolding close_old close_writer
  connections-close_old none w s id = refl
  connections-close_old (some old) w s id = ground arith

  pub connections-register : (register c r).connections c.device_id ≡ some c
  unfolding register
  connections-register =
      rw (connections-close_old (r.connections c.device_id) c.writer) (rw str_eq_refl refl)

  closing_old :
      (old : DeviceConnection) (s : DeviceRegistry J)
      → old.writer ≢ c.writer
      → (close_old (some old) c.writer s).is_closing old.writer ≡ true
  unfolding close_old close_writer
  closing_old old s other = elim (Bool-cases (s.is_closing old.writer)) [
    | inl closing ↦ rw (==-ne old.writer c.writer other, closing) closing
    | inr up ↦ rw (==-ne old.writer c.writer other, up) (rw (==_refl old.writer) refl)
  ]

  -- A connection that registers while another one of its device is registered takes its place and
  -- closes its writer. The end of the old connection then finds that it is not the current one and
  -- removes nothing; the end of the new one removes it.
  pub unregister-register :
      (old : DeviceConnection)
      → r.connections c.device_id ≡ some old
      → old.writer ≢ c.writer
      → ((register c r).is_closing old.writer ≡ true)
        × (unregister c.device_id old.writer (register c r) ≡ (register c r, false))
        × ((unregister c.device_id c.writer (register c r)).1 ≡ true)
        × ((unregister c.device_id c.writer (register c r)).0.connections c.device_id ≡ none)
  unfolding register unregister
  unregister-register old known other = (
    rw known (closing_old old (put c.device_id (some c) r) other),
    rw (connections-register, remove_if, ==-ne c.writer old.writer (λ e. other (sym e))) refl,
    rw (connections-register, remove_if, ==_refl) refl,
    rw (connections-register, remove_if, ==_refl, str_eq_refl) refl,
  )
