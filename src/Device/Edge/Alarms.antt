-- ===== src/Device/Edge/Alarms.antt =====
-- What the device tells the backend of a fire, over a run of rounds.
use mathlib.Core.Path.{subst}
use ignis_test.Prelude.{ℕ, ◌+◌, refl, Bool, none, some, List, [], ◌∷◌, String, All, map, arith}
use ignis_test.Prelude.Floats.{Floats}
use ignis_test.Verifier.Gate.{Detection, FireVerifier, hits, is_relevant, update}
use ignis_test.Verifier.Invariant.{IsConsistent, update-IsConsistent}
use ignis_test.Verifier.Settings.{
  SameSettings, SameSettings-refl, SameSettings-trans, SameSettings-update,
  is_relevant-SameSettings,
}
use ignis_test.Verifier.Traces.{IsBacked, relevant_frames, update-IsBacked}
use ignis_test.Device.Stream.{BackendStream, Dial, Outcome, returned, raised, connect}
use ignis_test.Device.Stream.Packets.{All-connect}
use ignis_test.Device.Edge.Warranted.{
  IsWarranted, frame_of, Warranted, Warranted-log_health, Warranted-report_health,
  Warranted-report_incident, Warranted-report_frame, IsWarranted-mono,
}
use ignis_test.Device.Edge.{
  Writer, Round, DeviceLoop, Going, went, report_incident, report_health, report_frame, round,
  rounds_from, fresh_loop, run_device,
}

module _ {F : Type 0} (floats : Floats F) (w : Writer F) where
  module _ (first : FireVerifier F) where
    -- What holds between two rounds, where `n` frames so far were relevant.
    record IsBehind (n : ℕ) (g : Going F) : Type 0 where
      consistent : IsConsistent g.0.verifier
      backed : IsBacked floats g.0.verifier n
      settings : SameSettings first g.0.verifier
      sent : All (IsWarranted floats w first.required n) g.0.stream.sent

    IsBehind-of_Warranted :
        (n : ℕ) (v : FireVerifier F) (g : Going F)
        → IsConsistent v
        → IsBacked floats v n
        → SameSettings first v
        → Warranted floats w first.required n v g
        → IsBehind n g
    IsBehind-of_Warranted n v g c b same h = record {
      consistent = rw h.0 c;
      backed = rw h.0 b;
      settings = rw h.0 same;
      sent = h.1;
    }

    update-IsBacked_first :
        (now : ℕ) (found : List (Detection F)) (v : FireVerifier F) (n : ℕ)
        → SameSettings first v
        → IsBacked floats v n
        → IsBacked floats
            (update floats now found v)
            (n + hits (is_relevant floats first found ∷ []))
    update-IsBacked_first now found v n s b =
        subst (λ (r : Bool). IsBacked floats (update floats now found v) (n + hits (r ∷ [])))
          (is_relevant-SameSettings floats found s) (update-IsBacked floats now found v n b)

    round-IsBehind :
        (n : ℕ) (i : Round F) (s : DeviceLoop F)
        → IsBehind n (s, none)
        → IsBehind (n + hits (is_relevant floats first i.found ∷ [])) (round floats w i s)
    unfolding round
    round-IsBehind n i s b =
        let bound = first.required in
        let now = i.monotonic_ns in
        let v = update floats now i.found s.verifier in
        let k = n + hits (is_relevant floats first i.found ∷ []) in
        let c = update-IsConsistent floats now i.found s.verifier b.consistent in
        let backed = update-IsBacked_first now i.found s.verifier n b.settings b.backed in
        let same =
          SameSettings-trans floats b.settings
            (SameSettings-update floats now i.found s.verifier) in
        let begun : DeviceLoop F = record s {
          verifier = v;
          frame_sequence = s.frame_sequence + 1;
        } in
        let reported =
          report_incident floats w i v.state s.last_state v.state.incident_id
            (report_frame floats w i (begun, none)) in
        let before : Warranted floats w bound k v (begun, none) =
          (refl, IsWarranted-mono floats w bound n k s.stream.sent (omega arith) b.sent) in
        IsBehind-of_Warranted k v _ c backed same (
          Warranted-log_health floats w bound k v i s.last_local_log
            (report_health floats w i s.last_health reported)
            (Warranted-report_health floats w bound k v i s.last_health reported (
              Warranted-report_incident floats w bound k v i s.last_state v.state.incident_id
                (report_frame floats w i (begun, none)) c
                (λ confirmed. omega (arith, backed.needed confirmed, same.required)) refl
                (Warranted-report_frame floats w bound k v i (begun, none) before))))

    rounds_from-IsWarranted :
        (n : ℕ) (rounds : List (Round F)) (g : Going F)
        → IsBehind n g
        → All
            (IsWarranted floats w first.required
              (n + relevant_frames floats first (map (frame_of floats w) rounds)))
            (rounds_from floats w rounds g).0.stream.sent
    unfolding rounds_from
    rounds_from-IsWarranted n [] g b =
        IsWarranted-mono floats w first.required n _ g.0.stream.sent (omega arith) b.sent
    rounds_from-IsWarranted n (i ∷ rounds) (s, some e) b =
        IsWarranted-mono floats w first.required n _ s.stream.sent (omega arith) b.sent
    rounds_from-IsWarranted n (i ∷ rounds) (s, none) b =
        let k = n + hits (is_relevant floats first i.found ∷ []) in
        let later = relevant_frames floats first (map (frame_of floats w) rounds) in
        IsWarranted-mono floats w first.required (k + later) _ _ (ground arith)
          (rounds_from-IsWarranted k rounds (round floats w i s) (round-IsBehind n i s b))

    went-IsBehind :
        (n : ℕ) (s : DeviceLoop F) (r : BackendStream × Outcome)
        → IsBehind n (s, none)
        → All (IsWarranted floats w first.required n) r.0.sent
        → IsBehind n (went floats w s r)
    went-IsBehind n s (stream, returned t) b h = record {
      consistent = b.consistent;
      backed = b.backed;
      settings = b.settings;
      sent = h;
    }
    went-IsBehind n s (stream, raised e) b h = record {
      consistent = b.consistent;
      backed = b.backed;
      settings = b.settings;
      sent = h;
    }

  -- Whatever the sockets do: an INCIDENT_UPDATE that the device passes to a socket is the JSON of a
  -- report; and where that report says that a fire is confirmed, or was, or that the occupant is to
  -- answer, six frames of the run at least were relevant.
  pub alarms_need_frames :
      (dial : Dial) (now : ℕ) (rounds : List (Round F)) (device_id boot_id : String)
      (fire_threshold smoke_threshold : F)
      → let start = fresh_loop floats w device_id boot_id fire_threshold smoke_threshold in
        All
          (IsWarranted floats w 6
            (relevant_frames floats start.verifier (map (frame_of floats w) rounds)))
          (run_device floats w dial now rounds start).0.stream.sent
  unfolding run_device
  alarms_need_frames dial now rounds device_id boot_id fire_threshold smoke_threshold =
      let start = fresh_loop floats w device_id boot_id fire_threshold smoke_threshold in
      let first = start.verifier in
      let quiet : IsBehind first 0 (start, none) = record {
        consistent = ground arith;
        backed = record { shown = omega arith; needed = λ t. absurd (cc) };
        settings = SameSettings-refl floats first;
        sent = tt;
      } in
      IsWarranted-mono floats w 6
        (0 + relevant_frames floats first (map (frame_of floats w) rounds)) _ _ (omega arith)
        (rounds_from-IsWarranted first 0 rounds _ (
          went-IsBehind first 0 start (connect dial w.hello_json now start.stream) quiet (
            All-connect (IsWarranted floats w 6 0) now w.hello_json (λ sequence t. absurd (cc)) dial
              start.stream tt)))
