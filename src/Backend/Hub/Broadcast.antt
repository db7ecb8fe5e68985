-- ===== src/Backend/Hub/Broadcast.antt =====
-- What a broadcast leaves: which clients stay, and what each was sent.
use ignis_test.Prelude.{
  ℕ, ◌≡◌, refl, sym, ap, ◌∙◌, Bool, true, false, not, ◌&&◌, ◌||◌, List, [], ◌∷◌, ◌++◌, String, ◌==◌,
  ==_iff, keep, map, Bool-cases, inl, inr, arith, append_assoc, append-nil,
}
use ignis_test.Backend.Hub.{
  Envelope, WebSocketHub, has_client, discard, disconnect, send_text, send_all, broadcast,
}

has_client-discard :
    (d c : ℕ) (clients : List ℕ)
    → has_client d (discard c clients) ≡ (has_client d clients && not (c == d))
has_client-discard d c [] = refl
has_client-discard d c (e ∷ es) =
    grind (arith, has_client-discard d c es, ==_iff c e, ==_iff c d, ==_iff d e)

==_sym : (c d : ℕ) → (c == d) ≡ (d == c)
==_sym c d = ground (arith, ==_iff c d, ==_iff d c)

drop_more :
    (here there takes_c takes_d c_is_d d_is_c : Bool)
    → c_is_d ≡ d_is_c
    → (c_is_d ≡ true → takes_c ≡ takes_d)
    → ((here && not (c_is_d && not takes_c)) && not (there && not takes_d))
      ≡ (here && not ((d_is_c || there) && not takes_d))
drop_more here there takes_c takes_d true d_is_c same alike =
    rw (sym same, alike refl) (by_cases here there takes_d)
  where
    by_cases : (h t d : Bool) → ((h && not (not d)) && not (t && not d)) ≡ (h && not (not d))
    by_cases false t d = refl
    by_cases true t false = refl
    by_cases true false true = refl
    by_cases true true true = refl
drop_more false there takes_c takes_d false d_is_c same alike = refl
drop_more true there takes_c takes_d false d_is_c same alike = rw (sym same) refl

module _ {D : Type 0} (takes : ℕ → Bool) (envelope : Envelope D) where
  abbrev copies : List ℕ → List (ℕ × Envelope D)
  copies cs = map (λ c. (c, envelope)) (keep takes cs)

  send_text-sent :
      (c : ℕ) (cs : List ℕ) (hub : WebSocketHub D)
      → (send_text takes envelope c hub).sent ++ copies cs ≡ hub.sent ++ copies (c ∷ cs)
  unfolding send_text
  send_text-sent c cs hub = elim (Bool-cases (takes c)) [
    | inl fast ↦ rw fast (append_assoc hub.sent ((c, envelope) ∷ []) (copies cs))
    | inr slow ↦ rw slow (unfold disconnect in refl)
  ]

  send_all-sent :
      (cs : List ℕ) (hub : WebSocketHub D)
      → (send_all takes envelope cs hub).sent ≡ hub.sent ++ copies cs
  unfolding send_all
  send_all-sent [] hub = sym (append-nil hub.sent)
  send_all-sent (c ∷ cs) hub =
      send_all-sent cs (send_text takes envelope c hub) ∙ send_text-sent c cs hub

  send_text-clients :
      (c : ℕ) (hub : WebSocketHub D) (d : ℕ)
      → has_client d (send_text takes envelope c hub).clients
        ≡ (has_client d hub.clients && not (c == d && not (takes c)))
  unfolding send_text
  send_text-clients c hub d = elim (Bool-cases (takes c)) [
    | inl fast ↦ rw fast (ground arith)
    | inr slow ↦ rw slow (unfold disconnect in (has_client-discard d c hub.clients ∙ ground arith))
  ]

  send_all-clients :
      (cs : List ℕ) (hub : WebSocketHub D) (d : ℕ)
      → has_client d (send_all takes envelope cs hub).clients
        ≡ (has_client d hub.clients && not (has_client d cs && not (takes d)))
  unfolding send_all
  send_all-clients [] hub d = ground arith
  send_all-clients (c ∷ cs) hub d =
      send_all-clients cs (send_text takes envelope c hub) d
      ∙ (ap (λ b. b && not (has_client d cs && not (takes d))) (send_text-clients c hub d)
          ∙ drop_more (has_client d hub.clients) (has_client d cs) (takes c) (takes d) (c == d)
              (d == c) (==_sym c d) (λ same. ap takes ((==_iff c d).0 same)))

module _ {D : Type 0} (takes : ℕ → Bool) (message_type : String) (content : D) where
  -- A broadcast drops just the clients that did not take it in time, and hands it to each of the
  -- others, as often as the set lists it, and to nobody else.
  pub broadcast_lem :
      (hub : WebSocketHub D)
      → ((d : ℕ)
          → has_client d (broadcast takes message_type content hub).clients
            ≡ (has_client d hub.clients && takes d))
        × ((broadcast takes message_type content hub).sent
            ≡ hub.sent
              ++ map
                  (λ c. (c, record { message_type = message_type; content = content }))
                  (keep takes hub.clients))
  unfolding broadcast
  broadcast_lem hub =
      let envelope : Envelope D = record { message_type = message_type; content = content } in
      (
        λ d. send_all-clients takes envelope hub.clients hub d ∙ ground arith,
        send_all-sent takes envelope hub.clients hub,
      )
