-- ===== src/Backend/Hub.antt =====
-- backend/app/websockets.py: `WebSocketHub`. A client is a number, the set of them a list without
-- doubles. How a text goes to a client, in time or not at all, is an argument; the texts of one
-- broadcast go out together, so their order in `sent` says nothing across clients.
pub mod Broadcast
use ignis_test.Prelude.{
  ℕ, ◌+◌, ◌≤◌, ◌≡◌, refl, sym, ap, ◌∙◌, Bool, true, false, not, ◌&&◌, ◌||◌, List, [], ◌∷◌, ◌++◌,
  ◌==◌, ==_refl, keep, map, length, if◌then◌else◌, Bool-cases, inl, inr, arith, append_assoc,
  append-nil, String, ==_iff,
}

-- `envelope`, but for its version and its time
pub record Envelope (D : Type 0) : Type 0 where
  pub message_type : String
  pub content : D

pub record WebSocketHub (D : Type 0) : Type 0 where
  pub clients : List ℕ
  pub sent : List (ℕ × Envelope D)

abbrev pub has_client : ℕ → List ℕ → Bool
has_client c [] = false
has_client c (d ∷ ds) = c == d || has_client c ds

-- `_clients.add`
abbrev pub add_client : ℕ → List ℕ → List ℕ
add_client c clients = if has_client c clients then clients else c ∷ clients

-- `_clients.discard`
abbrev pub discard : ℕ → List ℕ → List ℕ
discard c clients = keep (λ d. not (c == d)) clients

module _ {D : Type 0} where
  abbrev pub client_count : WebSocketHub D → ℕ
  client_count hub = length hub.clients

  abbrev pub deliver : ℕ → Envelope D → WebSocketHub D → WebSocketHub D
  deliver c envelope hub = record hub { sent = hub.sent ++ (c, envelope) ∷ [] }

  -- `snapshot` is what the factory gives; the Boolean is whether the snapshot goes out, or raises.
  unfoldable pub connect : ℕ → D → Bool → WebSocketHub D → WebSocketHub D × Bool
  connect c snapshot goes hub =
      let added = record hub { clients = add_client c hub.clients } in
      if goes
      then (deliver c (record { message_type = "system_snapshot"; content = snapshot }) added, true)
      else (added, false)

  unfoldable pub disconnect : ℕ → WebSocketHub D → WebSocketHub D
  disconnect c hub = record hub { clients = discard c hub.clients }

  -- `send` of one client, with its timeout and its exceptions
  abbrev pub send_text : (ℕ → Bool) → Envelope D → ℕ → WebSocketHub D → WebSocketHub D
  unfolding disconnect
  send_text takes envelope c hub = if takes c then deliver c envelope hub else disconnect c hub

  -- The `gather` over the clients that were there when it began
  unfoldable pub send_all : (ℕ → Bool) → Envelope D → List ℕ → WebSocketHub D → WebSocketHub D
  send_all takes envelope [] hub = hub
  send_all takes envelope (c ∷ cs) hub = send_all takes envelope cs (send_text takes envelope c hub)

  unfoldable pub broadcast : (ℕ → Bool) → String → D → WebSocketHub D → WebSocketHub D
  unfolding send_all
  broadcast takes message_type content hub =
      send_all takes (record { message_type = message_type; content = content }) hub.clients hub
