-- ===== src/Backend/Http/Voice.antt =====
-- backend/app/main.py: the route of the voice's address, over `signed_url` of
-- backend/app/communications.py. It writes nothing. What the provider replies is an argument.
use mathlib.Core.Path.{subst}
use ignis_test.Prelude.{
  ℕ, ◌≤◌, ◌≡◌, refl, sym, Bool, true, not, ◌||◌, Option, none, some, List, String, str_eq, codes,
  list_eq, leb, take, length, if◌then◌else◌, Bool-cases, inl, inr,
}
use ignis_test.Store.Schema.{Incident}
use ignis_test.Store.Incidents.{get_incident}
use ignis_test.Backend.Settings.{Settings}
use ignis_test.Backend.Observations.{Rounding, Context, safe_incident_context}
use ignis_test.Backend.Observations.Safe.{AreSafe, sanitize_zone_safe}
use ignis_test.Backend.Http.{
  App, http_exception, server_error, Answer, answered, refused, unknown_incident,
}
use ignis_test.Backend.Http.Calls.{system_unarmed}

-- The reply to `client.get`: its status, and the text under "signed_url" (`some none` where it is
-- no text, `none` where reading the JSON raises).
pub data SignedReply : Type 0 where
  unreachable : SignedReply
  replied : ℕ → Option (Option (List ℕ)) → SignedReply

abbrev pub starts_with : List ℕ → List ℕ → Bool
starts_with prefix text = list_eq (take (length prefix) text) prefix

-- What is read of a reply whose status is below 400.
abbrev pub address_of : Option (Option (List ℕ)) → Answer (List ℕ)
address_of none = refused server_error
address_of (some none) = refused (http_exception 502 "signed_url_provider_response_invalid")
address_of (some (some url)) =
    if starts_with (codes "wss://") url
    then answered url
    else refused (http_exception 502 "signed_url_provider_response_invalid")

-- `client.get(…)` and what follows it
abbrev pub address_in : SignedReply → Answer (List ℕ)
address_in unreachable = refused server_error
address_in (replied status body) =
    if leb 400 status
    then refused (http_exception 502 "signed_url_provider_error")
    else address_of body

unfoldable pub signed_url : Settings → SignedReply → Answer (List ℕ)
signed_url settings reply =
    if str_eq settings.elevenlabs_api_key "" || str_eq settings.occupant_agent_id ""
    then refused (http_exception 503 "voice_not_configured")
    else address_in reply

abbrev pub with_context : {F : Type 0} → Context F → Answer (List ℕ) → Answer (List ℕ × Context F)
with_context context (refused e) = refused e
with_context context (answered url) = answered (url, context)

module _ {F : Type 0} (r : Rounding F) (settings : Settings) where
  abbrev pub signed_for : SignedReply → Option (Incident F) → Answer (List ℕ × Context F)
  signed_for reply none = refused unknown_incident
  signed_for reply (some incident) =
      with_context (safe_incident_context r incident) (signed_url settings reply)

  unfoldable pub voice_signed_url :
      {J : Type 0} → String → SignedReply → App F J → Answer (List ℕ × Context F)
  voice_signed_url id reply app =
      if not app.armed
      then refused system_unarmed
      else signed_for reply (get_incident id app.world.db)

address_of_secure :
    (body : Option (Option (List ℕ))) (url : List ℕ)
    → address_of body ≡ answered url
    → starts_with (codes "wss://") url ≡ true
address_of_secure none url e = absurd (cc)
address_of_secure (some none) url e = absurd (cc)
address_of_secure (some (some found)) url e =
    elim (Bool-cases (starts_with (codes "wss://") found)) [
      | inl secure ↦
          let same : answered found ≡ answered url = rw secure at e in
          let f : found ≡ url = cc in subst (λ t. starts_with (codes "wss://") t ≡ true) f secure
      | inr other ↦
          let wrong : refused (http_exception 502 "signed_url_provider_response_invalid")
              ≡ answered url =
            rw other at e in
          absurd (cc)
    ]

signed_url_secure :
    (settings : Settings) (reply : SignedReply) (url : List ℕ)
    → signed_url settings reply ≡ answered url
    → starts_with (codes "wss://") url ≡ true
unfolding signed_url
signed_url_secure settings reply url e =
    by_reply reply
      (elim (Bool-cases
        (str_eq settings.elevenlabs_api_key "" || str_eq settings.occupant_agent_id "")) [
          | inl missing ↦ absurd (let w = rw missing at e in cc)
          | inr configured ↦ rw configured at e
        ])
  where
    by_reply :
        (reply : SignedReply)
        → address_in reply ≡ answered url
        → starts_with (codes "wss://") url ≡ true
    by_reply unreachable h = absurd (cc)
    by_reply (replied status body) h = elim (Bool-cases (leb 400 status)) [
      | inl failed ↦ absurd (let w = rw failed at h in cc)
      | inr fine ↦ address_of_secure body url (rw fine at h)
    ]

with_context_answered :
    {F : Type 0} (context told : Context F) (a : Answer (List ℕ)) (url : List ℕ)
    → with_context context a ≡ answered (url, told)
    → (a ≡ answered url) × (context ≡ told)
with_context_answered context told (refused e) url h = absurd (cc)
with_context_answered context told (answered u) url h = (cc, cc)

module _ {F : Type 0} (r : Rounding F) (settings : Settings) where
  signed_for_answered :
      (reply : SignedReply) (o : Option (Incident F)) (url : List ℕ) (context : Context F)
      → signed_for r settings reply o ≡ answered (url, context)
      → (i : Incident F) × (o ≡ some i)
        × (signed_url settings reply ≡ answered url)
        × (safe_incident_context r i ≡ context)
  signed_for_answered reply none url context h = absurd (cc)
  signed_for_answered reply (some i) url context h =
      let (secure, same) = with_context_answered _ context (signed_url settings reply) url h in
      (i, refl, secure, same)

  zone_of-context :
      (i : Incident F)
      → AreSafe (safe_incident_context r i).zone × (length (safe_incident_context r i).zone ≤ 48)
  unfolding safe_incident_context
  zone_of-context i =
      let (safe, short, full) = sanitize_zone_safe (codes i.first_zone) in (safe, short)

  -- An address is only given while the system is armed, and is a "wss://" one; the context that
  -- goes with it is that of a stored incident, and names its zone in at most 48 characters, each a
  -- letter, a digit, a space or one of the marks that the pattern lists.
  pub voice_signed_url_lem :
      {J : Type 0} (id : String) (reply : SignedReply) (app : App F J) (url : List ℕ)
      (context : Context F)
      → voice_signed_url r settings id reply app ≡ answered (url, context)
      → (app.armed ≡ true)
        × (starts_with (codes "wss://") url ≡ true)
        × ((i : Incident F) × (get_incident id app.world.db ≡ some i)
            × (context ≡ safe_incident_context r i))
        × AreSafe context.zone
        × (length context.zone ≤ 48)
  unfolding voice_signed_url
  voice_signed_url_lem id reply app url context h = elim (Bool-cases app.armed) [
    | inl armed ↦
        let (i, found, secure, same) =
          signed_for_answered reply (get_incident id app.world.db) url context (rw armed at h) in
        let (safe, short) =
          subst (λ (c : Context F). AreSafe c.zone × (length c.zone ≤ 48)) same
            (zone_of-context i) in
        (armed, signed_url_secure settings reply url secure, (i, found, sym same), safe, short)
    | inr off ↦ absurd (let w = rw off at h in cc)
  ]
