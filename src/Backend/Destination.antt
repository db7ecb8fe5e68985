-- ===== src/Backend/Destination.antt =====
-- backend/app/communications.py: which number may be called. A number is a list of code points;
-- `\d` of the pattern also takes the decimal digits of other scripts, which `is_digit` leaves to a
-- parameter: it is asked only for characters beyond ASCII.
use ignis_test.Prelude.{
  ℕ, ◌-◌, ◌≤◌, ◌≡◌, Bool, true, false, not, ◌&&◌, ◌||◌, List, [], ◌∷◌, codes, list_eq, list_eq_iff,
  leb, ltb, ◌==◌, if◌then◌else◌, arith, length, drop, Bool-cases, inl, inr, ◌⊎◌, Option, none, some,
}

-- `CommunicationError(code)`
pub data CallError : Type 0 where
  destination_not_valid_e164 emergency_numbers_are_forbidden : CallError
  destination_not_allowlisted demo_calls_disabled incident_not_found : CallError
  incident_not_visually_confirmed incident_cancelled dispatch_provider_not_configured : CallError
  duplicate_or_max_calls_reached global_call_cooldown : CallError
  call_provider_outcome_unknown call_provider_connection_error : CallError
  call_provider_rejected_request store_failure : CallError

abbrev is_ascii_digit : ℕ → Bool
is_ascii_digit c = leb b'0' c && leb c b'9'

unfoldable pub all_of : (ℕ → Bool) → List ℕ → Bool
all_of p [] = true
all_of p (c ∷ s) = let rest = all_of p s in if p c then rest else false

unfoldable pub contains : List (List ℕ) → List ℕ → Bool
contains [] s = false
contains (x ∷ xs) s = let rest = contains xs s in if list_eq x s then true else rest

-- `EMERGENCY_NUMBERS`
abbrev pub emergency_numbers : List (List ℕ)
emergency_numbers =
    codes "000"
    ∷ codes "110"
    ∷ codes "112"
    ∷ codes "118"
    ∷ codes "119"
    ∷ codes "911"
    ∷ codes "999"
    ∷ []

-- `destination.lstrip("+")`
unfoldable pub lstrip_plus : List ℕ → List ℕ
lstrip_plus [] = []
lstrip_plus (c ∷ s) = let rest = lstrip_plus s in if c == b'+' then rest else c ∷ s

-- `digits[-3:]`
unfoldable pub last_three : List ℕ → List ℕ
last_three s = drop (length s - 3) s

module _ (is_other_digit : ℕ → Bool) where
  abbrev is_digit : ℕ → Bool
  is_digit c = if ltb c 128 then is_ascii_digit c else is_other_digit c

  -- `E164.fullmatch`, the pattern `^\+[1-9]\d{7,14}$`
  unfoldable pub is_e164 : List ℕ → Bool
  unfolding all_of
  is_e164 (plus ∷ first ∷ rest) =
      plus == b'+'
      && (leb b'1' first
          && (leb first b'9'
              && (all_of is_digit rest && (leb 7 (length rest) && leb (length rest) 14))))
  is_e164 _ = false

  -- `none` where the function returns
  unfoldable pub validate_destination : List ℕ → List (List ℕ) → Option CallError
  validate_destination destination allowed =
      let digits = lstrip_plus destination in
      if not (is_e164 destination)
      then some destination_not_valid_e164
      else if contains emergency_numbers digits || contains emergency_numbers (last_three digits)
      then some emergency_numbers_are_forbidden
      else if not (contains allowed destination)
      then some destination_not_allowlisted
      else none

-- `s` stands in the list.
abbrev pub Listed : List (List ℕ) → List ℕ → Type 0
Listed [] s = ⊥
Listed (x ∷ xs) s = (x ≡ s) ⊎ Listed xs s

contains→Listed : (xs : List (List ℕ)) (s : List ℕ) → contains xs s ≡ true → Listed xs s
unfolding contains
contains→Listed [] s h = absurd (cc)
contains→Listed (x ∷ xs) s h = elim (Bool-cases (list_eq x s)) [
  | inl same ↦ inl ((list_eq_iff x s).0 same)
  | inr other ↦ inr (contains→Listed xs s (rw other at h))
]

contains-false : (xs : List (List ℕ)) (s : List ℕ) → contains xs s ≡ false → ¬ (Listed xs s)
unfolding contains
contains-false [] s h l = l
contains-false (x ∷ xs) s h (inl e) = cc ((list_eq_iff x s).1 e)
contains-false (x ∷ xs) s h (inr l) = elim (Bool-cases (list_eq x s)) [
  | inl same ↦ cc
  | inr other ↦ contains-false xs s (rw other at h) l
]

-- What is asked of a number that may be called.
pub record IsCallable (destination : List ℕ) (allowed : List (List ℕ)) : Type 0 where
  pub digits : List ℕ
  pub shape : destination ≡ b'+' ∷ digits
  pub long_enough : 8 ≤ length digits
  pub short_enough : length digits ≤ 15
  pub no_emergency : ¬ (Listed emergency_numbers digits)
  pub no_emergency_end : ¬ (Listed emergency_numbers (last_three digits))
  pub allowlisted : Listed allowed destination

module _ (is_other_digit : ℕ → Bool) where
  e164_shape :
      (destination : List ℕ)
      → is_e164 is_other_digit destination ≡ true
      → (destination ≡ b'+' ∷ lstrip_plus destination)
        × (8 ≤ length (lstrip_plus destination))
        × (length (lstrip_plus destination) ≤ 15)
  unfolding is_e164 lstrip_plus
  e164_shape [] h = absurd (cc)
  e164_shape (plus ∷ []) h = absurd (cc)
  e164_shape (plus ∷ first ∷ rest) h = ground arith

  -- A number that is accepted is a plus sign and 8 to 15 more characters, is on the allowlist, and
  -- neither is nor ends in an emergency number.
  pub validate_destination_sound :
      (destination : List ℕ) (allowed : List (List ℕ))
      → validate_destination is_other_digit destination allowed ≡ none
      → IsCallable destination allowed
  unfolding validate_destination
  validate_destination_sound destination allowed h =
      let (valid, safe, end, listed) = facts h in
      let (shape, long, short) = e164_shape destination valid in
      record {
        digits = lstrip_plus destination;
        shape = shape;
        long_enough = long;
        short_enough = short;
        no_emergency = contains-false emergency_numbers (lstrip_plus destination) safe;
        no_emergency_end =
            contains-false emergency_numbers (last_three (lstrip_plus destination)) end;
        allowlisted = contains→Listed allowed destination listed;
      }
    where
      facts :
          validate_destination is_other_digit destination allowed ≡ none
          → (is_e164 is_other_digit destination ≡ true)
            × (contains emergency_numbers (lstrip_plus destination) ≡ false)
            × (contains emergency_numbers (last_three (lstrip_plus destination)) ≡ false)
            × (contains allowed destination ≡ true)
      facts e = ground arith
