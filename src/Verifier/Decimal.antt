-- ===== src/Verifier/Decimal.antt =====
-- The text of a counter in an f-string, and that two counters have two texts.
use Prim.Native.String.{◌++◌, [], ◌∷◌}
use Prim.Native.Char.{code}
use text.Mathlib.TextLemmas.{nil-append, cons-append, append_cancel_left}
use ignis_test.Prelude.{
  ℕ, zero, suc, String, ◌+◌, ◌-◌, ◌*◌, ◌/◌, ◌%◌, ◌<◌, ◌≡◌, ap, sym, ◌∙◌, arith, ltb, ◌==◌,
  if◌then◌else◌, Bool-cases, inl, inr, ltb→lt, ltb_false→le,
}

digit : ℕ → String
digit n =
    if n == 0
    then "0"
    else if n == 1
    then "1"
    else if n == 2
    then "2"
    else if n == 3
    then "3"
    else if n == 4
    then "4"
    else if n == 5
    then "5"
    else if n == 6
    then "6"
    else if n == 7
    then "7"
    else if n == 8
    then "8"
    else "9"

-- The digits of `n`; each round takes one, so `n` rounds are enough.
decimal_loop : ℕ → ℕ → String
unfolding digit
decimal_loop zero n = digit n
decimal_loop (suc fuel) n =
    let front = decimal_loop fuel (n / 10) in if ltb n 10 then digit n else front ++ digit (n % 10)

-- `str(n)`
unfoldable pub decimal : ℕ → String
unfolding decimal_loop
decimal n = decimal_loop n n

value_from : ℕ → String → ℕ
value_from acc [] = acc
value_from acc (c ∷ s) = value_from (acc * 10 + (code c - 48)) s

value_from-append :
    (acc : ℕ) (s t : String) → value_from acc (s ++ t) ≡ value_from (value_from acc s) t
unfolding value_from
value_from-append acc [] t = rw nil-append
value_from-append acc (c ∷ s) t = rw cons-append (value_from-append (acc * 10 + (code c - 48)) s t)

value_from-digit : (acc n : ℕ) → n < 10 → value_from acc (digit n) ≡ acc * 10 + n
unfolding value_from digit
value_from-digit acc zero h = omega arith
value_from-digit acc (suc zero) h = omega arith
value_from-digit acc (suc (suc zero)) h = omega arith
value_from-digit acc (suc (suc (suc zero))) h = omega arith
value_from-digit acc (suc (suc (suc (suc zero)))) h = omega arith
value_from-digit acc (suc (suc (suc (suc (suc zero))))) h = omega arith
value_from-digit acc (suc (suc (suc (suc (suc (suc zero)))))) h = omega arith
value_from-digit acc (suc (suc (suc (suc (suc (suc (suc zero))))))) h = omega arith
value_from-digit acc (suc (suc (suc (suc (suc (suc (suc (suc zero)))))))) h = omega arith
value_from-digit acc (suc (suc (suc (suc (suc (suc (suc (suc (suc zero))))))))) h = omega arith
value_from-digit acc (suc (suc (suc (suc (suc (suc (suc (suc (suc (suc n)))))))))) h =
    absurd (omega arith)

value_from-decimal_loop : (fuel n : ℕ) → n < fuel + 10 → value_from 0 (decimal_loop fuel n) ≡ n
unfolding decimal_loop
value_from-decimal_loop zero n h = value_from-digit 0 n (omega arith) ∙ omega arith
value_from-decimal_loop (suc fuel) n h = elim (Bool-cases (ltb n 10)) [
  | inl small ↦ rw small (value_from-digit 0 n (ltb→lt n 10 small) ∙ omega arith)
  | inr large ↦
      rw (large, value_from-append 0 (decimal_loop fuel (n / 10)) (digit (n % 10)))
        (value_from-digit _ (n % 10) (omega arith)
          ∙ omega (
            arith,
            value_from-decimal_loop fuel (n / 10) (omega (arith, ltb_false→le n 10 large)),
          ))
]

-- Two counters with one text are one counter.
pub decimal-injective : (m n : ℕ) → decimal m ≡ decimal n → m ≡ n
unfolding decimal
decimal-injective m n h =
    sym (value_from-decimal_loop m m (omega arith))
    ∙ ap (value_from 0) h
    ∙ value_from-decimal_loop n n (omega arith)

-- `f"{device_id}-{boot_id}-{counter}"`
unfoldable pub incident_name : String → String → ℕ → String
incident_name device_id boot_id counter =
    device_id ++ ("-" ++ (boot_id ++ ("-" ++ decimal counter)))

-- Within one boot of a device, two incidents have two names.
pub incident_name-injective :
    (device_id boot_id : String) (m n : ℕ)
    → incident_name device_id boot_id m ≡ incident_name device_id boot_id n
    → m ≡ n
unfolding incident_name
incident_name-injective device_id boot_id m n h = decimal-injective m n (
    append_cancel_left "-" _ _ (
      append_cancel_left boot_id _ _
        (append_cancel_left "-" _ _ (append_cancel_left device_id _ _ h))))
