-- ===== src/Verifier/Window.antt =====
-- The bounded window of `FireVerifier`, and the hits that it counts.
use ignis_test.Prelude.{
  ℕ, zero, suc, ◌+◌, ◌-◌, ◌≤◌, ◌≡◌, refl, Bool, true, List, [], ◌∷◌, ◌++◌, arith, length,
  length-append, length-drop, drop, count_by-append, ◌&&◌, ◌==◌, if◌then◌else◌, min,
}
use ignis_test.Verifier.Gate.{push, hits}

hits-drop-le : (n : ℕ) (w : List Bool) → hits (drop n w) ≤ hits w
unfolding drop
hits-drop-le zero w = omega arith
hits-drop-le (suc n) [] = omega arith
hits-drop-le (suc n) (b ∷ w) = ground (arith, hits-drop-le n w)

-- The window never holds more than its length.
pub length-push-le : (m : ℕ) (w : List Bool) (b : Bool) → length (push m w b) ≤ m
unfolding push
length-push-le m w b = omega (arith, length-drop (length (w ++ b ∷ []) - m) (w ++ b ∷ []))

-- A new item adds at most itself to the hits.
pub hits-push-le : (m : ℕ) (w : List Bool) (b : Bool) → hits (push m w b) ≤ hits w + hits (b ∷ [])
unfolding push
hits-push-le m w b =
    let longer = w ++ b ∷ [] in
    omega (arith, hits-drop-le (length longer - m) longer, count_by-append (λ c. c) w (b ∷ []))

-- How many hits stand at the end of the window, with nothing between them.
abbrev pub trailing : List Bool → ℕ
trailing [] = 0
trailing (b ∷ w) = let rest = trailing w in if b && rest == length w then suc rest else rest

trailing-le-length : (w : List Bool) → trailing w ≤ length w
trailing-le-length [] = omega arith
trailing-le-length (b ∷ w) = ground (arith, trailing-le-length w)

pub trailing-le-hits : (w : List Bool) → trailing w ≤ hits w
trailing-le-hits [] = omega arith
trailing-le-hits (b ∷ w) = ground (arith, trailing-le-hits w)

trailing-append-true : (w : List Bool) → trailing (w ++ true ∷ []) ≡ suc (trailing w)
trailing-append-true [] = refl
trailing-append-true (b ∷ w) =
    ground (arith, trailing-append-true w, length-append w (true ∷ []), trailing-le-length w)

trailing-drop-le : (n : ℕ) (w : List Bool) → min (trailing w) (length w - n) ≤ trailing (drop n w)
unfolding drop
trailing-drop-le zero w = omega (arith, trailing-le-length w)
trailing-drop-le (suc n) [] = omega arith
trailing-drop-le (suc n) (b ∷ w) = ground (arith, trailing-drop-le n w, trailing-le-length w)

-- A hit lengthens the run of hits, up to the window's length.
pub trailing-push-true :
    (m : ℕ) (w : List Bool) → min (suc (trailing w)) m ≤ trailing (push m w true)
unfolding push
trailing-push-true m w =
    let longer = w ++ true ∷ [] in
    omega (
      arith,
      trailing-drop-le (length longer - m) longer,
      trailing-append-true w,
      trailing-le-length w,
      length-append w (true ∷ []),
    )
