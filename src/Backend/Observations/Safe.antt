-- ===== src/Backend/Observations/Safe.antt =====
-- The zone's name is typed by a user and spoken by an agent: what `sanitize_zone` lets through.
use ignis_test.Prelude.{
  ℕ, zero, suc, ◌≤◌, ◌≡◌, ◌≢◌, refl, true, List, [], ◌∷◌, ◌==◌, ◌&&◌, take, length, length-take,
  keep, codes, All, Bool-cases, inl, inr, arith,
}
use ignis_test.Backend.Observations.{
  is_safe, is_empty, strip_start, strip_end, cleaned, or_unconfigured, sanitize_zone,
}

abbrev pub AreSafe : List ℕ → Type 0
AreSafe = All (λ (c : ℕ). is_safe c ≡ true)

AreSafe-keep : (text : List ℕ) → AreSafe (keep is_safe text)
AreSafe-keep [] = tt
AreSafe-keep (c ∷ cs) = elim (Bool-cases (is_safe c)) [
  | inl safe ↦ rw safe (safe, AreSafe-keep cs)
  | inr other ↦ rw other (AreSafe-keep cs)
]

AreSafe-strip_start : (text : List ℕ) → AreSafe text → AreSafe (strip_start text)
AreSafe-strip_start [] h = tt
AreSafe-strip_start (c ∷ cs) h = elim (Bool-cases (c == 32)) [
  | inl space ↦ rw space (AreSafe-strip_start cs h.1)
  | inr other ↦ rw other h
]

AreSafe-strip_end : (text : List ℕ) → AreSafe text → AreSafe (strip_end text)
AreSafe-strip_end [] h = tt
AreSafe-strip_end (c ∷ cs) h = elim (Bool-cases (c == 32 && is_empty (strip_end cs))) [
  | inl blank ↦ rw blank tt
  | inr other ↦ rw other (h.0, AreSafe-strip_end cs h.1)
]

AreSafe-take : (n : ℕ) (text : List ℕ) → AreSafe text → AreSafe (take n text)
unfolding take
AreSafe-take zero text h = tt
AreSafe-take (suc n) [] h = tt
AreSafe-take (suc n) (c ∷ cs) h = (h.0, AreSafe-take n cs h.1)

pub AreSafe-cleaned : (text : List ℕ) → AreSafe (cleaned text)
AreSafe-cleaned text = AreSafe-strip_end _ (AreSafe-strip_start _ (AreSafe-keep text))

length-keep : (text : List ℕ) → length (keep is_safe text) ≤ length text
length-keep [] = omega arith
length-keep (c ∷ cs) = elim (Bool-cases (is_safe c)) [
  | inl safe ↦ rw safe (omega (arith, length-keep cs))
  | inr other ↦ rw other (omega (arith, length-keep cs))
]

length-strip_start : (text : List ℕ) → length (strip_start text) ≤ length text
length-strip_start [] = omega arith
length-strip_start (c ∷ cs) = ground (arith, length-strip_start cs)

length-strip_end : (text : List ℕ) → length (strip_end text) ≤ length text
length-strip_end [] = omega arith
length-strip_end (c ∷ cs) = ground (arith, length-strip_end cs)

pub length-cleaned : (text : List ℕ) → length (cleaned text) ≤ length text
length-cleaned text = omega (
  arith,
  length-keep text,
  length-strip_start (keep is_safe text),
  length-strip_end (strip_start (keep is_safe text)),
)

default_safe : AreSafe (codes "unconfigured area")
default_safe = (
  refl,
  (
    refl,
    (
      refl,
      (
        refl,
        (
          refl,
          (
            refl,
            (
              refl,
              (refl, (refl, (refl, (refl, (refl, (refl, (refl, (refl, (refl, (refl, tt)))))))))),
            ),
          ),
        ),
      ),
    ),
  ),
)

-- Whatever the text, `sanitize_zone` gives one that is not empty, of at most 48 characters, each a
-- letter, a digit, a space or one of the marks that the pattern lists.
pub sanitize_zone_safe :
    (text : List ℕ)
    → AreSafe (sanitize_zone text) × (length (sanitize_zone text) ≤ 48) × (sanitize_zone text ≢ [])
unfolding sanitize_zone
sanitize_zone_safe text =
    by_text (take 48 (cleaned text)) (AreSafe-take 48 (cleaned text) (AreSafe-cleaned text))
      (omega (arith, length-take 48 (cleaned text)))
  where
    by_text :
        (t : List ℕ)
        → AreSafe t
        → length t ≤ 48
        → AreSafe (or_unconfigured t) × (length (or_unconfigured t) ≤ 48) × (or_unconfigured t ≢ [])
    by_text [] h l = (default_safe, omega arith, λ e. cc)
    by_text (c ∷ cs) h l = (h, l, λ e. cc)
