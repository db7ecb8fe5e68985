-- ===== src/Backend/RateLimit.antt =====
-- backend/app/rate_limit.py. A reading of the monotonic clock is a natural number of some fixed
-- unit, in which the window's length is given too; `a <= now - w` is written `a + w ≤ now`.
use ignis_test.Prelude.{
  ℕ, ◌+◌, ◌≤◌, ◌≡◌, refl, Bool, true, false, List, [], ◌∷◌, ◌++◌, String, str_eq, str_eq_refl, leb,
  ltb, if◌then◌else◌, arith, length, length-append, count_by, count_by-append, count_by-le-length,
  leb_false→lt, append-nil, append_assoc, str_eq_iff, Bool-cases, inl, inr,
}

pub record RateLimiter : Type 0 where
  pub limit : ℕ
  pub window : ℕ
  -- `defaultdict(deque)`
  pub requests : String → List ℕ

abbrev pub new_limiter : ℕ → ℕ → RateLimiter
new_limiter limit window = record { limit = limit; window = window; requests = λ key. [] }

-- `while queue and queue[0] <= now - self.window_seconds: queue.popleft()`
unfoldable pub expire : ℕ → ℕ → List ℕ → List ℕ
expire now window [] = []
expire now window (t ∷ queue) =
    let rest = expire now window queue in if leb (t + window) now then rest else t ∷ queue

abbrev put_queue : RateLimiter → String → List ℕ → RateLimiter
put_queue l key queue = record l { requests = λ k. if str_eq key k then queue else l.requests k }

unfoldable pub allow : ℕ → String → RateLimiter → RateLimiter × Bool
allow now key l =
    let queue = expire now l.window (l.requests key) in
    if leb l.limit (length queue)
    then (put_queue l key queue, false)
    else (put_queue l key (queue ++ now ∷ []), true)

-- The times at which a run of requests was granted to `key`, each request a time and a key.
unfoldable pub granted : String → List (ℕ × String) → RateLimiter → List ℕ
granted key [] l = []
granted key ((now, k) ∷ requests) l =
    let (l', ok) = allow now k l in
    let rest = granted key requests l' in
    if str_eq k key then (if ok then now ∷ rest else rest) else rest

-- The clock readings of a run do not fall, and start at `from`.
abbrev pub Rising : ℕ → List (ℕ × String) → Type 0
Rising from [] = Unit
Rising from ((now, k) ∷ requests) = (from ≤ now) × Rising now requests

-- The last reading of a run that starts at `from`.
abbrev pub end_of : ℕ → List (ℕ × String) → ℕ
end_of from [] = from
end_of from ((now, k) ∷ requests) = end_of now requests

-- Inside the window that ends at `t`.
abbrev pub is_recent : ℕ → ℕ → ℕ → Bool
is_recent window t s = ltb t (s + window)

-- A request that is dropped from the queue is in no later window.
recent-expire :
    (now window t : ℕ) (queue : List ℕ)
    → now ≤ t
    → count_by (is_recent window t) (expire now window queue) ≡ count_by (is_recent window t) queue
unfolding expire
recent-expire now window t [] h = refl
recent-expire now window t (s ∷ queue) h = ground (arith, recent-expire now window t queue h)

-- The queue of a key accounts for every grant so far that a later window can hold.
record IsCovered (key : String) (now : ℕ) (l : RateLimiter) (past : List ℕ) : Type 0 where
  full : length (l.requests key) ≤ l.limit
  recent :
      (t : ℕ)
      → now ≤ t
      → count_by (is_recent l.window t) past ≤ count_by (is_recent l.window t) (l.requests key)

length-expire-le :
    (now window : ℕ) (queue : List ℕ) → length (expire now window queue) ≤ length queue
unfolding expire
length-expire-le now window [] = omega arith
length-expire-le now window (s ∷ queue) = ground (arith, length-expire-le now window queue)

settings-allow :
    (now : ℕ) (k : String) (l : RateLimiter)
    → ((allow now k l).0.limit ≡ l.limit) × ((allow now k l).0.window ≡ l.window)
unfolding allow
settings-allow now k l = ground arith

-- What one request adds to the grants of `key`.
abbrev grant : String → ℕ → String → Bool → List ℕ
grant key now k ok = if str_eq k key then (if ok then now ∷ [] else []) else []

allow-IsCovered_self :
    (from now : ℕ) (key : String) (l : RateLimiter) (past : List ℕ)
    → from ≤ now
    → IsCovered key from l past
    → IsCovered key now (allow now key l).0 (past ++ (if (allow now key l).1 then now ∷ [] else []))
unfolding allow
allow-IsCovered_self from now key l past h c =
    let queue = expire now l.window (l.requests key) in
    let shorter = length-expire-le now l.window (l.requests key) in
    elim (Bool-cases (leb l.limit (length queue))) [
      | inl blocked ↦
          rw (blocked, append-nil past)
            (record {
              full = rw str_eq_refl (omega (arith, c.full, shorter));
              recent = λ t ht.
                  rw (str_eq_refl, recent-expire now l.window t (l.requests key) ht)
                    (c.recent t (omega arith));
            })
      | inr open_ ↦ rw open_ (record {
        full = rw str_eq_refl (
            omega
              (arith, leb_false→lt l.limit (length queue) open_, length-append queue (now ∷ [])));
        recent = λ t ht. rw str_eq_refl (
            omega (
              arith,
              count_by-append (is_recent l.window t) past (now ∷ []),
              count_by-append (is_recent l.window t) queue (now ∷ []),
              recent-expire now l.window t (l.requests key) ht,
              c.recent t (omega arith),
            ));
      })
    ]

allow-IsCovered_other :
    (key : String) (from now : ℕ) (k : String) (l : RateLimiter) (past : List ℕ)
    → str_eq k key ≡ false
    → from ≤ now
    → IsCovered key from l past
    → IsCovered key now (allow now k l).0 past
unfolding allow
allow-IsCovered_other key from now k l past other h c =
    elim (Bool-cases (leb l.limit (length (expire now l.window (l.requests k))))) [
      | inl blocked ↦
          rw blocked (record {
            full = rw other c.full;
            recent = λ t ht. rw other (c.recent t (omega arith));
          })
      | inr open_ ↦
          rw open_ (record {
            full = rw other c.full;
            recent = λ t ht. rw other (c.recent t (omega arith));
          })
    ]

abbrev WindowBound : String → ℕ → RateLimiter → List ℕ → Type 0
WindowBound key from l times = (t : ℕ) → from ≤ t → count_by (is_recent l.window t) times ≤ l.limit

WindowBound-allow :
    (key : String) (from now : ℕ) (k : String) (l : RateLimiter) (times : List ℕ)
    → WindowBound key from (allow now k l).0 times
    → WindowBound key from l times
WindowBound-allow key from now k l times b =
    λ t h. let (limit, window) = settings-allow now k l in rw (limit, window) at (b t h)

covered_run :
    (key : String) (requests : List (ℕ × String)) (from : ℕ) (l : RateLimiter) (past : List ℕ)
    → Rising from requests
    → IsCovered key from l past
    → WindowBound key (end_of from requests) l (past ++ granted key requests l)
unfolding granted
covered_run key [] from l past r c = λ t h. rw append-nil (
    omega (arith, c.recent t h, c.full, count_by-le-length (is_recent l.window t) (l.requests key)))
covered_run key ((now, k) ∷ requests) from l past r c = elim (Bool-cases (str_eq k key)) [
  | inl same ↦
      let e : k ≡ key = (str_eq_iff k key).0 same in
      let l' = (allow now key l).0 in
      let covered = allow-IsCovered_self from now key l past r.0 c in
      rw same (
        rw e (
          WindowBound-allow key (end_of now requests) now key l _
            (elim (Bool-cases (allow now key l).1) [
              | inl ok ↦
                  rw (ok, ← append_assoc past (now ∷ []) (granted key requests l'))
                    (covered_run key requests now l' (past ++ now ∷ []) r.1 (rw ok at covered))
              | inr refused ↦ rw refused (
                  covered_run key requests now l' past r.1
                    (rw (refused, append-nil past) at covered))
            ])))
  | inr other ↦ rw other (
      WindowBound-allow key (end_of now requests) now k l _ (
        covered_run key requests now (allow now k l).0 past r.1
          (allow-IsCovered_other key from now k l past other r.0 c)))
]

-- Over any run of requests at rising times, no window that ends at or after the run's last request
-- holds more grants to one key than the limit.
pub granted_in_window :
    (limit window : ℕ) (key : String) (requests : List (ℕ × String)) (from t : ℕ)
    → Rising from requests
    → end_of from requests ≤ t
    → count_by (is_recent window t) (granted key requests (new_limiter limit window)) ≤ limit
granted_in_window limit window key requests from t r h =
    covered_run key requests from (new_limiter limit window) [] r
      (record { full = omega arith; recent = λ s k. omega arith }) t h
