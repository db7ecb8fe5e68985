-- ===== src/Wire/Bounds.antt =====
-- What `PacketParser` holds between two calls is bounded, and small chunks are never refused.
use ignis_test.Prelude.{
  ℕ, suc, ◌+◌, ◌≤◌, ◌<◌, ◌≡◌, ◌≢◌, refl, none, some, List, arith, length, zero, ltb, Option, take,
  drop, length-append, length-drop, Bool-cases, inl, inr, ltb_false→le, ltb→lt,
}
use ignis_test.Wire.Packet.{Packet, Result, ok, err, header_size, Header, read_header, check_header}
use ignis_test.Wire.Parser.{
  Parser, Step, new, wait, emit, fail, read_next, read_payload, read_first, read_by, with_header,
  drain, drain_all, extend, size, feed, proceed, prepend,
}

-- A header is accepted only if its payload is within the limit.
pub length-read_header :
    (max_payload_bytes : ℕ) (raw : List ℕ) {h : Header}
    → read_header max_payload_bytes raw ≡ ok h
    → h.length ≤ max_payload_bytes
unfolding read_header check_header
length-read_header max_payload_bytes raw e = ground arith

abbrev Within : ℕ → Option Header → Type 0
Within m none = Unit
Within m (some h) = h.length ≤ m

read_payload_waits :
    (h : Header) (p q : Parser)
    → read_payload h p ≡ (q, wait)
    → (q.expected ≡ some h) × (length p.buffer < h.length)
unfolding read_payload
read_payload_waits h p q e = ground arith

with_header_waits :
    (r : Result Header) (p q : Parser) → with_header r p ≡ (q, wait) → q.expected ≢ none
unfolding with_header
with_header_waits (ok h) p q e n = cc ((read_payload_waits h p q e).0)
with_header_waits (err x) p q e n = cc

read_first_waits :
    (p : Parser) → p.expected ≡ none → read_first p ≡ (p, wait) → length p.buffer < header_size
unfolding read_first
read_first_waits p n e = elim (Bool-cases (ltb (length p.buffer) header_size)) [
  | inl short ↦ ltb→lt (length p.buffer) header_size short
  | inr enough ↦ absurd (
      with_header_waits (read_header p.max_payload_bytes (take header_size p.buffer))
        (record p { buffer = drop header_size p.buffer }) p (rw enough at e) n)
]

-- Between two calls: no more is held than one packet of the largest size, the limit is the one the
-- parser was made with, and a header that waits for its payload was accepted.
pub record IsBounded (limit : ℕ) (p : Parser) : Type 0 where
  pub limit_kept : p.max_payload_bytes ≡ limit
  pub held : length p.buffer ≤ limit + header_size
  pub waiting : Within limit p.expected

module _ (limit : ℕ) where
  read_payload-IsBounded :
      (h : Header) (p : Parser)
      → h.length ≤ limit
      → IsBounded limit p
      → IsBounded limit (read_payload h p).0
  unfolding read_payload
  read_payload-IsBounded h p l b = ground (arith, length-drop h.length p.buffer)

  with_header-IsBounded :
      (r : Result Header) (p : Parser)
      → ((h : Header) → r ≡ ok h → h.length ≤ limit)
      → IsBounded limit p
      → IsBounded limit (with_header r p).0
  unfolding with_header
  with_header-IsBounded (ok h) p l b = read_payload-IsBounded h p (l h refl) b
  with_header-IsBounded (err e) p l b = b

  read_first-IsBounded : (p : Parser) → IsBounded limit p → IsBounded limit (read_first p).0
  unfolding read_first
  read_first-IsBounded p b = elim (Bool-cases (ltb (length p.buffer) header_size)) [
    | inl short ↦ rw short b
    | inr enough ↦ rw enough (
        with_header-IsBounded _ _
          (λ h e.
            let small = length-read_header p.max_payload_bytes (take header_size p.buffer) e in
            omega (arith, b.limit_kept))
          (record {
            limit_kept = b.limit_kept;
            held = omega (arith, b.held, length-drop header_size p.buffer);
            waiting = b.waiting;
          }))
  ]

  read_by-IsBounded :
      (o : Option Header) (p : Parser)
      → p.expected ≡ o
      → IsBounded limit p
      → IsBounded limit (read_by o p).0
  read_by-IsBounded none p e b = read_first-IsBounded p b
  read_by-IsBounded (some h) p e b = read_payload-IsBounded h p (rw e at b.waiting) b

  proceed-IsBounded :
      (rest : Parser → Parser × Result (List Packet)) (r : Parser × Step)
      → ((q : Parser) → IsBounded limit q → IsBounded limit (rest q).0)
      → IsBounded limit r.0
      → IsBounded limit (proceed rest r).0
  proceed-IsBounded rest (q, wait) ih b = b
  proceed-IsBounded rest (q, fail x) ih b = b
  proceed-IsBounded rest (q, emit k) ih b = after (rest q) (ih q b)
    where
      after :
          (r : Parser × Result (List Packet))
          → IsBounded limit r.0
          → IsBounded limit (prepend k r).0
      after (p, ok ks) h = h
      after (p, err x) h = h

  drain-IsBounded : (f : ℕ) (p : Parser) → IsBounded limit p → IsBounded limit (drain f p).0
  unfolding drain read_next
  drain-IsBounded zero p b = b
  drain-IsBounded (suc f) p b =
      proceed-IsBounded (drain f) (read_next p) (drain-IsBounded f)
        (read_by-IsBounded p.expected p refl b)

  -- Every call of `feed`, also one that raises, keeps the bounds: the buffer never holds more than
  -- the limit and a header, and a header that waits announces a payload within the limit.
  pub feed-IsBounded :
      (p : Parser) (chunk : List ℕ) → IsBounded limit p → IsBounded limit (feed p chunk).0
  unfolding feed drain_all
  feed-IsBounded p chunk b =
      elim (Bool-cases (ltb (p.max_payload_bytes + header_size) (length p.buffer + length chunk))) [
        | inl large ↦ rw large b
        | inr small ↦ rw small (
            drain-IsBounded (suc (size (extend p chunk))) (extend p chunk) (record {
              limit_kept = b.limit_kept;
              held = omega (
                arith,
                length-append p.buffer chunk,
                b.limit_kept,
                ltb_false→le (p.max_payload_bytes + header_size) (length p.buffer + length chunk)
                    small,
              );
              waiting = b.waiting;
            }))
      ]

  waits_short_by :
      (o : Option Header) (p : Parser)
      → p.expected ≡ o
      → Within limit o
      → header_size ≤ limit
      → read_by o p ≡ (p, wait)
      → length p.buffer < limit
  waits_short_by none p e b l w = omega (arith, read_first_waits p e w)
  waits_short_by (some h) p e b l w = omega (arith, (read_payload_waits h p p w).1)

  -- A parser that waits holds less than a header, or less than the payload that was announced.
  pub waits_short :
      (p : Parser)
      → IsBounded limit p
      → header_size ≤ limit
      → read_next p ≡ (p, wait)
      → length p.buffer < limit
  unfolding read_next
  waits_short p b l w = waits_short_by p.expected p refl b.waiting l w

pub IsBounded-new : (limit : ℕ) → IsBounded limit (new limit)
IsBounded-new limit = record { limit_kept = refl; held = omega arith; waiting = tt }
