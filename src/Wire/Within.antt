-- ===== src/Wire/Within.antt =====
-- However a stream that fits into the buffer is cut, no call of `feed` refuses a part of it.
use ignis_test.Prelude.{
  ℕ, zero, suc, ◌+◌, ◌≤◌, ◌≡◌, refl, sym, ◌∙◌, none, some, Option, List, [], ◌∷◌, ◌++◌, arith,
  length, length-append, length-drop, drop, ltb, Bool-cases, inl, inr, All,
}
use ignis_test.Wire.Packet.{Packet, Header, Result, ok, err, header_size}
use ignis_test.Wire.Parser.{
  Parser, new, Step, wait, fail, emit, read_payload, with_header, read_first, read_by, read_next,
  prepend, proceed, drain, drain_all, size, extend, feed, feed_all, deliver,
}
use ignis_test.Wire.Stream.{Outcome, resume, drain_all-extend}
use ignis_test.Wire.Chunks.{concat, feed_fits, extend-append}
use ignis_test.Wire.RoundTrip.{stream, IsSendable, feed_all-stream, drain_all-stream}
use ignis_test.Wire.SmallChunks.{resume-ok}

-- A parser that holds no more bytes than `p`, under the same limit.
record IsWithin (n m : ℕ) (q : Parser) : Type 0 where
  short : length q.buffer ≤ n
  same : q.max_payload_bytes ≡ m

IsWithin-read_payload :
    (h : Header) (p : Parser) → IsWithin (length p.buffer) p.max_payload_bytes (read_payload h p).0
unfolding read_payload
IsWithin-read_payload h p = ground (arith, length-drop h.length p.buffer)

IsWithin-mono : (n k m : ℕ) (q : Parser) → n ≤ k → IsWithin n m q → IsWithin k m q
IsWithin-mono n k m q l w = omega arith

IsWithin-trans :
    (n m : ℕ) (q r : Parser)
    → IsWithin n m q
    → IsWithin (length q.buffer) q.max_payload_bytes r
    → IsWithin n m r
IsWithin-trans n m q r a b = omega arith

IsWithin-with_header :
    (r : Result Header) (p : Parser)
    → IsWithin (length p.buffer) p.max_payload_bytes (with_header r p).0
unfolding with_header
IsWithin-with_header (ok h) p = IsWithin-read_payload h p
IsWithin-with_header (err e) p = omega arith

IsWithin-read_first : (p : Parser) → IsWithin (length p.buffer) p.max_payload_bytes (read_first p).0
unfolding read_first
IsWithin-read_first p = elim (Bool-cases (ltb (length p.buffer) header_size)) [
  | inl short ↦ rw short (omega arith)
  | inr enough ↦ rw enough (
      IsWithin-mono (length (drop header_size p.buffer)) (length p.buffer) p.max_payload_bytes _
        (omega (arith, length-drop header_size p.buffer))
        (IsWithin-with_header _ (record p { buffer = drop header_size p.buffer })))
]

IsWithin-read_next : (p : Parser) → IsWithin (length p.buffer) p.max_payload_bytes (read_next p).0
unfolding read_next
IsWithin-read_next p = by_header p.expected
  where
    by_header : (o : Option Header) → IsWithin (length p.buffer) p.max_payload_bytes (read_by o p).0
    by_header none = IsWithin-read_first p
    by_header (some h) = IsWithin-read_payload h p

IsWithin-prepend :
    (k : Packet) (n m : ℕ) (r : Outcome) → IsWithin n m r.0 → IsWithin n m (prepend k r).0
IsWithin-prepend k n m (q, ok ks) w = w
IsWithin-prepend k n m (q, err e) w = w

IsWithin-drain :
    (fuel : ℕ) (p : Parser) → IsWithin (length p.buffer) p.max_payload_bytes (drain fuel p).0
unfolding drain
IsWithin-drain zero p = omega arith
IsWithin-drain (suc fuel) p = by_step (IsWithin-drain fuel) (read_next p) (IsWithin-read_next p)
  where
    by_step :
        ((q : Parser) → IsWithin (length q.buffer) q.max_payload_bytes (drain fuel q).0)
        → (r : Parser × Step) → IsWithin (length p.buffer) p.max_payload_bytes r.0
        → IsWithin (length p.buffer) p.max_payload_bytes (proceed (drain fuel) r).0
    by_step ih (q, wait) w = w
    by_step ih (q, fail e) w = w
    by_step ih (q, emit k) w =
        IsWithin-prepend k _ _ (drain fuel q) (IsWithin-trans _ _ q (drain fuel q).0 w (ih q))

IsWithin-drain_all : (p : Parser) → IsWithin (length p.buffer) p.max_payload_bytes (drain_all p).0
unfolding drain_all
IsWithin-drain_all p = IsWithin-drain (suc (size p)) p

abbrev GoesOn : List (List ℕ) → Type 0
GoesOn chunks =
    (p q : Parser) (ks : List Packet)
    → length p.buffer + length (concat chunks) ≤ p.max_payload_bytes + header_size
    → drain_all (extend p (concat chunks)) ≡ (q, ok ks)
    → (feed_all chunks p).stopped ≡ none

deliver-GoesOn :
    (chunks : List (List ℕ)) (q : Parser) (ks : List Packet) (r : Outcome)
    → GoesOn chunks
    → length r.0.buffer + length (concat chunks) ≤ r.0.max_payload_bytes + header_size
    → resume (concat chunks) r ≡ (q, ok ks)
    → (deliver (feed_all chunks) r).stopped ≡ none
deliver-GoesOn chunks q ks (p, ok found) ih l e =
    let (more, rest) = resume-ok (concat chunks) p q found e in ih p q more l rest
deliver-GoesOn chunks q ks (p, err x) ih l e = absurd (cc)

goes_on : (chunks : List (List ℕ)) → GoesOn chunks
unfolding feed_all
goes_on [] p q ks l e = refl
goes_on (chunk ∷ chunks) p q ks l e =
    let fitting : feed p chunk ≡ drain_all (extend p chunk) =
      feed_fits p chunk (omega (arith, length-append chunk (concat chunks))) in
    let left : IsWithin (length (p.buffer ++ chunk)) p.max_payload_bytes
        (drain_all (extend p chunk)).0 =
      IsWithin-drain_all (extend p chunk) in
    rw fitting (
      deliver-GoesOn chunks q ks (drain_all (extend p chunk)) (goes_on chunks)
        (omega (
          arith,
          left.short,
          left.same,
          length-append p.buffer chunk,
          length-append chunk (concat chunks),
        ))
        (sym (drain_all-extend (extend p chunk) (concat chunks))
          ∙ rw (extend-append p chunk (concat chunks)) at e))

-- Packets that are each within the limit, and whose encodings together fit into the buffer, are
-- delivered whole, in order and without an error, however the bytes are cut into chunks.
pub feed_all-within :
    (limit : ℕ) (ks : List Packet) (chunks : List (List ℕ))
    → All (IsSendable limit) ks
    → length (stream ks) ≤ limit + header_size
    → concat chunks ≡ stream ks
    → feed_all chunks (new limit) ≡ record { parser = new limit; packets = ks; stopped = none }
feed_all-within limit ks chunks sendable short cut = feed_all-stream limit ks chunks sendable cut (
    goes_on chunks (new limit) (new limit) ks (rw cut (omega (arith, short)))
      (rw cut (drain_all-stream limit ks sendable)))
