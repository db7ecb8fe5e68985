-- ===== src/Wire/Rounds.antt =====
-- One round of the loop in `PacketParser.feed`: what it takes, and that it does not see the bytes
-- behind those that it needs.
use ignis_test.Prelude.{
  ℕ, ◌≤◌, ◌<◌, ◌≡◌, refl, List, arith, length, length-append, take, drop, length-drop, some, none,
  Option, take-append_le, drop-append_le, ltb, Bool-cases, inl, inr, ap, if◌then◌else◌,
  le→ltb_false, ltb_false→le, ◌∙◌, suc, Bool, true, false,
}
use ignis_test.Wire.Packet.{WireError, Packet, Header, header_size, Result, ok, err, read_header}
use ignis_test.Wire.Parser.{
  Parser, Step, wait, fail, emit, read_next, read_payload, read_first, read_by, with_header, size,
  extend, pending,
}

-- What a round gives when `chunk` stands behind the buffer: a round that would have waited goes on.
abbrev pub extended : List ℕ → Parser × Step → Parser × Step
extended chunk (q, wait) = read_next (extend q chunk)
extended chunk (q, fail x) = (extend q chunk, fail x)
extended chunk (q, emit k) = (extend q chunk, emit k)

pub read_first_long :
    (p : Parser)
    → header_size ≤ length p.buffer
    → read_first p
      ≡ with_header
          (read_header p.max_payload_bytes (take header_size p.buffer))
          (record p { buffer = drop header_size p.buffer })
unfolding read_first
read_first_long p h = rw (le→ltb_false (length p.buffer) header_size h)

module _ (chunk : List ℕ) where
  read_payload-extend :
      (h : Header) (p : Parser)
      → read_payload h (extend p chunk) ≡ extended chunk (read_payload h p)
  unfolding read_payload read_next
  read_payload-extend h p = ground (
    arith,
    length-append p.buffer chunk,
    take-append_le h.length p.buffer chunk,
    drop-append_le h.length p.buffer chunk,
  )

  with_header-extend :
      (r : Result Header) (p : Parser)
      → with_header r (extend p chunk) ≡ extended chunk (with_header r p)
  unfolding with_header
  with_header-extend (ok h) p = read_payload-extend h p
  with_header-extend (err e) p = refl

  read_first-extend :
      (p : Parser) → p.expected ≡ none → read_first (extend p chunk) ≡ extended chunk (read_first p)
  unfolding read_first
  read_first-extend p n = elim (Bool-cases (ltb (length p.buffer) header_size)) [
    | inl short ↦ rw short (unfold read_next in rw n (unfold read_first in refl))
    | inr enough ↦ rw enough (
        let long : header_size ≤ length p.buffer =
          ltb_false→le (length p.buffer) header_size enough in
        read_first_long (extend p chunk) (omega (arith, length-append p.buffer chunk))
        ∙ rw
            (
              take-append_le header_size p.buffer chunk long,
              drop-append_le header_size p.buffer chunk long,
            )
            (with_header-extend _ (record p { buffer = drop header_size p.buffer })))
  ]

  read_by-extend :
      (o : Option Header) (p : Parser)
      → p.expected ≡ o
      → read_by o (extend p chunk) ≡ extended chunk (read_by o p)
  read_by-extend none p e = read_first-extend p e
  read_by-extend (some h) p e = read_payload-extend h p

  -- Bytes behind those that a round takes change neither its result nor what it leaves in front.
  pub read_next-extend : (p : Parser) → read_next (extend p chunk) ≡ extended chunk (read_next p)
  unfolding read_next
  read_next-extend p = read_by-extend p.expected p refl

-- A round that finds a packet leaves a parser below `m`; one that waits leaves a parser that waits.
abbrev pub Below : ℕ → Parser × Step → Type 0
Below m (q, emit k) = size q < m
Below m (q, wait) = read_next q ≡ (q, wait)
Below m (q, fail x) = Unit

Below-mono : (m n : ℕ) (r : Parser × Step) → m ≤ n → Below m r → Below n r
Below-mono m n (q, emit k) l h = omega arith
Below-mono m n (q, wait) l h = h
Below-mono m n (q, fail x) l h = tt

checked_payload-Below :
    (q : Parser) (k : Packet) (x : WireError) (b : Bool)
    → Below (suc (size q)) (q, if b then emit k else fail x)
checked_payload-Below q k x true = omega arith
checked_payload-Below q k x false = tt

read_payload-Below : (h : Header) (p : Parser) → Below (suc (length p.buffer)) (read_payload h p)
unfolding read_payload
read_payload-Below h p = elim (Bool-cases (ltb (length p.buffer) h.length)) [
  | inl short ↦ rw short (unfold read_next read_payload in rw short refl)
  | inr enough ↦ rw enough (
      Below-mono _ _ _ (omega (arith, length-drop h.length p.buffer))
        (checked_payload-Below _ _ _ _))
]

with_header-Below :
    (r : Result Header) (p : Parser) → Below (suc (length p.buffer)) (with_header r p)
unfolding with_header
with_header-Below (ok h) p = read_payload-Below h p
with_header-Below (err e) p = tt

read_first-Below : (p : Parser) → p.expected ≡ none → Below (length p.buffer) (read_first p)
unfolding read_first
read_first-Below p n = elim (Bool-cases (ltb (length p.buffer) header_size)) [
  | inl short ↦ rw short (unfold read_next in rw n (unfold read_first in rw short refl))
  | inr enough ↦ rw enough (
      Below-mono _ _ _
        (omega (
          arith,
          length-drop header_size p.buffer,
          ltb_false→le (length p.buffer) header_size enough,
        ))
        (with_header-Below _ (record p { buffer = drop header_size p.buffer })))
]

read_by-Below : (o : Option Header) (p : Parser) → p.expected ≡ o → Below (size p) (read_by o p)
read_by-Below none p e = Below-mono _ _ _ (omega arith) (read_first-Below p e)
read_by-Below (some h) p e = Below-mono _ _ _ (omega (arith, ap pending e)) (read_payload-Below h p)

pub read_next-Below : (p : Parser) → Below (size p) (read_next p)
unfolding read_next
read_next-Below p = read_by-Below p.expected p refl
