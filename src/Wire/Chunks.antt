-- ===== src/Wire/Chunks.antt =====
-- What a connection is given does not depend on where the stream is cut into chunks.
use ignis_test.Prelude.{
  ℕ, ◌+◌, ◌≤◌, ◌≡◌, refl, ap, sym, ◌∙◌, none, List, [], ◌∷◌, ◌++◌, arith, length, append_assoc,
  append-nil,
}
use ignis_test.Wire.Packet.{Packet, ok, err, header_size}
use ignis_test.Wire.Parser.{
  Parser, wait, read_next, drain_all, extend, feed, Delivery, feed_all, deliver,
}
use ignis_test.Wire.Stream.{Outcome, drain_all-unroll, drain_all-Settled, drain_all-extend}

-- The bytes of the chunks, one after the other.
abbrev pub concat : List (List ℕ) → List ℕ
concat [] = []
concat (chunk ∷ chunks) = chunk ++ concat chunks

extend-nil : (p : Parser) → extend p [] ≡ p
extend-nil p = ap (λ b. record p { buffer = b }) (append-nil p.buffer)

pub extend-append : (p : Parser) (a b : List ℕ) → extend p (a ++ b) ≡ extend (extend p a) b
extend-append p a b = ap (λ c. record p { buffer = c }) (sym (append_assoc p.buffer a b))

pub drain_all-settled : (p : Parser) → read_next p ≡ (p, wait) → drain_all p ≡ (p, ok [])
drain_all-settled p h = drain_all-unroll p ∙ rw h

-- A call of `feed` that returns has run the loop on the whole buffer.
pub feed-ok :
    (p q : Parser) (chunk : List ℕ) {ks : List Packet}
    → feed p chunk ≡ (q, ok ks)
    → drain_all (extend p chunk) ≡ (q, ok ks)
unfolding feed
feed-ok p q chunk h = ground arith

-- Within the limit a call of `feed` is the loop on the whole buffer.
pub feed_fits :
    (p : Parser) (chunk : List ℕ)
    → length p.buffer + length chunk ≤ p.max_payload_bytes + header_size
    → feed p chunk ≡ drain_all (extend p chunk)
unfolding feed
feed_fits p chunk h = ground arith

abbrev outcome : Delivery → Outcome
outcome d = (d.parser, ok d.packets)

-- From a parser that waits, calls of `feed` that all return give the packets that the loop would
-- find in the whole stream at once, and leave the same parser.
pub feed_all-eq-drain_all :
    (chunks : List (List ℕ)) (p : Parser)
    → read_next p ≡ (p, wait)
    → (feed_all chunks p).stopped ≡ none
    → drain_all (extend p (concat chunks))
      ≡ ((feed_all chunks p).parser, ok (feed_all chunks p).packets)
unfolding feed_all
feed_all-eq-drain_all [] p w s = rw (extend-nil p) (drain_all-settled p w)
feed_all-eq-drain_all (chunk ∷ chunks) p w s =
    after (feed_all-eq-drain_all chunks) (feed p chunk) refl s
  where
    after :
        ((q : Parser)
          → read_next q ≡ (q, wait)
          → (feed_all chunks q).stopped ≡ none
          → drain_all (extend q (concat chunks)) ≡ outcome (feed_all chunks q))
        → (r : Outcome) → feed p chunk ≡ r
        → (deliver (feed_all chunks) r).stopped ≡ none
        → drain_all (extend p (chunk ++ concat chunks)) ≡ outcome (deliver (feed_all chunks) r)
    after ih (q, err x) e n = cc
    after ih (q, ok ks) e n =
        let whole : drain_all (extend p chunk) ≡ (q, ok ks) = feed-ok p q chunk e in
        let settled : read_next q ≡ (q, wait) = rw whole at (drain_all-Settled (extend p chunk)) in
        rw (
          extend-append p chunk (concat chunks),
          drain_all-extend (extend p chunk) (concat chunks),
          whole,
          ih q settled n,
        )
