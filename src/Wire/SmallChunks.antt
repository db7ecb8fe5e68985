-- ===== src/Wire/SmallChunks.antt =====
-- Chunks no longer than a header are never refused, so a valid stream cut into such chunks is
-- delivered whole; one long chunk may be refused though every packet in it is valid.
use ignis_test.Prelude.{
  ℕ, ◌+◌, ◌≤◌, ◌<◌, ◌≡◌, refl, sym, ◌∙◌, none, some, List, [], ◌∷◌, arith, length, All, lt→ltb, map,
}
use ignis_test.Wire.Packet.{Packet, ok, err, header_size, buffer_exceeded}
use ignis_test.Wire.Parser.{
  Parser, new, wait, read_next, drain_all, extend, feed, feed_all, deliver,
}
use ignis_test.Wire.Stream.{Outcome, Settled, glue, resume, drain_all-Settled, drain_all-extend}
use ignis_test.Wire.Chunks.{concat, feed_fits, extend-append}
use ignis_test.Wire.RoundTrip.{
  stream, encoded, feed-encoded, IsSendable, feed_all-stream, drain_all-stream, read_next-new,
}
use ignis_test.Wire.Bounds.{IsBounded, IsBounded-new, feed-IsBounded, waits_short}

glue-ok :
    (ks : List Packet) (r : Outcome) {q : Parser} {all : List Packet}
    → glue ks r ≡ (q, ok all)
    → (more : List Packet) × (r ≡ (q, ok more))
glue-ok ks (p, ok more) e = (more, ground arith)
glue-ok ks (p, err x) e = absurd (cc)

pub resume-ok :
    (rest : List ℕ) (p q : Parser) (ks : List Packet) {all : List Packet}
    → resume rest (p, ok ks) ≡ (q, ok all)
    → (more : List Packet) × (drain_all (extend p rest) ≡ (q, ok more))
resume-ok rest p q ks e = glue-ok ks (drain_all (extend p rest)) e

module _ (limit : ℕ) (large : header_size ≤ limit) where
  abbrev GoesOn : List (List ℕ) → Type 0
  GoesOn chunks =
      (p q : Parser) (ks : List Packet)
      → IsBounded limit p
      → read_next p ≡ (p, wait)
      → All (λ c. length c ≤ header_size) chunks
      → drain_all (extend p (concat chunks)) ≡ (q, ok ks)
      → (feed_all chunks p).stopped ≡ none

  deliver-GoesOn :
      (chunks : List (List ℕ)) (q : Parser) (ks : List Packet) (r : Outcome)
      → GoesOn chunks
      → IsBounded limit r.0
      → Settled r
      → All (λ c. length c ≤ header_size) chunks
      → resume (concat chunks) r ≡ (q, ok ks)
      → (deliver (feed_all chunks) r).stopped ≡ none
  deliver-GoesOn chunks q ks (p, ok found) ih b w small e =
      let (more, rest) = resume-ok (concat chunks) p q found e in ih p q more b w small rest
  deliver-GoesOn chunks q ks (p, err x) ih b w small e = absurd (cc)

  -- Where the loop would run through the whole stream, no small chunk of it stops the parser.
  small_chunks_go_on : (chunks : List (List ℕ)) → GoesOn chunks
  unfolding feed_all
  small_chunks_go_on [] p q ks b w small e = refl
  small_chunks_go_on (chunk ∷ chunks) p q ks b w small e =
      let fitting : feed p chunk ≡ drain_all (extend p chunk) =
        feed_fits p chunk (omega (arith, waits_short limit p b large w, b.limit_kept)) in
      rw fitting (
        deliver-GoesOn chunks q ks (drain_all (extend p chunk)) (small_chunks_go_on chunks)
          (rw fitting at (feed-IsBounded limit p chunk b)) (drain_all-Settled (extend p chunk))
          small.1
          (sym (drain_all-extend (extend p chunk) (concat chunks))
            ∙ rw (extend-append p chunk (concat chunks)) at e))

-- With a limit of a header at least, a stream of encoded packets that are each within the limit,
-- cut into chunks of at most a header's length, is delivered whole and in order, without an error.
pub feed_all-small_chunks :
    (limit : ℕ) (ks : List Packet) (chunks : List (List ℕ))
    → header_size ≤ limit
    → All (IsSendable limit) ks
    → All (λ c. length c ≤ header_size) chunks
    → concat chunks ≡ stream ks
    → feed_all chunks (new limit) ≡ record { parser = new limit; packets = ks; stopped = none }
feed_all-small_chunks limit ks chunks large sendable small cut =
    feed_all-stream limit ks chunks sendable cut (
      small_chunks_go_on limit large chunks (new limit) (new limit) ks (IsBounded-new limit)
        (read_next-new limit) small (rw cut (drain_all-stream limit ks sendable)))

feed_all_one_each :
    (limit : ℕ) (ks : List Packet)
    → All (IsSendable limit) ks
    → feed_all (map encoded ks) (new limit)
      ≡ record { parser = new limit; packets = ks; stopped = none }
unfolding feed_all
feed_all_one_each limit [] h = refl
feed_all_one_each limit (k ∷ ks) h =
    rw (feed-encoded limit k h.0.0 h.0.1, feed_all_one_each limit ks h.1)

-- Packets that are each within the limit are all delivered when each comes in a chunk of its own;
-- where their encodings together exceed the limit and a header, the same bytes in one chunk are
-- refused and nothing is delivered.
pub coalesced_refused :
    (limit : ℕ) (ks : List Packet)
    → All (IsSendable limit) ks
    → limit + header_size < length (stream ks)
    → (feed_all (map encoded ks) (new limit)
        ≡ record { parser = new limit; packets = ks; stopped = none })
      × (feed_all (stream ks ∷ []) (new limit)
          ≡ record { parser = new limit; packets = []; stopped = some buffer_exceeded })
unfolding feed_all feed
coalesced_refused limit ks sendable h = (
  feed_all_one_each limit ks sendable,
  rw (lt→ltb (limit + header_size) (0 + length (stream ks)) (omega arith)),
)
