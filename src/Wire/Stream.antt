-- ===== src/Wire/Stream.antt =====
-- The loop of `PacketParser.feed` ends, and what a connection is given does not depend on where the
-- stream is cut into chunks.
use ignis_test.Prelude.{ℕ, zero, suc, ◌<◌, ◌≡◌, refl, ap, sym, ◌∙◌, List, [], ◌∷◌, ◌++◌, arith}
use ignis_test.Wire.Packet.{Packet, Result, ok, err}
use ignis_test.Wire.Parser.{
  Parser, Step, wait, fail, emit, read_next, drain, drain_all, proceed, prepend, size, extend,
}
use ignis_test.Wire.Rounds.{extended, read_next-extend, Below, read_next-Below}

abbrev pub Outcome : Type 0
Outcome = Parser × Result (List Packet)

proceed_cong :
    (rest rest' : Parser → Outcome) (m : ℕ) (r : Parser × Step)
    → Below m r
    → ((q : Parser) → size q < m → rest q ≡ rest' q)
    → proceed rest r ≡ proceed rest' r
proceed_cong rest rest' m (q, wait) b same = refl
proceed_cong rest rest' m (q, fail x) b same = refl
proceed_cong rest rest' m (q, emit k) b same = ap (prepend k) (same q b)

-- With more fuel than the parser's size the loop gives one result.
drain_fuel : (f g : ℕ) (p : Parser) → size p < f → size p < g → drain f p ≡ drain g p
unfolding drain
drain_fuel zero g p hf hg = absurd (omega arith)
drain_fuel (suc f) zero p hf hg = absurd (omega arith)
drain_fuel (suc f) (suc g) p hf hg =
    proceed_cong (drain f) (drain g) (size p) (read_next p) (read_next-Below p)
      (λ q h. drain_fuel f g q (omega arith) (omega arith))

pub drain_all-unroll : (p : Parser) → drain_all p ≡ proceed drain_all (read_next p)
unfolding drain_all
drain_all-unroll p =
    proceed_cong (drain (size p)) drain_all (size p) (read_next p) (read_next-Below p)
      (λ q h. drain_fuel (size p) (suc (size q)) q h (omega arith))

-- A loop that returns leaves a parser that waits; it never runs out of fuel.
abbrev pub Settled : Outcome → Type 0
Settled (q, ok ks) = read_next q ≡ (q, wait)
Settled (q, err x) = Unit

Settled-prepend : (k : Packet) (r : Outcome) → Settled r → Settled (prepend k r)
Settled-prepend k (q, ok ks) s = s
Settled-prepend k (q, err x) s = tt

drain-Settled : (f : ℕ) (p : Parser) → Settled (drain f p)
unfolding drain
drain-Settled zero p = tt
drain-Settled (suc f) p = after (drain-Settled f) (read_next p) (read_next-Below p)
  where
    after :
        ((q : Parser) → Settled (drain f q))
        → (r : Parser × Step) → Below (size p) r
        → Settled (proceed (drain f) r)
    after ih (q, wait) b = b
    after ih (q, fail x) b = tt
    after ih (q, emit k) b = Settled-prepend k (drain f q) (ih q)

pub drain_all-Settled : (p : Parser) → Settled (drain_all p)
unfolding drain_all
drain_all-Settled p = drain-Settled (suc (size p)) p

-- What the loop gives when bytes stand behind those it was given.
abbrev pub glue : List Packet → Outcome → Outcome
glue ks (q, ok more) = (q, ok (ks ++ more))
glue ks (q, err x) = (q, err x)

glue-nil : (r : Outcome) → glue [] r ≡ r
glue-nil (q, ok ks) = refl
glue-nil (q, err x) = refl

abbrev pub resume : List ℕ → Outcome → Outcome
resume chunk (q, ok ks) = glue ks (drain_all (extend q chunk))
resume chunk (q, err x) = (extend q chunk, err x)

glue-prepend :
    (k : Packet) (ks : List Packet) (r : Outcome) → prepend k (glue ks r) ≡ glue (k ∷ ks) r
glue-prepend k ks (q, ok more) = refl
glue-prepend k ks (q, err x) = refl

resume-prepend :
    (chunk : List ℕ) (k : Packet) (r : Outcome)
    → prepend k (resume chunk r) ≡ resume chunk (prepend k r)
resume-prepend chunk k (q, ok ks) = glue-prepend k ks (drain_all (extend q chunk))
resume-prepend chunk k (q, err x) = refl

drain-resume :
    (f : ℕ) (p : Parser) (chunk : List ℕ)
    → size p < f
    → drain_all (extend p chunk) ≡ resume chunk (drain f p)
unfolding drain
drain-resume zero p chunk h = absurd (omega arith)
drain-resume (suc f) p chunk h =
    drain_all-unroll (extend p chunk)
    ∙ ap (proceed drain_all) (read_next-extend chunk p)
    ∙ after (drain-resume f) (read_next p) (read_next-Below p)
  where
    after :
        ((q : Parser) (c : List ℕ) → size q < f → drain_all (extend q c) ≡ resume c (drain f q))
        → (r : Parser × Step) → Below (size p) r
        → proceed drain_all (extended chunk r) ≡ resume chunk (proceed (drain f) r)
    after ih (q, wait) b =
        sym (drain_all-unroll (extend q chunk)) ∙ sym (glue-nil (drain_all (extend q chunk)))
    after ih (q, fail x) b = refl
    after ih (q, emit k) b =
        ap (prepend k) (ih q chunk (omega arith)) ∙ resume-prepend chunk k (drain f q)

pub drain_all-extend :
    (p : Parser) (chunk : List ℕ) → drain_all (extend p chunk) ≡ resume chunk (drain_all p)
drain_all-extend p chunk = unfold drain_all in drain-resume (suc (size p)) p chunk (omega arith)
