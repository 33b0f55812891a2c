-- ===== src/Framer/Chunks.antt =====
-- `on_network_data` over a stream: however the network cuts it, each message is processed once, in order.
use gofixmsg.Prelude.{
  ℕ, zero, suc, ◌<◌, ◌≡◌, refl, sym, ap, ◌∙◌, inl, inr, false, Option, none, some, List, [], ◌∷◌,
  ◌++◌, arith, append_assoc, append_split, length, length-append, drop-at, take-at, find,
  starts_with,
}
use gofixmsg.Framer.{Bytes, wait, round, Processed, continue, loop, on_network_data}
use gofixmsg.Framer.Frames.{Frame, IsFrame, wire, round-wire}
use gofixmsg.Framer.Partial.{round-partial}

abbrev pub All : {A : Type 0} → (A → Type 0) → List A → Type 0
All P [] = Unit {0}
All P (x ∷ xs) = P x × All P xs

-- The stream of some messages.
abbrev pub wires : List Frame → Bytes
wires [] = []
wires (f ∷ fs) = wire f ++ wires fs

round-nil : round [] ≡ wait []
unfolding round find starts_with
round-nil = refl

abbrev pub next_read : {C : Type 0} → Option C → (C → Option C) → Option C
next_read none next = none
next_read (some c) next = next c

-- The bytes of some reads.
abbrev pub joined : List Bytes → Bytes
joined [] = []
joined (c ∷ cs) = c ++ joined cs

module _ {S : Type 0} (process : Bytes → S → Processed S) where
  -- The messages processed one after the other.
  abbrev pub process_all : List Frame → S → S
  process_all [] s = s
  process_all (f ∷ fs) s = process_all fs (process (wire f) s).state

  -- Processing neither raises nor clears the buffer, as on a session that stays up.
  abbrev pub IsQuiet : Type 0
  IsQuiet = (b : Bytes) (s : S) → ((process b s).raised ≡ false) × ((process b s).cleared ≡ false)

  -- The network's reads, handed over one after the other.
  unfoldable pub feed : List Bytes → Bytes × S → Option (Bytes × S)
  feed [] c = some c
  feed (chunk ∷ chunks) c = next_read (on_network_data process chunk c) (feed chunks)

  -- What is kept of an unfinished message is shorter than it.
  abbrev Short : Bytes → List Frame → Type 0
  Short p [] = p ≡ []
  Short p (f ∷ fs) = length p < length (wire f)

  -- What the loop has done with a buffer that begins a stream of messages.
  record Taken (fs : List Frame) (future : Bytes) (s : S) (r : Option (Bytes × S)) : Type 0 where
    left : List Frame
    kept : Bytes
    state : S
    result : r ≡ some (kept, state)
    rest : kept ++ future ≡ wires left
    same : process_all fs s ≡ process_all left state
    valid : All IsFrame left
    short : Short kept left

  loop-round :
      (fuel : ℕ) (b : Bytes) (s : S)
      → loop process (suc fuel) b s ≡ continue process (loop process fuel) s (round b)
  unfolding loop
  loop-round fuel b s = refl

  loop_wait :
      (fuel : ℕ) (b : Bytes) (s : S) → round b ≡ wait b → loop process (suc fuel) b s ≡ some (b, s)
  loop_wait fuel b s e = loop-round fuel b s ∙ rw e

  loop_deliver :
      (fuel : ℕ) (f : Frame) (k : Bytes) (s : S)
      → IsFrame f
      → IsQuiet
      → loop process (suc fuel) (wire f ++ k) s ≡ loop process fuel k (process (wire f) s).state
  loop_deliver fuel f k s h quiet =
      let n = length (wire f) in
      let q = quiet (wire f) s in
      loop-round fuel (wire f ++ k) s
      ∙ ap (continue process (loop process fuel) s) (round-wire f k h)
      ∙ rw (take-at n (wire f) k refl) (rw (drop-at n (wire f) k refl) (rw (q.0) (rw (q.1))))

  loop_take :
      (fuel : ℕ) (b : Bytes) (fs : List Frame) (future : Bytes) (s : S)
      → IsQuiet
      → All IsFrame fs
      → b ++ future ≡ wires fs
      → length b < fuel
      → Taken fs future s (loop process fuel b s)
  loop_take zero b fs future s quiet v e h = absurd (omega arith)
  loop_take (suc fuel) (x ∷ b) [] future s quiet v e h = cc
  loop_take (suc fuel) [] [] future s quiet v e h = record {
    left = [];
    kept = [];
    state = s;
    result = loop_wait fuel [] s round-nil;
    rest = e;
    same = refl;
    valid = v;
    short = refl;
  }
  loop_take (suc fuel) b (f ∷ fs) future s quiet v e h =
      elim (append_split (wire f) (wires fs) b future e) [
        | inl (c, k, cut) ↦ record {
          left = f ∷ fs;
          kept = b;
          state = s;
          result = loop_wait fuel b s (round-partial f b k c v.0 (sym cut));
          rest = e;
          same = refl;
          valid = v;
          short = omega (arith, ap length cut, length-append b (c ∷ k));
        }
        | inr (k, whole, more) ↦
            let s' = (process (wire f) s).state in
            let t =
              loop_take fuel k fs future s' quiet v.1 more
                (omega (arith, ap length whole, length-append (wire f) k)) in
            record {
              left = t.left;
              kept = t.kept;
              state = t.state;
              result =
                  ap (λ b'. loop process (suc fuel) b' s) whole
                  ∙ loop_deliver fuel f k s v.0 quiet
                  ∙ t.result;
              rest = t.rest;
              same = t.same;
              valid = t.valid;
              short = t.short;
            }
      ]

  nothing_kept : (fs : List Frame) → Short [] fs
  nothing_kept [] = refl
  nothing_kept (f ∷ fs) = omega arith

  feed_kept :
      (chunks : List Bytes) (fs : List Frame) (kept : Bytes) (s : S)
      → IsQuiet
      → All IsFrame fs
      → kept ++ joined chunks ≡ wires fs
      → Short kept fs
      → feed chunks (kept, s) ≡ some ([], process_all fs s)
  unfolding feed on_network_data
  feed_kept [] [] kept s quiet v e h = rw h
  feed_kept [] (f ∷ fs) kept s quiet v e h =
      absurd (omega (arith, ap length e, length-append kept [], length-append (wire f) (wires fs)))
  feed_kept (chunk ∷ chunks) fs kept s quiet v e h =
      let b = kept ++ chunk in
      let t =
        loop_take (suc (length b)) b fs (joined chunks) s quiet v
          (append_assoc kept chunk (joined chunks) ∙ e) (omega arith) in
      ap (λ r. next_read r (feed chunks)) t.result
      ∙ feed_kept chunks t.left t.kept t.state quiet t.valid t.rest t.short
      ∙ ap (λ x. some ([], x)) (sym t.same)

  -- Let the reads be any division of a stream of well-formed messages into pieces, also within a
  -- message and with empty pieces. Then the framer, started with an empty buffer, hands exactly these
  -- messages to `process_single_fix_message`, each once and in order, and ends with an empty buffer,
  -- provided that processing neither raises nor clears the buffer.
  pub feed_stream :
      (chunks : List Bytes) (fs : List Frame) (s : S)
      → IsQuiet
      → All IsFrame fs
      → joined chunks ≡ wires fs
      → feed chunks ([], s) ≡ some ([], process_all fs s)
  feed_stream chunks fs s quiet v e = feed_kept chunks fs [] s quiet v e (nothing_kept fs)
