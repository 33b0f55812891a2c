-- ===== src/Framer/Fuel.antt =====
-- The loop of `on_network_data` ends: every round that goes on leaves a shorter buffer.
use gofixmsg.Prelude.{
  ℕ, zero, suc, ◌+◌, ◌≤◌, ◌<◌, ◌≡◌, ◌≢◌, Bool, true, false, Option, none, some, [], ◌∷◌, ◌++◌,
  Bool-cases, Option-cases, inl, inr, arith, length, drop, length-drop, find, starts_with, ltb,
  ltb→ge, isdigit, take, int, ends_in,
}
use mathlib.Core.Option
use gofixmsg.Framer.{
  Bytes, soh, begin_mark, length_mark, resync_at, value_found, tag_found, begin_found, Round, wait,
  skip, deliver, resync, complete, body_length, length_tag, begun, round, Processed, loop, handled,
  continue, on_network_data, checksum_field_len,
}

-- What a round may do to a buffer of `n` bytes.
abbrev Shrinks : ℕ → Round → Type 0
Shrinks n (wait b) = length b ≤ n
Shrinks n (skip b) = length b < n
Shrinks n (deliver b size) = (length b ≤ n) × (0 < size) × (size ≤ length b)

Shrinks-le : {m n : ℕ} (r : Round) → m ≤ n → Shrinks m r → Shrinks n r
Shrinks-le (wait b) h s = omega arith
Shrinks-le (skip b) h s = omega arith
Shrinks-le (deliver b size) h s = omega arith

resync_at-lt :
    (b : Bytes) (o : Option ℕ)
    → 0 < length b
    → length (resync_at b (Option.map (λ i. 1 + i) o)) < length b
resync_at-lt b none h = h
resync_at-lt b (some i) h = omega (arith, length-drop (1 + i) b)

resync-lt : (b : Bytes) → 0 < length b → length (resync b) < length b
resync-lt b h = resync_at-lt b (find begin_mark (drop 1 b)) h

resync-le : (b : Bytes) → length (resync b) ≤ length b
unfolding find
resync-le [] = omega arith
resync-le (x ∷ b) = omega (arith, resync-lt (x ∷ b) (omega arith))

complete-Shrinks :
    (b : Bytes) (size : ℕ) → 0 < size → size ≤ length b → Shrinks (length b) (complete b size)
unfolding complete
complete-Shrinks b size p q = elim (Bool-cases (ends_in soh (take size b))) [
  | inl e ↦ rw e (omega arith)
  | inr e ↦ rw e (resync-lt b (omega arith))
]

body_length-Shrinks :
    (b : Bytes) (value_start value_end : ℕ)
    → 0 < value_start
    → 0 < length b
    → Shrinks (length b) (body_length b value_start value_end)
unfolding body_length
body_length-Shrinks b vs ve p q =
    let value = take ve (drop vs b) in
    let size = vs + ve + 1 + int value + checksum_field_len in
    elim (Bool-cases (isdigit value)) [
      | inr bad ↦ rw bad (omega (arith, length-drop (vs + ve) b))
      | inl good ↦ rw good (elim (Bool-cases (ltb (length b) size)) [
        | inl short ↦ rw short (omega arith)
        | inr full ↦ rw full (complete-Shrinks b size (omega arith) (ltb→ge _ _ full))
      ])
    ]

value_found-Shrinks :
    (b : Bytes) (value_start : ℕ) (o : Option ℕ)
    → 0 < value_start
    → 0 < length b
    → Shrinks (length b) (value_found b value_start o)
value_found-Shrinks b vs none p q = elim (Bool-cases (ltb 4096 (length b))) [
  | inl e ↦ rw e (omega arith)
  | inr e ↦ rw e (omega arith)
]
value_found-Shrinks b vs (some ve) p q = body_length-Shrinks b vs ve p q

length_tag-Shrinks : (b : Bytes) (tag : ℕ) → 0 < length b → Shrinks (length b) (length_tag b tag)
unfolding length_tag
length_tag-Shrinks b tag h =
    value_found-Shrinks b (tag + 3) (find (soh ∷ []) (drop (tag + 3) b)) (omega arith) h

tag_found-Shrinks : (b : Bytes) (o : Option ℕ) → 0 < length b → Shrinks (length b) (tag_found b o)
tag_found-Shrinks b none h = elim (Bool-cases (ltb 4096 (length b))) [
  | inl e ↦ rw e (resync-le b)
  | inr e ↦ rw e (omega arith)
]
tag_found-Shrinks b (some tag) h = length_tag-Shrinks b tag h

begun-Shrinks : (b : Bytes) → Shrinks (length b) (begun b)
unfolding begun
begun-Shrinks [] = unfold find starts_with in omega arith
begun-Shrinks (x ∷ b) = tag_found-Shrinks (x ∷ b) (find length_mark (x ∷ b)) (omega arith)

begin_found-Shrinks : (b : Bytes) (o : Option ℕ) → Shrinks (length b) (begin_found b o)
begin_found-Shrinks b none = elim (Bool-cases (ltb 8192 (length b))) [
  | inl e ↦ rw e (omega arith)
  | inr e ↦ rw e (omega arith)
]
begin_found-Shrinks b (some i) =
    Shrinks-le (begun (drop i b)) (omega (arith, length-drop i b)) (begun-Shrinks (drop i b))

round-Shrinks : (b : Bytes) → Shrinks (length b) (round b)
unfolding round
round-Shrinks b = begin_found-Shrinks b (find begin_mark b)

handled_ends :
    {S : Type 0} (f : Bytes → S → Option (Bytes × S)) (rest : Bytes) (s : S) (cleared raised : Bool)
    → f [] s ≢ none
    → f rest s ≢ none
    → handled f rest s cleared raised ≢ none
handled_ends f rest s cleared true p q = λ e. cc
handled_ends f rest s true false p q = p
handled_ends f rest s false false p q = q

module _ {S : Type 0} (process : Bytes → S → Processed S) where
  -- The recursive calls of a round are on shorter buffers.
  continue_ends :
      (m : ℕ) (f : Bytes → S → Option (Bytes × S)) (s : S) (r : Round)
      → Shrinks m r
      → ((b : Bytes) (t : S) → length b < m → f b t ≢ none)
      → continue process f s r ≢ none
  continue_ends m f s (wait b) h e = λ p. cc
  continue_ends m f s (skip b) h e = e b s h
  continue_ends m f s (deliver b size) h e =
      let done = process (take size b) s in
      handled_ends f (drop size b) done.state done.cleared done.raised
        (e [] done.state (omega arith))
        (e (drop size b) done.state (omega (arith, length-drop size b)))

  -- One call on a chunk of data ends, whatever the bytes are and whatever processing does: with
  -- more fuel than bytes the loop does not run out.
  loop_ends : (fuel : ℕ) (b : Bytes) (s : S) → length b < fuel → loop process fuel b s ≢ none
  unfolding loop
  loop_ends zero b s h = absurd (omega arith)
  loop_ends (suc fuel) b s h =
      continue_ends (length b) (loop process fuel) s (round b) (round-Shrinks b)
        (λ c t k. loop_ends fuel c t (omega arith))

  -- `on_network_data` returns for every chunk, buffer and way of processing.
  pub on_network_data_returns :
      (chunk : Bytes) (c : Bytes × S) → (r : Bytes × S) × (on_network_data process chunk c ≡ some r)
  unfolding on_network_data
  on_network_data_returns chunk c =
      elim (Option-cases (loop process (suc (length (c.0 ++ chunk))) (c.0 ++ chunk) c.1)) [
        | inl e ↦
            absurd (loop_ends (suc (length (c.0 ++ chunk))) (c.0 ++ chunk) c.1 (omega arith) e)
        | inr x ↦ x
      ]
