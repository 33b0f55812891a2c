-- ===== src/Framer/Partial.antt =====
-- `on_network_data` waits, and keeps every byte, while a well-formed message is still incomplete.
use gofixmsg.Prelude.{
  ℕ, ◌+◌, ◌≤◌, ◌≡◌, refl, sym, ap, ◌∙◌, append-nil, true, none, [], ◌∷◌, ◌++◌, arith, inl, inr,
  append_split, length, length-append, find, find-avoids, find-cut, ge→ltb, avoids, avoids_prefix,
  avoids-isdigit,
}
use mathlib.Core.Path.{subst}
use gofixmsg.Framer.{
  Bytes, soh, begin_mark, length_mark, wait, length_tag, begun, round, value_found,
}
use gofixmsg.Framer.Frames.{
  Frame, IsFrame, opening, closing, wire, avoids-opening, round_begin, begun_tag, drop_tag,
  round_header, decide_short, header_size,
}

wait_begin : (p : Bytes) → find begin_mark p ≡ none → length p ≤ 8192 → round p ≡ wait p
unfolding round
wait_begin p e h = rw (e, ge→ltb 8192 (length p) h)

wait_tag :
    (q : Bytes)
    → find length_mark (begin_mark ++ q) ≡ none
    → length (begin_mark ++ q) ≤ 4096
    → round (begin_mark ++ q) ≡ wait (begin_mark ++ q)
unfolding begun
wait_tag q e h = round_begin q ∙ rw (e, ge→ltb 4096 (length (begin_mark ++ q)) h)

wait_value :
    (f : Frame) (q : Bytes)
    → IsFrame f
    → avoids soh q ≡ true
    → length (opening f ++ (length_mark ++ q)) ≤ 4096
    → round (opening f ++ (length_mark ++ q)) ≡ wait (opening f ++ (length_mark ++ q))
unfolding length_tag
wait_value f q h a n =
    let p = opening f ++ (length_mark ++ q) in
    round_begin (f.version ++ (length_mark ++ q))
    ∙ begun_tag (opening f) q (avoids-opening f h)
    ∙ ap (λ r. value_found p (length (opening f) + 3) (find (soh ∷ []) r)) (drop_tag (opening f) q)
    ∙ ap (value_found p (length (opening f) + 3)) (find-avoids soh [] q a)
    ∙ rw (ge→ltb 4096 (length p) n)

-- A beginning of the BeginString is not yet it.
begin_cut : (p r : Bytes) (d : ℕ) → begin_mark ≡ p ++ d ∷ r → find begin_mark p ≡ none
unfolding avoids
begin_cut p r d e = find-cut b'8' (b'=' ∷ b'F' ∷ b'I' ∷ b'X' ∷ []) [] p r d e refl refl

-- A beginning of the BodyLength tag, behind the BeginString, is not yet it.
mark_cut :
    (f : Frame) (p r : Bytes) (d : ℕ)
    → IsFrame f
    → length_mark ≡ p ++ d ∷ r
    → find length_mark (opening f ++ p) ≡ none
unfolding avoids
mark_cut f p r d h e = find-cut soh (b'9' ∷ b'=' ∷ []) (opening f) p r d e refl (avoids-opening f h)

version_cut :
    (f : Frame) (p r : Bytes) (d : ℕ)
    → IsFrame f
    → f.version ≡ p ++ d ∷ r
    → avoids soh (begin_mark ++ p) ≡ true
unfolding avoids
version_cut f p r d h e = avoids_prefix soh p (d ∷ r) (rw (← e) h.one_field)

-- Behind the header.
partial_body :
    (f : Frame) (q k : Bytes) (c : ℕ)
    → IsFrame f
    → q ++ c ∷ k ≡ f.body ++ f.checksum
    → let p = opening f ++ (length_mark ++ (f.digits ++ soh ∷ q)) in round p ≡ wait p
partial_body f q k c h e =
    let p = opening f ++ (length_mark ++ (f.digits ++ soh ∷ q)) in
    round_header f q h
    ∙ decide_short p (header_size f) (
        omega (
          arith,
          h.checksum_len,
          ap length e,
          length-append q (c ∷ k),
          length-append f.body f.checksum,
          length-append f.version (length_mark ++ (f.digits ++ soh ∷ q)),
          length-append f.digits (soh ∷ q),
        ))

digits-avoid : (f : Frame) → IsFrame f → avoids soh f.digits ≡ true
digits-avoid f h = avoids-isdigit soh f.digits refl h.number

-- With no more than the digits behind the BodyLength tag.
partial_value :
    (f : Frame) (q k : Bytes)
    → IsFrame f
    → q ++ k ≡ f.digits
    → let p = opening f ++ (length_mark ++ q) in round p ≡ wait p
partial_value f q k h e = wait_value f q h (avoids_prefix soh q k (rw e (digits-avoid f h))) (
    omega (
      arith,
      h.short_header,
      ap length e,
      length-append q k,
      length-append f.version (length_mark ++ q),
    ))

-- Behind the digits.
partial_soh :
    (f : Frame) (q k : Bytes) (c : ℕ)
    → IsFrame f
    → q ++ c ∷ k ≡ soh ∷ (f.body ++ f.checksum)
    → let p = opening f ++ (length_mark ++ (f.digits ++ q)) in round p ≡ wait p
partial_soh f [] k c h e =
    partial_value f (f.digits ++ []) [] h (append-nil (f.digits ++ []) ∙ append-nil f.digits)
partial_soh f (x ∷ q) k c h e =
    let x-eq : soh ≡ x = cc in
    subst (λ y. let p = opening f ++ (length_mark ++ (f.digits ++ y ∷ q)) in round p ≡ wait p) x-eq
      (partial_body f q k c h (cc))

partial_digits :
    (f : Frame) (q k : Bytes) (c : ℕ)
    → IsFrame f
    → q ++ c ∷ k ≡ closing f
    → let p = opening f ++ (length_mark ++ q) in round p ≡ wait p
partial_digits f q k c h e =
    elim (append_split f.digits (soh ∷ (f.body ++ f.checksum)) q (c ∷ k) e) [
      | inl (d, r, short) ↦ partial_value f q (d ∷ r) h (sym short)
      | inr (r, long, rest) ↦ rw long (partial_soh f r k c h rest)
    ]

-- In the BodyLength tag, or behind it.
partial_mark :
    (f : Frame) (q k : Bytes) (c : ℕ)
    → IsFrame f
    → q ++ c ∷ k ≡ length_mark ++ closing f
    → let p = opening f ++ q in round p ≡ wait p
partial_mark f q k c h e = elim (append_split length_mark (closing f) q (c ∷ k) e) [
  | inl (d, r, short) ↦ wait_tag (f.version ++ q) (mark_cut f q r d h short) (
      omega (
        arith,
        h.short_header,
        ap length short,
        length-append q (d ∷ r),
        length-append f.version q,
      ))
  | inr (r, long, rest) ↦ rw long (partial_digits f r k c h rest)
]

-- In the BeginString's value, or behind it.
partial_version :
    (f : Frame) (q k : Bytes) (c : ℕ)
    → IsFrame f
    → q ++ c ∷ k ≡ f.version ++ (length_mark ++ closing f)
    → let p = begin_mark ++ q in round p ≡ wait p
partial_version f q k c h e = elim (append_split f.version (length_mark ++ closing f) q (c ∷ k) e) [
  | inl (d, r, short) ↦
      wait_tag q
        (find-avoids soh (b'9' ∷ b'=' ∷ []) (begin_mark ++ q) (version_cut f q r d h short))
        (omega (arith, h.short_header, ap length short, length-append q (d ∷ r)))
  | inr (r, long, rest) ↦ rw long (partial_mark f r k c h rest)
]

-- As long as some byte of a message is missing, the round waits and keeps what has come.
pub round-partial :
    (f : Frame) (p k : Bytes) (c : ℕ) → IsFrame f → p ++ c ∷ k ≡ wire f → round p ≡ wait p
round-partial f p k c h e =
    elim (append_split begin_mark (f.version ++ (length_mark ++ closing f)) p (c ∷ k) e) [
      | inl (d, r, short) ↦
          wait_begin p (begin_cut p r d short)
            (omega (arith, ap length short, length-append p (d ∷ r)))
      | inr (r, long, rest) ↦ rw long (partial_version f r k c h rest)
    ]
