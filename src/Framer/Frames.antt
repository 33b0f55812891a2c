-- ===== src/Framer/Frames.antt =====
-- How `on_network_data` reads a well-formed message.
use gofixmsg.Prelude.{
  ℕ, ◌+◌, ◌≤◌, ◌<◌, ◌≡◌, refl, sym, ap, ◌∙◌, true, [], ◌∷◌, ◌++◌, arith, append_assoc, length, drop,
  length-append, drop-at, take-at, find-append, ltb, ge→ltb, lt→ltb, avoids, avoids-isdigit,
  isdigit, int, ends_in, ends_in-append, if◌then◌else◌,
}
use gofixmsg.Framer.{
  Bytes, soh, begin_mark, length_mark, Round, wait, deliver, complete, body_length, length_tag,
  begun, round, checksum_field_len,
}

-- The parts of a message on the wire: 8=FIX `version` SOH 9= `digits` SOH `body` `checksum`.
pub record Frame : Type 0 where
  pub version : Bytes
  pub digits : Bytes
  pub body : Bytes
  pub checksum : Bytes

pub record IsFrame (f : Frame) : Type 0 where
  pub one_field : avoids soh f.version ≡ true
  pub number : isdigit f.digits ≡ true
  pub exact : int f.digits ≡ length f.body
  pub checksum_len : length f.checksum ≡ checksum_field_len
  pub closed : ends_in soh f.checksum ≡ true
  pub short_header : length f.version + length f.digits ≤ 4000

-- What stands before the BodyLength tag, and what stands behind it.
abbrev pub opening : Frame → Bytes
opening f = begin_mark ++ f.version

abbrev pub closing : Frame → Bytes
closing f = f.digits ++ soh ∷ (f.body ++ f.checksum)

abbrev pub wire : Frame → Bytes
wire f = opening f ++ (length_mark ++ closing f)

pub avoids-opening : (f : Frame) → IsFrame f → avoids soh (opening f) ≡ true
unfolding avoids
avoids-opening f h = h.one_field

-- The round, given that the buffer starts with the BeginString and holds the tag behind `pre`.
pub round_begin : (b : Bytes) → round (begin_mark ++ b) ≡ begun (begin_mark ++ b)
unfolding round
round_begin b = rw (find-append b'8' (b'=' ∷ b'F' ∷ b'I' ∷ b'X' ∷ []) [] b (unfold avoids in refl))

pub begun_tag :
    (pre b : Bytes)
    → avoids soh pre ≡ true
    → begun (pre ++ (length_mark ++ b)) ≡ length_tag (pre ++ (length_mark ++ b)) (length pre)
unfolding begun
begun_tag pre b h = rw (find-append soh (b'9' ∷ b'=' ∷ []) pre b h)

pub drop_tag : (pre b : Bytes) → drop (length pre + 3) (pre ++ (length_mark ++ b)) ≡ b
drop_tag pre b =
    rw (sym (append_assoc pre length_mark b)) (
      drop-at (length pre + 3) (pre ++ length_mark) b
        (omega (arith, length-append pre length_mark)))

length_tag_value :
    (pre digits b : Bytes)
    → avoids soh digits ≡ true
    → let whole = pre ++ (length_mark ++ (digits ++ soh ∷ b)) in
      length_tag whole (length pre) ≡ body_length whole (length pre + 3) (length digits)
unfolding length_tag
length_tag_value pre digits b h =
    rw (drop_tag pre (digits ++ soh ∷ b)) (rw (find-append soh [] digits b h))

-- The size that `body_length` computes, at the digits of a frame.
abbrev pub size_of : ℕ → ℕ → ℕ → ℕ
size_of value_start value_end n = value_start + value_end + 1 + n + checksum_field_len

body_length_size :
    (pre digits b : Bytes)
    → isdigit digits ≡ true
    → let whole = pre ++ (length_mark ++ (digits ++ soh ∷ b)) in
      let size = size_of (length pre + 3) (length digits) (int digits) in
      body_length whole (length pre + 3) (length digits)
      ≡ (if ltb (length whole) size then wait whole else complete whole size)
unfolding body_length
body_length_size pre digits b h =
    rw (drop_tag pre (digits ++ soh ∷ b))
      (rw (take-at (length digits) digits (soh ∷ b) refl) (rw h))

-- What follows once the size of the message is known.
abbrev pub decide : Bytes → ℕ → Round
decide b size = if ltb (length b) size then wait b else complete b size

decide_full : (b : Bytes) (size : ℕ) → size ≤ length b → decide b size ≡ complete b size
decide_full b size h = rw (ge→ltb (length b) size h)

pub decide_short : (b : Bytes) (size : ℕ) → length b < size → decide b size ≡ wait b
decide_short b size h = rw (lt→ltb (length b) size h)

abbrev pub header_size : Frame → ℕ
header_size f = size_of (length (opening f) + 3) (length f.digits) (length f.body)

-- One round on a buffer whose header is complete.
pub round_header :
    (f : Frame) (b : Bytes)
    → IsFrame f
    → let whole = opening f ++ (length_mark ++ (f.digits ++ soh ∷ b)) in
      round whole ≡ decide whole (header_size f)
round_header f b h =
    round_begin (f.version ++ (length_mark ++ (f.digits ++ soh ∷ b)))
    ∙ begun_tag (opening f) (f.digits ++ soh ∷ b) (avoids-opening f h)
    ∙ length_tag_value (opening f) f.digits b (avoids-isdigit soh f.digits refl h.number)
    ∙ rw (← h.exact) (body_length_size (opening f) f.digits b h.number)

pub length-wire : (f : Frame) → IsFrame f → header_size f ≡ length (wire f)
length-wire f h = omega (
  arith,
  h.checksum_len,
  length-append f.version (length_mark ++ closing f),
  length-append f.digits (soh ∷ (f.body ++ f.checksum)),
  length-append f.body f.checksum,
)

wire-append :
    (f : Frame) (rest : Bytes)
    → wire f ++ rest
      ≡ opening f ++ (length_mark ++ (f.digits ++ soh ∷ ((f.body ++ f.checksum) ++ rest)))
wire-append f rest = simp append_assoc

ends-wire : (f : Frame) → IsFrame f → ends_in soh (wire f) ≡ true
ends-wire f h =
    let tail = ends_in-append soh f.body f.checksum h.closed in
    let value =
      ends_in-append soh f.digits (soh ∷ (f.body ++ f.checksum))
        (ends_in-append soh (soh ∷ []) (f.body ++ f.checksum) tail) in
    ends_in-append soh (opening f) (length_mark ++ closing f)
      (ends_in-append soh length_mark (closing f) value)

complete_wire :
    (f : Frame) (rest : Bytes)
    → IsFrame f
    → complete (wire f ++ rest) (length (wire f)) ≡ deliver (wire f ++ rest) (length (wire f))
unfolding complete
complete_wire f rest h = rw (take-at (length (wire f)) (wire f) rest refl) (rw (ends-wire f h))

-- A whole message at the head of the buffer is handed out, and exactly its bytes.
pub round-wire :
    (f : Frame) (rest : Bytes)
    → IsFrame f
    → round (wire f ++ rest) ≡ deliver (wire f ++ rest) (length (wire f))
round-wire f rest h =
    let b = (f.body ++ f.checksum) ++ rest in
    ap round (wire-append f rest)
    ∙ round_header f b h
    ∙ ap (λ w. decide w (header_size f)) (sym (wire-append f rest))
    ∙ ap (decide (wire f ++ rest)) (length-wire f h)
    ∙ decide_full (wire f ++ rest) (length (wire f)) (omega (arith, length-append (wire f) rest))
    ∙ complete_wire f rest h
