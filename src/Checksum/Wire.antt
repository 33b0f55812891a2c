-- ===== src/Checksum/Wire.antt =====
-- What `to_wire` writes: the receiver cuts it out of the stream and parses it back.
use gofixmsg.Prelude.{
  ℕ, ◌+◌, ◌≡◌, ◌≤◌, refl, sym, ap, ◌∙◌, true, Option, some, [], ◌∷◌, ◌++◌, Text, length, append-nil,
  avoids, ends_in,
}
use gofixmsg.Decimal.{show, int-show, isdigit-show}
use gofixmsg.Message.{str}
use gofixmsg.Fragment.{Tag, number, Fragment, end, field, leaf, Members}
use gofixmsg.Fragment.Joining.{behind}
use gofixmsg.Spec.{Composition}
use gofixmsg.Codec.{Schema, separator, parse}
use gofixmsg.Codec.Scan.{written}
use gofixmsg.Codec.Fields.{flat}
use gofixmsg.Codec.Inner.{split}
use gofixmsg.Codec.Order.{clean, tokens_of}
use gofixmsg.Codec.RoundTrip.{message, WellFormed, codec_of, serialise-message, parse-message}
use gofixmsg.Framer.{deliver, round, soh, begin_mark, length_mark, checksum_field_len}
use gofixmsg.Framer.Frames.{Frame, IsFrame, wire, round-wire}
use gofixmsg.Checksum.{field_bytes, checksum, to_wire, byte_sum}
use gofixmsg.Checksum.Weights.{bytes_of, is_dict, summed}
use gofixmsg.Checksum.Fields.{flat-behind, bytes, bytes-append, clean-append, bytes_of-flat}
use gofixmsg.Checksum.Sealing.{Draft, body, sealed, body_len, body_sum, finished, set_len-sealed}

-- The bytes of a draft on the wire.
abbrev frame_of : Draft → Frame
frame_of d = record {
  version = d.version;
  digits = body_len d;
  body = bytes_of (body d);
  checksum = field_bytes 10 (body_sum d);
}

show-8 : show 8 ≡ b'8' ∷ []
unfolding show
show-8 = refl

show-9 : show 9 ≡ b'9' ∷ []
unfolding show
show-9 = refl

show-10 : show 10 ≡ b'1' ∷ b'0' ∷ []
unfolding show
show-10 = refl

-- The CheckSum field.
abbrev trailer : Draft → Fragment
trailer d = field (number 10) (leaf (str (body_sum d))) end

opening-bytes :
    (version len : Text) (m : Fragment)
    → bytes (
        flat (
          field
            (number 8)
            (leaf (str (b'F' ∷ b'I' ∷ b'X' ∷ version)))
            (field (number 9) (leaf (str len)) m)))
      ≡ (begin_mark ++ version) ++ (length_mark ++ (len ++ soh ∷ bytes (flat m)))
unfolding flat tokens_of written
opening-bytes version len m = rw (show-8, show-9) refl

trailer-bytes : (d : Draft) → bytes (flat (trailer d)) ≡ field_bytes 10 (body_sum d)
unfolding flat tokens_of written
trailer-bytes d = refl

body-bytes :
    (d : Draft)
    → clean separator (flat (behind (body d) (trailer d))) ≡ true
    → bytes (flat (behind (body d) (trailer d))) ≡ bytes_of (body d) ++ field_bytes 10 (body_sum d)
body-bytes d h =
    let both : clean separator (flat (body d) ++ flat (trailer d)) ≡ true =
      rw (← flat-behind (body d) (trailer d)) h in
    let (own, _) = clean-append (flat (body d)) (flat (trailer d)) both in
    ap bytes (flat-behind (body d) (trailer d))
    ∙ bytes-append (flat (body d)) (flat (trailer d))
    ∙ ap (λ x. x ++ bytes (flat (trailer d))) (sym (bytes_of-flat (body d) own))
    ∙ ap (λ x. bytes_of (body d) ++ x) (trailer-bytes d)

-- What the fields of a clean message say of its version and its body.
clean-finished :
    (d : Draft)
    → clean separator (flat (message (finished d))) ≡ true
    → (avoids separator d.version ≡ true)
      × (clean separator (flat (behind (body d) (trailer d))) ≡ true)
unfolding clean flat behind avoids
clean-finished d h =
    let (first, later) = split _ _ h in let (_, inner) = split _ _ later in (first, inner)

bytes-finished :
    (d : Draft)
    → clean separator (flat (message (finished d))) ≡ true
    → written separator (tokens_of (flat (message (finished d)))) ≡ wire (frame_of d)
unfolding behind
bytes-finished d h =
    opening-bytes d.version (body_len d) (behind (body d) (trailer d))
    ∙ ap (λ x. (begin_mark ++ d.version) ++ (length_mark ++ (body_len d ++ soh ∷ x)))
        (body-bytes d (clean-finished d h).1)

checksum-field :
    (n : ℕ)
    → (length (field_bytes 10 (checksum n)) ≡ checksum_field_len)
      × (ends_in soh (field_bytes 10 (checksum n)) ≡ true)
unfolding checksum ends_in
checksum-field n = (rw show-10 refl, rw show-10 refl)

frame_of-IsFrame :
    (d : Draft)
    → clean separator (flat (message (finished d))) ≡ true
    → length d.version + length (body_len d) ≤ 4000
    → IsFrame (frame_of d)
frame_of-IsFrame d h short =
    let bytes_of_sum =
      byte_sum (summed (some (b'F' ∷ b'I' ∷ b'X' ∷ d.version)) (bytes_of (body d))) in
    record {
      one_field = (clean-finished d h).0;
      number = isdigit-show (length (bytes_of (body d)));
      exact = int-show (length (bytes_of (body d)));
      checksum_len = (checksum-field bytes_of_sum).0;
      closed = (checksum-field bytes_of_sum).1;
      short_header = short;
    }

-- A message that is a dict, whatever stands in its BodyLength and CheckSum, and that is well-formed
-- once they are set: `to_wire` writes a text; the receiver, with this text in its buffer, hands out
-- exactly this text and keeps nothing; and parsing it gives the message with BodyLength and CheckSum
-- set.
pub to_wire-delivered :
    (int_of : Text → Option ℕ) (list_text : Members → Text) (other : Text → Option Tag)
    (schema : Schema) (c : Composition) (d : Draft) (len sum : Text)
    → is_dict (message (sealed d len sum)) ≡ true
    → WellFormed schema separator c (finished d)
    → length d.version + length (body_len d) ≤ 4000
    → (w : Text) × (to_wire int_of list_text (codec_of schema) (message (sealed d len sum))
        ≡ some w)
      × (round w ≡ deliver w (length w))
      × (parse other (codec_of schema) separator w ≡ some (message (finished d)))
unfolding to_wire
to_wire-delivered int_of list_text other schema c d len sum dict wf short =
    let frame = frame_of-IsFrame d wf.separable short in
    let same = bytes-finished d wf.separable in
    let whole = round-wire (frame_of d) [] frame in
    let cut : round (wire (frame_of d)) ≡ deliver (wire (frame_of d)) (length (wire (frame_of d))) =
      rw append-nil at whole in
    (
      wire (frame_of d),
      rw (set_len-sealed int_of list_text schema d len sum dict)
          (serialise-message schema separator c (finished d) wf ∙ ap some same),
      cut,
      rw (← same) (parse-message other schema separator c (finished d) wf),
    )
