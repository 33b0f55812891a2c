-- ===== src/Checksum/Sealing.antt =====
-- A message with its BodyLength and CheckSum set.
use gofixmsg.Prelude.{
  ℕ, ◌≡◌, refl, ap, Bool, true, false, ◌&&◌, not, Option, some, ◌∷◌, arith, Text, length,
}
use gofixmsg.Decimal.{show}
use gofixmsg.Message.{str}
use gofixmsg.Fragment.{
  Tag, number, name, tag_eq, Fragment, end, field, Entry, leaf, Members, has, get, set,
}
use gofixmsg.Fragment.Joining.{behind, has_both, tag_eq_iff}
use gofixmsg.Codec.{Schema}
use gofixmsg.Codec.RoundTrip.{Opening, message}
use gofixmsg.Checksum.{body_fields, set_len_and_chksum, checksum, byte_sum}
use gofixmsg.Checksum.Weights.{bytes_of, is_dict, summed, len_and_chsum-body_fields}

-- A message without its BodyLength and CheckSum: the version behind "FIX", and the body.
pub record Draft : Type 0 where
  pub version : Text
  pub msg_type : Text
  pub fourth : Tag
  pub entry : Entry
  pub rest : Fragment

abbrev pub body : Draft → Fragment
body d = field (number 35) (leaf (str d.msg_type)) (field d.fourth d.entry d.rest)

-- The message with some values in these two fields.
abbrev pub sealed : Draft → Text → Text → Opening
sealed d len sum = record {
  version = b'F' ∷ b'I' ∷ b'X' ∷ d.version;
  body_length = len;
  msg_type = d.msg_type;
  fourth = d.fourth;
  entry = d.entry;
  rest = behind d.rest (field (number 10) (leaf (str sum)) end);
}

abbrev pub body_len : Draft → Text
body_len d = show (length (bytes_of (body d)))

abbrev pub body_sum : Draft → Text
body_sum d =
    checksum (byte_sum (summed (some (b'F' ∷ b'I' ∷ b'X' ∷ d.version)) (bytes_of (body d))))

-- The tags 8, 9 and 10 do not stand in the rest.
abbrev pub inner_only : Fragment → Bool
inner_only r = not (has (number 8) r) && (not (has (number 9) r) && not (has (number 10) r))

pub tag_eq_refl : (t : Tag) → tag_eq t t ≡ true
tag_eq_refl t = (tag_eq_iff t t).1 refl

pub set_last :
    (t : Tag) (e old : Entry) (r : Fragment)
    → has t r ≡ false
    → set t e (behind r (field t old end)) ≡ behind r (field t e end)
unfolding set behind has
set_last t e old end h = rw (tag_eq_refl t) refl
set_last t e old (field u x r) h = ground (arith, set_last t e old r)

pub body-behind :
    (int_of : Text → Option ℕ) (r : Fragment) (e : Entry)
    → inner_only r ≡ true
    → is_dict r ≡ true
    → body_fields int_of (behind r (field (number 10) e end)) ≡ r
unfolding body_fields behind has is_dict
body-behind int_of end e h k = refl
body-behind int_of (field (name t) x r) e h k = cc
body-behind int_of (field (number n) x r) e h k = ground (arith, body-behind int_of r e)

pub is_dict-behind :
    (r : Fragment) (e : Entry)
    → is_dict (behind r (field (number 10) e end)) ≡ true
    → (is_dict r ≡ true) × (has (number 10) r ≡ false)
unfolding is_dict behind has
is_dict-behind end e h = (refl, refl)
is_dict-behind (field (name t) x r) e h = cc
is_dict-behind (field (number n) x r) e h =
    let both = has_both (number n) r (field (number 10) e end) in
    let later = is_dict-behind r e (ground arith) in (ground (arith, both), ground (arith, both))

pub dict_parts :
    (t : Tag) (e : Entry) (r : Fragment)
    → is_dict (field t e r) ≡ true
    → (has t r ≡ false) × (is_dict r ≡ true)
unfolding is_dict
dict_parts (number n) e r h = (ground arith, ground arith)
dict_parts (name t) e r h = cc

-- The body of a draft behind its MsgType.
abbrev pub tail : Draft → Fragment
tail d = field d.fourth d.entry d.rest

-- It holds none of the tags 8, 9 and 10, if the draft's message is a dict.
pub record IsClear (d : Draft) : Type 0 where
  tail_dict : is_dict (tail d) ≡ true
  no_ten : has (number 10) (tail d) ≡ false
  pub inner : inner_only (tail d) ≡ true

pub draft-IsClear :
    (d : Draft) (len sum : Text) → is_dict (message (sealed d len sum)) ≡ true → IsClear d
unfolding has behind
draft-IsClear d len sum h =
    let ten = field (number 10) (leaf (str sum)) end in
    let last = behind (tail d) ten in
    let typed = field (number 35) (leaf (str d.msg_type)) last in
    let a = dict_parts (number 8) (leaf _) (field (number 9) (leaf (str len)) typed) h in
    let b = dict_parts (number 9) (leaf (str len)) typed a.1 in
    let c = dict_parts (number 35) (leaf (str d.msg_type)) last b.1 in
    let r = is_dict-behind (tail d) (leaf (str sum)) c.1 in
    let eight = has_both (number 8) (tail d) ten in
    let nine = has_both (number 9) (tail d) ten in
    record { tail_dict = r.0; no_ten = r.1; inner = ground (arith, a.0, b.0, r.1, eight, nine) }

pub body-sealed :
    (int_of : Text → Option ℕ) (d : Draft) (len sum : Text)
    → IsClear d
    → body_fields int_of (message (sealed d len sum)) ≡ body d
unfolding body_fields behind
body-sealed int_of d len sum k =
    ap (field (number 35) (leaf (str d.msg_type)))
      (body-behind int_of (tail d) (leaf (str sum)) k.inner k.tail_dict)

-- The message with its BodyLength and CheckSum set.
abbrev pub finished : Draft → Opening
finished d = sealed d (body_len d) (body_sum d)

pub set-sealed :
    (d : Draft) (len sum : Text)
    → IsClear d
    → set
        (number 10)
        (leaf (str (body_sum d)))
        (set (number 9) (leaf (str (body_len d))) (message (sealed d len sum)))
      ≡ message (finished d)
unfolding set behind
set-sealed d len sum k =
    ap
      (λ x.
        field (number 8) (leaf (str (b'F' ∷ b'I' ∷ b'X' ∷ d.version))) (
          field (number 9) (leaf (str (body_len d))) (field (number 35) (leaf (str d.msg_type)) x)))
      (set_last (number 10) (leaf (str (body_sum d))) (leaf (str sum)) (tail d) k.no_ten)

pub set_len-sealed :
    (int_of : Text → Option ℕ) (list_text : Members → Text) (schema : Schema) (d : Draft)
    (len sum : Text)
    → is_dict (message (sealed d len sum)) ≡ true
    → set_len_and_chksum int_of list_text (some schema) (message (sealed d len sum))
      ≡ some (message (finished d))
unfolding set_len_and_chksum get
set_len-sealed int_of list_text schema d len sum h =
    let k = draft-IsClear d len sum h in
    rw
      (
        len_and_chsum-body_fields int_of list_text (some schema) (message (sealed d len sum)) h,
        body-sealed int_of d len sum k,
      )
      (ap some (set-sealed d len sum k))
