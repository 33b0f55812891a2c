-- ===== src/Checksum/BodyLength.antt =====
-- What BodyLength and CheckSum are, apart from how the code computes them.
use gofixmsg.Prelude.{
  ℕ, ◌==◌, ◌≡◌, refl, ap, ◌∙◌, Bool, true, ◌||◌, if◌then◌else◌, Option, some, [], ◌++◌, arith, Text,
  Bool-cases, inl, inr, length,
}
use gofixmsg.Decimal.{show}
use gofixmsg.Message.{str}
use gofixmsg.Fragment.{number, name, Fragment, end, field, leaf, Members, get}
use gofixmsg.Codec.{Schema}
use gofixmsg.Checksum.{byte_sum, body_fields, len_and_chsum, text_at}
use gofixmsg.Checksum.Weights.{
  bytes_of, entry_bytes, written_field, is_dict, summed, len_and_chsum-body_fields,
}

-- The tags of the header and the trailer: BeginString, BodyLength and CheckSum.
abbrev is_outer : ℕ → Bool
is_outer n = n == 8 || (n == 9 || n == 10)

-- The bytes of the body: those of every other field, in the order of the dict.
unfoldable pub body_bytes : Fragment → Text
body_bytes end = []
body_bytes (field (name t) e rest) = body_bytes rest
body_bytes (field (number n) e rest) =
    if is_outer n then body_bytes rest else entry_bytes n e ++ body_bytes rest

bytes-body_fields :
    (int_of : Text → Option ℕ) (m : Fragment)
    → is_dict m ≡ true
    → bytes_of (body_fields int_of m) ≡ body_bytes m
unfolding is_dict body_fields bytes_of body_bytes
bytes-body_fields int_of end h = refl
bytes-body_fields int_of (field (name t) e rest) h = cc
bytes-body_fields int_of (field (number n) e rest) h = elim (Bool-cases (is_outer n)) [
  | inl outer ↦ rw outer (bytes-body_fields int_of rest (ground arith))
  | inr inside ↦
      rw inside (ap (λ x. entry_bytes n e ++ x) (bytes-body_fields int_of rest (ground arith)))
]

begun :
    (list_text : Members → Text) (m : Fragment) (version : Text)
    → get (number 8) m ≡ some (leaf (str version))
    → text_at list_text 8 m ≡ some version
begun list_text m version h = rw h refl

-- For every dict whose keys are numbers, in its groups too, with a text for BeginString, and for every
-- specification or none: the BodyLength is the number of bytes of the fields other than 8, 9 and 10, as
-- tag, "=", value and separator; the sum that the CheckSum is made of is that of the bytes of
-- "8=", the version and the separator, of "9=", the BodyLength and the separator, and of those
-- fields. The order of the fields does not matter.
pub len_and_chsum_lem :
    (int_of : Text → Option ℕ) (list_text : Members → Text) (spec : Option Schema) (m : Fragment)
    (version : Text)
    → is_dict m ≡ true
    → get (number 8) m ≡ some (leaf (str version))
    → let body = body_bytes m in
      let sized = written_field 9 (show (length body)) in
      len_and_chsum int_of list_text spec m
      ≡ some (length body, byte_sum (written_field 8 version ++ (sized ++ body)))
len_and_chsum_lem int_of list_text spec m version h v =
    len_and_chsum-body_fields int_of list_text spec m h
    ∙ ap (λ b. some (length b, byte_sum (summed (text_at list_text 8 m) b)))
        (bytes-body_fields int_of m h)
    ∙ ap (λ o. some (length (body_bytes m), byte_sum (summed o (body_bytes m))))
        (begun list_text m version v)
