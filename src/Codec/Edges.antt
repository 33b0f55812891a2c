-- ===== src/Codec/Edges.antt =====
-- Texts that the codec does not read: those of few fields.
use gofixmsg.Prelude.{
  ℕ, zero, suc, ◌<◌, ◌≡◌, refl, Option, none, List, [], ◌∷◌, arith, Text, length,
}
use gofixmsg.Fragment.{Tag}
use gofixmsg.Spec.{Composition}
use gofixmsg.Codec.{Schema, Token, scan_tag, parse, type_of, find_type}
use gofixmsg.Codec.RoundTrip.{codec_of}

too_few :
    (n : ℕ) (types : List (Text × Composition)) (found : Option Composition) (tokens : List Token)
    → length tokens < n
    → find_type n types found tokens ≡ none
unfolding find_type
too_few zero types found tokens h = elim h [ ]
too_few (suc n) types found [] h = refl
too_few (suc n) types found ((t, v) ∷ rest) h = too_few n types _ rest (omega arith)

-- With a specification, parsing a text in which fewer than four fields are found raises.
pub parse-few :
    (other : Text → Option Tag) (schema : Schema) (sep : ℕ) (buff : Text)
    → length (scan_tag sep [] buff) < 4
    → parse other (codec_of schema) sep buff ≡ none
unfolding parse type_of
parse-few other schema sep buff h =
    rw (too_few 4 schema.msg_types none (scan_tag sep [] buff) h) refl
