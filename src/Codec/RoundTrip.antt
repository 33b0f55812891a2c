-- ===== src/Codec/RoundTrip.antt =====
-- What is serialised is parsed back.
use gofixmsg.Prelude.{
  ℕ, ◌==◌, ◌≡◌, refl, sym, ap, ◌∙◌, true, false, not, Option, some, List, [], ◌∷◌, arith, Text,
  text_eq, text_eq_sound, text_eq_instance, Bool-cases, inl, inr, is_digit, lookup, int,
}
use gofixmsg.Decimal.{show, int-show}
use gofixmsg.Message.{Value, str}
use gofixmsg.Fragment.{Tag, number, name, tag_eq, Fragment, field, Entry, leaf, repeat, has, get}
use gofixmsg.Spec.{Composition, Envelope}
use gofixmsg.Codec.{Codec, Schema, parse, serialise, unmap, type_of, find_type, delimiter, tag_text}
use gofixmsg.Codec.Fields.{flat, fits}
use gofixmsg.Codec.Scan.{written, scan-written}
use gofixmsg.Codec.Inner.{split, not-true}
use gofixmsg.Codec.Order.{
  is_number, in_order, clean, tokens_of, sorted-flat, write-clean, tokens-Separable,
  read_tags-tokens,
}
use gofixmsg.Codec.Messages.{read-flat}

-- The first fields of a message: BeginString, BodyLength, MsgType and one more.
pub record Opening : Type 0 where
  pub version : Text
  pub body_length : Text
  pub msg_type : Text
  pub fourth : Tag
  pub entry : Entry
  pub rest : Fragment

abbrev pub message : Opening → Fragment
message o = field (number 8) (leaf (str o.version)) (
    field (number 9) (leaf (str o.body_length))
      (field (number 35) (leaf (str o.msg_type)) (field o.fourth o.entry o.rest)))

-- A message that the codec is for: the specification knows its type, its tags are numbers in the
-- order of the specification, its groups are groups of its type, the members of a group start with
-- the same tag, an inner group is not empty, what follows a group is no tag of the group, and no
-- value holds the separator.
pub record WellFormed (schema : Schema) (sep : ℕ) (c : Composition) (o : Opening) : Type 0 where
  pub not_delimiter : (sep == delimiter) ≡ false
  pub no_digit : is_digit sep ≡ false
  pub typed : lookup o.msg_type schema.msg_types ≡ some c
  pub shaped : fits c (message o) ≡ true
  pub ordered : in_order schema.envelope c (message o) ≡ true
  pub separable : clean sep (flat (message o)) ≡ true

abbrev pub codec_of : Schema → Codec
codec_of schema = record { spec = some schema; no_groups = false }

unmap-message :
    (schema : Schema) (sep : ℕ) (c : Composition) (o : Opening)
    → WellFormed schema sep c o
    → unmap (codec_of schema) (message o) ≡ some (flat (message o))
unfolding unmap get
unmap-message schema sep c o w = rw w.typed (sorted-flat (message o) schema.envelope c w.ordered)

number_in_order :
    (env : Envelope) (c : Composition) (t : Tag) (e : Entry) (r : Fragment)
    → in_order env c (field t e r) ≡ true
    → is_number t ≡ true
unfolding in_order
number_in_order env c t (leaf v) r h = ground arith
number_in_order env c t (repeat ms) r h = (split (is_number t) _ (split _ _ h).0).0

leaf_fits :
    (c : Composition) (t : Tag) (v : Value) (r : Fragment)
    → fits c (field t (leaf v) r) ≡ true
    → (has t r ≡ false) × (fits c r ≡ true)
unfolding fits
leaf_fits c t v r f =
    let (here, rest) = split _ (fits c r) f in
    let (_, fresh) = split _ (not (has t r)) here in (not-true _ fresh, rest)

leaf_in_order :
    (env : Envelope) (c : Composition) (t : Tag) (v : Value) (r : Fragment)
    → in_order env c (field t (leaf v) r) ≡ true
    → in_order env c r ≡ true
unfolding in_order
leaf_in_order env c t v r h = (split _ (in_order env c r) h).1

-- The fourth tag is a number, and not that of MsgType.
fourth_tag :
    (schema : Schema) (sep : ℕ) (c : Composition) (o : Opening)
    → WellFormed schema sep c o
    → (is_number o.fourth ≡ true) × (tag_eq o.fourth (number 35) ≡ false)
unfolding has
fourth_tag schema sep c o w =
    let env = schema.envelope in
    let last = field o.fourth o.entry o.rest in
    let typed = field (number 35) (leaf (str o.msg_type)) last in
    let sized = field (number 9) (leaf (str o.body_length)) typed in
    let a = leaf_fits c (number 8) (str o.version) sized w.shaped in
    let b = leaf_fits c (number 9) (str o.body_length) typed a.1 in
    let absent = (leaf_fits c (number 35) (str o.msg_type) last b.1).0 in
    let x = leaf_in_order env c (number 8) (str o.version) sized w.ordered in
    let y = leaf_in_order env c (number 9) (str o.body_length) typed x in
    let z = leaf_in_order env c (number 35) (str o.msg_type) last y in
    (number_in_order env c o.fourth o.entry o.rest z, ground arith)

not_type_text :
    (t : Tag)
    → is_number t ≡ true
    → tag_eq t (number 35) ≡ false
    → text_eq (tag_text t) (b'3' ∷ b'5' ∷ []) ≡ false
not_type_text (name t) n h = cc
not_type_text (number n) i h = elim (Bool-cases (text_eq (show n) (b'3' ∷ b'5' ∷ []))) [
  | inl same ↦
      let e : n ≡ int (b'3' ∷ b'5' ∷ []) =
        sym (int-show n) ∙ ap int (text_eq_sound (show n) (b'3' ∷ b'5' ∷ []) same) in
      let k : int (b'3' ∷ b'5' ∷ []) ≡ 35 = unfold int in refl in absurd (ground (arith, e ∙ k))
  | inr other ↦ other
]

last_field :
    (types : List (Text × Composition)) (found : Option Composition) (t : Tag) (e : Entry)
    (r : Fragment)
    → text_eq (tag_text t) (b'3' ∷ b'5' ∷ []) ≡ false
    → find_type 1 types found (tokens_of (flat (field t e r))) ≡ some found
unfolding find_type tokens_of flat
last_field types found t (leaf v) r h = rw h refl
last_field types found t (repeat ms) r h = rw h refl

find_message_type :
    (schema : Schema) (sep : ℕ) (c : Composition) (o : Opening)
    → WellFormed schema sep c o
    → type_of (codec_of schema) (tokens_of (flat (message o))) ≡ some (some c)
unfolding type_of find_type tokens_of flat show text_eq
find_message_type schema sep c o w =
    let (num, other) = fourth_tag schema sep c o w in
    last_field schema.msg_types (lookup o.msg_type schema.msg_types) o.fourth o.entry o.rest
      (not_type_text o.fourth num other)
    ∙ ap some w.typed

pub serialise-message :
    (schema : Schema) (sep : ℕ) (c : Composition) (o : Opening)
    → WellFormed schema sep c o
    → serialise (codec_of schema) sep (message o)
      ≡ some (written sep (tokens_of (flat (message o))))
unfolding serialise
serialise-message schema sep c o w =
    rw (unmap-message schema sep c o w) (write-clean sep (flat (message o)) w.separable)

pub parse-message :
    (other : Text → Option Tag) (schema : Schema) (sep : ℕ) (c : Composition) (o : Opening)
    → WellFormed schema sep c o
    → parse other (codec_of schema) sep (written sep (tokens_of (flat (message o))))
      ≡ some (message o)
unfolding parse
parse-message other schema sep c o w =
    let m = message o in
    let scanned =
      scan-written sep w.not_delimiter (tokens_of (flat m))
        (tokens-Separable sep (flat m) w.no_digit w.separable) in
    rw
      (scanned, find_message_type schema sep c o w, read_tags-tokens other sep (flat m) w.separable)
      (ap some (read-flat c m w.shaped))

-- A well-formed message, with repeating groups nested to any depth, is serialised, and parsing what
-- was written gives the same message, its fields and the members of its groups in the same order.
pub parse-serialise :
    (other : Text → Option Tag) (schema : Schema) (sep : ℕ) (c : Composition) (o : Opening)
    → WellFormed schema sep c o
    → (w : Text) × (serialise (codec_of schema) sep (message o) ≡ some w)
      × (parse other (codec_of schema) sep w ≡ some (message o))
parse-serialise other schema sep c o w = (
  written sep (tokens_of (flat (message o))),
  serialise-message schema sep c o w,
  parse-message other schema sep c o w,
)
