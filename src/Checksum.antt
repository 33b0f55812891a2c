-- ===== src/Checksum.antt =====
-- zz_archive/pyfixmsg/__init__.py and fixmessage.py: BodyLength and CheckSum of a message.
mod Weights
mod BodyLength
mod Digits
pub mod Fields
pub mod Sealing
pub mod Wire
mod Tests
use gofixmsg.Prelude.{
  ℕ, ◌+◌, ◌/◌, ◌%◌, ◌==◌, ltb, Bool, true, false, ◌||◌, ◌&&◌, not, List, [], ◌∷◌, ◌++◌, Option,
  none, some, Text, text_eq_instance, if◌then◌else◌, length, lookup, insert, nat_eq,
}
use gofixmsg.Decimal.{show}
use gofixmsg.Message.{Value, str, int_value, null}
use gofixmsg.Fragment.{
  Tag, number, name, Fragment, end, field, Entry, leaf, repeat, Members, nil, member, get, set,
  count,
}
use gofixmsg.Spec.{Composition, Envelope, SortingKey, extract_sorting_key, groups_of}
use gofixmsg.Codec.{Codec, Schema, ◌>>=◌, serialise, separator, delimiter}

-- `sum` of a byte string.
unfoldable pub byte_sum : Text → ℕ
byte_sum [] = 0
byte_sum (b ∷ bs) = b + byte_sum bs

-- The length of a piece of the message, and its fields as byte strings.
abbrev pub Part : Type 0
Part = ℕ × List Text

abbrev pub join_parts : Part → Part → Part
join_parts (n, xs) (m, ys) = (n + m, xs ++ ys)

-- `_encode_value_for_checksum`: what is no text goes through `str`.
abbrev pub encode_value : Value → Text
encode_value (str t) = t
encode_value (int_value n) = show n
encode_value null = b'N' ∷ b'o' ∷ b'n' ∷ b'e' ∷ []

-- A field as it stands on the wire.
abbrev pub field_bytes : ℕ → Text → Text
field_bytes n s = show n ++ (delimiter ∷ (s ++ (separator ∷ [])))

abbrev pub field_part : ℕ → Text → Part
field_part n s = (length (field_bytes n s), field_bytes n s ∷ [])

-- A key of the sorting; a key that is missing counts as infinite, and the second part decides then.
abbrev pub SortKey : Type 0
SortKey = Option ℕ × ℕ

abbrev pub key_before : Option ℕ → Option ℕ → Bool
key_before none k = false
key_before (some a) none = true
key_before (some a) (some b) = ltb a b

abbrev pub before : SortKey → SortKey → Bool
before (j, a) (k, b) = key_before j k || (not (key_before k j) && ltb a b)

-- `_MINIMAL_HEADER_SORT_MAP`, in tenths.
abbrev pub minimal_header_sort_map : SortingKey
minimal_header_sort_map =
    (8, 10)
    ∷ (9, 20)
    ∷ (35, 30)
    ∷ (49, 40)
    ∷ (56, 50)
    ∷ (115, 51)
    ∷ (128, 52)
    ∷ (50, 53)
    ∷ (142, 54)
    ∷ (57, 55)
    ∷ (143, 56)
    ∷ (34, 60)
    ∷ (52, 70)
    ∷ (43, 80)
    ∷ (97, 90)
    ∷ (122, 100)
    ∷ (112, 110)
    ∷ (108, 120)
    ∷ (141, 130)
    ∷ []

-- A message type or group of the specification, with the header and trailer that its order rests on.
abbrev pub TypeSpec : Type 0
TypeSpec = Option (Envelope × Composition)

-- The two sort keys of `_get_ordered_items_for_checksum`.
unfoldable pub order_key : TypeSpec → ℕ → SortKey
order_key none tag = (lookup tag minimal_header_sort_map, tag)
order_key (some (env, c)) tag = (lookup tag (extract_sorting_key c env), 0)

unfoldable pub insert_item : TypeSpec → ℕ × Part → List (ℕ × Part) → List (ℕ × Part)
unfolding order_key
insert_item spec (n, p) [] = (n, p) ∷ []
insert_item spec (n, p) ((m, q) ∷ rest) =
    if before (order_key spec m) (order_key spec n)
    then (m, q) ∷ insert_item spec (n, p) rest
    else (n, p) ∷ (m, q) ∷ rest

unfoldable pub sort_items : TypeSpec → List (ℕ × Part) → List (ℕ × Part)
unfolding insert_item
sort_items spec [] = []
sort_items spec ((n, p) ∷ rest) = insert_item spec (n, p) (sort_items spec rest)

unfoldable pub joined : List (ℕ × Part) → Part
joined [] = (0, [])
joined ((n, p) ∷ rest) = join_parts p (joined rest)

-- `type_spec_obj.groups.get(tag)`
abbrev pub with_envelope : Envelope → Option Composition → TypeSpec
with_envelope env none = none
with_envelope env (some c) = some (env, c)

abbrev pub group_spec : TypeSpec → ℕ → TypeSpec
group_spec none tag = none
group_spec (some (env, c)) tag = with_envelope env (lookup tag (groups_of c))

-- `msg.get(tag)`, and the same under the text of the tag if that is None.
abbrev pub or_else : Option Entry → Option Entry → Option Entry
or_else none b = b
or_else (some (leaf null)) b = b
or_else a b = a

abbrev pub named_spec : List (Text × Composition) → Envelope → Option Text → TypeSpec
named_spec types env none = none
named_spec types env (some t) = with_envelope env (lookup t types)

abbrev pub is_envelope_tag : Option ℕ → Bool
is_envelope_tag none = false
is_envelope_tag (some n) = n == 8 || (n == 9 || n == 10)

abbrev pub begin_bytes : Option Text → Text
begin_bytes none = []
begin_bytes (some t) = field_bytes 8 t

unfoldable pub concat : List Text → Text
concat [] = []
concat (x ∷ xs) = x ++ concat xs

-- `'{0:03d}'.format(value % 256)`
unfoldable pub checksum : ℕ → Text
checksum value =
    let v = value % 256 in (b'0' + v / 100) ∷ (b'0' + v / 10 % 10) ∷ (b'0' + v % 10) ∷ []

-- `int_of` is `int` of a key that is a text, and `list_text` is `str` of a list.
module _ (int_of : Text → Option ℕ) where
  -- `int(str(k))`, which raises in the sorting if the key is no number.
  abbrev pub int_key : Tag → Option ℕ
  int_key (number n) = some n
  int_key (name t) = int_of t

  -- `_calculate_length_and_get_ordered_byte_parts`: each item is written before the items are sorted.
  unfoldable mutual
    unfolding joined sort_items

    pub processed_items : TypeSpec → Fragment → List (ℕ × Part) → Option (List (ℕ × Part))
    processed_items spec end d = some d
    processed_items spec (field t e rest) d = do
      n ← int_key t
      p ← entry_part spec n e
      processed_items spec rest (insert n p d)

    pub entry_part : TypeSpec → ℕ → Entry → Option Part
    entry_part spec n (leaf v) = some (field_part n (encode_value v))
    entry_part spec n (repeat ms) = do
      p ← members_part (group_spec spec n) ms
      some (join_parts (field_part n (show (count ms))) p)

    pub members_part : TypeSpec → Members → Option Part
    members_part spec nil = some (0, [])
    members_part spec (member m ms) = do
      items ← processed_items spec m []
      p ← members_part spec ms
      some (join_parts (joined (sort_items spec items)) p)

  unfoldable pub calculate_length : TypeSpec → Fragment → Option Part
  unfolding joined sort_items processed_items
  calculate_length spec m = do
    items ← processed_items spec m []
    some (joined (sort_items spec items))

  -- The fields but for BeginString, BodyLength and CheckSum.
  unfoldable pub body_fields : Fragment → Fragment
  body_fields end = end
  body_fields (field t e rest) =
      if is_envelope_tag (int_key t) then body_fields rest else field t e (body_fields rest)

  -- `len_and_chsum(member, group=True)`: the fields of a member, by no specification.
  unfoldable pub member_len_and_chsum : Fragment → Option (ℕ × ℕ)
  unfolding calculate_length concat byte_sum
  member_len_and_chsum m = do
    (n, parts) ← calculate_length none m
    some (n, byte_sum (concat parts))

  -- `RepeatingGroup.length`
  unfoldable pub group_length : Members → Option ℕ
  unfolding member_len_and_chsum
  group_length nil = some 0
  group_length (member m ms) = do
    (n, _) ← member_len_and_chsum m
    rest ← group_length ms
    some (n + rest)

module _ (list_text : Members → Text) where
  abbrev pub entry_text : Option Entry → Option Text
  entry_text none = none
  entry_text (some (leaf null)) = none
  entry_text (some (leaf (str t))) = some t
  entry_text (some (leaf (int_value n))) = some (show n)
  entry_text (some (repeat ms)) = some (list_text ms)

  abbrev pub text_at : ℕ → Fragment → Option Text
  text_at tag m = entry_text (or_else (get (number tag) m) (get (name (show tag)) m))

  abbrev pub type_spec : Option Schema → Fragment → TypeSpec
  type_spec none m = none
  type_spec (some s) m = named_spec s.msg_types s.envelope (text_at 35 m)

module _ (int_of : Text → Option ℕ) (list_text : Members → Text) where
  -- `len_and_chsum(msg)`: the body length, and the sum of the bytes of BeginString, BodyLength and body.
  unfoldable pub len_and_chsum : Option Schema → Fragment → Option (ℕ × ℕ)
  unfolding calculate_length body_fields concat byte_sum
  len_and_chsum spec m = do
    (n, parts) ← calculate_length int_of (type_spec list_text spec m) (body_fields int_of m)
    some (
      n,
      byte_sum (begin_bytes (text_at list_text 8 m) ++ (field_bytes 9 (show n) ++ concat parts)),
    )

  unfoldable pub set_len_and_chksum : Option Schema → Fragment → Option Fragment
  unfolding len_and_chsum checksum
  set_len_and_chksum spec m = do
    (n, raw) ← len_and_chsum spec m
    some (set (number 10) (leaf (str (checksum raw))) (set (number 9) (leaf (str (show n))) m))

  unfoldable pub to_wire : Codec → Fragment → Option Text
  unfolding set_len_and_chksum
  to_wire codec m = do full ← set_len_and_chksum codec.spec m; serialise codec separator full
