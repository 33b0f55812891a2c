-- ===== src/Codec.antt =====
-- zz_archive/pyfixmsg/codecs/stringfix.py: the codec between messages and the wire. A message with
-- its groups is a Fragment; texts are ASCII, which every encoding that the codec is given keeps.
pub mod Scan
pub mod Fields
pub mod Closing
pub mod Inner
pub mod Groups
pub mod Order
pub mod Messages
pub mod RoundTrip
mod Edges
pub mod Samples
mod Tests
use gofixmsg.Prelude.{
  ℕ, zero, suc, ◌+◌, ◌==◌, leb, ltb, Bool, true, false, ◌&&◌, ◌||◌, not, List, [], ◌∷◌, ◌++◌,
  Option, none, some, Text, text_eq, text_eq_instance, if◌then◌else◌, lookup, nat_eq, isdigit, int,
}
use gofixmsg.Decimal.{show}
use gofixmsg.Message.{Value, str, int_value, null}
use gofixmsg.Fragment.{
  Tag, number, name, tag_eq, Fragment, end, field, Entry, leaf, repeat, Members, nil, member, get,
  set, append, count,
}
use gofixmsg.Spec.{
  Composition, groups_of, is_member_tag, SortingKey, Envelope, extract_sorting_key, sort_key,
  header_sort_map,
}

infixl 5 ◌>>=◌
abbrev pub ◌>>=◌ {ℓ κ} : {A : Type ℓ} {B : Type κ} → Option A → (A → Option B) → Option B
none >>= f = none
some a >>= f = f a

abbrev pub delimiter : ℕ
delimiter = b'='

abbrev pub separator : ℕ
separator = 1

-- `\w`
abbrev pub is_word : ℕ → Bool
is_word c =
    (leb b'0' c && leb c b'9')
    || ((leb b'A' c && leb c b'Z') || ((leb b'a' c && leb c b'z') || c == b'_'))

-- Whether `\w+` and the separator follow; `seen` says that a word character has been read.
unfoldable pub word_sep : ℕ → Bool → Text → Bool
word_sep sep seen [] = false
word_sep sep seen (c ∷ s) =
    let later = word_sep sep true s in
    if seen && c == sep then true else (if is_word c then later else false)

abbrev pub Token : Type 0
Token = Text × Text

-- `findall` of the expression `([^sd]*)[d](.*?)s(?!\w+s)`: the tag read so far, then the value.
unfoldable mutual
  unfolding word_sep

  pub scan_tag : ℕ → Text → Text → List Token
  scan_tag sep tag [] = []
  scan_tag sep tag (c ∷ s) =
      let value = scan_value sep tag [] s in
      let later = scan_tag sep (if c == sep then [] else tag ++ c ∷ []) s in
      if c == delimiter then value else later

  pub scan_value : ℕ → Text → Text → Text → List Token
  scan_value sep tag value [] = []
  scan_value sep tag value (c ∷ s) =
      let ended = (tag, value) ∷ scan_tag sep [] s in
      let longer = scan_value sep tag (value ++ c ∷ []) s in
      if c == sep && not (word_sep sep false s) then ended else longer

abbrev pub TagValue : Type 0
TagValue = Tag × Text

-- A codec: its specification, if any, as the message types and the header and trailer.
pub record Schema : Type 0 where
  pub msg_types : List (Text × Composition)
  pub envelope : Envelope

pub record Codec : Type 0 where
  pub spec : Option Schema
  pub no_groups : Bool

-- An open call of `_process_group`: the count tag that it reads, its group, and its variables.
pub record Frame : Type 0 where
  pub tag : Tag
  pub spec : Composition
  pub first : Option Tag
  pub item : Fragment
  pub items : Members

-- `groups.get(tag)`
abbrev pub find_group : Tag → Composition → Option Composition
find_group (number n) c = lookup n (groups_of c)
find_group (name t) c = none

-- `tag in group.tags`
abbrev pub valid_tag : Tag → Composition → Bool
valid_tag (number n) c = is_member_tag n c
valid_tag (name t) c = false

abbrev pub is_first : Option Tag → Tag → Bool
is_first none t = false
is_first (some first) t = tag_eq first t

abbrev pub text_leaf : Text → Entry
text_leaf v = leaf (str v)

-- The message read so far, and the open groups, the innermost first.
pub record Reading : Type 0 where
  pub msg : Fragment
  pub stack : List Frame

abbrev pub open_frame : Tag → Composition → Frame
open_frame t g = record { tag = t; spec = g; first = none; item = end; items = nil }

abbrev pub next_member : Frame → Tag → Text → Frame
next_member fr t v = record fr { items = append fr.items fr.item; item = set t (text_leaf v) end }

abbrev pub add_field : Frame → Tag → Text → Frame
add_field fr t v = record fr { item = set t (text_leaf v) fr.item }

abbrev pub put_group : Frame → Tag → Members → Frame
put_group fr t ms = record fr { item = set t (repeat ms) fr.item }

-- The group is closed: `rep_group.append(member)`.
abbrev pub contents : Frame → Members
contents fr = append fr.items fr.item

-- One round of the loop of `parse`, where no group is open.
abbrev pub top_entry : Option Composition → Fragment → Tag → Text → Reading
top_entry none msg t v = record { msg = set t (text_leaf v) msg; stack = [] }
top_entry (some g) msg t v =
    if text_eq v (b'0' ∷ [])
    then record { msg = set t (repeat nil) msg; stack = [] }
    else record { msg = msg; stack = open_frame t g ∷ [] }

unfoldable pub top_field : Composition → Fragment → Tag → Text → Reading
top_field c msg t v = top_entry (find_group t c) msg t v

-- A call of `_process_group` returns its members and the tag that it could not take: to the call that
-- it was made from, which looks for its own first tag and its tags, or to `parse`, which reads it
-- again.
unfoldable pub returned : Composition → Fragment → Tag → Members → List Frame → Tag → Text → Reading
unfolding top_field
returned c msg tag ms [] t v = top_field c (set tag (repeat ms) msg) t v
returned c msg tag ms (fr ∷ stack) t v =
    let up = returned c msg fr.tag (contents (put_group fr tag ms)) stack t v in
    if is_first fr.first t
    then record { msg = msg; stack = next_member (put_group fr tag ms) t v ∷ stack }
    else (if valid_tag t fr.spec
        then record { msg = msg; stack = add_field (put_group fr tag ms) t v ∷ stack }
        else up)

-- A tag that is no tag of the group: it starts an inner group, or ends this one.
abbrev pub group_other :
    Composition → Fragment → Frame → List Frame → Option Composition → Tag → Text → Reading
group_other c msg fr stack none t v = returned c msg fr.tag (contents fr) stack t v
group_other c msg fr stack (some g) t v = record { msg = msg; stack = open_frame t g ∷ fr ∷ stack }

-- One round of the loop of `_process_group`.
abbrev pub group_field :
    Composition → Fragment → Frame → List Frame → Option Tag → Tag → Text → Reading
group_field c msg fr stack none t v = record {
  msg = msg;
  stack = record (add_field fr t v) { first = some t } ∷ stack;
}
group_field c msg fr stack (some first) t v =
    if tag_eq first t
    then record { msg = msg; stack = next_member fr t v ∷ stack }
    else (if valid_tag t fr.spec
        then record { msg = msg; stack = add_field fr t v ∷ stack }
        else group_other c msg fr stack (find_group t fr.spec) t v)

unfoldable pub step : Composition → Fragment → List Frame → Tag → Text → Reading
step c msg [] t v = top_field c msg t v
step c msg (fr ∷ stack) t v = group_field c msg fr stack fr.first t v

-- The end of the message closes the open groups.
unfoldable pub close_all : Fragment → List Frame → Fragment
close_all msg [] = msg
close_all msg (fr ∷ []) = set fr.tag (repeat (contents fr)) msg
close_all msg (fr ∷ up ∷ stack) = close_all msg (put_group up fr.tag (contents fr) ∷ stack)

unfoldable pub read_fields : Composition → Fragment → List Frame → List TagValue → Fragment
unfolding step close_all
read_fields c msg stack [] = close_all msg stack
read_fields c msg stack ((t, v) ∷ rest) =
    let r = step c msg stack t v in read_fields c r.msg r.stack rest

-- `dict(tagvals)`
unfoldable pub dict_of : Fragment → List TagValue → Fragment
dict_of m [] = m
dict_of m ((t, v) ∷ rest) = dict_of (set t (text_leaf v) m) rest

-- `int_or_str` of the tags; `other_tag` reads a text that is not all digits, and may raise.
unfoldable pub read_tags : (Text → Option Tag) → List Token → Option (List TagValue)
read_tags other_tag [] = some []
read_tags other_tag ((tag, value) ∷ rest) = do
  t ← if isdigit tag then some (number (int tag)) else other_tag tag
  ts ← read_tags other_tag rest
  some ((t, value) ∷ ts)

-- The message type that MsgType names among the first `n` tokens; an IndexError if there are fewer.
unfoldable pub find_type :
    ℕ → List (Text × Composition) → Option Composition → List Token → Option (Option Composition)
find_type zero types found tokens = some found
find_type (suc n) types found [] = none
find_type (suc n) types found ((tag, value) ∷ rest) =
    find_type n types (if text_eq tag (b'3' ∷ b'5' ∷ []) then lookup value types else found) rest

unfoldable pub type_of : Codec → List Token → Option (Option Composition)
unfolding find_type
type_of codec tokens =
    if codec.no_groups
    then some none
    else elim codec.spec [ none ↦ some none | some spec ↦ find_type 4 spec.msg_types none tokens ]

abbrev pub read_as : Option Composition → List TagValue → Fragment
read_as none fields = dict_of end fields
read_as (some c) fields = read_fields c end [] fields

unfoldable pub parse : (Text → Option Tag) → Codec → ℕ → Text → Option Fragment
unfolding scan_tag type_of read_tags dict_of read_fields
parse other_tag codec sep buff = do
  c ← type_of codec (scan_tag sep [] buff)
  fields ← read_tags other_tag (scan_tag sep [] buff)
  some (read_as c fields)

-- The key of a tag in the sorting: `1e9 + tag` raises for a text.
abbrev pub tag_key : SortingKey → Tag → Option ℕ
tag_key key (number n) = some (sort_key key n)
tag_key key (name t) = none

abbrev pub Field : Type 0
Field = Tag × Value

-- A field with its key, a group with the fields of its members behind its count.
abbrev pub Chunk : Type 0
Chunk = ℕ × List Field

-- `sort` is stable: in front of the first key that is not smaller.
unfoldable pub insert_chunk : Chunk → List Chunk → List Chunk
insert_chunk (k, x) [] = (k, x) ∷ []
insert_chunk (k, x) ((j, y) ∷ rest) =
    if ltb j k then (j, y) ∷ insert_chunk (k, x) rest else (k, x) ∷ (j, y) ∷ rest

unfoldable pub expanded : List Chunk → List Field
expanded [] = []
expanded ((k, x) ∷ rest) = x ++ expanded rest

-- `sort_values`. Each field is expanded before it is sorted: the key depends on its tag alone.
unfoldable mutual
  unfolding insert_chunk expanded

  pub sort_chunks : Envelope → Composition → Fragment → Option (List Chunk)
  sort_chunks env c end = some []
  sort_chunks env c (field t e rest) = do
    k ← tag_key (extract_sorting_key c env) t
    x ← expand env c t e
    xs ← sort_chunks env c rest
    some (insert_chunk (k, x) xs)

  pub expand : Envelope → Composition → Tag → Entry → Option (List Field)
  expand env c t (leaf v) = some ((t, v) ∷ [])
  expand env c t (repeat ms) = do
    downspec ← find_group t c
    xs ← expand_members env downspec ms
    some ((t, int_value (count ms)) ∷ xs)

  pub expand_members : Envelope → Composition → Members → Option (List Field)
  expand_members env c nil = some []
  expand_members env c (member m ms) = do
    xs ← sort_chunks env c m
    ys ← expand_members env c ms
    some (expanded xs ++ ys)

-- Without a specification: by the header map, or as they are if a tag is no number.
unfoldable pub header_chunks : Fragment → Option (List Chunk)
unfolding insert_chunk
header_chunks end = some []
header_chunks (field t (leaf v) rest) = do
  k ← tag_key header_sort_map t
  xs ← header_chunks rest
  some (insert_chunk (k, (t, v) ∷ []) xs)
header_chunks (field t (repeat ms) rest) = none

-- The fields in the order of the dict; a list is no value that can be written.
unfoldable pub plain_fields : Fragment → Option (List Field)
plain_fields end = some []
plain_fields (field t (leaf v) rest) = do xs ← plain_fields rest; some ((t, v) ∷ xs)
plain_fields (field t (repeat ms) rest) = none

abbrev pub sorted_or : Option (List Field) → Option (List Chunk) → Option (List Field)
sorted_or plain none = plain
sorted_or plain (some xs) = some (expanded xs)

-- `msg_types[msg[35]]`
abbrev pub named_type : List (Text × Composition) → Option Entry → Option Composition
named_type types (some (leaf (str t))) = lookup t types
named_type types e = none

unfoldable pub unmap : Codec → Fragment → Option (List Field)
unfolding sort_chunks expanded header_chunks plain_fields
unmap codec m = elim codec.spec [
  | none ↦ sorted_or (plain_fields m) (header_chunks m)
  | some spec ↦ do
    c ← named_type spec.msg_types (get (number 35) m)
    xs ← sort_chunks spec.envelope c m
    some (expanded xs)
]

abbrev pub tag_text : Tag → Text
tag_text (number n) = show n
tag_text (name t) = t

-- None has no text.
abbrev pub value_text : Value → Option Text
value_text (str t) = some t
value_text (int_value n) = some (show n)
value_text null = none

unfoldable pub write_fields : ℕ → List Field → Option Text
write_fields sep [] = some []
write_fields sep ((t, v) ∷ rest) = do
  s ← value_text v
  more ← write_fields sep rest
  some (tag_text t ++ (delimiter ∷ (s ++ (sep ∷ more))))

unfoldable pub serialise : Codec → ℕ → Fragment → Option Text
unfolding unmap write_fields
serialise codec sep m = do fields ← unmap codec m; write_fields sep fields
