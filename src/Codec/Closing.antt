-- ===== src/Codec/Closing.antt =====
-- What ends a call that reads a group, and where its members go.
use gofixmsg.Prelude.{
  ◌≡◌, refl, ap, ◌∙◌, Bool, true, false, ◌||◌, not, Option, none, some, List, [], ◌∷◌, arith, Text,
  if◌then◌else◌, Bool-cases, Option-cases, inl, inr,
}
use gofixmsg.Fragment.{Tag, tag_eq, Fragment, repeat, Members, set, append}
use gofixmsg.Fragment.Joining.{tag_eq_iff}
use gofixmsg.Spec.{Composition}
use gofixmsg.Codec.{
  TagValue, Frame, Reading, find_group, valid_tag, is_first, contents, put_group, add_field,
  next_member, returned, step, close_all, read_fields, group_field,
}
use gofixmsg.Codec.Fields.{mentioned, find_group-absent, valid_tag-absent, is_none}

-- A group whose first tag has been read.
abbrev pub started : Tag → Composition → Tag → Fragment → Members → Frame
started t g first item items = record {
  tag = t;
  spec = g;
  first = some first;
  item = item;
  items = items;
}

-- Where the members of a closed group go: into the enclosing member, or into the message.
abbrev pub attach : Fragment → List Frame → Tag → Members → Reading
attach msg [] t ms = record { msg = set t (repeat ms) msg; stack = [] }
attach msg (fr ∷ stack) t ms = record { msg = msg; stack = put_group fr t ms ∷ stack }

abbrev pub read_on : Composition → Reading → List TagValue → Fragment
read_on c r fields = read_fields c r.msg r.stack fields

abbrev pub takes : Option Tag → Tag → Composition → Bool
takes none t c = false
takes (some first) t c = tag_eq first t || (valid_tag t c || is_none (find_group t c))

-- Whether the enclosing group, if there is one, goes on with the field as its own loop would.
abbrev pub ready : List Frame → List TagValue → Bool
ready [] fields = true
ready (fr ∷ stack) [] = true
ready (fr ∷ stack) ((t, v) ∷ fields) = takes fr.first t fr.spec

abbrev pub closes : Composition → List TagValue → Bool
closes g [] = true
closes g ((t, v) ∷ fields) = not (mentioned t g)

-- The test of the caller's loop and that of `step` come to the same.
same_round :
    (c : Composition) (msg : Fragment) (fr : Frame) (stack : List Frame) (o : Option Tag) (t : Tag)
    (v : Text)
    → takes o t fr.spec ≡ true
    → (if is_first o t
        then record { msg = msg; stack = next_member fr t v ∷ stack }
        else (if valid_tag t fr.spec
            then record { msg = msg; stack = add_field fr t v ∷ stack }
            else returned c msg fr.tag (contents fr) stack t v))
      ≡ group_field c msg fr stack o t v
same_round c msg fr stack none t v h = cc
same_round c msg fr stack (some first) t v h = elim (Bool-cases (tag_eq first t)) [
  | inl again ↦ rw again refl
  | inr other ↦ elim (Bool-cases (valid_tag t fr.spec)) [
    | inl valid ↦ rw (other, valid) refl
    | inr invalid ↦ elim (Option-cases (find_group t fr.spec)) [
      | inl absent ↦ rw (other, invalid, absent) refl
      | inr (g, found) ↦
          let no_group : is_none (find_group t fr.spec) ≡ true = ground arith in
          let some_group : is_none (find_group t fr.spec) ≡ false = ap is_none found in cc
    ]
  ]
]

returned_into :
    (c : Composition) (msg : Fragment) (fr : Frame) (stack : List Frame) (tag t : Tag)
    (ms : Members) (v : Text)
    → takes fr.first t fr.spec ≡ true
    → returned c msg tag ms (fr ∷ stack) t v ≡ step c msg (put_group fr tag ms ∷ stack) t v
unfolding returned step
returned_into c msg fr stack tag t ms v h =
    same_round c msg (put_group fr tag ms) stack fr.first t v h

-- A field that a group does not mention ends the call that reads the group.
ends_group :
    (c : Composition) (msg : Fragment) (stack : List Frame) (t first x : Tag) (g : Composition)
    (item : Fragment) (items : Members) (v : Text)
    → mentioned first g ≡ true
    → mentioned x g ≡ false
    → step c msg (started t g first item items ∷ stack) x v
      ≡ returned c msg t (append items item) stack x v
unfolding step
ends_group c msg stack t first x g item items v f h = elim (Bool-cases (tag_eq first x)) [
  | inl same ↦
      let e : first ≡ x = (tag_eq_iff first x).0 same in
      let clash : mentioned x g ≡ true = rw (← e) f in cc
  | inr other ↦ rw (other, valid_tag-absent x g h, find_group-absent x g h) refl
]

pub attached :
    (c : Composition) (msg : Fragment) (stack : List Frame) (t x : Tag) (ms : Members) (v : Text)
    (more : List TagValue)
    → ready stack ((x, v) ∷ more) ≡ true
    → returned c msg t ms stack x v
      ≡ step c (attach msg stack t ms).msg (attach msg stack t ms).stack x v
unfolding step returned
attached c msg [] t x ms v more h = refl
attached c msg (fr ∷ stack) t x ms v more h = returned_into c msg fr stack t x ms v h

-- A field that the group does not mention closes it.
pub close_group :
    (c : Composition) (msg : Fragment) (stack : List Frame) (t first : Tag) (g : Composition)
    (item : Fragment) (items : Members) (more : List TagValue)
    → mentioned first g ≡ true
    → closes g more ≡ true
    → ready stack more ≡ true
    → read_fields c msg (started t g first item items ∷ stack) more
      ≡ read_on c (attach msg stack t (append items item)) more
unfolding read_fields close_all
close_group c msg [] t first g item items [] f h k = refl
close_group c msg (fr ∷ stack) t first g item items [] f h k = refl
close_group c msg stack t first g item items ((x, v) ∷ more) f h k =
    let out : mentioned x g ≡ false = ground arith in
    ap (λ r. read_on c r more)
      (ends_group c msg stack t first x g item items v f out
        ∙ attached c msg stack t x (append items item) v more k)
