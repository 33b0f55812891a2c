-- ===== src/Codec/Groups.antt =====
-- Reading the members of a group, and the groups inside them, up to the field that closes them.
use gofixmsg.Prelude.{
  ◌≡◌, refl, ap, ◌∙◌, true, false, ◌&&◌, not, some, List, ◌∷◌, ◌++◌, append_assoc, arith, Text,
}
use gofixmsg.Decimal.{show}
use gofixmsg.Message.{str, int_value, null}
use gofixmsg.Fragment.{
  Tag, tag_eq, Fragment, end, field, Entry, leaf, repeat, Members, nil, member, has, set, append,
  count,
}
use gofixmsg.Fragment.Joining.{join, join-behind, behind, distinct_tags, tag_eq_sym}
use gofixmsg.Spec.{Composition}
use gofixmsg.Codec.{
  TagValue, Field, Frame, find_group, valid_tag, text_leaf, open_frame, step, read_fields,
}
use gofixmsg.Codec.Fields.{
  flat, flat_members, texts, texts-append, mentioned, first_tag, fits_fields, fits_members,
}
use gofixmsg.Codec.Closing.{started, attach, read_on, ready, closes, close_group}
use gofixmsg.Codec.Inner.{
  all_members, follows, follows_member, ready-started, follows_inner, split, not-true, fits_inner,
}

fits-distinct :
    (c : Composition) (first : Tag) (r : Fragment)
    → fits_fields c first r ≡ true
    → distinct_tags r ≡ true
unfolding fits_fields distinct_tags
fits-distinct c first end f = refl
fits-distinct c first (field t (leaf v) r) f = ground (arith, fits-distinct c first r)
fits-distinct c first (field t (repeat ms) r) f =
    let i = fits_inner c t first ms r f in
    let (a, b) = split _ _ f in
    let (c', fresh) = split _ (not (has t r)) a in
    ground (arith, fits-distinct c first r i.rest_fits)

whole_member :
    (c : Composition) (first t : Tag) (e : Entry) (r : Fragment)
    → not (has t r) ≡ true
    → fits_fields c first r ≡ true
    → join (field t e end) r ≡ field t e r
whole_member c first t e r h f =
    join-behind (field t e end) r
      (unfold distinct_tags behind in ground (arith, fits-distinct c first r f))
    ∙ (unfold behind in refl)

all_members_shift :
    (m : Fragment) (xs ms : Members) → all_members (member m xs) ms ≡ member m (all_members xs ms)
unfolding all_members
all_members_shift m xs nil = refl
all_members_shift m xs (member y ms) = all_members_shift m (append xs y) ms

all_members-nil : (ms : Members) → all_members nil ms ≡ ms
unfolding all_members
all_members-nil nil = refl
all_members-nil (member m ms) = all_members_shift m nil ms ∙ ap (member m) (all_members-nil ms)

regroup :
    (xs ys : List Field) (more : List TagValue)
    → texts (xs ++ ys) ++ more ≡ texts xs ++ (texts ys ++ more)
regroup xs ys more = rw (texts-append xs ys) (append_assoc (texts xs) (texts ys) more)

module _ (c₀ c : Composition) (msg : Fragment) (stack : List Frame) (t first : Tag)
    (item : Fragment) (items : Members) (x : Tag) (v : Text) where
  take_field :
      tag_eq first x ≡ false
      → valid_tag x c ≡ true
      → step c₀ msg (started t c first item items ∷ stack) x v
        ≡ record { msg = msg; stack = started t c first (set x (text_leaf v) item) items ∷ stack }
  unfolding step
  take_field a b = rw (a, b) refl

  start_member :
      tag_eq first x ≡ true
      → step c₀ msg (started t c first item items ∷ stack) x v ≡ record {
        msg = msg;
        stack = started t c first (field x (text_leaf v) end) (append items item) ∷ stack;
      }
  unfolding step set
  start_member a = rw a refl

  open_inner :
      (g : Composition)
      → tag_eq first x ≡ false
      → valid_tag x c ≡ false
      → find_group x c ≡ some g
      → step c₀ msg (started t c first item items ∷ stack) x v
        ≡ record { msg = msg; stack = open_frame x g ∷ started t c first item items ∷ stack }
  unfolding step
  open_inner g a b h = rw (a, b, h) refl

mutual
  unfolding read_fields fits_fields flat texts all_members join set

  -- The fields of a member are read into it, groups and all.
  read_member :
      (r : Fragment) (c₀ c : Composition) (msg : Fragment) (stack : List Frame) (t first : Tag)
      (item : Fragment) (items : Members) (more : List TagValue)
      → fits_fields c first r ≡ true
      → follows c first more ≡ true
      → read_fields c₀ msg (started t c first item items ∷ stack) (texts (flat r) ++ more)
        ≡ read_fields c₀ msg (started t c first (join item r) items ∷ stack) more
  read_member end c₀ c msg stack t first item items more f k = refl
  read_member (field x (leaf (int_value n)) r) c₀ c msg stack t first item items more f k = cc
  read_member (field x (leaf null) r) c₀ c msg stack t first item items more f k = cc
  read_member (field x (leaf (str v)) r) c₀ c msg stack t first item items more f k =
      let (here, rest) = split _ (fits_fields c first r) f in
      let (kind, place) = split (not (tag_eq first x)) _ here in
      let (valid, _) = split (valid_tag x c) _ place in
      ap (λ s. read_on c₀ s (texts (flat r) ++ more))
        (take_field c₀ c msg stack t first item items x v (not-true _ kind) valid)
      ∙ read_member r c₀ c msg stack t first (set x (leaf (str v)) item) items more rest k
  read_member (field x (repeat ms) r) c₀ c msg stack t first item items more f k =
      let i = fits_inner c x first ms r f in
      let behind_group = texts (flat r) ++ more in
      let follow =
        follows_inner c i.inner x first r more i.found i.own_first i.next i.rest_fits k in
      ap (λ s. read_on c₀ s (texts (flat_members ms ++ flat r) ++ more))
        (open_inner c₀ c msg stack t first item items x (show (count ms)) i.inner i.not_first
          i.not_tag i.found)
      ∙ ap (read_fields c₀ msg (open_frame x i.inner ∷ started t c first item items ∷ stack))
          (regroup (flat_members ms) (flat r) more)
      ∙ read_group ms c₀ i.inner msg (started t c first item items ∷ stack) x behind_group i.members
          i.inner_first follow.0 (ready-started t first c item items stack behind_group follow.1)
      ∙ read_member r c₀ c msg stack t first (set x (repeat ms) item) items more i.rest_fits k

  -- A group that has been opened is read whole.
  pub read_group :
      (ms : Members) (c₀ g : Composition) (msg : Fragment) (stack : List Frame) (t : Tag)
      (more : List TagValue)
      → fits_members g (first_tag t ms) true ms ≡ true
      → mentioned (first_tag t ms) g ≡ true
      → closes g more ≡ true
      → ready stack more ≡ true
      → read_fields c₀ msg (open_frame t g ∷ stack) (texts (flat_members ms) ++ more)
        ≡ read_on c₀ (attach msg stack t ms) more
  read_group nil c₀ g msg stack t more f n h k = cc
  read_group (member end ms) c₀ g msg stack t more f n h k = cc
  read_group (member (field x (repeat inner) r) ms) c₀ g msg stack t more f n h k = cc
  read_group (member (field x (leaf (int_value n)) r) ms) c₀ g msg stack t more f m h k =
      ground arith
  read_group (member (field x (leaf null) r) ms) c₀ g msg stack t more f n h k = ground arith
  read_group (member (field x (leaf (str v)) r) ms) c₀ g msg stack t more f n h k =
      let (here, rest) = split _ (fits_fields g x r && fits_members g x false ms) f in
      let (_, fresh) = split _ (not (has x r)) here in
      let (fields, members) = split (fits_fields g x r) _ rest in
      let after = texts (flat_members ms) ++ more in
      ap (read_fields c₀ msg (started t g x (field x (leaf (str v)) end) nil ∷ stack))
        (regroup (flat r) (flat_members ms) more)
      ∙ read_member r c₀ g msg stack t x (field x (leaf (str v)) end) nil after fields
          (follows_member g x ms more members h)
      ∙ ap (λ m. read_fields c₀ msg (started t g x m nil ∷ stack) after)
          (whole_member g x x (leaf (str v)) r fresh fields)
      ∙ read_members ms c₀ g msg stack t x (field x (leaf (str v)) r) nil more n members h k
      ∙ ap (λ all. read_on c₀ (attach msg stack t all) more)
          (all_members-nil (member (field x (leaf (str v)) r) ms))

  -- The members that are left are read, and the group is closed by what follows.
  read_members :
      (ms : Members) (c₀ g : Composition) (msg : Fragment) (stack : List Frame) (t first : Tag)
      (item : Fragment) (items : Members) (more : List TagValue)
      → mentioned first g ≡ true
      → fits_members g first false ms ≡ true
      → closes g more ≡ true
      → ready stack more ≡ true
      → read_fields c₀ msg (started t g first item items ∷ stack) (texts (flat_members ms) ++ more)
        ≡ read_on c₀ (attach msg stack t (all_members (append items item) ms)) more
  read_members nil c₀ g msg stack t first item items more n f h k =
      close_group c₀ msg stack t first g item items more n h k
  read_members (member end ms) c₀ g msg stack t first item items more n f h k = cc
  read_members (member (field x (repeat inner) r) ms) c₀ g msg stack t first item items more n f h
        k =
      cc
  read_members (member (field x (leaf (int_value i)) r) ms) c₀ g msg stack t first item items more n
        f h k =
      ground arith
  read_members (member (field x (leaf null) r) ms) c₀ g msg stack t first item items more n f h k =
      ground arith
  read_members (member (field x (leaf (str v)) r) ms) c₀ g msg stack t first item items more n f h
        k =
      let (here, rest) = split _ (fits_fields g first r && fits_members g first false ms) f in
      let (kind, fresh) = split _ (not (has x r)) here in
      let (same, _) = split (tag_eq x first) _ kind in
      let (fields, members) = split (fits_fields g first r) _ rest in
      let after = texts (flat_members ms) ++ more in
      let before = append items item in
      ap (λ s. read_on c₀ s (texts (flat r ++ flat_members ms) ++ more))
        (start_member c₀ g msg stack t first item items x v (tag_eq_sym first x ∙ same))
      ∙ ap (read_fields c₀ msg (started t g first (field x (leaf (str v)) end) before ∷ stack))
          (regroup (flat r) (flat_members ms) more)
      ∙ read_member r c₀ g msg stack t first (field x (leaf (str v)) end) before after fields
          (follows_member g first ms more members h)
      ∙ ap (λ m. read_fields c₀ msg (started t g first m before ∷ stack) after)
          (whole_member g first x (leaf (str v)) r fresh fields)
      ∙ read_members ms c₀ g msg stack t first (field x (leaf (str v)) r) before more n members h k
