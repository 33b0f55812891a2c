-- ===== src/Codec/Inner.antt =====
-- Inner groups that fit, and what may follow them.
use gofixmsg.Prelude.{
  ◌≡◌, refl, ap, Bool, true, false, ◌&&◌, ◌||◌, not, some, List, [], ◌∷◌, ◌++◌, arith, Bool-cases,
  Option-cases, inl, inr,
}
use gofixmsg.Fragment.{
  Tag, tag_eq, Fragment, end, field, leaf, repeat, Members, nil, member, has, append,
}
use gofixmsg.Fragment.Joining.{tag_eq_iff, tag_eq_sym}
use gofixmsg.Spec.{Composition}
use gofixmsg.Codec.{TagValue, Frame, find_group, valid_tag}
use gofixmsg.Codec.Fields.{
  flat, flat_members, texts, mentioned, goes_on, first_tag, fits_fields, fits_members,
  mentioned-find_group, find_group-absent, is_none,
}
use gofixmsg.Codec.Closing.{started, takes, ready, closes}

-- The members of a group, behind those that are read already.
unfoldable pub all_members : Members → Members → Members
unfolding append
all_members ms nil = ms
all_members ms (member m rest) = all_members (append ms m) rest

-- A field that the member takes, or that closes it with all that is open inside it.
abbrev pub follows : Composition → Tag → List TagValue → Bool
follows c first [] = true
follows c first ((t, v) ∷ fields) = tag_eq first t || not (mentioned t c)

-- What follows a member is another member, or what follows the group.
pub follows_member :
    (g : Composition) (first : Tag) (ms : Members) (more : List TagValue)
    → fits_members g first false ms ≡ true
    → closes g more ≡ true
    → follows g first (texts (flat_members ms) ++ more) ≡ true
unfolding fits_fields flat texts
follows_member g first nil [] f h = refl
follows_member g first nil ((t, v) ∷ more) f h = ground arith
follows_member g first (member end ms) more f h = cc
follows_member g first (member (field t (repeat inner) rest) ms) more f h = cc
follows_member g first (member (field t (leaf v) rest) ms) more f h =
    let same : tag_eq t first ≡ true = ground arith in ground (arith, tag_eq_sym t first)

-- Whether the loop of a group with this first tag goes on with the field.
abbrev pub heads : Composition → Tag → List TagValue → Bool
heads c first [] = true
heads c first ((t, v) ∷ fields) = takes (some first) t c

pub ready-started :
    (t first : Tag) (c : Composition) (item : Fragment) (items : Members) (stack : List Frame)
    (fields : List TagValue)
    → heads c first fields ≡ true
    → ready (started t c first item items ∷ stack) fields ≡ true
ready-started t first c item items stack [] h = refl
ready-started t first c item items stack ((x, v) ∷ fields) h = h

pub follows_end :
    (c g : Composition) (t first x : Tag)
    → find_group t c ≡ some g
    → mentioned first g ≡ false
    → (tag_eq first x || not (mentioned x c)) ≡ true
    → (not (mentioned x g) ≡ true) × (takes (some first) x c ≡ true)
follows_end c g t first x h m k = elim (Bool-cases (tag_eq first x)) [
  | inl same ↦
      let e : first ≡ x = (tag_eq_iff first x).0 same in
      let out : mentioned x g ≡ false = rw (← e) m in (ground arith, ground arith)
  | inr other ↦
      let out : mentioned x c ≡ false = ground arith in
      let inner : mentioned x g ≡ false = mentioned-find_group x t c g h out in
      let none_such : is_none (find_group x c) ≡ true = ap is_none (find_group-absent x c out) in
      (ground arith, ground arith)
]

-- Behind an inner group stands what closes it, and what the member's own loop would take.
pub follows_inner :
    (c g : Composition) (t first : Tag) (rest : Fragment) (more : List TagValue)
    → find_group t c ≡ some g
    → mentioned first g ≡ false
    → goes_on g rest ≡ true
    → fits_fields c first rest ≡ true
    → follows c first more ≡ true
    → (closes g (texts (flat rest) ++ more) ≡ true)
      × (heads c first (texts (flat rest) ++ more) ≡ true)
unfolding fits_fields flat texts
follows_inner c g t first end [] h m o f k = (refl, refl)
follows_inner c g t first end ((x, v) ∷ more) h m o f k = follows_end c g t first x h m k
follows_inner c g t first (field x (leaf v) rest) more h m o f k =
    let valid : valid_tag x c ≡ true = ground arith in (o, ground arith)
follows_inner c g t first (field x (repeat ms) rest) more h m o f k = cc

pub split : (a b : Bool) → (a && b) ≡ true → (a ≡ true) × (b ≡ true)
split a b h = (ground arith, ground arith)

pub not-true : (b : Bool) → not b ≡ true → b ≡ false
not-true b h = ground arith

-- What is known of an inner group whose fields fit.
pub record FitsInner (c : Composition) (t first : Tag) (ms : Members) (rest : Fragment)
    : Type 0 where
  pub inner : Composition
  pub found : find_group t c ≡ some inner
  pub own_first : mentioned first inner ≡ false
  pub next : goes_on inner rest ≡ true
  pub inner_first : mentioned (first_tag t ms) inner ≡ true
  pub members : fits_members inner (first_tag t ms) true ms ≡ true
  pub rest_fits : fits_fields c first rest ≡ true
  pub not_first : tag_eq first t ≡ false
  pub not_tag : valid_tag t c ≡ false

pub fits_inner :
    (c : Composition) (t first : Tag) (ms : Members) (rest : Fragment)
    → fits_fields c first (field t (repeat ms) rest) ≡ true
    → FitsInner c t first ms rest
unfolding fits_fields
fits_inner c t first ms rest f = elim (Option-cases (find_group t c)) [
  | inl absent ↦
      let none_fits : (((not (tag_eq first t) && not (valid_tag t c)) && not (has t rest)) && false)
          ≡ true =
        rw absent at f in
      let (_, impossible) = split _ false none_fits in cc
  | inr (g, found) ↦
      let head = (not (tag_eq first t) && not (valid_tag t c)) && not (has t rest) in
      let around = (not (mentioned first g) && goes_on g rest) && mentioned (first_tag t ms) g in
      let whole : (head
            && ((around && fits_members g (first_tag t ms) true ms) && fits_fields c first rest))
          ≡ true =
        rw found at f in
      let (a, b) = split head _ whole in
      let (group_fits, rest_fits) = split _ (fits_fields c first rest) b in
      let (near, members) = split around _ group_fits in
      let (sides, inner_first) = split _ (mentioned (first_tag t ms) g) near in
      let (own, next) = split (not (mentioned first g)) _ sides in
      let (kinds, _) = split _ (not (has t rest)) a in
      let (other, invalid) = split (not (tag_eq first t)) _ kinds in
      record {
        inner = g;
        found = found;
        own_first = not-true _ own;
        next = next;
        inner_first = inner_first;
        members = members;
        rest_fits = rest_fits;
        not_first = not-true _ other;
        not_tag = not-true _ invalid;
      }
]
