-- ===== src/Codec/Messages.antt =====
-- Reading the fields of a whole message.
use gofixmsg.Prelude.{
  ◌+◌, ◌≡◌, refl, sym, ap, ◌∙◌, true, false, ◌&&◌, not, some, List, [], ◌∷◌, ◌++◌, arith, Text,
  text_eq, text_eq_sound, text_eq_instance, Bool-cases, Option-cases, inl, inr, int,
}
use gofixmsg.Decimal.{show, int-show}
use gofixmsg.Message.{str, int_value, null}
use gofixmsg.Fragment.{
  Tag, Fragment, end, field, leaf, repeat, Members, nil, member, count, has, set,
}
use gofixmsg.Fragment.Joining.{join, join-behind, behind, distinct_tags}
use gofixmsg.Spec.{Composition}
use gofixmsg.Codec.{TagValue, find_group, top_field, step, read_fields, open_frame}
use gofixmsg.Codec.Fields.{
  flat, flat_members, texts, texts-append, fits, fits_members, first_tag, outside, is_none,
  mentioned,
}
use gofixmsg.Codec.Inner.{split}
use gofixmsg.Codec.Groups.{read_group}
use gofixmsg.Codec.Closing.{closes}

-- A group that is not empty has a count other than 0.
pub count_not_zero :
    (m : Fragment) (ms : Members) → text_eq (show (count (member m ms))) (b'0' ∷ []) ≡ false
unfolding count
count_not_zero m ms = elim (Bool-cases (text_eq (show (count ms + 1)) (b'0' ∷ []))) [
  | inl zero_text ↦
      let same = text_eq_sound (show (count ms + 1)) (b'0' ∷ []) zero_text in
      let n : count ms + 1 ≡ int (b'0' ∷ []) = sym (int-show (count ms + 1)) ∙ ap int same in
      let z : int (b'0' ∷ []) ≡ 0 = unfold int in refl in absurd (omega (arith, n ∙ z))
  | inr other ↦ other
]

-- What is known of a group of the message.
pub record FitsGroup (c : Composition) (t : Tag) (ms : Members) (rest : Fragment) : Type 0 where
  pub inner : Composition
  pub found : find_group t c ≡ some inner
  pub next : outside inner rest ≡ true
  pub inner_first : mentioned (first_tag t ms) inner ≡ true
  pub members : fits_members inner (first_tag t ms) false ms ≡ true
  pub rest_fits : fits c rest ≡ true

pub fits_group :
    (c : Composition) (t : Tag) (ms : Members) (rest : Fragment)
    → fits c (field t (repeat ms) rest) ≡ true
    → FitsGroup c t ms rest
unfolding fits
fits_group c t ms rest f = elim (Option-cases (find_group t c)) [
  | inl absent ↦
      let none_fits : (not (has t rest) && false) ≡ true = rw absent at f in
      let (_, impossible) = split _ false none_fits in cc
  | inr (g, found) ↦
      let around = outside g rest && mentioned (first_tag t ms) g in
      let whole : (not (has t rest)
            && ((around && fits_members g (first_tag t ms) false ms) && fits c rest))
          ≡ true =
        rw found at f in
      let (_, a) = split (not (has t rest)) _ whole in
      let (b, rest_fits) = split _ (fits c rest) a in
      let (near, members) = split around _ b in
      let (next, first) = split (outside g rest) _ near in
      record {
        inner = g;
        found = found;
        next = next;
        inner_first = first;
        members = members;
        rest_fits = rest_fits;
      }
]

pub closes-outside :
    (g : Composition) (r : Fragment) → outside g r ≡ true → closes g (texts (flat r)) ≡ true
unfolding flat texts
closes-outside g end h = refl
closes-outside g (field t (leaf v) r) h = h
closes-outside g (field t (repeat ms) r) h = h

pub not_empty :
    (g : Composition) (t : Tag) (m : Fragment) (ms : Members)
    → fits_members g t false (member m ms) ≡ true
    → fits_members g t true (member m ms) ≡ true
unfolding fits_members
not_empty g t end ms h = h
not_empty g t (field x (leaf v) r) ms h = h
not_empty g t (field x (repeat inner) r) ms h = h

pub plain_field :
    (c : Composition) (msg : Fragment) (t : Tag) (v : Text)
    → is_none (find_group t c) ≡ true
    → step c msg [] t v ≡ record { msg = set t (leaf (str v)) msg; stack = [] }
unfolding step top_field
plain_field c msg t v h = elim (Option-cases (find_group t c)) [
  | inl absent ↦ rw absent refl
  | inr (g, found) ↦ let e : is_none (find_group t c) ≡ false = ap is_none found in cc
]

pub open_group :
    (c g : Composition) (msg : Fragment) (t : Tag) (m : Fragment) (ms : Members)
    → find_group t c ≡ some g
    → step c msg [] t (show (count (member m ms)))
      ≡ record { msg = msg; stack = open_frame t g ∷ [] }
unfolding step top_field
open_group c g msg t m ms h = rw (h, count_not_zero m ms) refl

pub empty_group :
    (c g : Composition) (msg : Fragment) (t : Tag)
    → find_group t c ≡ some g
    → step c msg [] t (show (count nil)) ≡ record { msg = set t (repeat nil) msg; stack = [] }
unfolding step top_field count show text_eq
empty_group c g msg t h = rw h refl

abbrev pub read_top : Composition → Fragment → List TagValue → Fragment
read_top c msg fields = read_fields c msg [] fields

-- The fields of a message are read one by one, each group whole.
pub read_message :
    (r : Fragment) (c : Composition) (msg : Fragment)
    → fits c r ≡ true
    → read_top c msg (texts (flat r)) ≡ join msg r
unfolding read_fields flat texts join
read_message end c msg f = refl
read_message (field t (leaf (int_value n)) r) c msg f = unfold fits in cc
read_message (field t (leaf null) r) c msg f = unfold fits in cc
read_message (field t (leaf (str v)) r) c msg f =
    let (here, rest) =
      split ((is_none (find_group t c)) && not (has t r)) (fits c r) (unfold fits in f) in
    let (plain, _) = split (is_none (find_group t c)) _ here in
    ap (λ s. read_fields c s.msg s.stack (texts (flat r))) (plain_field c msg t v plain)
    ∙ read_message r c (set t (leaf (str v)) msg) rest
read_message (field t (repeat nil) r) c msg f =
    let i = fits_group c t nil r f in
    ap (λ s. read_fields c s.msg s.stack (texts (flat r))) (empty_group c i.inner msg t i.found)
    ∙ read_message r c (set t (repeat nil) msg) i.rest_fits
read_message (field t (repeat (member m ms)) r) c msg f =
    let i = fits_group c t (member m ms) r f in
    let first = first_tag t (member m ms) in
    ap (λ s. read_fields c s.msg s.stack (texts (flat_members (member m ms) ++ flat r)))
      (open_group c i.inner msg t m ms i.found)
    ∙ ap (read_fields c msg (open_frame t i.inner ∷ []))
        (texts-append (flat_members (member m ms)) (flat r))
    ∙ read_group (member m ms) c i.inner msg [] t (texts (flat r))
        (not_empty i.inner first m ms i.members) i.inner_first (closes-outside i.inner r i.next)
        refl
    ∙ read_message r c (set t (repeat (member m ms)) msg) i.rest_fits

pub fits-distinct : (c : Composition) (r : Fragment) → fits c r ≡ true → distinct_tags r ≡ true
unfolding fits distinct_tags
fits-distinct c end f = refl
fits-distinct c (field t (leaf v) r) f = ground (arith, fits-distinct c r)
fits-distinct c (field t (repeat ms) r) f =
    let i = fits_group c t ms r f in
    let (fresh, _) = split (not (has t r)) _ f in ground (arith, fits-distinct c r i.rest_fits)

pub read-flat :
    (c : Composition) (m : Fragment) → fits c m ≡ true → read_fields c end [] (texts (flat m)) ≡ m
read-flat c m f =
    read_message m c end f
    ∙ join-behind end m (unfold behind in fits-distinct c m f)
    ∙ (unfold behind in refl)
