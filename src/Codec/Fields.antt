-- ===== src/Codec/Fields.antt =====
-- What a message with groups must look like to be read back, and its fields in order.
use gofixmsg.Prelude.{
  ℕ, ◌==◌, ◌≡◌, ◌⊎◌, inl, inr, Bool-cases, Option-cases, refl, ap, Bool, true, false, ◌&&◌, ◌||◌,
  not, Option, none, some, List, [], ◌∷◌, ◌++◌, arith, Text, lookup, insert, nat_eq, lookup-insert,
}
use gofixmsg.Decimal.{show}
use gofixmsg.Message.{Value, str, int_value, null}
use gofixmsg.Fragment.{
  Tag, number, name, tag_eq, Fragment, end, field, leaf, repeat, Members, nil, member, has, count,
}
use gofixmsg.Spec.{
  Composition, done, fix_tag, component, group, get_groups, groups_of, is_member_tag,
}
use gofixmsg.Codec.{TagValue, find_group, valid_tag, Field}

-- The fields in the order of the dicts, each group behind its count.
unfoldable mutual
  pub flat : Fragment → List Field
  flat end = []
  flat (field t (leaf v) rest) = (t, v) ∷ flat rest
  flat (field t (repeat ms) rest) = (t, int_value (count ms)) ∷ (flat_members ms ++ flat rest)

  pub flat_members : Members → List Field
  flat_members nil = []
  flat_members (member m ms) = flat m ++ flat_members ms

-- Whether a tag stands anywhere in a composition.
unfoldable pub mentions : ℕ → Composition → Bool
mentions x done = false
mentions x (fix_tag t rest) = t == x || mentions x rest
mentions x (component c rest) = mentions x c || mentions x rest
mentions x (group t c rest) = t == x || (mentions x c || mentions x rest)

abbrev pub mentioned : Tag → Composition → Bool
mentioned (number n) c = mentions n c
mentioned (name t) c = false

abbrev pub is_text_value : Value → Bool
is_text_value (str t) = true
is_text_value v = false

-- Behind an inner group the member ends, or goes on with a field that the inner group does not know.
abbrev pub goes_on : Composition → Fragment → Bool
goes_on g end = true
goes_on g (field t (leaf v) rest) = not (mentioned t g)
goes_on g (field t (repeat ms) rest) = false

-- The tag that the members of a group start with.
abbrev pub first_tag : Tag → Members → Tag
first_tag t nil = t
first_tag t (member end ms) = t
first_tag t (member (field first e rest) ms) = first

unfoldable mutual
  -- The fields of a member behind its first one.
  pub fits_fields : Composition → Tag → Fragment → Bool
  fits_fields c first end = true
  fits_fields c first (field t (leaf v) rest) =
      ((is_text_value v && not (tag_eq first t)) && (valid_tag t c && not (has t rest)))
      && fits_fields c first rest
  fits_fields c first (field t (repeat ms) rest) =
      ((not (tag_eq first t) && not (valid_tag t c)) && not (has t rest))
      && (elim (find_group t c) [
        | none ↦ false
        | some g ↦
            ((not (mentioned first g) && goes_on g rest) && mentioned (first_tag t ms) g)
            && fits_members g (first_tag t ms) true ms
      ]
          && fits_fields c first rest)

  -- The members of a group, at least one if `wanted`.
  pub fits_members : Composition → Tag → Bool → Members → Bool
  fits_members g first wanted nil = not wanted
  fits_members g first wanted (member end ms) = false
  fits_members g first wanted (member (field t (repeat inner) rest) ms) = false
  fits_members g first wanted (member (field t (leaf v) rest) ms) =
      ((tag_eq t first && is_text_value v) && not (has t rest))
      && (fits_fields g first rest && fits_members g first false ms)

-- The fields of a message of a type: only its groups hold members, and a field that follows a group
-- is none of the group's.
abbrev pub outside : Composition → Fragment → Bool
outside g end = true
outside g (field t e rest) = not (mentioned t g)

abbrev pub is_none : Option Composition → Bool
is_none none = true
is_none (some g) = false

unfoldable pub fits : Composition → Fragment → Bool
unfolding fits_fields
fits c end = true
fits c (field t (leaf v) rest) =
    ((is_text_value v && is_none (find_group t c)) && not (has t rest)) && fits c rest
fits c (field t (repeat ms) rest) =
    not (has t rest)
    && (elim (find_group t c) [
      | none ↦ false
      | some g ↦
          (outside g rest && mentioned (first_tag t ms) g)
          && (fits_members g (first_tag t ms) false ms)
    ]
        && fits c rest)

-- The values as they are read: a count is its decimal numeral.
abbrev pub shown : Value → Text
shown (str t) = t
shown (int_value n) = show n
shown null = []

unfoldable pub texts : List Field → List TagValue
texts [] = []
texts ((t, v) ∷ rest) = (t, shown v) ∷ texts rest

pub texts-append : (xs ys : List Field) → texts (xs ++ ys) ≡ texts xs ++ texts ys
unfolding texts
texts-append [] ys = refl
texts-append ((t, v) ∷ xs) ys = ap (λ r. (t, shown v) ∷ r) (texts-append xs ys)

group-insert :
    (t k : ℕ) (c g : Composition) (d : List (ℕ × Composition))
    → lookup k (insert t c d) ≡ some g
    → (c ≡ g) ⊎ (lookup k d ≡ some g)
group-insert t k c g d h = elim (Bool-cases (t == k)) [
  | inl same ↦ inl (ground (arith, lookup-insert t k c d))
  | inr other ↦ inr (ground (arith, lookup-insert t k c d))
]

-- What a group mentions, the composition that holds it mentions.
mentions-groups :
    (x k : ℕ) (c g : Composition) (d : List (ℕ × Composition))
    → lookup k (get_groups c d) ≡ some g
    → (lookup k d ≡ some g) ⊎ (mentions x g ≡ true → mentions x c ≡ true)
unfolding get_groups mentions
mentions-groups x k done g d h = inl h
mentions-groups x k (fix_tag t rest) g d h = elim (mentions-groups x k rest g d h) [
  | inl old ↦ inl old
  | inr new ↦ inr (λ m. ground (arith, new m))
]
mentions-groups x k (component c rest) g d h =
    elim (mentions-groups x k rest g (get_groups c d) h) [
      | inl old ↦ elim (mentions-groups x k c g d old) [
        | inl older ↦ inl older
        | inr new ↦ inr (λ m. ground (arith, new m))
      ]
      | inr new ↦ inr (λ m. ground (arith, new m))
    ]
mentions-groups x k (group t c rest) g d h = elim (mentions-groups x k rest g (insert t c d) h) [
  | inl old ↦ elim (group-insert t k c g d old) [
    | inl same ↦ inr (λ m. ground (arith, same, m))
    | inr older ↦ inl older
  ]
  | inr new ↦ inr (λ m. ground (arith, new m))
]

pub mentioned-find_group :
    (x t : Tag) (c g : Composition)
    → find_group t c ≡ some g
    → mentioned x c ≡ false
    → mentioned x g ≡ false
unfolding lookup
mentioned-find_group (name x) t c g h k = refl
mentioned-find_group (number x) (name t) c g h k = cc
mentioned-find_group (number x) (number t) c g h k = elim (mentions-groups x t c g [] h) [
  | inl old ↦ cc
  | inr within ↦ elim (Bool-cases (mentions x g)) [
    | inl there ↦ cc (within there)
    | inr absent ↦ absent
  ]
]

group_not_mentioned :
    (x : ℕ) (c g : Composition) (d : List (ℕ × Composition))
    → lookup x (get_groups c d) ≡ some g
    → (lookup x d ≡ some g) ⊎ (mentions x c ≡ true)
unfolding get_groups mentions
group_not_mentioned x done g d h = inl h
group_not_mentioned x (fix_tag t rest) g d h = elim (group_not_mentioned x rest g d h) [
  | inl old ↦ inl old
  | inr new ↦ inr (ground arith)
]
group_not_mentioned x (component c rest) g d h =
    elim (group_not_mentioned x rest g (get_groups c d) h) [
      | inl old ↦ elim (group_not_mentioned x c g d old) [
        | inl older ↦ inl older
        | inr new ↦ inr (ground arith)
      ]
      | inr new ↦ inr (ground arith)
    ]
group_not_mentioned x (group t c rest) g d h =
    elim (group_not_mentioned x rest g (insert t c d) h) [
      | inl old ↦ elim (Bool-cases (t == x)) [
        | inl same ↦ inr (ground arith)
        | inr other ↦ inl (ground (arith, lookup-insert t x c d))
      ]
      | inr new ↦ inr (ground arith)
    ]

-- A tag that a composition does not mention is none of its groups,
pub find_group-absent : (x : Tag) (c : Composition) → mentioned x c ≡ false → find_group x c ≡ none
unfolding lookup
find_group-absent (name x) c h = refl
find_group-absent (number x) c h = elim (Option-cases (lookup x (groups_of c))) [
  | inl absent ↦ absent
  | inr (g, found) ↦ elim (group_not_mentioned x c g [] found) [ inl old ↦ cc | inr there ↦ cc ]
]

member_not_mentioned : (x : ℕ) (c : Composition) → mentions x c ≡ false → is_member_tag x c ≡ false
unfolding mentions is_member_tag
member_not_mentioned x done h = refl
member_not_mentioned x (fix_tag t rest) h = ground (arith, member_not_mentioned x rest)
member_not_mentioned x (component c rest) h = ground (arith, member_not_mentioned x rest)
member_not_mentioned x (group t c rest) h = ground (arith, member_not_mentioned x rest)

-- and none of its tags.
pub valid_tag-absent : (x : Tag) (c : Composition) → mentioned x c ≡ false → valid_tag x c ≡ false
valid_tag-absent (name x) c h = refl
valid_tag-absent (number x) c h = member_not_mentioned x c h
