-- ===== src/Spec/Keys.antt =====
-- The order that a sorting key gives to the tags of a composition.
use gofixmsg.Prelude.{
  ℕ, ◌+◌, ◌≡◌, refl, ◌∙◌, Bool, true, false, ◌&&◌, not, ◌==◌, List, [], ◌∷◌, some, arith, lookup,
  insert, nat_eq, lookup-insert, length,
}
use gofixmsg.Spec.{
  Composition, done, fix_tag, component, group, SortingKey, number_items, extract_sorting_key,
  Envelope, or_default, header_tags, start_key,
}

-- The tags and count tags of a composition that has no components, in order.
unfoldable pub tags_in_order : Composition → List ℕ
tags_in_order done = []
tags_in_order (fix_tag t rest) = t ∷ tags_in_order rest
tags_in_order (component c rest) = tags_in_order rest
tags_in_order (group t c rest) = t ∷ tags_in_order rest

unfoldable pub no_components : Composition → Bool
no_components done = true
no_components (fix_tag t rest) = no_components rest
no_components (component c rest) = false
no_components (group t c rest) = no_components rest

unfoldable pub absent : ℕ → List ℕ → Bool
absent t [] = true
absent t (x ∷ xs) = not (x == t) && absent t xs

unfoldable pub distinct : List ℕ → Bool
unfolding absent
distinct [] = true
distinct (x ∷ xs) = absent x xs && distinct xs

-- The keys of the tags, one after another from `n` on.
abbrev pub Numbered : SortingKey → ℕ → List ℕ → Type 0
Numbered key n [] = Unit
Numbered key n (t ∷ ts) = (lookup t key ≡ some n) × Numbered key (n + 1) ts

keeps_key :
    (t n : ℕ) (c : Composition) (key : SortingKey)
    → no_components c ≡ true
    → absent t (tags_in_order c) ≡ true
    → lookup t (number_items n c key) ≡ lookup t key
unfolding number_items no_components tags_in_order absent
keeps_key t n done key plain a = refl
keeps_key t n (fix_tag x rest) key plain a =
    ground (arith, keeps_key t (n + 1) rest (insert x n key), lookup-insert x t n key)
keeps_key t n (component c rest) key plain a = cc
keeps_key t n (group x c rest) key plain a =
    ground (arith, keeps_key t (n + 1) rest (insert x n key), lookup-insert x t n key)

numbered_item :
    (t n : ℕ) (rest : Composition) (key : SortingKey)
    → no_components rest ≡ true
    → absent t (tags_in_order rest) ≡ true
    → lookup t (number_items (n + 1) rest (insert t n key)) ≡ some n
numbered_item t n rest key plain a =
    ground (arith, keeps_key t (n + 1) rest (insert t n key), lookup-insert t t n key)

items-Numbered :
    (n : ℕ) (c : Composition) (key : SortingKey)
    → no_components c ≡ true
    → distinct (tags_in_order c) ≡ true
    → Numbered (number_items n c key) n (tags_in_order c)
unfolding number_items no_components tags_in_order distinct
items-Numbered n done key plain d = tt
items-Numbered n (fix_tag t rest) key plain d = (
  numbered_item t n rest key plain (ground arith),
  items-Numbered (n + 1) rest (insert t n key) plain (ground arith),
)
items-Numbered n (component c rest) key plain d = cc
items-Numbered n (group t c rest) key plain d = (
  numbered_item t n rest key plain (ground arith),
  items-Numbered (n + 1) rest (insert t n key) plain (ground arith),
)

-- In a composition without components whose tags are distinct, the tags get consecutive keys in the
-- order of the composition, the first one behind the keys of the header.
pub sorting_key-Numbered :
    (c : Composition) (spec : Envelope)
    → no_components c ≡ true
    → distinct (tags_in_order c) ≡ true
    → Numbered
        (extract_sorting_key c spec)
        (length (or_default spec.header header_tags))
        (tags_in_order c)
unfolding extract_sorting_key
sorting_key-Numbered c spec plain d =
    items-Numbered (length (or_default spec.header header_tags)) c (start_key spec) plain d

-- No tag of one list stands in the other.
unfoldable pub apart : List ℕ → List ℕ → Bool
unfolding absent
apart [] us = true
apart (t ∷ ts) us = absent t us && apart ts us

Numbered-keeps :
    (ts : List ℕ) (m n : ℕ) (rest : Composition) (key : SortingKey)
    → no_components rest ≡ true
    → apart ts (tags_in_order rest) ≡ true
    → Numbered key m ts
    → Numbered (number_items n rest key) m ts
unfolding apart
Numbered-keeps [] m n rest key plain a h = tt
Numbered-keeps (t ∷ ts) m n rest key plain a h = (
  keeps_key t n rest key plain (ground arith) ∙ h.0,
  Numbered-keeps ts (m + 1) n rest key plain (ground arith) h.1,
)

-- A component without components of its own, and behind it any items without components, all of their
-- tags distinct: behind a component the numbering goes on as if it had one tag, so the tags of the
-- component and the tags behind it get the same consecutive keys, from `n + 1` on.
pub component_overlaps :
    (c rest : Composition) (n : ℕ) (key : SortingKey)
    → no_components c ≡ true
    → no_components rest ≡ true
    → distinct (tags_in_order c) ≡ true
    → distinct (tags_in_order rest) ≡ true
    → apart (tags_in_order c) (tags_in_order rest) ≡ true
    → let keys = number_items n (component c rest) key in
      Numbered keys (n + 1) (tags_in_order c) × Numbered keys (n + 1) (tags_in_order rest)
unfolding number_items
component_overlaps c rest n key plain_c plain d e a =
    let inner = number_items (n + 1) c key in
    (
      Numbered-keeps (tags_in_order c) (n + 1) (n + 1) rest inner plain a
          (items-Numbered (n + 1) c key plain_c d),
      items-Numbered (n + 1) rest inner plain e,
    )
