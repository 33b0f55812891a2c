-- ===== src/Spec.antt =====
-- zz_archive/pyfixmsg/reference.py: what a specification says of a message type or of a repeating
-- group, once its XML is read: the tags and groups of its composition, and the order of its tags.
mod Keys
mod Tests
use gofixmsg.Prelude.{
  ℕ, ◌+◌, ◌-◌, ◌==◌, Bool, true, false, ◌||◌, List, [], ◌∷◌, ◌++◌, Option, none, some,
  if◌then◌else◌, length, lookup, insert, nat_eq,
}

-- The items of a composition in order, without their names and the flag `required`.
pub data Composition : Type 0 where
  done : Composition
  fix_tag : ℕ → Composition → Composition
  component : Composition → Composition → Composition
  group : ℕ → Composition → Composition → Composition

-- `{group.count_tag.tag: group for group in _get_groups(...)}`, on a dict that is filled already.
unfoldable pub get_groups : Composition → List (ℕ × Composition) → List (ℕ × Composition)
get_groups done d = d
get_groups (fix_tag t rest) d = get_groups rest d
get_groups (component c rest) d = get_groups rest (get_groups c d)
get_groups (group t c rest) d = get_groups rest (insert t c d)

abbrev pub groups_of : Composition → List (ℕ × Composition)
groups_of c = get_groups c []

-- `Group.tags`: the tags of the composition itself, not those of its components.
unfoldable pub is_member_tag : ℕ → Composition → Bool
is_member_tag tag done = false
is_member_tag tag (fix_tag t rest) = t == tag || is_member_tag tag rest
is_member_tag tag (component c rest) = is_member_tag tag rest
is_member_tag tag (group t c rest) = is_member_tag tag rest

abbrev pub header_tags : List ℕ
header_tags =
    8 ∷ 9 ∷ 35 ∷ 1128 ∷ 1156 ∷ 1129 ∷ 49 ∷ 56 ∷ 115 ∷ 128 ∷ 90 ∷ 91 ∷ 34 ∷ 50 ∷ 142 ∷ 57 ∷ 143 ∷ 116
    ∷ 144 ∷ 129 ∷ 145 ∷ 43 ∷ 97 ∷ 52 ∷ 122 ∷ 212 ∷ 213 ∷ 347 ∷ 369 ∷ 370 ∷ 1128 ∷ 1129 ∷ []

abbrev pub trailer_tags : List ℕ
trailer_tags = 93 ∷ 89 ∷ 10 ∷ []

abbrev pub last_key : ℕ
last_key = 10000000000

abbrev pub SortingKey : Type 0
SortingKey = List (ℕ × ℕ)

-- `for index, item in enumerate(tags): key[item] = index`
unfoldable pub number_from : ℕ → List ℕ → SortingKey → SortingKey
number_from i [] key = key
number_from i (t ∷ ts) key = number_from (i + 1) ts (insert t i key)

-- The trailer from its last tag on: the key 10e9 - index.
unfoldable pub number_down : ℕ → List ℕ → SortingKey → SortingKey
number_down i [] key = key
number_down i (t ∷ ts) key = number_down (i + 1) ts (insert t (last_key - i) key)

abbrev pub header_sort_map : SortingKey
header_sort_map =
    insert 93 (last_key - 2)
      (insert 89 (last_key - 1) (insert 10 last_key (number_from 0 header_tags [])))

unfoldable pub reverse : List ℕ → List ℕ
reverse [] = []
reverse (x ∷ xs) = reverse xs ++ x ∷ []

-- `tags or DEFAULT`
abbrev pub or_default : List ℕ → List ℕ → List ℕ
or_default [] default = default
or_default (t ∷ ts) default = t ∷ ts

-- The loop over the definition, from the key `next` on; a component is numbered from one past its
-- own place.
unfoldable pub number_items : ℕ → Composition → SortingKey → SortingKey
number_items next done key = key
number_items next (fix_tag t rest) key = number_items (next + 1) rest (insert t next key)
number_items next (component c rest) key =
    number_items (next + 1) rest (number_items (next + 1) c key)
number_items next (group t c rest) key = number_items (next + 1) rest (insert t next key)

-- The header and trailer tags that the specification lists.
pub record Envelope : Type 0 where
  pub header : List ℕ
  pub trailer : List ℕ

unfoldable pub start_key : Envelope → SortingKey
unfolding number_down number_from reverse
start_key spec = number_from 0 (or_default spec.header header_tags) (
    number_down 0 (reverse (or_default spec.trailer trailer_tags))
      (insert 10 last_key (insert 35 0 [])))

-- `_extract_sorting_key`: the items start behind the header.
unfoldable pub extract_sorting_key : Composition → Envelope → SortingKey
unfolding start_key
extract_sorting_key definition spec =
    number_items (length (or_default spec.header header_tags)) definition (start_key spec)

-- `sorting_key.get(tag, int(1e9 + tag))`
abbrev pub key_or : Option ℕ → ℕ → ℕ
key_or (some k) tag = k
key_or none tag = 1000000000 + tag

abbrev pub sort_key : SortingKey → ℕ → ℕ
sort_key key tag = key_or (lookup tag key) tag
