-- ===== src/Fragment.antt =====
-- zz_archive/pyfixmsg/fixmessage.py (FixFragment) and pyfixmsg/__init__.py (RepeatingGroup): messages
-- whose fields are values or repeating groups, as ordered dicts, and the searches through them.
pub mod Joining
mod Searching
mod Tests
use gofixmsg.Prelude.{
  ℕ, ◌+◌, ◌==◌, Bool, true, false, ◌||◌, not, List, [], ◌∷◌, ◌++◌, map, Option, none, some, Text,
  text_eq, if◌then◌else◌,
}
use gofixmsg.Message.{Value}

-- A key of the dict: an int, or a text that is no int.
pub data Tag : Type 0 where
  number : ℕ → Tag
  name : Text → Tag

abbrev pub tag_eq : Tag → Tag → Bool
tag_eq (number a) (number b) = a == b
tag_eq (name s) (name t) = text_eq s t
tag_eq _ _ = false

mutual
  pub data Fragment : Type 0 where
    end : Fragment
    field : Tag → Entry → Fragment → Fragment

  pub data Entry : Type 0 where
    leaf : Value → Entry
    repeat : Members → Entry

  pub data Members : Type 0 where
    nil : Members
    member : Fragment → Members → Members

-- `tag in self`
unfoldable pub has : Tag → Fragment → Bool
has tag end = false
has tag (field t e rest) = tag_eq t tag || has tag rest

unfoldable pub get : Tag → Fragment → Option Entry
get tag end = none
get tag (field t e rest) = if tag_eq t tag then some e else get tag rest

-- `self[tag] = e`: a present key keeps its place.
unfoldable pub set : Tag → Entry → Fragment → Fragment
set tag e end = field tag e end
set tag e (field t old rest) = if tag_eq t tag then field t e rest else field t old (set tag e rest)

-- `list.append`
unfoldable pub append : Members → Fragment → Members
append nil m = member m nil
append (member x ms) m = member x (append ms m)

unfoldable pub count : Members → ℕ
count nil = 0
count (member m ms) = count ms + 1

unfoldable mutual
  pub anywhere_groups : Tag → Fragment → Bool
  anywhere_groups tag end = false
  anywhere_groups tag (field t e rest) = anywhere_entry tag e || anywhere_groups tag rest

  pub anywhere_entry : Tag → Entry → Bool
  anywhere_entry tag (leaf v) = false
  anywhere_entry tag (repeat ms) = anywhere_member tag ms

  pub anywhere_member : Tag → Members → Bool
  anywhere_member tag nil = false
  anywhere_member tag (member m ms) = (has tag m || anywhere_groups tag m) || anywhere_member tag ms

abbrev pub anywhere : Tag → Fragment → Bool
anywhere tag m = has tag m || anywhere_groups tag m

-- A step of a path: into the value of a key, or into a member of a group.
pub data Step : Type 0 where
  at : Tag → Step
  index : ℕ → Step

abbrev pub FieldPath : Type 0
FieldPath = List Step

abbrev pub own_path : Tag → Fragment → List FieldPath
own_path tag m = if has tag m then (at tag ∷ []) ∷ [] else []

unfoldable mutual
  pub find_groups : Tag → Fragment → List FieldPath
  find_groups tag end = []
  find_groups tag (field t e rest) = map (λ p. at t ∷ p) (find_entry tag e) ++ find_groups tag rest

  pub find_entry : Tag → Entry → List FieldPath
  find_entry tag (leaf v) = []
  find_entry tag (repeat ms) = find_members tag 0 ms

  -- `RepeatingGroup.find_all`, from the index of the first member on.
  pub find_members : Tag → ℕ → Members → List FieldPath
  find_members tag i nil = []
  find_members tag i (member m ms) =
      (if anywhere tag m then map (λ p. index i ∷ p) (own_path tag m ++ find_groups tag m) else [])
      ++ find_members tag (i + 1) ms

abbrev pub find_all : Tag → Fragment → List FieldPath
find_all tag m = own_path tag m ++ find_groups tag m

unfoldable pub among_tags : Tag → List Tag → Bool
among_tags t [] = false
among_tags t (x ∷ xs) = tag_eq x t || among_tags t xs

-- `list(set(...))`, in the order of the last occurrences.
unfoldable pub unique : List Tag → List Tag
unique [] = []
unique (t ∷ ts) = let rest = unique ts in if among_tags t rest then rest else t ∷ rest

unfoldable mutual
  pub listed_tags : Fragment → List Tag
  listed_tags end = []
  listed_tags (field t e rest) = entry_tags e ++ t ∷ listed_tags rest

  pub entry_tags : Entry → List Tag
  entry_tags (leaf v) = []
  entry_tags (repeat ms) = unique (member_tags ms)

  pub member_tags : Members → List Tag
  member_tags nil = []
  member_tags (member m ms) = unique (listed_tags m) ++ member_tags ms

unfoldable pub all_tags : Fragment → List Tag
all_tags m = unique (listed_tags m)
