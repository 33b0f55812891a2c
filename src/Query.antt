-- ===== src/Query.antt =====
-- zz_archive/pyfixmsg/fixmessage.py: writing and deleting tags, and the tests of a tag's value. Values
-- are native strings of ASCII characters.
mod Tests
use gofixmsg.Prelude.{
  ℕ, ◌-◌, ◌+◌, ◌==◌, ◌≡◌, refl, ap, ◌∙◌, Bool, true, false, ◌&&◌, ◌||◌, not, Option, none, some,
  List, [], ◌∷◌, Text, text_eq, leb, if◌then◌else◌, lookup, insert, remove, contains, nat_eq,
  lookup-insert, lookup-remove, find, arith, sym, Bool-cases, inl, inr, text_eq_sound, text_eq_refl,
}
use gofixmsg.Decimal.{show, codes}
use gofixmsg.Message.{FixMessage, Value, str, int_value, null}

-- `native_str` of a value; None stays None.
abbrev pub native_str : Value → Option Text
native_str (str t) = some t
native_str (int_value n) = some (show n)
native_str null = none

abbrev pub is_blank : Value → Bool
is_blank null = true
is_blank (str []) = true
is_blank _ = false

unfoldable pub set_or_delete : ℕ → Value → FixMessage → FixMessage
set_or_delete tag value m =
    if is_blank value then if contains tag m then remove tag m else m else insert tag value m

unfoldable pub apply : FixMessage → FixMessage → FixMessage
apply [] m = m
apply ((tag, value) ∷ rest) m = apply rest (set_or_delete tag value m)

remove-absent : (tag : ℕ) (m : FixMessage) → contains tag m ≡ false → remove tag m ≡ m
unfolding contains remove
remove-absent tag [] h = refl
remove-absent tag ((k, v) ∷ m) h = ground (arith, remove-absent tag m)

-- What a write of a value is to leave under its tag: nothing for None and the empty text, and the
-- value for every other, 0 included.
abbrev pub kept : Value → Option Value
kept null = none
kept (str []) = none
kept (str (c ∷ t)) = some (str (c ∷ t))
kept (int_value n) = some (int_value n)

kept-blank : (value : Value) → is_blank value ≡ true → kept value ≡ none
kept-blank null h = refl
kept-blank (str []) h = refl
kept-blank (str (c ∷ t)) h = cc
kept-blank (int_value n) h = cc

kept-full : (value : Value) → is_blank value ≡ false → kept value ≡ some value
kept-full null h = cc
kept-full (str []) h = cc
kept-full (str (c ∷ t)) h = refl
kept-full (int_value n) h = refl

remove-same :
    (tag : ℕ) (m : FixMessage) → (if contains tag m then remove tag m else m) ≡ remove tag m
remove-same tag m = elim (Bool-cases (contains tag m)) [
  | inl there ↦ rw there refl
  | inr absent ↦ rw absent (sym (remove-absent tag m absent))
]

lookup-set_or_delete :
    (tag k : ℕ) (value : Value) (m : FixMessage)
    → lookup tag (set_or_delete k value m) ≡ (if k == tag then kept value else lookup tag m)
unfolding set_or_delete
lookup-set_or_delete tag k value m = elim (Bool-cases (is_blank value)) [
  | inl blank ↦
      rw blank
        (rw (kept-blank value blank) (ap (lookup tag) (remove-same k m) ∙ lookup-remove k tag m))
  | inr full ↦ rw full (rw (kept-full value full) (lookup-insert k tag value m))
]

-- The specification of `apply`: the last write of the tag counts, and a blank value deletes.
unfoldable pub applied : ℕ → FixMessage → Option Value → Option Value
applied tag [] old = old
applied tag ((k, value) ∷ rest) old = applied tag rest (if k == tag then kept value else old)

-- Behind `apply`, every tag has the value that the last entry for it in the update gives, none if
-- that is None or empty, and its old value if there is no such entry.
pub lookup-apply :
    (tag : ℕ) (update m : FixMessage)
    → lookup tag (apply update m) ≡ applied tag update (lookup tag m)
unfolding apply applied
lookup-apply tag [] m = refl
lookup-apply tag ((k, value) ∷ rest) m =
    lookup-apply tag rest (set_or_delete k value m)
    ∙ ap (applied tag rest) (lookup-set_or_delete tag k value m)

-- `lower` of ASCII.
abbrev pub lower_char : ℕ → ℕ
lower_char c = if leb b'A' c && leb c b'Z' then c + 32 else c

unfoldable pub lower : Text → Text
lower [] = []
lower (c ∷ t) = lower_char c ∷ lower t

-- `==` of two strings either of which may be None.
abbrev pub same : Option Text → Option Text → Bool
same none none = true
same (some s) (some t) = text_eq s t
same _ _ = false

-- `lower` of None raises.
abbrev pub same_lower : Option Text → Option Text → Option Bool
same_lower (some s) (some t) = some (text_eq (lower s) (lower t))
same_lower _ _ = none

abbrev pub exact : Option Value → Value → Bool → Option Bool
exact none value insensitive = some false
exact (some mine) value insensitive =
    if insensitive
    then same_lower (native_str mine) (native_str value)
    else some (same (native_str mine) (native_str value))

-- `none`: an exception.
unfoldable pub tag_exact : ℕ → Value → Bool → FixMessage → Option Bool
tag_exact tag value insensitive m = exact (lookup tag m) value insensitive

unfoldable pub tag_iexact : ℕ → Value → FixMessage → Option Bool
tag_iexact tag value m = tag_exact tag value true m

abbrev pub found : Option ℕ → Bool
found none = false
found (some i) = true

-- `value in mine`, which raises on None.
abbrev pub within : Option Text → Option Text → Option Bool
within (some value) (some mine) = some (found (find value mine))
within _ _ = none

abbrev pub within_lower : Option Text → Option Text → Option Bool
within_lower (some value) (some mine) = some (found (find (lower value) (lower mine)))
within_lower _ _ = none

abbrev pub contained : Option Value → Value → Bool → Option Bool
contained none value insensitive = some false
contained (some mine) value insensitive =
    if insensitive
    then within_lower (native_str value) (native_str mine)
    else within (native_str value) (native_str mine)

unfoldable pub tag_contains : ℕ → Value → Bool → FixMessage → Option Bool
tag_contains tag value insensitive m = contained (lookup tag m) value insensitive

unfoldable pub tag_icontains : ℕ → Value → FixMessage → Option Bool
tag_icontains tag value m = tag_contains tag value true m

-- `all(...)`, which stops at the first False or exception.
abbrev pub all_next : Option Bool → Option Bool → Option Bool
all_next (some true) rest = rest
all_next r rest = r

unfoldable pub tag_exact_dict : FixMessage → FixMessage → Option Bool
tag_exact_dict [] m = some true
tag_exact_dict ((tag, value) ∷ rest) m =
    all_next (tag_exact tag value false m) (tag_exact_dict rest m)

-- A value that is absent, None, empty or 0 counts as missing.
abbrev pub is_missing : Option Value → Bool
is_missing none = true
is_missing (some null) = true
is_missing (some (str [])) = true
is_missing (some (str (c ∷ t))) = false
is_missing (some (int_value n)) = n == 0

abbrev pub among : Option Text → List Value → Bool
among s [] = false
among s (v ∷ vs) = same s (native_str v) || among s vs

abbrev pub is_in : Option Value → List Value → Bool
is_in none values = false
is_in (some v) values = not (is_missing (some v)) && among (native_str v) values

unfoldable pub tag_in : ℕ → List Value → FixMessage → Bool
tag_in tag values m = is_in (lookup tag m) values

lowered : (s t : Text) → text_eq s t ≡ true → some (text_eq (lower s) (lower t)) ≡ some true
lowered s t h = rw (text_eq_sound s t h) (ap some (text_eq_refl (lower t)))

some-true : (b : Bool) → some b ≡ some true → b ≡ true
some-true b h = ground arith

exact_agree :
    (o : Option Value) (t : Text)
    → exact o (str t) false ≡ some true
    → exact o (str t) true ≡ some true
exact_agree none t h = ground arith
exact_agree (some (str s)) t h = lowered s t (some-true (text_eq s t) h)
exact_agree (some (int_value n)) t h = lowered (show n) t (some-true (text_eq (show n) t) h)
exact_agree (some null) t h = ground arith

-- A tag that matches a string exactly matches it when case is ignored too.
pub tag_exact-tag_iexact :
    (tag : ℕ) (t : Text) (m : FixMessage)
    → tag_exact tag (str t) false m ≡ some true
    → tag_iexact tag (str t) m ≡ some true
unfolding tag_exact tag_iexact
tag_exact-tag_iexact tag t m h = exact_agree (lookup tag m) t h
