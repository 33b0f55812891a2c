-- ===== src/IdGen/Nyse.antt =====
-- zz_archive/pyfixmsg_plus/idgen/id_generator.py: NyseBranchSeqGenerator up to its starting branch code,
-- which CHIXBranchSeqGenerator shares.
use gofixmsg.Prelude.{
  ℕ, zero, suc, ◌+◌, ◌-◌, ◌*◌, ◌==◌, ◌≡◌, refl, Bool, true, false, ◌||◌, ◌&&◌, Option, none, some,
  [], ◌∷◌, Text, arith, ltb, leb, if◌then◌else◌, length, avoids, Bool-cases, inl, inr,
}

-- `p.isupper()` of one character.
abbrev isupper : ℕ → Bool
isupper p = leb b'A' p && leb p b'Z'

-- What `get_min` and `get_max` do: `buf[i] = p` raises behind the third letter, -1 refuses the text.
data Branch : Type 0 where
  index_error refused : Branch
  code : ℕ → Branch

-- `buf`, three letters.
record Buffer : Type 0 where
  first : ℕ
  second : ℕ
  third : ℕ

-- `buf[i] = p`
abbrev put : ℕ → ℕ → Buffer → Option Buffer
put zero p buf = some (record buf { first = p })
put (suc zero) p buf = some (record buf { second = p })
put (suc (suc zero)) p buf = some (record buf { third = p })
put (suc (suc (suc i))) p buf = none

unfoldable read_letters : ℕ → Option Buffer → Text → Branch
read_letters i none s = index_error
read_letters i (some buf) [] =
    code ((buf.first - b'A') * 26 * 26 + (buf.second - b'A') * 26 + buf.third - b'A')
read_letters i (some buf) (p ∷ s) =
    let rest = read_letters (i + 1) (put i p buf) s in if isupper p then rest else refused

-- `get_min` fills up with A, `get_max` with Z.
unfoldable branch_code : ℕ → Text → Text → Branch
branch_code filler p_start p_end =
    if ltb 3 (length p_end - length p_start)
    then refused
    else read_letters 0 (some (record { first = filler; second = filler; third = filler })) p_start

-- `s.split('-')[0]`
unfoldable before_dash : Text → Text
before_dash [] = []
before_dash (c ∷ s) = let rest = before_dash s in if c == b'-' then [] else c ∷ rest

abbrev accepted : Branch → Option ℕ
accepted index_error = none
accepted refused = none
accepted (code n) = some n

-- The first part of `__init__`: the value of `min_`, or nothing when it raises.
unfoldable starting_code : Text → Option ℕ
starting_code s =
    if length s == 0 || ltb 7 (length s) || avoids b'-' s
    then none
    else accepted (branch_code b'A' s (before_dash s))

read_letters-dash :
    (i : ℕ) (buf : Option Buffer) (s : Text)
    → avoids b'-' s ≡ false
    → accepted (read_letters i buf s) ≡ none
unfolding read_letters avoids
read_letters-dash i none s h = refl
read_letters-dash i (some buf) [] h = cc
read_letters-dash i (some buf) (p ∷ s) h = elim (Bool-cases (isupper p)) [
  | inl upper ↦ rw upper (read_letters-dash (i + 1) (put i p buf) s (ground arith))
  | inr other ↦ rw other refl
]

not_accepted :
    (b : Bool) (x : Branch) → accepted x ≡ none → accepted (if b then refused else x) ≡ none
not_accepted true x h = refl
not_accepted false x h = h

branch_code-dash :
    (filler : ℕ) (s t : Text) → avoids b'-' s ≡ false → accepted (branch_code filler s t) ≡ none
unfolding branch_code
branch_code-dash filler s t h = not_accepted _ _ (read_letters-dash 0 _ s h)

-- The generator cannot be made: `__init__` raises for every text, since `get_min` is given the text
-- with its dash and refuses every character that is no upper-case letter.
starting_code-none : (s : Text) → starting_code s ≡ none
unfolding starting_code
starting_code-none s = elim (Bool-cases (avoids b'-' s)) [
  | inl no_dash ↦ ground arith
  | inr dash ↦ ground (arith, branch_code-dash b'A' s (before_dash s) dash)
]
