-- ===== src/Decimal.antt =====
-- `str(n)` of a number, and `int` as its inverse.
use Prim.Native.Char.{code}
use Prim.Native.String.{String}
use gofixmsg.Prelude.{
  ℕ, zero, suc, ◌+◌, ◌-◌, ◌*◌, ◌/◌, ◌%◌, ◌^◌, ◌<◌, ◌≤◌, ◌≡◌, refl, true, [], ◌∷◌, ◌++◌, arith, Text,
  ltb, lt→ltb, if◌then◌else◌, Bool-cases, inl, inr, length, length-append, all_digits, isdigit,
  int_from, int, is_digit,
}

-- The code points of a text literal.
abbrev pub codes : String → Text
codes String.[] = []
codes (String.◌∷◌ c s) = code c ∷ codes s

-- The last digit, and what stands before it.
show_from : ℕ → ℕ → Text
show_from zero n = []
show_from (suc fuel) n =
    let rest = show_from fuel (n / 10) ++ (b'0' + n % 10) ∷ [] in
    if ltb n 10 then (b'0' + n) ∷ [] else rest

-- A number has no more digits than its value plus one.
unfoldable pub show : ℕ → Text
unfolding show_from
show n = show_from (suc n) n

int_from-append :
    (n : ℕ) (s : Text) (c : ℕ) → int_from n (s ++ c ∷ []) ≡ int_from n s * 10 + (c - b'0')
unfolding int_from
int_from-append n [] c = refl
int_from-append n (d ∷ s) c = int_from-append (n * 10 + (d - b'0')) s c

int_from-show_from : (fuel n : ℕ) → n < fuel → int_from 0 (show_from fuel n) ≡ n
unfolding show_from
int_from-show_from zero n h = elim h [ ]
int_from-show_from (suc fuel) n h = elim (Bool-cases (ltb n 10)) [
  | inl small ↦ rw small (unfold int_from in omega arith)
  | inr large ↦ rw large (
      rw (int_from-append 0 (show_from fuel (n / 10)) (b'0' + n % 10))
        (rw (int_from-show_from fuel (n / 10) (ground arith)) (ground arith)))
]

-- Reading a printed number gives it back.
pub int-show : (n : ℕ) → int (show n) ≡ n
unfolding int show
int-show n = int_from-show_from (suc n) n (omega arith)

all_digits-append :
    (s : Text) (c : ℕ) → all_digits s ≡ true → is_digit c ≡ true → all_digits (s ++ c ∷ []) ≡ true
unfolding all_digits
all_digits-append [] c h d = ground arith
all_digits-append (x ∷ s) c h d = ground (arith, all_digits-append s c)

all_digits-show_from : (fuel n : ℕ) → all_digits (show_from fuel n) ≡ true
unfolding show_from
all_digits-show_from zero n = unfold all_digits in refl
all_digits-show_from (suc fuel) n = elim (Bool-cases (ltb n 10)) [
  | inl small ↦ rw small (unfold all_digits in ground arith)
  | inr large ↦ rw large (
      all_digits-append (show_from fuel (n / 10)) (b'0' + n % 10)
        (all_digits-show_from fuel (n / 10)) (ground arith))
]

isdigit_of : (s : Text) → 0 < length s → all_digits s ≡ true → isdigit s ≡ true
unfolding isdigit
isdigit_of [] h d = elim h [ ]
isdigit_of (c ∷ s) h d = d

length-show_from : (fuel n : ℕ) → 0 < length (show_from (suc fuel) n)
unfolding show_from
length-show_from fuel n = elim (Bool-cases (ltb n 10)) [
  | inl small ↦ rw small (omega arith)
  | inr large ↦
      rw large (omega (arith, length-append (show_from fuel (n / 10)) ((b'0' + n % 10) ∷ [])))
]

-- A printed number is a text of digits.
pub isdigit-show : (n : ℕ) → isdigit (show n) ≡ true
unfolding show
isdigit-show n =
    isdigit_of (show_from (suc n) n) (length-show_from n n) (all_digits-show_from (suc n) n)

length-show_from_most : (k fuel n : ℕ) → n < 10 ^ suc k → length (show_from fuel n) ≤ suc k
unfolding show_from
length-show_from_most k zero n h = omega arith
length-show_from_most zero (suc fuel) n h = rw (lt→ltb n 10 (omega arith)) (omega arith)
length-show_from_most (suc k) (suc fuel) n h = elim (Bool-cases (ltb n 10)) [
  | inl small ↦ rw small (omega arith)
  | inr large ↦ rw large (
      rw (length-append (show_from fuel (n / 10)) ((b'0' + n % 10) ∷ []))
        (omega (arith, length-show_from_most k fuel (n / 10) (omega arith))))
]

-- A number below a power of ten has at most that many digits.
pub length-show : (k n : ℕ) → n < 10 ^ suc k → length (show n) ≤ suc k
unfolding show
length-show k n h = length-show_from_most k (suc n) n h
