-- ===== src/Prelude/Bytes.antt =====
-- Searching in byte strings and texts: `find`, `startswith`, `endswith`, `isdigit` and `int` of
-- Python, on ASCII.
use Prim.Native.Nat.{ℕ, suc, ◌+◌, ◌-◌, ◌*◌}
use mathlib.Core.Bool.{Bool, true, false, ◌&&◌}
use mathlib.Core.Option
use mathlib.Core.Option.{Option, none, some}
use mathlib.Core.List.{[], ◌∷◌, ◌++◌, append-nil}
use mathlib.Core.Path.{◌≡◌, refl, subst}
use native.Mathlib.Omega.{arith}
use gofixmsg.Prelude.Tests.{Text, ◌==◌, leb, if◌then◌else◌}
use gofixmsg.Prelude.Lists.{length, drop}

unfoldable pub starts_with : Text → Text → Bool
starts_with [] s = true
starts_with (p ∷ ps) [] = false
starts_with (p ∷ ps) (c ∷ cs) = p == c && starts_with ps cs

unfoldable pub find : Text → Text → Option ℕ
unfolding starts_with
find pat [] = if starts_with pat [] then some 0 else none
find pat (c ∷ s) =
    let later = find pat s in if starts_with pat (c ∷ s) then some 0 else Option.map suc later

-- `s.find(pat, start)`, for a start inside the text.
abbrev pub find_from : Text → Text → ℕ → Option ℕ
find_from pat s start = Option.map (λ i. start + i) (find pat (drop start s))

-- Whether the last byte is `c`.
unfoldable pub ends_in : ℕ → Text → Bool
ends_in c [] = false
ends_in c (x ∷ []) = x == c
ends_in c (x ∷ y ∷ s) = ends_in c (y ∷ s)

abbrev pub is_digit : ℕ → Bool
is_digit c = leb b'0' c && leb c b'9'

unfoldable pub all_digits : Text → Bool
all_digits [] = true
all_digits (c ∷ s) = is_digit c && all_digits s

-- `s.isdigit()`: not empty, and digits only.
unfoldable pub isdigit : Text → Bool
unfolding all_digits
isdigit [] = false
isdigit (c ∷ s) = all_digits (c ∷ s)

-- `int(s)` of a text of digits.
unfoldable pub int_from : ℕ → Text → ℕ
int_from n [] = n
int_from n (c ∷ s) = int_from (n * 10 + (c - b'0')) s

unfoldable pub int : Text → ℕ
unfolding int_from
int s = int_from 0 s

unfoldable pub avoids : ℕ → Text → Bool
avoids c [] = true
avoids c (x ∷ s) = (if x == c then false else true) && avoids c s

pub starts_with-append : (pat s : Text) → starts_with pat (pat ++ s) ≡ true
unfolding starts_with
starts_with-append [] s = refl
starts_with-append (p ∷ ps) s = ground (arith, starts_with-append ps s)

-- A pattern whose first byte does not occur in `xs` is found right behind it.
pub find-append :
    (p : ℕ) (ps xs rest : Text)
    → avoids p xs ≡ true
    → find (p ∷ ps) (xs ++ ((p ∷ ps) ++ rest)) ≡ some (length xs)
unfolding find avoids
find-append p ps [] rest h = rw (starts_with-append (p ∷ ps) rest)
find-append p ps (x ∷ xs) rest h = ground (arith, find-append p ps xs rest)

pub find-avoids : (p : ℕ) (ps xs : Text) → avoids p xs ≡ true → find (p ∷ ps) xs ≡ none
unfolding find avoids
find-avoids p ps [] h = refl
find-avoids p ps (x ∷ xs) h = ground (arith, find-avoids p ps xs)

pub avoids-append : (c : ℕ) (xs ys : Text) → avoids c (xs ++ ys) ≡ (avoids c xs && avoids c ys)
unfolding avoids
avoids-append c [] ys = refl
avoids-append c (x ∷ xs) ys = ground (arith, avoids-append c xs ys)

pub ends_in-append : (c : ℕ) (xs ys : Text) → ends_in c ys ≡ true → ends_in c (xs ++ ys) ≡ true
unfolding ends_in
ends_in-append c [] ys h = h
ends_in-append c (x ∷ []) [] h = cc
ends_in-append c (x ∷ []) (y ∷ ys) h = h
ends_in-append c (x ∷ y ∷ xs) ys h = ends_in-append c (y ∷ xs) ys h

avoids-all_digits :
    (c : ℕ) (s : Text) → is_digit c ≡ false → all_digits s ≡ true → avoids c s ≡ true
unfolding avoids all_digits
avoids-all_digits c [] h d = refl
avoids-all_digits c (x ∷ s) h d = ground (arith, avoids-all_digits c s h)

-- Digits hold no byte that is none.
pub avoids-isdigit : (c : ℕ) (s : Text) → is_digit c ≡ false → isdigit s ≡ true → avoids c s ≡ true
unfolding avoids isdigit
avoids-isdigit c [] h d = refl
avoids-isdigit c (x ∷ s) h d = avoids-all_digits c (x ∷ s) h d

-- A text shorter than the pattern does not start with it; a beginning of the pattern is no match.
starts_with-short : (p : Text) (c : ℕ) (k : Text) → starts_with (p ++ c ∷ k) p ≡ false
unfolding starts_with
starts_with-short [] c k = refl
starts_with-short (x ∷ p) c k = ground (arith, starts_with-short p c k)

-- Nor is the pattern found in a text that avoids its first byte, followed by a beginning of it whose
-- rest avoids that byte.
pub find-partial :
    (p : ℕ) (ps qs : Text) (c : ℕ) (k xs : Text)
    → ps ≡ qs ++ c ∷ k
    → avoids p qs ≡ true
    → avoids p xs ≡ true
    → find (p ∷ ps) (xs ++ p ∷ qs) ≡ none
unfolding find avoids starts_with
find-partial p ps qs c k [] e a h =
    let short : starts_with ps qs ≡ false = rw e (starts_with-short qs c k) in
    ground (arith, short, find-avoids p ps qs a)
find-partial p ps qs c k (x ∷ xs) e a h = ground (arith, find-partial p ps qs c k xs e a)

pub avoids_prefix : (c : ℕ) (xs ys : Text) → avoids c (xs ++ ys) ≡ true → avoids c xs ≡ true
unfolding avoids
avoids_prefix c [] ys h = refl
avoids_prefix c (x ∷ xs) ys h = ground (arith, avoids_prefix c xs ys)

-- A pattern of which only a beginning stands at the end of a text, behind what avoids its first byte,
-- is not found.
pub find-cut :
    (p : ℕ) (ps xs q r : Text) (d : ℕ)
    → p ∷ ps ≡ q ++ d ∷ r
    → avoids p ps ≡ true
    → avoids p xs ≡ true
    → find (p ∷ ps) (xs ++ q) ≡ none
find-cut p ps xs [] r d e a h = rw append-nil (find-avoids p ps xs h)
find-cut p ps xs (x ∷ q) r d e a h =
    let first : p ≡ x = cc in
    let rest : ps ≡ q ++ d ∷ r = cc in
    let clear = avoids_prefix p q (d ∷ r) (rw (← rest) a) in
    subst (λ y. find (p ∷ ps) (xs ++ y ∷ q) ≡ none) first (find-partial p ps q d r xs rest clear h)
