-- ===== src/Prelude/Lists.antt =====
-- Lists measured and cut by native numbers, under the library's names.
use Prim.Native.Nat.{ℕ, zero, suc, ◌+◌, ◌-◌}
use mathlib.Core.Path.{◌≡◌, refl, ap}
use mathlib.Core.Logic.{◌⊎◌, inl, inr}
use mathlib.Core.List.{List, [], ◌∷◌, ◌++◌}
use native.Mathlib.Omega.{arith}

module _ {ℓ} {A : Type ℓ} where
  abbrev pub length : List A → ℕ
  length [] = 0
  length (x ∷ xs) = suc (length xs)

  abbrev pub take : ℕ → List A → List A
  take zero xs = []
  take (suc n) [] = []
  take (suc n) (x ∷ xs) = x ∷ take n xs

  abbrev pub drop : ℕ → List A → List A
  drop zero xs = xs
  drop (suc n) [] = []
  drop (suc n) (x ∷ xs) = drop n xs

  pub length-append : (xs ys : List A) → length (xs ++ ys) ≡ length xs + length ys
  length-append [] ys = omega arith
  length-append (x ∷ xs) ys = omega (arith, length-append xs ys)

  pub length-drop : (n : ℕ) (xs : List A) → length (drop n xs) ≡ length xs - n
  length-drop zero xs = omega arith
  length-drop (suc n) [] = omega arith
  length-drop (suc n) (x ∷ xs) = omega (arith, length-drop n xs)

module _ {ℓ} {A : Type ℓ} where
  pub drop-append : (xs ys : List A) → drop (length xs) (xs ++ ys) ≡ ys
  drop-append [] ys = refl
  drop-append (x ∷ xs) ys = drop-append xs ys

  pub take-append : (xs ys : List A) → take (length xs) (xs ++ ys) ≡ xs
  take-append [] ys = refl
  take-append (x ∷ xs) ys = ap (λ r. x ∷ r) (take-append xs ys)

-- A prefix of `xs ++ ys` ends inside `xs` or contains it.
pub append_split {ℓ} :
    {A : Type ℓ} (xs ys p r : List A)
    → p ++ r ≡ xs ++ ys
    → ((c : A) × (k : List A) × (xs ≡ p ++ c ∷ k)) ⊎ ((k : List A) × (p ≡ xs ++ k) × (k ++ r ≡ ys))
append_split [] ys p r h = inr (p, refl, h)
append_split (x ∷ xs) ys [] r h = inl (x, xs, refl)
append_split (x ∷ xs) ys (y ∷ p) r h = elim (append_split xs ys p r (cc)) [
  | inl (c, k, e) ↦ inl (c, k, cc)
  | inr (k, e, f) ↦ inr (k, cc, f)
]

module _ {ℓ} {A : Type ℓ} where
  pub drop-at : (n : ℕ) (xs ys : List A) → n ≡ length xs → drop n (xs ++ ys) ≡ ys
  drop-at n xs ys h = rw h (drop-append xs ys)

  pub take-at : (n : ℕ) (xs ys : List A) → n ≡ length xs → take n (xs ++ ys) ≡ xs
  take-at n xs ys h = rw h (take-append xs ys)
