-- ===== src/IdGen/Ose.antt =====
-- zz_archive/pyfixmsg_plus/idgen/id_generator.py: OSESeqGenerator, whose ids are a prefix and a number of
-- ten characters each.
use gofixmsg.Prelude.{
  ℕ, zero, suc, ◌-◌, ◌^◌, ◌<◌, ◌≤◌, ◌==◌, ◌≡◌, refl, sym, ap, ◌∙◌, true, ◌||◌, Option, none, some,
  [], ◌∷◌, ◌++◌, Text, arith, ltb, isdigit, all_digits, int_from, int, if◌then◌else◌, drop, length,
  length-append, drop-at,
}
use gofixmsg.Decimal.{show, int-show, isdigit-show, length-show}
use gofixmsg.IdGen.{ℤ, pos, negsuc, to_int, or_minus_one}

-- `n` zeros, as `ljust` and a width in a format fill up with.
unfoldable zeros : ℕ → Text
zeros zero = []
zeros (suc n) = b'0' ∷ zeros n

-- A number in at least `width` characters, as `f"{n:010d}"` for the width 10; the sign counts.
unfoldable padded : ℕ → ℤ → Text
padded width (pos n) = zeros (width - length (show n)) ++ show n
padded width (negsuc n) = b'-' ∷ (zeros (width - 1 - length (show (suc n))) ++ show (suc n))

-- The generator is its `id_prefix`.
unfoldable ose : Text → Option Text
ose prefix =
    if length prefix == 0 || ltb 10 (length prefix)
    then none
    else some (prefix ++ zeros (10 - length prefix))

unfoldable ose_encode : Text → ℤ → Text
ose_encode id_prefix n = id_prefix ++ padded 10 n

unfoldable ose_decode : (Text → Option ℤ) → Text → ℤ
ose_decode int_other t =
    if length t == 20 then or_minus_one (to_int int_other (drop 10 t)) else negsuc 0

length-zeros : (n : ℕ) → length (zeros n) ≡ n
unfolding zeros
length-zeros zero = refl
length-zeros (suc n) = omega (arith, length-zeros n)

int_from-zeros : (n : ℕ) (t : Text) → int_from 0 (zeros n ++ t) ≡ int_from 0 t
unfolding zeros int_from
int_from-zeros zero t = refl
int_from-zeros (suc n) t = int_from-zeros n t

all_digits-zeros : (n : ℕ) (t : Text) → isdigit t ≡ true → all_digits (zeros n ++ t) ≡ true
unfolding zeros isdigit all_digits
all_digits-zeros zero [] h = refl
all_digits-zeros zero (c ∷ t) h = h
all_digits-zeros (suc n) t h = all_digits-zeros n t h

isdigit-zeros : (n : ℕ) (t : Text) → isdigit t ≡ true → isdigit (zeros n ++ t) ≡ true
unfolding zeros
isdigit-zeros zero t h = h
isdigit-zeros (suc n) t h = unfold isdigit in all_digits-zeros (suc n) t h

length-padded : (n : ℕ) → n < 10 ^ 10 → length (padded 10 (pos n)) ≡ 10
unfolding padded
length-padded n h =
    length-append (zeros (10 - length (show n))) (show n)
    ∙ omega (arith, length-zeros (10 - length (show n)), length-show 9 n h)

padded-decoded :
    (int_other : Text → Option ℤ) (n : ℕ)
    → or_minus_one (to_int int_other (padded 10 (pos n))) ≡ pos n
unfolding padded
padded-decoded int_other n =
    rw (isdigit-zeros (10 - length (show n)) (show n) (isdigit-show n))
      (ap pos (int_zeros ∙ int-show n))
  where
    int_zeros : int (zeros (10 - length (show n)) ++ show n) ≡ int (show n)
    int_zeros = unfold int in int_from-zeros (10 - length (show n)) (show n)

ose_fills :
    (prefix g : Text)
    → ose prefix ≡ some g
    → (g ≡ prefix ++ zeros (10 - length prefix)) × (length prefix ≤ 10)
unfolding ose
ose_fills prefix g h = (ground arith, ground arith)

length-ose : (prefix g : Text) → ose prefix ≡ some g → length g ≡ 10
length-ose prefix g h =
    let (filled, short) = ose_fills prefix g h in
    ap length filled
    ∙ length-append prefix (zeros (10 - length prefix))
    ∙ omega (arith, short, length-zeros (10 - length prefix))

-- For every prefix that is accepted, a number of at most ten digits is encoded to an id of twenty
-- characters, and the id decodes to the number.
ose_decode-ose_encode :
    (int_other : Text → Option ℤ) (prefix g : Text) (n : ℕ)
    → ose prefix ≡ some g
    → n < 10 ^ 10
    → (length (ose_encode g (pos n)) ≡ 20) × (ose_decode int_other (ose_encode g (pos n)) ≡ pos n)
unfolding ose_encode ose_decode
ose_decode-ose_encode int_other prefix g n h small =
    let long = length-append g (padded 10 (pos n)) in
    let size : length (g ++ padded 10 (pos n)) ≡ 20 =
      omega (arith, long, length-ose prefix g h, length-padded n small) in
    (
      size,
      rw size (
          ap (λ t. or_minus_one (to_int int_other t))
            (drop-at 10 g (padded 10 (pos n)) (sym (length-ose prefix g h)))
          ∙ padded-decoded int_other n),
    )
