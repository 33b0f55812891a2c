-- ===== src/Checksum/Digits.antt =====
-- The value of the CheckSum field.
use gofixmsg.Prelude.{ℕ, ◌%◌, ◌<◌, ◌≡◌, refl, true, arith, length, isdigit, int}
use gofixmsg.Checksum.{checksum}

-- Whatever the sum of the bytes is, the CheckSum is three decimal digits, and they read as the sum
-- modulo 256, a number below 256.
pub checksum_bounds :
    (n : ℕ)
    → (length (checksum n) ≡ 3)
      × (isdigit (checksum n) ≡ true)
      × (int (checksum n) ≡ n % 256)
      × (int (checksum n) < 256)
unfolding checksum isdigit int
checksum_bounds n = (refl, ground arith, omega arith, omega arith)
