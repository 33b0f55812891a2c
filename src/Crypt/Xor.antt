-- ===== src/Crypt/Xor.antt =====
-- Exclusive or on bytes.
use Prim.Native.Nat.{bit_xor}
use gofixmsg.Prelude.{ℕ, zero, suc, ◌<◌, ◌≡◌, ◌==◌, ==_iff, refl, Bool, true, ◌&&◌, arith}

-- Whether a key, used twice, gives back each of the first numbers.
restores : ℕ → ℕ → Bool
restores k zero = true
restores k (suc b) = restores k b && (bit_xor (bit_xor b k) k == b)

-- Whether each of the first keys does so for every byte.
keys_restore : ℕ → Bool
keys_restore zero = true
keys_restore (suc k) = keys_restore k && restores k 256

every_key : keys_restore 256 ≡ true
unfolding keys_restore restores
every_key = refl

restores-at : (k bytes b : ℕ) → restores k bytes ≡ true → b < bytes → bit_xor (bit_xor b k) k ≡ b
unfolding restores
restores-at k zero b r less = absurd (omega arith)
restores-at k (suc bytes) b r less =
    ground (arith, restores-at k bytes b, ==_iff (bit_xor (bit_xor bytes k) k) bytes)

keys_restore-at : (keys k : ℕ) → keys_restore keys ≡ true → k < keys → restores k 256 ≡ true
unfolding keys_restore
keys_restore-at zero k r less = absurd (omega arith)
keys_restore-at (suc keys) k r less = ground (arith, keys_restore-at keys k)

-- Two times the same key is none.
pub bit_xor_twice : (x k : ℕ) → x < 256 → k < 256 → bit_xor (bit_xor x k) k ≡ x
bit_xor_twice x k hx hk = restores-at k 256 x (keys_restore-at 256 k every_key hk) hx
