-- ===== src/Crypt/Toy.antt =====
-- A toy digest for the primitives of the cipher.
use gofixmsg.Prelude.{
  ℕ, zero, suc, ◌+◌, ◌%◌, ◌<◌, ◌++◌, ◌≡◌, refl, ap, [], ◌∷◌, some, Text, arith, length,
}
use gofixmsg.Crypt.{Primitives}
use gofixmsg.Crypt.RoundTrip.{AreBytes, AreAscii, Documented}

-- The sum of a text, 32 times.
sum : Text → ℕ
sum [] = 0
sum (x ∷ xs) = x + sum xs

repeated : ℕ → ℕ → Text
repeated zero b = []
repeated (suc n) b = b ∷ repeated n b

unfoldable pub digest : Text → Text
unfolding sum repeated
digest t = repeated 32 (sum t % 256)

repeated-AreBytes : (n b : ℕ) → b < 256 → AreBytes (repeated n b)
unfolding repeated
repeated-AreBytes zero b h = tt
repeated-AreBytes (suc n) b h = (h, repeated-AreBytes n b h)

length-repeated : (n b : ℕ) → length (repeated n b) ≡ n
unfolding repeated
length-repeated zero b = refl
length-repeated (suc n) b = ap suc (length-repeated n b)

digest-AreBytes : (t : Text) → AreBytes (digest t)
unfolding digest
digest-AreBytes t = repeated-AreBytes 32 (sum t % 256) (omega arith)

length-digest : (t : Text) → length (digest t) ≡ 32
unfolding digest
length-digest t = length-repeated 32 (sum t % 256)

ascii-AreBytes : (t : Text) → AreAscii t → AreBytes t
ascii-AreBytes [] h = tt
ascii-AreBytes (x ∷ xs) h = (omega arith, ascii-AreBytes xs h.1)

abbrev pub toy : Primitives
toy = record {
  sha256 = digest;
  pbkdf2 = λ a b n. digest (a ++ b);
  b64encode = λ t. t;
  b64decode = λ t. some t;
  utf8_encode = λ t. t;
  utf8_decode = λ t. some t;
}

pub toy-Documented : Documented toy
toy-Documented = record {
  sha256_len = length-digest;
  sha256_bytes = digest-AreBytes;
  pbkdf2_len = λ a b n. length-digest (a ++ b);
  b64 = λ t. refl;
  utf8 = λ t h. refl;
  utf8_bytes = ascii-AreBytes;
}
