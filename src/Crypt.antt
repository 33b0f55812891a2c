-- ===== src/Crypt.antt =====
-- zz_archive/pyfixmsg_plus/fixengine/simple_crypt.py: values encrypted by a stream of hashes, with a
-- MAC. hashlib, base64, the UTF-8 codec and os.urandom are parameters.
mod Xor
pub mod RoundTrip
pub mod Toy
mod Tests
use Prim.Native.Nat.{bit_xor}
use gofixmsg.Prelude.{
  ℕ, zero, suc, ◌+◌, ◌/◌, ◌%◌, ◌<◌, ◌≡◌, Bool, true, false, List, [], ◌∷◌, ◌++◌, Option, none, some,
  Text, text_eq, if◌then◌else◌, length, take, drop, starts_with, find,
}
use gofixmsg.Decimal.{codes}
use gofixmsg.Codec.{◌>>=◌}

-- What the code calls: sha256, pbkdf2_hmac of sha256 with 32 bytes (password, salt, iterations),
-- base64 and UTF-8; `none` where they raise.
pub record Primitives : Type 0 where
  pub sha256 : Text → Text
  pub pbkdf2 : Text → Text → ℕ → Text
  pub b64encode : Text → Text
  pub b64decode : Text → Option Text
  pub utf8_encode : Text → Text
  pub utf8_decode : Text → Option Text

pub record SimpleCrypt : Type 0 where
  pub crypt_pass : Text
  pub iterations : ℕ

-- `counter.to_bytes(4, 'big')`, for a counter below 2^32.
abbrev pub counter_bytes : ℕ → Text
counter_bytes n = n / 16777216 ∷ n / 65536 % 256 ∷ n / 256 % 256 ∷ n % 256 ∷ []

-- `[b ^ k for b, k in zip(block, keystream)]`
unfoldable pub zip_xor : Text → Text → Text
zip_xor [] ks = []
zip_xor (b ∷ bs) [] = []
zip_xor (b ∷ bs) (k ∷ ks) = bit_xor b k ∷ zip_xor bs ks

module _ (p : Primitives) where
  unfoldable pub derive_key : SimpleCrypt → Text → Text → Text
  derive_key c password salt = p.pbkdf2 password salt c.iterations

  -- The loop over blocks of 32 bytes, one round of fuel for each.
  unfoldable pub cipher_blocks : ℕ → Text → ℕ → Text → Text
  unfolding zip_xor
  cipher_blocks zero key counter bytes = []
  cipher_blocks (suc fuel) key counter [] = []
  cipher_blocks (suc fuel) key counter (b ∷ bs) =
      zip_xor (take 32 (b ∷ bs)) (p.sha256 (key ++ counter_bytes counter))
      ++ cipher_blocks fuel key (counter + 1) (drop 32 (b ∷ bs))

  -- There are no more blocks than bytes.
  unfoldable pub stream_cipher : Text → Text → Text
  unfolding cipher_blocks
  stream_cipher key bytes = cipher_blocks (length bytes) key 0 bytes

  unfoldable pub encrypt : SimpleCrypt → Text → Text → Text → Text
  unfolding derive_key
  encrypt c salt password plaintext =
      let key = derive_key c password salt in
      let ciphertext = stream_cipher key (p.utf8_encode plaintext) in
      p.b64encode (salt ++ (p.pbkdf2 key ciphertext 1 ++ ciphertext))

  -- A text whose MAC does not fit raises.
  abbrev pub checked : Text → Text → Text → Option Text
  checked key mac ciphertext =
      if text_eq mac (p.pbkdf2 key ciphertext 1)
      then p.utf8_decode (stream_cipher key ciphertext)
      else none

  unfoldable pub decrypt : SimpleCrypt → Text → Text → Option Text
  unfolding derive_key
  decrypt c password text = do
    bytes ← p.b64decode text
    checked (derive_key c password (take 16 bytes)) (take 32 (drop 16 bytes)) (drop 48 bytes)

  -- A parameter that starts with "clear:" is encrypted, any other is decrypted.
  unfoldable pub check_crypt : SimpleCrypt → Text → Text → Option Text
  unfolding encrypt decrypt
  check_crypt c salt param =
      let password = p.utf8_encode c.crypt_pass in
      if starts_with (codes "clear:") param
      then some (encrypt c salt password (drop 6 param))
      else decrypt c password param
