-- ===== src/Crypt/RoundTrip.antt =====
-- What is encrypted is decrypted with the same password.
use Prim.Native.Nat.{bit_xor}
use gofixmsg.Prelude.{
  ℕ, zero, suc, ◌+◌, ◌*◌, ◌<◌, ◌≤◌, ◌≡◌, refl, sym, ap, ◌∙◌, [], ◌∷◌, ◌++◌, some, Text,
  text_eq_refl, length, length-append, take, drop, take-at, drop-at, append_assoc, arith,
}
use gofixmsg.Crypt.{
  Primitives, SimpleCrypt, counter_bytes, zip_xor, derive_key, cipher_blocks, stream_cipher,
  encrypt, decrypt, checked,
}
use gofixmsg.Crypt.Xor.{bit_xor_twice}

abbrev pub AreBytes : Text → Type 0
AreBytes [] = Unit
AreBytes (x ∷ xs) = (x < 256) × AreBytes xs

abbrev pub AreAscii : Text → Type 0
AreAscii [] = Unit
AreAscii (x ∷ xs) = (x < 128) × AreAscii xs

-- What the library functions document: digests and derived keys of 32 bytes, and decoding as the
-- inverse of encoding.
pub record Documented (p : Primitives) : Type 0 where
  pub sha256_len : (t : Text) → length (p.sha256 t) ≡ 32
  pub sha256_bytes : (t : Text) → AreBytes (p.sha256 t)
  pub pbkdf2_len : (a b : Text) → (n : ℕ) → length (p.pbkdf2 a b n) ≡ 32
  pub b64 : (t : Text) → p.b64decode (p.b64encode t) ≡ some t
  pub utf8 : (t : Text) → AreAscii t → p.utf8_decode (p.utf8_encode t) ≡ some t
  pub utf8_bytes : (t : Text) → AreAscii t → AreBytes (p.utf8_encode t)

zip_xor-append :
    (bytes ks more : Text)
    → zip_xor bytes (ks ++ more)
      ≡ zip_xor (take (length ks) bytes) ks ++ zip_xor (drop (length ks) bytes) more
unfolding zip_xor
zip_xor-append bytes [] more = refl
zip_xor-append [] (k ∷ ks) more = refl
zip_xor-append (b ∷ bytes) (k ∷ ks) more = ap (λ r. bit_xor b k ∷ r) (zip_xor-append bytes ks more)

zip_xor_twice :
    (bytes ks : Text)
    → AreBytes bytes
    → AreBytes ks
    → length bytes ≤ length ks
    → zip_xor (zip_xor bytes ks) ks ≡ bytes
unfolding zip_xor
zip_xor_twice [] ks h k le = refl
zip_xor_twice (b ∷ bytes) [] h k le = absurd (omega arith)
zip_xor_twice (b ∷ bytes) (x ∷ ks) h k le =
    ground (arith, bit_xor_twice b x h.0 k.0, zip_xor_twice bytes ks h.1 k.1)

length-zip_xor :
    (bytes ks : Text) → length bytes ≤ length ks → length (zip_xor bytes ks) ≡ length bytes
unfolding zip_xor
length-zip_xor [] ks le = refl
length-zip_xor (b ∷ bytes) [] le = absurd (omega arith)
length-zip_xor (b ∷ bytes) (k ∷ ks) le = omega (arith, length-zip_xor bytes ks)

AreBytes-append : (xs ys : Text) → AreBytes xs → AreBytes ys → AreBytes (xs ++ ys)
AreBytes-append [] ys h k = k
AreBytes-append (x ∷ xs) ys h k = (h.0, AreBytes-append xs ys h.1 k)

module _ (p : Primitives) (doc : Documented p) where
  -- The key stream of some blocks.
  keystream : ℕ → Text → ℕ → Text
  keystream zero key counter = []
  keystream (suc n) key counter =
      p.sha256 (key ++ counter_bytes counter) ++ keystream n key (counter + 1)

  length-keystream : (n : ℕ) (key : Text) (counter : ℕ) → length (keystream n key counter) ≡ 32 * n
  unfolding keystream
  length-keystream zero key counter = refl
  length-keystream (suc n) key counter =
      let digest = p.sha256 (key ++ counter_bytes counter) in
      omega (
        arith,
        length-append digest (keystream n key (counter + 1)),
        doc.sha256_len (key ++ counter_bytes counter),
        length-keystream n key (counter + 1),
      )

  keystream-AreBytes : (n : ℕ) (key : Text) (counter : ℕ) → AreBytes (keystream n key counter)
  unfolding keystream
  keystream-AreBytes zero key counter = tt
  keystream-AreBytes (suc n) key counter =
      AreBytes-append (p.sha256 (key ++ counter_bytes counter)) (keystream n key (counter + 1))
        (doc.sha256_bytes (key ++ counter_bytes counter)) (keystream-AreBytes n key (counter + 1))

  blocks-keystream :
      (n : ℕ) (key : Text) (counter : ℕ) (bytes : Text)
      → cipher_blocks p n key counter bytes ≡ zip_xor bytes (keystream n key counter)
  unfolding cipher_blocks keystream
  blocks-keystream zero key counter [] = refl
  blocks-keystream zero key counter (b ∷ bytes) = refl
  blocks-keystream (suc n) key counter [] = refl
  blocks-keystream (suc n) key counter (b ∷ bytes) =
      let digest = p.sha256 (key ++ counter_bytes counter) in
      let rest = keystream n key (counter + 1) in
      ap (λ r. zip_xor (take 32 (b ∷ bytes)) digest ++ r)
        (blocks-keystream n key (counter + 1) (drop 32 (b ∷ bytes)))
      ∙ ap (λ (k : ℕ). zip_xor (take k (b ∷ bytes)) digest ++ zip_xor (drop k (b ∷ bytes)) rest)
          (sym (doc.sha256_len (key ++ counter_bytes counter)))
      ∙ sym (zip_xor-append (b ∷ bytes) digest rest)

  -- The cipher is its own inverse.
  stream_cipher_twice :
      (key bytes : Text) → AreBytes bytes → stream_cipher p key (stream_cipher p key bytes) ≡ bytes
  unfolding stream_cipher
  stream_cipher_twice key bytes h =
      let n = length bytes in
      let ks = keystream n key 0 in
      let long : length bytes ≤ length ks = omega (arith, length-keystream n key 0) in
      let once = blocks-keystream n key 0 bytes in
      let size : length (cipher_blocks p n key 0 bytes) ≡ n =
        ap length once ∙ length-zip_xor bytes ks long in
      ap (λ (k : ℕ). cipher_blocks p k key 0 (cipher_blocks p n key 0 bytes)) size
      ∙ ap (cipher_blocks p n key 0) once
      ∙ blocks-keystream n key 0 (zip_xor bytes ks)
      ∙ zip_xor_twice bytes ks h (keystream-AreBytes n key 0) long

  checked_own :
      (key bytes plaintext : Text)
      → AreBytes bytes
      → p.utf8_decode bytes ≡ some plaintext
      → let secret = stream_cipher p key bytes in
        checked p key (p.pbkdf2 key secret 1) secret ≡ some plaintext
  checked_own key bytes plaintext h d =
      rw (text_eq_refl (p.pbkdf2 key (stream_cipher p key bytes) 1))
        (ap p.utf8_decode (stream_cipher_twice key bytes h) ∙ d)

  -- With a salt of 16 bytes, what `encrypt` gives for an ASCII text, `decrypt` with the same password and the
  -- same number of iterations turns back into the text, however long it is.
  pub decrypt-encrypt :
      (c : SimpleCrypt) (salt password plaintext : Text)
      → length salt ≡ 16
      → AreAscii plaintext
      → decrypt p c password (encrypt p c salt password plaintext) ≡ some plaintext
  unfolding decrypt encrypt
  decrypt-encrypt c salt password plaintext h a =
      let key = derive_key p c password salt in
      let bytes = p.utf8_encode plaintext in
      let secret = stream_cipher p key bytes in
      let mac = p.pbkdf2 key secret 1 in
      let whole = salt ++ (mac ++ secret) in
      let salt_back : take 16 whole ≡ salt = take-at 16 salt (mac ++ secret) (sym h) in
      let behind : drop 16 whole ≡ mac ++ secret = drop-at 16 salt (mac ++ secret) (sym h) in
      let mac_back : take 32 (mac ++ secret) ≡ mac =
        take-at 32 mac secret (sym (doc.pbkdf2_len key secret 1)) in
      let size : 48 ≡ length (salt ++ mac) =
        omega (arith, length-append salt mac, h, doc.pbkdf2_len key secret 1) in
      let secret_back : drop 48 whole ≡ secret =
        ap (drop 48) (sym (append_assoc salt mac secret)) ∙ drop-at 48 (salt ++ mac) secret size in
      rw (doc.b64 whole) (
        ap (λ x. checked p (derive_key p c password x) (take 32 (drop 16 whole)) (drop 48 whole))
          salt_back
        ∙ ap (λ x. checked p key (take 32 x) (drop 48 whole)) behind
        ∙ ap (λ x. checked p key x (drop 48 whole)) mac_back
        ∙ ap (checked p key mac) secret_back
        ∙ checked_own key bytes plaintext (doc.utf8_bytes plaintext a) (doc.utf8 plaintext a))
