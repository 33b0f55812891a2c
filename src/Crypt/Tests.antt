-- ===== src/Crypt/Tests.antt =====
-- The cipher over a toy digest, with a witness.
use gofixmsg.Prelude.{◌≡◌, refl, some, Text, arith}
use gofixmsg.Decimal.{codes}
use gofixmsg.Crypt.Toy.{toy, toy-Documented}
use gofixmsg.Crypt.{SimpleCrypt, encrypt, decrypt}
use gofixmsg.Crypt.RoundTrip.{decrypt-encrypt}

abbrev crypt : SimpleCrypt
crypt = record { crypt_pass = codes "master"; iterations = 100000 }

abbrev salt : Text
salt = codes "0123456789abcdef"

decrypt-encrypt_example :
    decrypt toy crypt (codes "pw") (encrypt toy crypt salt (codes "pw") (codes "secret"))
    ≡ some (codes "secret")
decrypt-encrypt_example =
    decrypt-encrypt toy toy-Documented crypt salt (codes "pw") (codes "secret") refl (omega arith)
