-- ===== src/ConfigManager/Tests.antt =====
-- The configuration over association lists, with a witness.
use gofixmsg.Prelude.{
  ◌≡◌, refl, ap, ◌∙◌, true, false, text_eq, [], some, none, Option, List, Text, text_eq_instance,
  beq_refl, lookup, insert, remove, contains, contains-insert, lookup-insert_self, arith, avoids,
}
use gofixmsg.Decimal.{codes}
use gofixmsg.Crypt.{encrypt, stream_cipher}
use gofixmsg.Crypt.Toy.{toy, toy-Documented, digest}
use gofixmsg.ConfigManager.{Parser, get, set, simple_crypt, default_salt}
use gofixmsg.ConfigManager.Secrets.{DocumentedParser, get-set}

abbrev Config : Type 0
Config = List (Text × List (Text × Text))

abbrev options_of : Option (List (Text × Text)) → List (Text × Text)
options_of none = []
options_of (some options) = options

abbrev listed : Parser Config
listed = record {
  fresh = [];
  get_option = λ c s o. lookup o (options_of (lookup s c));
  set_option = λ c s o v. some (insert s (insert o v (options_of (lookup s c))) c);
  has_section = λ c s. contains s c;
  add_section = λ c s. some (insert s [] c);
  has_option = λ c s o. contains o (options_of (lookup s c));
  remove_option = λ c s o. insert s (remove o (options_of (lookup s c))) c;
  remove_section = λ c s. remove s c;
}

added_there : (c : Config) (s : Text) → contains s (insert s [] c) ≡ true
added_there c s = rw (contains-insert s s [] c) (rw (beq_refl s) refl)

set_kept :
    (c : Config) (s o v : Text)
    → lookup o (options_of (lookup s (insert s (insert o v (options_of (lookup s c))) c))) ≡ some v
set_kept c s o v =
    let options = insert o v (options_of (lookup s c)) in
    ap (λ x. lookup o (options_of x)) (lookup-insert_self s options c)
    ∙ lookup-insert_self o v (options_of (lookup s c))

listed-DocumentedParser : DocumentedParser listed
listed-DocumentedParser = record {
  added = λ c s named h. (insert s [] c, refl, added_there c s);
  kept = λ c s o v h plain.
      (insert s (insert o v (options_of (lookup s c))) c, refl, set_kept c s o v);
}

abbrev salt : Text
salt = codes "0123456789abcdef"

secret_plain :
    avoids b'%' (encrypt toy simple_crypt salt (toy.utf8_encode default_salt) (codes "pw")) ≡ true
unfolding encrypt avoids digest stream_cipher
secret_plain = refl

named : text_eq (codes "FIX") (codes "DEFAULT") ≡ false
unfolding text_eq
named = refl

get-set_example :
    (next : Config) × (set listed toy [] salt (codes "FIX") (codes "password") (codes "pw") true
      ≡ some next)
    × (get listed toy next (codes "FIX") (codes "password") none true ≡ some (some (codes "pw")))
get-set_example =
    get-set listed listed-DocumentedParser toy toy-Documented [] salt (codes "FIX")
      (codes "password") (codes "pw") none named refl (omega arith) secret_plain
