-- ===== src/ConfigManager/Secrets.antt =====
-- An option that is written encrypted is read back.
use gofixmsg.Prelude.{
  ◌≡◌, refl, Bool-cases, true, false, Option, some, ◌++◌, Text, starts_with, text_eq, length,
  avoids, inl, inr,
}
use gofixmsg.Decimal.{codes}
use gofixmsg.Crypt.{Primitives, encrypt}
use gofixmsg.Crypt.RoundTrip.{Documented, AreAscii, decrypt-encrypt}
use gofixmsg.ConfigManager.{
  Parser, default_salt, simple_crypt, marker, reveal, get, set, with_section,
}

-- What configparser documents: a section that is added, and is not the one of the defaults, is there, and a value without the sign of the
-- interpolation, %, that is set in a section that is there can be got.
pub record DocumentedParser {C : Type 0} (parser : Parser C) : Type 0 where
  pub added :
      (config : C)
      → (section : Text) → text_eq section (codes "DEFAULT") ≡ false
      → parser.has_section config section ≡ false
      → (next : C) × (parser.add_section config section ≡ some next)
        × (parser.has_section next section ≡ true)
  pub kept :
      (config : C)
      → (section option value : Text) → parser.has_section config section ≡ true
      → avoids b'%' value ≡ true
      → (next : C) × (parser.set_option config section option value ≡ some next)
        × (parser.get_option next section option ≡ some value)

module _ {C : Type 0} (parser : Parser C) (doc : DocumentedParser parser) where
  module _ (p : Primitives) (crypto : Documented p) where
    section_there :
        (config : C) (section : Text)
        → text_eq section (codes "DEFAULT") ≡ false
        → (ready : C) × (with_section parser p config section ≡ some ready)
          × (parser.has_section ready section ≡ true)
    section_there config section named = elim (Bool-cases (parser.has_section config section)) [
      | inl there ↦ (config, rw there refl, there)
      | inr absent ↦
          let (next, e, h) = doc.added config section named absent in (next, rw absent e, h)
    ]

    reveal-encrypt :
        (salt value : Text)
        → length salt ≡ 16
        → AreAscii value
        → reveal parser p true
            (marker ++ encrypt p simple_crypt salt (p.utf8_encode default_salt) value)
          ≡ some value
    unfolding reveal starts_with
    reveal-encrypt salt value h a =
        decrypt-encrypt p crypto simple_crypt salt (p.utf8_encode default_salt) value h a

    -- For every section but DEFAULT, whether it was there or not: an ASCII value that `set` writes encrypted, with a salt of 16
    -- bytes and to a text without %, is what `get` returns for the option when it decrypts.
    pub get-set :
        (config : C) (salt section option value : Text) (fallback : Option Text)
        → text_eq section (codes "DEFAULT") ≡ false
        → length salt ≡ 16
        → AreAscii value
        → avoids b'%' (encrypt p simple_crypt salt (p.utf8_encode default_salt) value) ≡ true
        → (next : C) × (set parser p config salt section option value true ≡ some next)
          × (get parser p next section option fallback true ≡ some (some value))
    unfolding set get
    get-set config salt section option value fallback named h a plain =
        let (ready, e, there) = section_there config section named in
        let secret = marker ++ encrypt p simple_crypt salt (p.utf8_encode default_salt) value in
        let (next, f, found) =
          doc.kept ready section option secret there (unfold avoids in plain) in
        (next, rw e f, rw (found, reveal-encrypt salt value h a) refl)
