-- ===== src/ConfigManager.antt =====
-- zz_archive/pyfixmsg_plus/fixengine/configmanager.py: options in sections, some of them encrypted.
-- The configparser is a parameter: C is its state, and what may raise gives none.
pub mod Secrets
mod Tests
use gofixmsg.Prelude.{
  ℕ, Bool, true, false, ◌&&◌, Option, none, some, List, [], ◌∷◌, ◌++◌, Text, if◌then◌else◌,
  starts_with, drop,
}
use gofixmsg.Decimal.{codes}
use gofixmsg.Codec.{◌>>=◌}
use gofixmsg.Crypt.{Primitives, SimpleCrypt, encrypt, decrypt}

pub record Parser (C : Type 0) : Type 0 where
  pub fresh : C
  pub get_option : C → Text → Text → Option Text
  pub set_option : C → Text → Text → Text → Option C
  pub has_section : C → Text → Bool
  pub add_section : C → Text → Option C
  pub has_option : C → Text → Text → Bool
  pub remove_option : C → Text → Text → C
  pub remove_section : C → Text → C

-- The password of the module's own cipher, which is its only instance.
abbrev pub default_salt : Text
default_salt = codes "seasalt_is_salty"

abbrev pub simple_crypt : SimpleCrypt
simple_crypt = record { crypt_pass = default_salt; iterations = 100000 }

abbrev pub marker : Text
marker = codes "ENC:"

module _ {C : Type 0} (parser : Parser C) (p : Primitives) where
  -- What `get` returns of a value that was found.
  unfoldable pub reveal : Bool → Text → Option Text
  reveal decrypt_value [] = some []
  reveal decrypt_value (c ∷ value) =
      if decrypt_value && starts_with marker (c ∷ value)
      then decrypt p simple_crypt (p.utf8_encode default_salt) (drop 4 (c ∷ value))
      else some (c ∷ value)

  -- None stays None.
  abbrev pub reveal_found : Bool → Option Text → Option (Option Text)
  reveal_found decrypt_value none = some none
  reveal_found decrypt_value (some value) = do shown ← reveal decrypt_value value; some (some shown)

  -- `config.get(section, option, fallback=fallback)`
  abbrev pub found_or : Option Text → Option Text → Option Text
  found_or none fallback = fallback
  found_or (some value) fallback = some value

  unfoldable pub get : C → Text → Text → Option Text → Bool → Option (Option Text)
  unfolding reveal
  get config section option fallback decrypt_value =
      reveal_found decrypt_value (found_or (parser.get_option config section option) fallback)

  unfoldable pub get_message_store_type : C → Option Text → Option (Option Text)
  unfolding get
  get_message_store_type config fallback =
      get config (codes "FIX") (codes "message_store_type") fallback false

  abbrev pub with_section : C → Text → Option C
  with_section config section =
      if parser.has_section config section then some config else parser.add_section config section

  -- `salt` is what os.urandom gives to `encrypt`.
  unfoldable pub set : C → Text → Text → Text → Text → Bool → Option C
  set config salt section option value encrypt_value = do
    ready ← with_section config section
    parser.set_option ready section option (
        if encrypt_value
        then marker ++ encrypt p simple_crypt salt (p.utf8_encode default_salt) value
        else value)

  unfoldable pub delete : C → Text → Option Text → C
  delete config section none =
      if parser.has_section config section then parser.remove_section config section else config
  delete config section (some []) =
      if parser.has_section config section then parser.remove_section config section else config
  delete config section (some (c ∷ option)) =
      if parser.has_section config section && parser.has_option config section (c ∷ option)
      then parser.remove_option config section (c ∷ option)
      else config

  abbrev pub reset : C → C
  reset config = parser.fresh
