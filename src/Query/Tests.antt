-- ===== src/Query/Tests.antt =====
-- Witnesses for the theorems about the tags of a message.
use gofixmsg.Prelude.{◌≡◌, refl, true, false, some, [], ◌∷◌, lookup, nat_eq, text_eq}
use gofixmsg.Message.{FixMessage, str, int_value, null}
use gofixmsg.Query.{apply, applied, lookup-apply, tag_exact}

abbrev message : FixMessage
message = (35, str (b'D' ∷ [])) ∷ (11, str (b'a' ∷ [])) ∷ []

abbrev changes : FixMessage
changes = (11, null) ∷ (38, int_value 100) ∷ (11, str (b'b' ∷ [])) ∷ []

lookup-apply_example : lookup 11 (apply changes message) ≡ applied 11 changes (lookup 11 message)
lookup-apply_example = lookup-apply 11 changes message

is_order : tag_exact 35 (str (b'D' ∷ [])) false message ≡ some true
unfolding tag_exact lookup text_eq
is_order = refl
