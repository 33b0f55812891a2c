-- ===== src/Message.antt =====
-- The messages of zz_archive/pyfixmsg/fixmessage.py as the session layer sees them: a dict from tags
-- to values. A received message holds texts; the engine writes texts and numbers.
use gofixmsg.Prelude.{
  ℕ, Bool, false, Option, none, some, List, [], ◌∷◌, Text, text_eq, lookup, insert, nat_eq,
}

pub data Value : Type 0 where
  str : Text → Value
  int_value : ℕ → Value
  null : Value

abbrev pub FixMessage : Type 0
FixMessage = List (ℕ × Value)

-- `message.get(tag)` of a received message.
abbrev pub text_of : Option Value → Option Text
text_of (some (str t)) = some t
text_of _ = none

unfoldable pub get_text : ℕ → FixMessage → Option Text
get_text tag m = text_of (lookup tag m)

-- `message.get(tag) == t`
abbrev pub is_text : Option Text → Text → Bool
is_text none t = false
is_text (some s) t = text_eq s t

-- `dict.update` with the fields in order.
unfoldable pub update : FixMessage → FixMessage → FixMessage
update m [] = m
update m ((tag, v) ∷ rest) = update (insert tag v m) rest
