-- ===== src/Store/Keys.antt =====
-- The primary keys of the two tables of database_message_store.py.
use gofixmsg.Prelude.{ℕ, ◌==◌, Bool, true, ◌&&◌, ◌≡◌, ◌↔◌, Text, text_eq, text_eq_iff, Eq, arith}

pub record SessionId : Type 0 where
  pub beginstring : Text
  pub sendercompid : Text
  pub targetcompid : Text

abbrev pub session_beq : SessionId → SessionId → Bool
session_beq a b =
    text_eq a.beginstring b.beginstring
    && text_eq a.sendercompid b.sendercompid
    && text_eq a.targetcompid b.targetcompid

pub session_beq_iff : (a b : SessionId) → (session_beq a b ≡ true) ↔ (a ≡ b)
session_beq_iff a b = ground (
  arith,
  text_eq_iff a.beginstring b.beginstring,
  text_eq_iff a.sendercompid b.sendercompid,
  text_eq_iff a.targetcompid b.targetcompid,
)

instance abbrev pub session_eq : Eq SessionId
session_eq = record { beq = session_beq; beq_iff = session_beq_iff }

-- The primary key of `messages`.
pub record MessageKey : Type 0 where
  pub session : SessionId
  pub msgseqnum : ℕ

abbrev pub key_beq : MessageKey → MessageKey → Bool
key_beq a b = session_beq a.session b.session && a.msgseqnum == b.msgseqnum

pub key_beq_iff : (a b : MessageKey) → (key_beq a b ≡ true) ↔ (a ≡ b)
key_beq_iff a b = ground (arith, session_beq_iff a.session b.session)

instance abbrev pub key_eq : Eq MessageKey
key_eq = record { beq = key_beq; beq_iff = key_beq_iff }
