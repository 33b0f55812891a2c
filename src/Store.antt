-- ===== src/Store.antt =====
-- zz_archive/pyfixmsg_plus/fixengine/database_message_store.py: messages and sequence numbers of a
-- session, kept in memory and in two SQLite tables. A method holds the asyncio lock to its end, so
-- it is one step. SQLite is modelled by what the statements ask of it; `conn` is `none` after close,
-- when every statement raises and the method logs the error. On an open connection a statement
-- fails only for a missing column; numbers beyond SQLite's 2 ^ 63 - 1 are not modelled.
mod Keys
pub mod Reopen
pub mod Closing
pub mod Messages
mod Tests
pub use Keys.{SessionId, MessageKey, session_eq, key_eq}
use gofixmsg.Prelude.{
  ℕ, ◌+◌, ◌-◌, ltb, ◌==◌, Bool, true, false, ◌&&◌, Option, none, some, List, ◌∷◌, Text,
  if◌then◌else◌, lookup, insert,
}

-- A row of `sessions`, keyed by the session's three identifiers.
pub record SessionRow : Type 0 where
  pub creation_time : Text
  pub next_incoming_seqnum : ℕ
  pub next_outgoing_seqnum : ℕ

-- The database file. The `timestamp` column of `messages` is written by SQLite and never read.
pub record Db : Type 0 where
  pub messages : List (MessageKey × Text)
  pub sessions : List (SessionId × SessionRow)

pub record MessageStore : Type 0 where
  pub db : Db
  pub conn : Bool  -- whether the connection is still open
  pub beginstring : Option Text
  pub sendercompid : Option Text
  pub targetcompid : Option Text
  pub incoming_seqnum : ℕ
  pub outgoing_seqnum : ℕ

-- `__init__` over a database file whose tables exist (`CREATE TABLE IF NOT EXISTS`).
unfoldable pub new_store : Db → Option Text → Option Text → Option Text → MessageStore
new_store db beginstring sendercompid targetcompid = record {
  db = db;
  conn = true;
  beginstring = beginstring;
  sendercompid = sendercompid;
  targetcompid = targetcompid;
  incoming_seqnum = 1;
  outgoing_seqnum = 1;
}

-- `self.beginstring and self.sendercompid and self.targetcompid`: each is present and not empty.
abbrev pub session_of : Option Text → Option Text → Option Text → Option SessionId
session_of (some (b ∷ bs)) (some (s ∷ ss)) (some (t ∷ ts)) =
    some (record { beginstring = b ∷ bs; sendercompid = s ∷ ss; targetcompid = t ∷ ts })
session_of _ _ _ = none

abbrev pub identified : MessageStore → Option SessionId
identified s = session_of s.beginstring s.sendercompid s.targetcompid

-- Reading the row of a session: the two numbers, or (1, 1) when there is none.
abbrev pub row_numbers : Option SessionRow → ℕ × ℕ
row_numbers none = (1, 1)
row_numbers (some row) = (row.next_incoming_seqnum, row.next_outgoing_seqnum)

unfoldable pub load_sequence_numbers : MessageStore → ℕ × ℕ
load_sequence_numbers s = elim (identified s) [
  | none ↦ (1, 1)
  | some i ↦ if s.conn then row_numbers (lookup i s.db.sessions) else (1, 1)
]

-- `initialize`: without identifiers the numbers stay as they are.
unfoldable pub initialize : MessageStore → MessageStore
unfolding load_sequence_numbers
initialize s = elim (identified s) [
  | none ↦ s
  | some _ ↦
      let (loaded_in, loaded_out) = load_sequence_numbers s in
      record s { incoming_seqnum = loaded_in; outgoing_seqnum = loaded_out }
]

-- The creation time that an upsert leaves: the old one, unless both numbers are 1.
abbrev pub upsert_row : Option SessionRow → Text → ℕ → ℕ → SessionRow
upsert_row none now incoming outgoing = record {
  creation_time = now;
  next_incoming_seqnum = incoming;
  next_outgoing_seqnum = outgoing;
}
upsert_row (some row) now incoming outgoing = record {
  creation_time = if incoming == 1 && outgoing == 1 then now else row.creation_time;
  next_incoming_seqnum = incoming;
  next_outgoing_seqnum = outgoing;
}

-- `now` is the UTC time as `save_sequence_numbers` formats it.
unfoldable pub save_sequence_numbers : Text → MessageStore → MessageStore
save_sequence_numbers now s = elim (identified s) [
  | none ↦ s
  | some i ↦
      let row = upsert_row (lookup i s.db.sessions) now s.incoming_seqnum s.outgoing_seqnum in
      if s.conn
      then record s { db = record (s.db) { sessions = insert i row s.db.sessions } }
      else s
]

abbrev pub get_next_incoming_sequence_number : MessageStore → ℕ
get_next_incoming_sequence_number s = s.incoming_seqnum

abbrev pub get_next_outgoing_sequence_number : MessageStore → ℕ
get_next_outgoing_sequence_number s = s.outgoing_seqnum

unfoldable pub increment_incoming_sequence_number : Text → MessageStore → MessageStore
unfolding save_sequence_numbers
increment_incoming_sequence_number now s =
    save_sequence_numbers now (record s { incoming_seqnum = s.incoming_seqnum + 1 })

unfoldable pub increment_outgoing_sequence_number : Text → MessageStore → MessageStore
unfolding save_sequence_numbers
increment_outgoing_sequence_number now s =
    save_sequence_numbers now (record s { outgoing_seqnum = s.outgoing_seqnum + 1 })

-- A number below 1 is refused with a log line.
unfoldable pub set_incoming_sequence_number : Text → ℕ → MessageStore → MessageStore
unfolding save_sequence_numbers
set_incoming_sequence_number now number s =
    if ltb number 1 then s else save_sequence_numbers now (record s { incoming_seqnum = number })

unfoldable pub set_outgoing_sequence_number : Text → ℕ → MessageStore → MessageStore
unfolding save_sequence_numbers
set_outgoing_sequence_number now number s =
    if ltb number 1 then s else save_sequence_numbers now (record s { outgoing_seqnum = number })

unfoldable pub reset_sequence_numbers : Text → MessageStore → MessageStore
unfolding save_sequence_numbers
reset_sequence_numbers now s =
    save_sequence_numbers now (record s { incoming_seqnum = 1; outgoing_seqnum = 1 })

unfoldable pub is_new_session : MessageStore → Bool
is_new_session s = s.incoming_seqnum == 1 && s.outgoing_seqnum == 1

-- The number of the last message sent, 0 before the first.
unfoldable pub get_current_outgoing_sequence_number : MessageStore → ℕ
get_current_outgoing_sequence_number s =
    if ltb 1 s.outgoing_seqnum then s.outgoing_seqnum - 1 else 0

-- The row's key; a column that is None breaks its NOT NULL constraint.
abbrev pub message_key : Option Text → Option Text → Option Text → ℕ → Option MessageKey
message_key (some b) (some s) (some t) n = some (record {
  session = record { beginstring = b; sendercompid = s; targetcompid = t };
  msgseqnum = n;
})
message_key _ _ _ n = none

unfoldable pub store_message :
    Option Text → Option Text → Option Text → ℕ → Text → MessageStore → MessageStore
store_message beginstring sendercompid targetcompid msgseqnum message s =
    elim (message_key beginstring sendercompid targetcompid msgseqnum) [
      | none ↦ s
      | some k ↦
          if s.conn
          then record s { db = record (s.db) { messages = insert k message s.db.messages } }
          else s
    ]

unfoldable pub get_message : Text → Text → Text → ℕ → MessageStore → Option Text
get_message beginstring sendercompid targetcompid msgseqnum s =
    if s.conn
    then lookup
        (record {
          session = record {
            beginstring = beginstring;
            sendercompid = sendercompid;
            targetcompid = targetcompid;
          };
          msgseqnum = msgseqnum;
        })
        s.db.messages
    else none

-- `close` waits for the lock (`shutdown`) and drops the connection.
unfoldable pub close : MessageStore → MessageStore
close s = record s { conn = false }
