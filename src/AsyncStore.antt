-- ===== src/AsyncStore.antt =====
-- zz_archive/pyfixmsg_plus/fixengine/database_message_store_aiosqlite.py and
-- message_store_factory.py: the message store on aiosqlite. Its methods neither test the numbers nor
-- catch what a statement raises, its tables allow NULL, and they do nothing without a connection.
pub mod Agreement
mod Tests
use gofixmsg.Prelude.{
  ℕ, ◌+◌, ◌-◌, ltb, Bool, true, false, Option, none, some, List, [], ◌∷◌, ◌++◌, Text, text_eq,
  if◌then◌else◌, lookup, insert,
}
use gofixmsg.Decimal.{codes}
use gofixmsg.Store.{
  SessionId, MessageKey, SessionRow, Db, MessageStore, session_of, message_key, row_numbers,
  new_store, session_eq, key_eq,
}
use gofixmsg.Store

-- The database. A row with a NULL in its key conflicts with no other, and no `=` finds it.
pub record AsyncDb : Type 0 where
  pub messages : List (MessageKey × Text)
  pub null_messages : List Text
  pub sessions : List (SessionId × SessionRow)
  pub null_sessions : List SessionRow

pub record AsyncStore : Type 0 where
  pub db : AsyncDb
  pub conn : Bool
  pub beginstring : Option Text
  pub sendercompid : Option Text
  pub targetcompid : Option Text
  pub incoming_seqnum : ℕ
  pub outgoing_seqnum : ℕ

-- `__init__`: there is no connection yet.
unfoldable pub new_async_store : AsyncDb → Option Text → Option Text → Option Text → AsyncStore
new_async_store db beginstring sendercompid targetcompid = record {
  db = db;
  conn = false;
  beginstring = beginstring;
  sendercompid = sendercompid;
  targetcompid = targetcompid;
  incoming_seqnum = 1;
  outgoing_seqnum = 1;
}

-- The key of the session's row; an identifier may be empty, and NULL is none.
abbrev pub key_columns : Option Text → Option Text → Option Text → Option SessionId
key_columns (some b) (some s) (some t) =
    some (record { beginstring = b; sendercompid = s; targetcompid = t })
key_columns _ _ _ = none

abbrev pub session_key : AsyncStore → Option SessionId
session_key s = key_columns s.beginstring s.sendercompid s.targetcompid

unfoldable pub load_sequence_numbers : AsyncStore → ℕ × ℕ
load_sequence_numbers s = elim (session_key s) [
  | none ↦ (1, 1)
  | some i ↦ if s.conn then row_numbers (lookup i s.db.sessions) else (1, 1)
]

-- `initialize`: connect, and load the numbers if all three identifiers are given.
unfoldable pub initialize : AsyncStore → AsyncStore
unfolding load_sequence_numbers
initialize s =
    let opened : AsyncStore = record s { conn = true } in
    elim (session_of s.beginstring s.sendercompid s.targetcompid) [
      | none ↦ opened
      | some _ ↦
          let (loaded_in, loaded_out) = load_sequence_numbers opened in
          record opened { incoming_seqnum = loaded_in; outgoing_seqnum = loaded_out }
    ]

-- What an upsert leaves: the creation time of the first insert stays.
abbrev pub upsert_row : Option SessionRow → Text → ℕ → ℕ → SessionRow
upsert_row none now incoming outgoing = record {
  creation_time = now;
  next_incoming_seqnum = incoming;
  next_outgoing_seqnum = outgoing;
}
upsert_row (some row) now incoming outgoing = record {
  creation_time = row.creation_time;
  next_incoming_seqnum = incoming;
  next_outgoing_seqnum = outgoing;
}

-- The statement of `save_sequence_numbers`.
abbrev pub save_row : Option SessionId → Text → AsyncStore → AsyncDb
save_row none now s = record (s.db) {
  null_sessions =
      s.db.null_sessions ++ upsert_row none now s.incoming_seqnum s.outgoing_seqnum ∷ [];
}
save_row (some i) now s =
    let row = upsert_row (lookup i s.db.sessions) now s.incoming_seqnum s.outgoing_seqnum in
    record (s.db) { sessions = insert i row s.db.sessions }

unfoldable pub save_sequence_numbers : Text → AsyncStore → AsyncStore
save_sequence_numbers now s = if s.conn then record s { db = save_row (session_key s) now s } else s

unfoldable pub increment_incoming_sequence_number : Text → AsyncStore → AsyncStore
increment_incoming_sequence_number now s =
    save_sequence_numbers now (record s { incoming_seqnum = s.incoming_seqnum + 1 })

unfoldable pub increment_outgoing_sequence_number : Text → AsyncStore → AsyncStore
increment_outgoing_sequence_number now s =
    save_sequence_numbers now (record s { outgoing_seqnum = s.outgoing_seqnum + 1 })

unfoldable pub set_incoming_sequence_number : Text → ℕ → AsyncStore → AsyncStore
set_incoming_sequence_number now number s =
    save_sequence_numbers now (record s { incoming_seqnum = number })

unfoldable pub set_outgoing_sequence_number : Text → ℕ → AsyncStore → AsyncStore
set_outgoing_sequence_number now number s =
    save_sequence_numbers now (record s { outgoing_seqnum = number })

unfoldable pub reset_sequence_numbers : Text → AsyncStore → AsyncStore
reset_sequence_numbers now s =
    save_sequence_numbers now (record s { incoming_seqnum = 1; outgoing_seqnum = 1 })

unfoldable pub get_current_outgoing_sequence_number : AsyncStore → ℕ
get_current_outgoing_sequence_number s =
    if ltb 1 s.outgoing_seqnum then s.outgoing_seqnum - 1 else 0

-- `INSERT OR REPLACE`
abbrev pub put_message : Option MessageKey → Text → AsyncDb → AsyncDb
put_message none message db = record db { null_messages = db.null_messages ++ message ∷ [] }
put_message (some k) message db = record db { messages = insert k message db.messages }

unfoldable pub store_message :
    Option Text → Option Text → Option Text → ℕ → Text → AsyncStore → AsyncStore
store_message beginstring sendercompid targetcompid msgseqnum message s =
    if s.conn
    then record s {
      db = put_message (message_key beginstring sendercompid targetcompid msgseqnum) message s.db;
    }
    else s

unfoldable pub get_message : Text → Text → Text → ℕ → AsyncStore → Option Text
get_message beginstring sendercompid targetcompid msgseqnum s =
    if s.conn
    then lookup
        (record {
          session = record {
            beginstring = beginstring;
            sendercompid = sendercompid;
            targetcompid = targetcompid;
          };
          msgseqnum = msgseqnum;
        })
        s.db.messages
    else none

-- `shutdown` waits for the lock; then the connection is closed.
unfoldable pub close : AsyncStore → AsyncStore
close s = record s { conn = false }

-- What `get_message_store` returns: a store of the type asked for, or a ValueError.
pub data AnyStore : Type 0 where
  database : MessageStore → AnyStore
  aiosqlite : AsyncStore → AnyStore

unfoldable pub get_message_store :
    Text → Db → AsyncDb → Option Text → Option Text → Option Text → Option AnyStore
unfolding new_async_store initialize
get_message_store store_type db async_db beginstring sendercompid targetcompid =
    if text_eq store_type (codes "database")
    then some (database (Store.initialize (new_store db beginstring sendercompid targetcompid)))
    else (if text_eq store_type (codes "aiosqlite")
        then some (
            aiosqlite (initialize (new_async_store async_db beginstring sendercompid targetcompid)))
        else none)
