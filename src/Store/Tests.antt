-- ===== src/Store/Tests.antt =====
-- Witnesses for the theorems about database_message_store.py.
use gofixmsg.Prelude.{◌≡◌, ◌≤◌, refl, true, some, [], ◌∷◌, List, Text, lookup, arith}
use gofixmsg.Store.{
  SessionId, session_eq, MessageKey, Db, MessageStore, new_store, initialize, row_numbers,
}
use gofixmsg.Store.Reopen.{increment_incoming, increment_outgoing, set_incoming, store, run, reopen}
use gofixmsg.Store.Closing.{Call, made, shut, perform_all, before_shut, numbers_survive}
use gofixmsg.Store.Messages.{get_key, last_stored, get_message-run}

abbrev version : Text
version = b'F' ∷ b'4' ∷ []

abbrev us : Text
us = b'U' ∷ []

abbrev them : Text
them = b'T' ∷ []

abbrev empty_db : Db
empty_db = record { messages = []; sessions = [] }

abbrev session : SessionId
session = record { beginstring = version; sendercompid = us; targetcompid = them }

abbrev calls : List Call
calls =
    made (increment_outgoing (b'1' ∷ []))
    ∷ made (store (some version) (some us) (some them) 7 (b'x' ∷ []))
    ∷ made (set_incoming (b'2' ∷ []) 0)
    ∷ made (set_incoming (b'3' ∷ []) 9)
    ∷ made (store (some version) (some us) (some them) 7 (b'y' ∷ []))
    ∷ made (increment_incoming (b'4' ∷ []))
    ∷ []

abbrev then_shut : List Call
then_shut =
    made (increment_outgoing (b'1' ∷ [])) ∷ shut ∷ made (increment_outgoing (b'2' ∷ [])) ∷ []

new_numbers :
    (1 ≤ (row_numbers (lookup session empty_db.sessions)).0)
    × (1 ≤ (row_numbers (lookup session empty_db.sessions)).1)
unfolding lookup
new_numbers = (omega arith, omega arith)

numbers_survive_example :
    let opened = initialize (new_store empty_db (some version) (some us) (some them)) in
    let last = run (increment_outgoing (b'1' ∷ []) ∷ []) opened in
    let next = reopen (perform_all then_shut opened) in
    (next.incoming_seqnum ≡ last.incoming_seqnum)
    × (next.outgoing_seqnum ≡ last.outgoing_seqnum)
    × (1 ≤ last.incoming_seqnum)
    × (1 ≤ last.outgoing_seqnum)
unfolding before_shut
numbers_survive_example =
    numbers_survive session empty_db (some version) (some us) (some them) then_shut refl
      new_numbers.0 new_numbers.1

abbrev open_store : MessageStore
open_store = record {
  db = empty_db;
  conn = true;
  beginstring = some version;
  sendercompid = some us;
  targetcompid = some them;
  incoming_seqnum = 1;
  outgoing_seqnum = 1;
}

abbrev key : MessageKey
key = record { session = session; msgseqnum = 7 }

get_message-run_example :
    get_key key (perform_all calls open_store) ≡ last_stored key calls (get_key key open_store)
get_message-run_example = get_message-run key calls open_store refl
