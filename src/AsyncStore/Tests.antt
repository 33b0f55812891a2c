-- ===== src/AsyncStore/Tests.antt =====
-- Two stores of one session through the same calls, with a witness.
use gofixmsg.Prelude.{ℕ, ◌≡◌, refl, List, [], ◌∷◌, some, none, Text, arith, lookup, text_eq}
use gofixmsg.Decimal.{codes}
use gofixmsg.Store
use gofixmsg.Store.{SessionId, Db, MessageStore, new_store, row_numbers, session_eq}
use gofixmsg.Store.Reopen
use gofixmsg.Store.Reopen.{Op, increment_outgoing, set_incoming, store}
use gofixmsg.AsyncStore.{
  AsyncDb, AsyncStore, new_async_store, initialize, get_message, get_message_store,
}
use gofixmsg.AsyncStore.Agreement.{Agree, async_run, stores-Agree}

abbrev id : SessionId
id = record { beginstring = codes "FIX.4.4"; sendercompid = codes "A"; targetcompid = codes "B" }

abbrev empty : Db
empty = record { messages = []; sessions = [] }

abbrev async_empty : AsyncDb
async_empty = record { messages = []; null_messages = []; sessions = []; null_sessions = [] }

abbrev fresh : MessageStore
fresh =
    Store.initialize
      (new_store empty (some (codes "FIX.4.4")) (some (codes "A")) (some (codes "B")))

abbrev async_fresh : AsyncStore
async_fresh =
    initialize
      (new_async_store async_empty (some (codes "FIX.4.4")) (some (codes "A")) (some (codes "B")))

fresh-Agree : Agree id fresh async_fresh
unfolding Store.initialize new_store initialize new_async_store lookup
fresh-Agree = record {
  session = refl;
  async_session = refl;
  opened = refl;
  async_opened = refl;
  incoming = refl;
  outgoing = refl;
  rows = refl;
  messages = refl;
}

abbrev calls : List Op
calls =
    increment_outgoing (codes "now")
    ∷ set_incoming (codes "now") 7
    ∷ store (some (codes "FIX.4.4")) none (some (codes "B")) 1 (codes "lost")
    ∷ []

stores-Agree_example :
    let s' = Reopen.run calls fresh in
    let a' = async_run calls async_fresh in
    (a'.incoming_seqnum ≡ s'.incoming_seqnum)
    × (a'.outgoing_seqnum ≡ s'.outgoing_seqnum)
    × (row_numbers (lookup id a'.db.sessions) ≡ row_numbers (lookup id s'.db.sessions))
    × ((b f t : Text) → (n : ℕ) → get_message b f t n a' ≡ Store.get_message b f t n s')
stores-Agree_example =
    stores-Agree id calls fresh async_fresh (tt, (omega arith, (tt, tt))) fresh-Agree

unknown_type : get_message_store (codes "file") empty async_empty none none none ≡ none
unfolding get_message_store text_eq
unknown_type = refl
