-- ===== src/Store/Reopen.antt =====
-- What survives when the process of database_message_store.py ends and another opens the same file.
use gofixmsg.Prelude.{
  ℕ, ◌+◌, ◌≤◌, ltb, ltb→ge, ap, inl, inr, insert, ◌≡◌, refl, true, Option, none, some, List, [],
  ◌∷◌, Text, Bool-cases, lookup, lookup-insert_self, arith,
}
use gofixmsg.Store.{
  SessionId, SessionRow, Db, MessageStore, new_store, session_of, identified, upsert_row,
  row_numbers, initialize, save_sequence_numbers, increment_incoming_sequence_number,
  increment_outgoing_sequence_number, set_incoming_sequence_number, set_outgoing_sequence_number,
  reset_sequence_numbers, store_message, close, session_eq,
}

-- The calls that change a store and do not close it, each with the time at which it is made.
pub data Op : Type 0 where
  increment_incoming increment_outgoing reset : Text → Op
  set_incoming set_outgoing : Text → ℕ → Op
  store : Option Text → Option Text → Option Text → ℕ → Text → Op

unfoldable pub apply : Op → MessageStore → MessageStore
apply (increment_incoming now) s = increment_incoming_sequence_number now s
apply (increment_outgoing now) s = increment_outgoing_sequence_number now s
apply (reset now) s = reset_sequence_numbers now s
apply (set_incoming now n) s = set_incoming_sequence_number now n s
apply (set_outgoing now n) s = set_outgoing_sequence_number now n s
apply (store b f t n m) s = store_message b f t n m s

unfoldable pub run : List Op → MessageStore → MessageStore
run [] s = s
run (o ∷ os) s = run os (apply o s)

-- An open store of session `i` whose file holds the numbers that it has in memory, both at least 1.
pub record IsSaved (i : SessionId) (s : MessageStore) : Type 0 where
  pub session : identified s ≡ some i
  pub opened : s.conn ≡ true
  saved_incoming : (row_numbers (lookup i s.db.sessions)).0 ≡ s.incoming_seqnum
  saved_outgoing : (row_numbers (lookup i s.db.sessions)).1 ≡ s.outgoing_seqnum
  pub incoming_pos : 1 ≤ s.incoming_seqnum
  pub outgoing_pos : 1 ≤ s.outgoing_seqnum

abbrev row_of : SessionId → Text → MessageStore → SessionRow
row_of i now s = upsert_row (lookup i s.db.sessions) now s.incoming_seqnum s.outgoing_seqnum

-- What `save_sequence_numbers` does on an open store that knows its session.
pub save_lem :
    (i : SessionId) (now : Text) (s : MessageStore)
    → identified s ≡ some i
    → s.conn ≡ true
    → save_sequence_numbers now s
      ≡ record s { db = record (s.db) { sessions = insert i (row_of i now s) s.db.sessions } }
unfolding save_sequence_numbers
save_lem i now s h c = ground arith

row_numbers-upsert_row :
    (o : Option SessionRow) (now : Text) (n m : ℕ)
    → row_numbers (some (upsert_row o now n m)) ≡ (n, m)
row_numbers-upsert_row none now n m = refl
row_numbers-upsert_row (some row) now n m = refl

save-IsSaved :
    (i : SessionId) (now : Text) (s : MessageStore)
    → identified s ≡ some i
    → s.conn ≡ true
    → 1 ≤ s.incoming_seqnum
    → 1 ≤ s.outgoing_seqnum
    → IsSaved i (save_sequence_numbers now s)
save-IsSaved i now s h c p q =
    let back =
      row_numbers-upsert_row (lookup i s.db.sessions) now s.incoming_seqnum s.outgoing_seqnum in
    rw (save_lem i now s h c) (record {
      session = h;
      opened = c;
      saved_incoming = rw lookup-insert_self (ap (λ r. r.0) back);
      saved_outgoing = rw lookup-insert_self (ap (λ r. r.1) back);
      incoming_pos = p;
      outgoing_pos = q;
    })

store_message-IsSaved :
    (i : SessionId) (b f t : Option Text) (n : ℕ) (m : Text) (s : MessageStore)
    → IsSaved i s
    → IsSaved i (store_message b f t n m s)
unfolding store_message
store_message-IsSaved i b f t n m s h = ground arith

apply-IsSaved : (i : SessionId) (o : Op) (s : MessageStore) → IsSaved i s → IsSaved i (apply o s)
unfolding apply increment_incoming_sequence_number increment_outgoing_sequence_number
    set_incoming_sequence_number set_outgoing_sequence_number reset_sequence_numbers
apply-IsSaved i (increment_incoming now) s h =
    save-IsSaved i now (record s { incoming_seqnum = s.incoming_seqnum + 1 }) h.session h.opened
      (omega arith) h.outgoing_pos
apply-IsSaved i (increment_outgoing now) s h =
    save-IsSaved i now (record s { outgoing_seqnum = s.outgoing_seqnum + 1 }) h.session h.opened
      h.incoming_pos (omega arith)
apply-IsSaved i (reset now) s h =
    save-IsSaved i now (record s { incoming_seqnum = 1; outgoing_seqnum = 1 }) h.session h.opened
      (omega arith) (omega arith)
apply-IsSaved i (set_incoming now n) s h = elim (Bool-cases (ltb n 1)) [
  | inl low ↦ rw low h
  | inr fine ↦ rw fine (
      save-IsSaved i now (record s { incoming_seqnum = n }) h.session h.opened (ltb→ge n 1 fine)
        h.outgoing_pos)
]
apply-IsSaved i (set_outgoing now n) s h = elim (Bool-cases (ltb n 1)) [
  | inl low ↦ rw low h
  | inr fine ↦ rw fine (
      save-IsSaved i now (record s { outgoing_seqnum = n }) h.session h.opened h.incoming_pos
        (ltb→ge n 1 fine))
]
apply-IsSaved i (store b f t n m) s h = store_message-IsSaved i b f t n m s h

pub run-IsSaved :
    (i : SessionId) (os : List Op) (s : MessageStore) → IsSaved i s → IsSaved i (run os s)
unfolding run
run-IsSaved i [] s h = h
run-IsSaved i (o ∷ os) s h = run-IsSaved i os (apply o s) (apply-IsSaved i o s h)

-- A new process: a store made over the file that the old one left, for the same identifiers.
unfoldable pub reopen : MessageStore → MessageStore
reopen s =
    initialize
      (new_store (close s).db (close s).beginstring (close s).sendercompid (close s).targetcompid)

initialize_lem :
    (i : SessionId) (s : MessageStore)
    → identified s ≡ some i
    → s.conn ≡ true
    → initialize s ≡ record s {
      incoming_seqnum = (row_numbers (lookup i s.db.sessions)).0;
      outgoing_seqnum = (row_numbers (lookup i s.db.sessions)).1;
    }
unfolding initialize
initialize_lem i s h c = ground arith

-- Loading brings in the saved numbers, and a session that has no row starts at 1 and 1.
pub initialize-IsSaved :
    (i : SessionId) (db : Db) (b f t : Option Text)
    → session_of b f t ≡ some i
    → 1 ≤ (row_numbers (lookup i db.sessions)).0
    → 1 ≤ (row_numbers (lookup i db.sessions)).1
    → IsSaved i (initialize (new_store db b f t))
unfolding new_store
initialize-IsSaved i db b f t h p q = rw (initialize_lem i (new_store db b f t) h refl) (record {
  session = h;
  opened = refl;
  saved_incoming = refl;
  saved_outgoing = refl;
  incoming_pos = p;
  outgoing_pos = q;
})

pub reopen-IsSaved :
    (i : SessionId) (s : MessageStore)
    → IsSaved i s
    → ((reopen s).incoming_seqnum ≡ s.incoming_seqnum)
      × ((reopen s).outgoing_seqnum ≡ s.outgoing_seqnum)
unfolding reopen close new_store
reopen-IsSaved i s h =
    rw
      (initialize_lem i (new_store s.db s.beginstring s.sendercompid s.targetcompid) h.session refl)
      (h.saved_incoming, h.saved_outgoing)
