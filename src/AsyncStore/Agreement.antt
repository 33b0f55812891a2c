-- ===== src/AsyncStore/Agreement.antt =====
-- The two message stores behave alike on the calls of an identified session.
use gofixmsg.Prelude.{
  ℕ, ◌+◌, ◌≤◌, ge→ltb, ◌≡◌, refl, sym, subst, Bool, ap, ◌∙◌, true, false, Option, none, some, List,
  [], ◌∷◌, Text, lookup, insert, lookup-insert_self, if◌then◌else◌,
}
use gofixmsg.Store
use gofixmsg.Store.{
  SessionId, MessageKey, SessionRow, MessageStore, session_of, identified, message_key, row_numbers,
  session_eq, key_eq,
}
use gofixmsg.Store.Reopen
use gofixmsg.Store.Reopen.{
  Op, increment_incoming, increment_outgoing, reset, set_incoming, set_outgoing, store, save_lem,
}
use gofixmsg.AsyncStore.{
  AsyncStore, session_key, upsert_row, save_row, save_sequence_numbers,
  increment_incoming_sequence_number, increment_outgoing_sequence_number,
  set_incoming_sequence_number, set_outgoing_sequence_number, reset_sequence_numbers, store_message,
  get_message, put_message,
}

unfoldable pub async_apply : Op → AsyncStore → AsyncStore
async_apply (increment_incoming now) s = increment_incoming_sequence_number now s
async_apply (increment_outgoing now) s = increment_outgoing_sequence_number now s
async_apply (reset now) s = reset_sequence_numbers now s
async_apply (set_incoming now n) s = set_incoming_sequence_number now n s
async_apply (set_outgoing now n) s = set_outgoing_sequence_number now n s
async_apply (store b f t n m) s = store_message b f t n m s

unfoldable pub async_run : List Op → AsyncStore → AsyncStore
async_run [] s = s
async_run (o ∷ os) s = async_run os (async_apply o s)

-- Two open stores of session `i` with the same numbers in memory and in the file, and the same
-- messages.
pub record Agree (i : SessionId) (s : MessageStore) (a : AsyncStore) : Type 0 where
  pub session : identified s ≡ some i
  pub async_session : session_key a ≡ some i
  pub opened : s.conn ≡ true
  pub async_opened : a.conn ≡ true
  pub incoming : a.incoming_seqnum ≡ s.incoming_seqnum
  pub outgoing : a.outgoing_seqnum ≡ s.outgoing_seqnum
  pub rows : row_numbers (lookup i a.db.sessions) ≡ row_numbers (lookup i s.db.sessions)
  pub messages : a.db.messages ≡ s.db.messages

-- The calls that set a number set it to 1 at least.
abbrev pub Sensible : Op → Type 0
Sensible (set_incoming now n) = 1 ≤ n
Sensible (set_outgoing now n) = 1 ≤ n
Sensible o = Unit

abbrev pub AllSensible : List Op → Type 0
AllSensible [] = Unit
AllSensible (o ∷ os) = Sensible o × AllSensible os

async_save_lem :
    (i : SessionId) (now : Text) (a : AsyncStore)
    → session_key a ≡ some i
    → a.conn ≡ true
    → save_sequence_numbers now a ≡ record a { db = save_row (some i) now a }
unfolding save_sequence_numbers
async_save_lem i now a h c = rw (c, h) refl

saved_numbers :
    (o : Option SessionRow) (now : Text) (n m : ℕ)
    → row_numbers (some (upsert_row o now n m)) ≡ (n, m)
saved_numbers none now n m = refl
saved_numbers (some row) now n m = refl

store_numbers :
    (o : Option SessionRow) (now : Text) (n m : ℕ)
    → row_numbers (some (Store.upsert_row o now n m)) ≡ (n, m)
store_numbers none now n m = refl
store_numbers (some row) now n m = refl

-- Saving the same numbers keeps the stores in agreement.
save-Agree :
    (i : SessionId) (now : Text) (s : MessageStore) (a : AsyncStore)
    → identified s ≡ some i
    → session_key a ≡ some i
    → s.conn ≡ true
    → a.conn ≡ true
    → a.incoming_seqnum ≡ s.incoming_seqnum
    → a.outgoing_seqnum ≡ s.outgoing_seqnum
    → a.db.messages ≡ s.db.messages
    → Agree i (Store.save_sequence_numbers now s) (save_sequence_numbers now a)
save-Agree i now s a hs ha cs ca hi ho hm =
    let row = upsert_row (lookup i a.db.sessions) now a.incoming_seqnum a.outgoing_seqnum in
    let old = Store.upsert_row (lookup i s.db.sessions) now s.incoming_seqnum s.outgoing_seqnum in
    rw (save_lem i now s hs cs) (
      rw (async_save_lem i now a ha ca) (record {
        session = hs;
        async_session = ha;
        opened = cs;
        async_opened = ca;
        incoming = hi;
        outgoing = ho;
        rows =
            ap row_numbers (lookup-insert_self i row a.db.sessions)
            ∙ saved_numbers (lookup i a.db.sessions) now a.incoming_seqnum a.outgoing_seqnum
            ∙ ap (λ (n : ℕ). (n, a.outgoing_seqnum)) hi
            ∙ ap (λ (n : ℕ). (s.incoming_seqnum, n)) ho
            ∙ sym (store_numbers (lookup i s.db.sessions) now s.incoming_seqnum s.outgoing_seqnum)
            ∙ sym (ap row_numbers (lookup-insert_self i old s.db.sessions));
        messages = hm;
      }))

if_open {ℓ} : {A : Type ℓ} (b : Bool) (x y : A) → b ≡ true → (if b then x else y) ≡ x
if_open true x y h = refl
if_open false x y h = cc

put-Agree :
    (i : SessionId) (o : Option MessageKey) (m : Text) (s : MessageStore) (a : AsyncStore)
    → Agree i s a
    → Agree i
        (elim o [
          | none ↦ s
          | some k ↦
              if s.conn
              then record s { db = record (s.db) { messages = insert k m s.db.messages } }
              else s
        ])
        (record a { db = put_message o m a.db })
put-Agree i none m s a h = record {
  session = h.session;
  async_session = h.async_session;
  opened = h.opened;
  async_opened = h.async_opened;
  incoming = h.incoming;
  outgoing = h.outgoing;
  rows = h.rows;
  messages = h.messages;
}
put-Agree i (some k) m s a h =
    let next : MessageStore = record s {
      db = record (s.db) { messages = insert k m s.db.messages };
    } in
    subst (λ x. Agree i x (record a { db = put_message (some k) m a.db }))
      (sym (if_open s.conn next s h.opened))
      (record {
        session = h.session;
        async_session = h.async_session;
        opened = h.opened;
        async_opened = h.async_opened;
        incoming = h.incoming;
        outgoing = h.outgoing;
        rows = h.rows;
        messages = ap (insert k m) h.messages;
      })

store_message-Agree :
    (i : SessionId) (b f t : Option Text) (n : ℕ) (m : Text) (s : MessageStore) (a : AsyncStore)
    → Agree i s a
    → Agree i (Store.store_message b f t n m s) (store_message b f t n m a)
unfolding Store.store_message store_message
store_message-Agree i b f t n m s a h =
    let key = message_key b f t n in
    subst (Agree i (Store.store_message b f t n m s))
      (sym (if_open a.conn (record a { db = put_message key m a.db }) a h.async_opened))
      (put-Agree i key m s a h)

apply-Agree :
    (i : SessionId) (o : Op) (s : MessageStore) (a : AsyncStore)
    → Sensible o
    → Agree i s a
    → Agree i (Reopen.apply o s) (async_apply o a)
unfolding Reopen.apply async_apply Store.increment_incoming_sequence_number
    Store.increment_outgoing_sequence_number Store.set_incoming_sequence_number
    Store.set_outgoing_sequence_number Store.reset_sequence_numbers
    increment_incoming_sequence_number increment_outgoing_sequence_number
    set_incoming_sequence_number set_outgoing_sequence_number reset_sequence_numbers
apply-Agree i (increment_incoming now) s a ok h =
    save-Agree i now (record s { incoming_seqnum = s.incoming_seqnum + 1 })
      (record a { incoming_seqnum = a.incoming_seqnum + 1 }) h.session h.async_session h.opened
      h.async_opened (ap (λ n. n + 1) h.incoming) h.outgoing h.messages
apply-Agree i (increment_outgoing now) s a ok h =
    save-Agree i now (record s { outgoing_seqnum = s.outgoing_seqnum + 1 })
      (record a { outgoing_seqnum = a.outgoing_seqnum + 1 }) h.session h.async_session h.opened
      h.async_opened h.incoming (ap (λ n. n + 1) h.outgoing) h.messages
apply-Agree i (reset now) s a ok h =
    save-Agree i now (record s { incoming_seqnum = 1; outgoing_seqnum = 1 })
      (record a { incoming_seqnum = 1; outgoing_seqnum = 1 }) h.session h.async_session h.opened
      h.async_opened refl refl h.messages
apply-Agree i (set_incoming now n) s a ok h = rw (ge→ltb n 1 ok) (
    save-Agree i now (record s { incoming_seqnum = n }) (record a { incoming_seqnum = n }) h.session
      h.async_session h.opened h.async_opened refl h.outgoing h.messages)
apply-Agree i (set_outgoing now n) s a ok h = rw (ge→ltb n 1 ok) (
    save-Agree i now (record s { outgoing_seqnum = n }) (record a { outgoing_seqnum = n }) h.session
      h.async_session h.opened h.async_opened h.incoming refl h.messages)
apply-Agree i (store b f t n m) s a ok h = store_message-Agree i b f t n m s a h

run-Agree :
    (i : SessionId) (os : List Op) (s : MessageStore) (a : AsyncStore)
    → AllSensible os
    → Agree i s a
    → Agree i (Reopen.run os s) (async_run os a)
unfolding Reopen.run async_run
run-Agree i [] s a ok h = h
run-Agree i (o ∷ os) s a ok h =
    run-Agree i os (Reopen.apply o s) (async_apply o a) ok.1 (apply-Agree i o s a ok.0 h)

same_messages :
    (i : SessionId) (s : MessageStore) (a : AsyncStore) (b f t : Text) (n : ℕ)
    → Agree i s a
    → get_message b f t n a ≡ Store.get_message b f t n s
unfolding get_message Store.get_message
same_messages i s a b f t n h = rw (h.opened, h.async_opened, h.messages) refl

-- Open stores of the same session that agree, one on sqlite3 and one on aiosqlite, go on in agreement:
-- after the same calls, none of which sets a number to 0, both have the same next numbers, in memory
-- and in the file, and give the same message for every key.
pub stores-Agree :
    (i : SessionId) (os : List Op) (s : MessageStore) (a : AsyncStore)
    → AllSensible os
    → Agree i s a
    → let s' = Reopen.run os s in
      let a' = async_run os a in
      (a'.incoming_seqnum ≡ s'.incoming_seqnum)
      × (a'.outgoing_seqnum ≡ s'.outgoing_seqnum)
      × (row_numbers (lookup i a'.db.sessions) ≡ row_numbers (lookup i s'.db.sessions))
      × ((b f t : Text) → (n : ℕ) → get_message b f t n a' ≡ Store.get_message b f t n s')
stores-Agree i os s a ok h =
    let e = run-Agree i os s a ok h in
    (
      e.incoming,
      e.outgoing,
      e.rows,
      λ b f t n. same_messages i (Reopen.run os s) (async_run os a) b f t n e,
    )
