-- ===== src/Store/Closing.antt =====
-- What is left of a store of database_message_store.py that was closed, and what a new process finds.
use gofixmsg.Prelude.{
  ℕ, ◌+◌, ◌≤◌, ltb, ap, inl, inr, ◌≡◌, refl, ◌∙◌, false, Option, some, List, [], ◌∷◌, Text,
  Bool-cases, lookup, arith,
}
use gofixmsg.Store.{
  SessionId, Db, MessageStore, new_store, session_of, row_numbers, initialize,
  save_sequence_numbers, increment_incoming_sequence_number, increment_outgoing_sequence_number,
  set_incoming_sequence_number, set_outgoing_sequence_number, reset_sequence_numbers, store_message,
  close, session_eq,
}
use gofixmsg.Store.Reopen.{
  Op, increment_incoming, increment_outgoing, reset, set_incoming, set_outgoing, store, apply, run,
  reopen, run-IsSaved, initialize-IsSaved, reopen-IsSaved,
}

-- Every call that changes a store, `close` included.
pub data Call : Type 0 where
  made : Op → Call
  shut : Call

unfoldable pub perform : Call → MessageStore → MessageStore
perform (made o) s = apply o s
perform shut s = close s

unfoldable pub perform_all : List Call → MessageStore → MessageStore
perform_all [] s = s
perform_all (c ∷ cs) s = perform_all cs (perform c s)

-- The calls up to the first `close`.
unfoldable pub before_shut : List Call → List Op
before_shut [] = []
before_shut (made o ∷ cs) = o ∷ before_shut cs
before_shut (shut ∷ cs) = []

-- What a closed store keeps, whatever is called: the file, and the identifiers.
record Frozen (s t : MessageStore) : Type 0 where
  db : t.db ≡ s.db
  closed : t.conn ≡ false
  version : t.beginstring ≡ s.beginstring
  sender : t.sendercompid ≡ s.sendercompid
  target : t.targetcompid ≡ s.targetcompid

save-closed : (now : Text) (s : MessageStore) → s.conn ≡ false → save_sequence_numbers now s ≡ s
unfolding save_sequence_numbers
save-closed now s c = ground arith

store_message-closed :
    (b f t : Option Text) (n : ℕ) (m : Text) (s : MessageStore)
    → s.conn ≡ false
    → store_message b f t n m s ≡ s
unfolding store_message
store_message-closed b f t n m s c = ground arith

Frozen-refl : (s : MessageStore) → s.conn ≡ false → Frozen s s
Frozen-refl s c = record { db = refl; closed = c; version = refl; sender = refl; target = refl }

Frozen-save :
    (now : Text) (s t : MessageStore) → Frozen s t → Frozen s (save_sequence_numbers now t)
Frozen-save now s t h = rw (save-closed now t h.closed) h

Frozen-numbers :
    (s : MessageStore) (i o : ℕ)
    → s.conn ≡ false
    → Frozen s (record s { incoming_seqnum = i; outgoing_seqnum = o })
Frozen-numbers s i o c = record {
  db = refl;
  closed = c;
  version = refl;
  sender = refl;
  target = refl;
}

Frozen-apply : (o : Op) (s : MessageStore) → s.conn ≡ false → Frozen s (apply o s)
unfolding apply increment_incoming_sequence_number increment_outgoing_sequence_number
    set_incoming_sequence_number set_outgoing_sequence_number reset_sequence_numbers
Frozen-apply (increment_incoming now) s c =
    Frozen-save now s _ (Frozen-numbers s (s.incoming_seqnum + 1) s.outgoing_seqnum c)
Frozen-apply (increment_outgoing now) s c =
    Frozen-save now s _ (Frozen-numbers s s.incoming_seqnum (s.outgoing_seqnum + 1) c)
Frozen-apply (reset now) s c = Frozen-save now s _ (Frozen-numbers s 1 1 c)
Frozen-apply (set_incoming now n) s c = elim (Bool-cases (ltb n 1)) [
  | inl low ↦ rw low (Frozen-refl s c)
  | inr fine ↦ rw fine (Frozen-save now s _ (Frozen-numbers s n s.outgoing_seqnum c))
]
Frozen-apply (set_outgoing now n) s c = elim (Bool-cases (ltb n 1)) [
  | inl low ↦ rw low (Frozen-refl s c)
  | inr fine ↦ rw fine (Frozen-save now s _ (Frozen-numbers s s.incoming_seqnum n c))
]
Frozen-apply (store b f t n m) s c = rw (store_message-closed b f t n m s c) (Frozen-refl s c)

Frozen-perform : (k : Call) (s : MessageStore) → s.conn ≡ false → Frozen s (perform k s)
unfolding perform close
Frozen-perform (made o) s c = Frozen-apply o s c
Frozen-perform shut s c = record {
  db = refl;
  closed = refl;
  version = refl;
  sender = refl;
  target = refl;
}

pub conn-perform : (k : Call) (s : MessageStore) → s.conn ≡ false → (perform k s).conn ≡ false
conn-perform k s c = (Frozen-perform k s c).closed

reopen-Frozen : (s t : MessageStore) → Frozen s t → reopen t ≡ reopen s
unfolding reopen close
reopen-Frozen s t h =
    ap (λ db. initialize (new_store db t.beginstring t.sendercompid t.targetcompid)) h.db
    ∙ ap (λ b. initialize (new_store s.db b t.sendercompid t.targetcompid)) h.version
    ∙ ap (λ f. initialize (new_store s.db s.beginstring f t.targetcompid)) h.sender
    ∙ ap (λ x. initialize (new_store s.db s.beginstring s.sendercompid x)) h.target

reopen-closed :
    (cs : List Call) (s : MessageStore) → s.conn ≡ false → reopen (perform_all cs s) ≡ reopen s
unfolding perform_all
reopen-closed [] s c = refl
reopen-closed (k ∷ cs) s c =
    let h = Frozen-perform k s c in
    reopen-closed cs (perform k s) h.closed ∙ reopen-Frozen s (perform k s) h

reopen-before_shut :
    (cs : List Call) (s : MessageStore)
    → reopen (perform_all cs s) ≡ reopen (run (before_shut cs) s)
unfolding perform_all before_shut run perform
reopen-before_shut [] s = refl
reopen-before_shut (made o ∷ cs) s = reopen-before_shut cs (apply o s)
reopen-before_shut (shut ∷ cs) s =
    reopen-closed cs (close s) (unfold close in refl) ∙ (unfold reopen close in refl)

-- Open the file of a session whose row, if there is one, holds numbers of at least 1; make any calls,
-- `close` among them; end the process. A new process that opens the file for the same session starts
-- with exactly the sequence numbers that the old one had reached when it closed the store, or at its
-- end if it did not, and both are at least 1. What is counted on a closed store is lost.
pub numbers_survive :
    (i : SessionId) (db : Db) (b f t : Option Text) (cs : List Call)
    → session_of b f t ≡ some i
    → 1 ≤ (row_numbers (lookup i db.sessions)).0
    → 1 ≤ (row_numbers (lookup i db.sessions)).1
    → let opened = initialize (new_store db b f t) in
      let last = run (before_shut cs) opened in
      let next = reopen (perform_all cs opened) in
      (next.incoming_seqnum ≡ last.incoming_seqnum)
      × (next.outgoing_seqnum ≡ last.outgoing_seqnum)
      × (1 ≤ last.incoming_seqnum)
      × (1 ≤ last.outgoing_seqnum)
numbers_survive i db b f t cs h p q =
    let opened = initialize (new_store db b f t) in
    let os = before_shut cs in
    let good = run-IsSaved i os opened (initialize-IsSaved i db b f t h p q) in
    let back = reopen-IsSaved i (run os opened) good in
    let same = reopen-before_shut cs opened in
    (
      ap (λ s. s.incoming_seqnum) same ∙ back.0,
      ap (λ s. s.outgoing_seqnum) same ∙ back.1,
      good.incoming_pos,
      good.outgoing_pos,
    )
