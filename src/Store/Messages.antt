-- ===== src/Store/Messages.antt =====
-- What the `messages` table of database_message_store.py gives back.
use gofixmsg.Prelude.{
  ℕ, ◌≡◌, refl, true, false, Bool, ◌&&◌, ◌==◌, text_eq, Option, none, some, List, [], ◌∷◌, Text,
  Bool-cases, ltb, ◌+◌, ap, sym, ◌∙◌, inl, inr, if◌then◌else◌, lookup-insert, arith,
}
use gofixmsg.Store.{
  MessageKey, key_eq, MessageStore, store_message, get_message, increment_incoming_sequence_number,
  increment_outgoing_sequence_number, set_incoming_sequence_number, set_outgoing_sequence_number,
  reset_sequence_numbers, save_sequence_numbers, close,
}
use gofixmsg.Store.Reopen.{
  Op, increment_incoming, increment_outgoing, reset, set_incoming, set_outgoing, store, apply,
}
use gofixmsg.Store.Closing.{Call, made, shut, perform, perform_all, conn-perform}

-- Whether `store_message` with these arguments writes the row of version `b`, sender `f`, target `t` and
-- number `n`: each column is the argument of the same name.
abbrev is_row : Option Text → Option Text → Option Text → ℕ → MessageKey → Bool
is_row (some b) (some f) (some t) n k =
    (text_eq b k.session.beginstring
      && text_eq f k.session.sendercompid
      && text_eq t k.session.targetcompid)
    && n == k.msgseqnum
is_row _ _ _ n k = false

abbrev pub written :
    Option Text → Option Text → Option Text → ℕ → MessageKey → Text → Option Text → Option Text
written b f t n k m old = if is_row b f t n k then some m else old

-- The last message that the calls store under a key, or what was there before; a closed store gives
-- nothing.
unfoldable pub last_stored : MessageKey → List Call → Option Text → Option Text
last_stored k [] old = old
last_stored k (made (store b f t n m) ∷ cs) old = last_stored k cs (written b f t n k m old)
last_stored k (made _ ∷ cs) old = last_stored k cs old
last_stored k (shut ∷ cs) old = none

abbrev pub get_key : MessageKey → MessageStore → Option Text
get_key k s =
    get_message k.session.beginstring k.session.sendercompid k.session.targetcompid k.msgseqnum s

pub messages-save :
    (now : Text) (s : MessageStore)
    → ((save_sequence_numbers now s).db.messages ≡ s.db.messages)
      × ((save_sequence_numbers now s).conn ≡ s.conn)
unfolding save_sequence_numbers
messages-save now s = ground arith

pub conn-store_message :
    (b f t : Option Text) (n : ℕ) (m : Text) (s : MessageStore)
    → (store_message b f t n m s).conn ≡ s.conn
unfolding store_message
conn-store_message b f t n m s = ground arith

pub get-store_message :
    (k : MessageKey) (b f t : Option Text) (n : ℕ) (m : Text) (s : MessageStore)
    → s.conn ≡ true
    → get_key k (store_message b f t n m s) ≡ written b f t n k m (get_key k s)
unfolding store_message get_message
get-store_message k (some b) (some f) (some t) n m s c =
    let j : MessageKey = record {
      session = record { beginstring = b; sendercompid = f; targetcompid = t };
      msgseqnum = n;
    } in
    let looked = lookup-insert j k m s.db.messages in ground arith
get-store_message k none f t n m s c = refl
get-store_message k (some b) none t n m s c = refl
get-store_message k (some b) (some f) none n m s c = refl

pub get-same :
    (k : MessageKey) (s t : MessageStore)
    → t.db.messages ≡ s.db.messages
    → t.conn ≡ s.conn
    → get_key k t ≡ get_key k s
unfolding get_message
get-same k s t p q = ground arith

-- Saving the numbers of a store that differs from `s` in its numbers alone.
get-save :
    (k : MessageKey) (now : Text) (s t : MessageStore)
    → t.db.messages ≡ s.db.messages
    → t.conn ≡ s.conn
    → s.conn ≡ true
    → (get_key k (save_sequence_numbers now t) ≡ get_key k s)
      × ((save_sequence_numbers now t).conn ≡ true)
get-save k now s t p q c =
    let same = messages-save now t in
    (get-same k s (save_sequence_numbers now t) (same.0 ∙ p) (same.1 ∙ q), same.1 ∙ q ∙ c)

get-apply :
    (k : MessageKey) (o : Op) (s : MessageStore)
    → s.conn ≡ true
    → (get_key k (apply o s) ≡ last_stored k (made o ∷ []) (get_key k s))
      × ((apply o s).conn ≡ true)
unfolding last_stored apply increment_incoming_sequence_number increment_outgoing_sequence_number
    set_incoming_sequence_number set_outgoing_sequence_number reset_sequence_numbers
get-apply k (store b f t n m) s c =
    (get-store_message k b f t n m s c, conn-store_message b f t n m s ∙ c)
get-apply k (increment_incoming now) s c =
    get-save k now s (record s { incoming_seqnum = s.incoming_seqnum + 1 }) refl refl c
get-apply k (increment_outgoing now) s c =
    get-save k now s (record s { outgoing_seqnum = s.outgoing_seqnum + 1 }) refl refl c
get-apply k (reset now) s c =
    get-save k now s (record s { incoming_seqnum = 1; outgoing_seqnum = 1 }) refl refl c
get-apply k (set_incoming now n) s c = elim (Bool-cases (ltb n 1)) [
  | inl low ↦ rw low (refl, c)
  | inr fine ↦ rw fine (get-save k now s (record s { incoming_seqnum = n }) refl refl c)
]
get-apply k (set_outgoing now n) s c = elim (Bool-cases (ltb n 1)) [
  | inl low ↦ rw low (refl, c)
  | inr fine ↦ rw fine (get-save k now s (record s { outgoing_seqnum = n }) refl refl c)
]

last_stored-cons :
    (k : MessageKey) (o : Op) (cs : List Call) (old : Option Text)
    → last_stored k (made o ∷ cs) old ≡ last_stored k cs (last_stored k (made o ∷ []) old)
unfolding last_stored
last_stored-cons k (store b f t n m) cs old = refl
last_stored-cons k _ cs old = refl

get-closed : (k : MessageKey) (s : MessageStore) → s.conn ≡ false → get_key k s ≡ none
unfolding get_message
get-closed k s c = ground arith

get-all_closed :
    (k : MessageKey) (cs : List Call) (s : MessageStore)
    → s.conn ≡ false
    → get_key k (perform_all cs s) ≡ none
unfolding perform_all
get-all_closed k [] s c = get-closed k s c
get-all_closed k (c ∷ cs) s h = get-all_closed k cs (perform c s) (conn-perform c s h)

-- After any calls on an open store, `get_message` returns the message that the last `store_message`
-- with that version, sender, target and number stored, and what the store held before if there was
-- none; calls for other rows and calls that change sequence numbers do not matter. Once the store
-- was closed, it returns nothing.
pub get_message-run :
    (k : MessageKey) (cs : List Call) (s : MessageStore)
    → s.conn ≡ true
    → get_key k (perform_all cs s) ≡ last_stored k cs (get_key k s)
unfolding perform_all last_stored perform
get_message-run k [] s c = refl
get_message-run k (shut ∷ cs) s c = get-all_closed k cs (close s) (unfold close in refl)
get_message-run k (made o ∷ cs) s c =
    let step = get-apply k o s c in
    get_message-run k cs (apply o s) step.1
    ∙ ap (last_stored k cs) step.0
    ∙ sym (last_stored-cons k o cs (get_key k s))
