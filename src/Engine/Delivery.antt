-- ===== src/Engine/Delivery.antt =====
-- A message that is sent over a live connection of engine.py: its number, and what is kept of it.
use gofixmsg.Prelude.{
  ℕ, ◌+◌, ◌==◌, ◌≡◌, refl, ap, ◌∙◌, true, false, Option, some, [], ◌∷◌, ◌++◌, Text, lookup, insert,
  contains, lookup-insert_self, lookup-insert_ne, contains-insert, nat_eq, arith, beq_refl,
}
use gofixmsg.Message.{FixMessage, str, int_value, get_text}
use gofixmsg.Store.{
  MessageStore, store_message, increment_outgoing_sequence_number, save_sequence_numbers,
}
use gofixmsg.Store.{MessageKey, key_eq}
use gofixmsg.Store.Messages.{
  get_key, messages-save, get-same, get-store_message, conn-store_message,
}
use gofixmsg.Engine.{Env, Engine, is_disconnected}
use gofixmsg.Engine.Outgoing.{
  is_reset_logon, network_send, store_sent, record_sent, stamp, transmit, with_wire, send_message,
}

-- A connection that takes messages: the session is not DISCONNECTED, its writer is set, the store is
-- open and no write is going to fail.
pub record IsLive (e : Engine) : Type 0 where
  pub up : is_disconnected e.state ≡ false
  pub attached : e.attached ≡ true
  pub running : e.running ≡ true
  pub opened : e.store.conn ≡ true
  pub sound : e.faults ≡ []

-- What sending relies on in the codec: it serialises every message, and MsgSeqNum, MsgType and
-- ResetSeqNumFlag stay as they are.
pub record Serialises (env : Env) (m : FixMessage) : Type 0 where
  pub message : FixMessage
  pub wire : Text
  pub returns : env.to_wire m ≡ some (message, wire)
  pub keeps_34 : lookup 34 message ≡ lookup 34 m
  pub keeps_35 : lookup 35 message ≡ lookup 35 m
  pub keeps_141 : lookup 141 message ≡ lookup 141 m

-- A message that gets its number from the store.
abbrev pub IsFresh : FixMessage → Type 0
IsFresh m = (contains 34 m ≡ false) × (is_reset_logon m ≡ false)

reset_logon-same :
    (m t : FixMessage)
    → lookup 35 t ≡ lookup 35 m
    → lookup 141 t ≡ lookup 141 m
    → is_reset_logon t ≡ is_reset_logon m
unfolding get_text
reset_logon-same m t p q = rw p (rw q refl)

module _ (env : Env) where
  abbrev dated : FixMessage → Engine → FixMessage
  dated m e =
      insert 52 (str (env.sending_time e.clock))
        (insert 56 (str env.config.target) (insert 49 (str env.config.sender) m))

  contains-dated : (m : FixMessage) (e : Engine) → contains 34 (dated m e) ≡ contains 34 m
  contains-dated m e =
      contains-insert 52 34 (str (env.sending_time e.clock))
        (insert 56 (str env.config.target) (insert 49 (str env.config.sender) m))
      ∙ contains-insert 56 34 (str env.config.target) (insert 49 (str env.config.sender) m)
      ∙ contains-insert 49 34 (str env.config.sender) m

  lookup-dated :
      (tag : ℕ) (m : FixMessage) (e : Engine)
      → (52 == tag) ≡ false
      → (56 == tag) ≡ false
      → (49 == tag) ≡ false
      → lookup tag (dated m e) ≡ lookup tag m
  lookup-dated tag m e a b c =
      lookup-insert_ne 52 tag (str (env.sending_time e.clock))
        (insert 56 (str env.config.target) (insert 49 (str env.config.sender) m)) a
      ∙ lookup-insert_ne 56 tag (str env.config.target) (insert 49 (str env.config.sender) m) b
      ∙ lookup-insert_ne 49 tag (str env.config.sender) m c

  dated-reset : (m : FixMessage) (e : Engine) → is_reset_logon (dated m e) ≡ is_reset_logon m
  dated-reset m e =
      reset_logon-same m (dated m e) (lookup-dated 35 m e refl refl refl)
        (lookup-dated 141 m e refl refl refl)

  stamp_lem :
      (m : FixMessage) (e : Engine)
      → IsFresh m
      → stamp env m e ≡ insert 34 (int_value e.store.outgoing_seqnum) (dated m e)
  unfolding stamp
  stamp_lem m e (fresh, plain) = rw (contains-dated m e ∙ fresh) (rw (dated-reset m e ∙ plain) refl)

  pub stamp-number :
      (m : FixMessage) (e : Engine)
      → IsFresh m
      → lookup 34 (stamp env m e) ≡ some (int_value e.store.outgoing_seqnum)
  stamp-number m e f =
      ap (lookup 34) (stamp_lem m e f)
      ∙ lookup-insert_self 34 (int_value e.store.outgoing_seqnum) (dated m e)

  -- The fields that the header does not write stay.
  pub lookup-stamp :
      (tag : ℕ) (m : FixMessage) (e : Engine)
      → IsFresh m
      → (34 == tag) ≡ false
      → (52 == tag) ≡ false
      → (56 == tag) ≡ false
      → (49 == tag) ≡ false
      → lookup tag (stamp env m e) ≡ lookup tag m
  lookup-stamp tag m e f a b c d =
      ap (lookup tag) (stamp_lem m e f)
      ∙ lookup-insert_ne 34 tag (int_value e.store.outgoing_seqnum) (dated m e) a
      ∙ lookup-dated tag m e b c d

  stamp-reset : (m : FixMessage) (e : Engine) → IsFresh m → is_reset_logon (stamp env m e) ≡ false
  stamp-reset m e f =
      let v = int_value e.store.outgoing_seqnum in
      ap is_reset_logon (stamp_lem m e f)
      ∙ reset_logon-same (dated m e) (insert 34 v (dated m e))
          (lookup-insert_ne 34 35 v (dated m e) refl) (lookup-insert_ne 34 141 v (dated m e) refl)
      ∙ dated-reset m e
      ∙ f.1

  abbrev key : ℕ → MessageKey
  key n = record {
    session = record {
      beginstring = env.config.version;
      sendercompid = env.config.sender;
      targetcompid = env.config.target;
    };
    msgseqnum = n;
  }

  -- What a store holds after a message was stored under `n` and counted.
  record Recorded (n : ℕ) (wire : Text) (s t : MessageStore) : Type 0 where
    kept : get_key (key n) t ≡ some wire
    counted : t.outgoing_seqnum ≡ s.outgoing_seqnum + 1
    opened : t.conn ≡ true

  outgoing-save :
      (now : Text) (s : MessageStore)
      → (save_sequence_numbers now s).outgoing_seqnum ≡ s.outgoing_seqnum
  unfolding save_sequence_numbers
  outgoing-save now s = ground arith

  outgoing-store_message :
      (b f t : Option Text) (n : ℕ) (m : Text) (s : MessageStore)
      → (store_message b f t n m s).outgoing_seqnum ≡ s.outgoing_seqnum
  unfolding store_message
  outgoing-store_message b f t n m s = ground arith

  record_lem :
      (n : ℕ) (wire now : Text) (s : MessageStore)
      → s.conn ≡ true
      → Recorded n wire s (increment_outgoing_sequence_number now (store_sent env (some n) wire s))
  unfolding increment_outgoing_sequence_number
  record_lem n wire now s c =
      let b = some env.config.version in
      let f = some env.config.sender in
      let t = some env.config.target in
      let stored = store_message b f t n wire s in
      let next = record stored { outgoing_seqnum = stored.outgoing_seqnum + 1 } in
      let same = messages-save now next in
      record {
        kept =
            get-same (key n) stored (save_sequence_numbers now next) same.0 same.1
            ∙ get-store_message (key n) b f t n wire s c
            ∙ rw (beq_refl (key n)) refl;
        counted = outgoing-save now next ∙ ap (λ k. k + 1) (outgoing-store_message b f t n wire s);
        opened = same.1 ∙ conn-store_message b f t n wire s ∙ c;
      }

  -- The engine behind a message that went out under the next number, was stored and counted.
  pub record Delivered (m : FixMessage) (e t : Engine) : Type 0 where
    pub message : FixMessage
    pub wire : Text
    pub serialised : env.to_wire (stamp env m e) ≡ some (message, wire)
    pub sent : t.sent ≡ e.sent ++ message ∷ []
    pub number : lookup 34 message ≡ some (int_value e.store.outgoing_seqnum)
    pub kept : get_key (key e.store.outgoing_seqnum) t.store ≡ some wire
    pub counted : t.store.outgoing_seqnum ≡ e.store.outgoing_seqnum + 1
    pub live : IsLive t

  network_send_live :
      (m : FixMessage) (e : Engine)
      → IsLive e
      → network_send env m e ≡ (record e { sent = e.sent ++ m ∷ [] }, false)
  unfolding network_send
  network_send_live m e l = rw l.attached (rw l.running (rw l.sound refl))

  record_sent_live :
      (m : FixMessage) (wire : Text) (n : ℕ) (e : Engine)
      → lookup 34 m ≡ some (int_value n)
      → is_reset_logon m ≡ false
      → record_sent env m wire e ≡ (
        record e {
          store =
              increment_outgoing_sequence_number
                (env.database_time e.clock)
                (store_sent env (some n) wire e.store);
        },
        false,
      )
  unfolding record_sent
  record_sent_live m wire n e p q = rw p (rw q refl)

  transmit_live :
      (m : FixMessage) (wire : Text) (n : ℕ) (e : Engine)
      → IsLive e
      → lookup 34 m ≡ some (int_value n)
      → is_reset_logon m ≡ false
      → transmit env m wire e ≡ (
        record e {
          sent = e.sent ++ m ∷ [];
          store =
              increment_outgoing_sequence_number
                (env.database_time e.clock)
                (store_sent env (some n) wire e.store);
        },
        false,
      )
  unfolding transmit
  transmit_live m wire n e l p q =
      rw (network_send_live m e l)
        (rw (record_sent_live m wire n (record e { sent = e.sent ++ m ∷ [] }) p q) refl)

  pub send_message_up :
      (m : FixMessage) (e : Engine)
      → is_disconnected e.state ≡ false
      → send_message env m e ≡ with_wire env (env.to_wire (stamp env m e)) (transmit env) e
  unfolding send_message
  send_message_up m e up = rw up refl

  -- Over a live connection, with a codec that serialises the message and keeps its MsgSeqNum, MsgType
  -- and ResetSeqNumFlag, a message without MsgSeqNum that is no resetting Logon is written with the
  -- next outgoing number in tag 34; its wire text is stored under that number, the outgoing
  -- number grows by one, no exception comes out, and the connection stays live.
  pub send_message-Delivered :
      (m : FixMessage) (e : Engine)
      → IsLive e
      → IsFresh m
      → Serialises env (stamp env m e)
      → Delivered m e (send_message env m e).0 × ((send_message env m e).1 ≡ false)
  send_message-Delivered m e l f c =
      let n = e.store.outgoing_seqnum in
      let number = c.keeps_34 ∙ stamp-number m e f in
      let plain =
        reset_logon-same (stamp env m e) c.message c.keeps_35 c.keeps_141 ∙ stamp-reset m e f in
      let kept = record_lem n c.wire (env.database_time e.clock) e.store l.opened in
      rw
        (send_message_up m e l.up
          ∙ ap (λ o. with_wire env o (transmit env) e) c.returns
          ∙ transmit_live c.message c.wire n e l number plain)
        (
          record {
            message = c.message;
            wire = c.wire;
            serialised = c.returns;
            sent = refl;
            number = number;
            kept = kept.kept;
            counted = kept.counted;
            live = record {
              up = l.up;
              attached = l.attached;
              running = l.running;
              opened = kept.opened;
              sound = l.sound;
            };
          },
          refl,
        )

  pub state_kept :
      (m : FixMessage) (e : Engine)
      → IsLive e
      → IsFresh m
      → Serialises env (stamp env m e)
      → (send_message env m e).0.state ≡ e.state
  state_kept m e l f c =
      let number = c.keeps_34 ∙ stamp-number m e f in
      let plain =
        reset_logon-same (stamp env m e) c.message c.keeps_35 c.keeps_141 ∙ stamp-reset m e f in
      rw
        (send_message_up m e l.up
          ∙ ap (λ o. with_wire env o (transmit env) e) c.returns
          ∙ transmit_live c.message c.wire e.store.outgoing_seqnum e l number plain)
        refl
