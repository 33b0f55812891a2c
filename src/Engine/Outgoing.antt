-- ===== src/Engine/Outgoing.antt =====
-- engine.py and network.py: sending a message, and taking the session down.
use gofixmsg.Prelude.{
  ℕ, ◌==◌, Bool, true, false, ◌&&◌, ◌||◌, not, Option, none, some, List, [], ◌∷◌, ◌++◌, Text,
  isdigit, int, if◌then◌else◌, lookup, insert, contains, nat_eq,
}
use gofixmsg.Decimal.{codes}
use gofixmsg.Message.{FixMessage, Value, str, int_value, null, get_text, is_text}
use gofixmsg.StateMachine.{disconnect, force_disconnect, logout_initiated}
use gofixmsg.Store.{
  MessageStore, get_next_outgoing_sequence_number, store_message,
  increment_outgoing_sequence_number, set_outgoing_sequence_number, close,
}
use gofixmsg.Engine.{
  Env, Engine, Act, done, raise, go_on, ◌>>◌, attempt, is_disconnected, is_active,
  is_logon_in_progress, is_logout_in_progress, is_acceptor, is_initiator, on_event,
}

abbrev pub msg_type : FixMessage → Option Text
msg_type m = get_text 35 m

-- `message.get(35) == 'A' and message.get(141) == 'Y'`
abbrev pub is_reset_logon : FixMessage → Bool
is_reset_logon m = is_text (msg_type m) (codes "A") && is_text (get_text 141 m) (codes "Y")

-- A value that is there and made of digits, as a number.
abbrev pub number_of : Option Text → Option ℕ
number_of none = none
number_of (some t) = if isdigit t then some (int t) else none

abbrev pub value_of : Option Text → Value
value_of none = null
value_of (some t) = str t

-- The number under which SQLite keys `message[34]`.
abbrev pub seq_of : Option Value → Option ℕ
seq_of (some (int_value n)) = some n
seq_of (some (str t)) = if isdigit t then some (int t) else none
seq_of _ = none

module _ (env : Env) where
  -- `FixEngine.fixmsg`: the fields, with BeginString set.
  abbrev pub fixmsg : FixMessage → FixMessage
  fixmsg fields = insert 8 (str env.config.version) fields

  -- `NetworkConnection.disconnect` and `Acceptor.disconnect`, which keeps the writer.
  unfoldable pub network_disconnect : Act
  network_disconnect e =
      if is_acceptor env.config.mode
      then (record e { running = false }, false)
      else (record e { running = false; attached = false }, false)

  -- `writer.write` and `writer.drain`, and `except`: disconnect and raise again. When the drain fails,
  -- the bytes are with the transport already.
  abbrev pub write : FixMessage → List Bool → Act
  write m [] e = (record e { sent = e.sent ++ m ∷ [] }, false)
  write m (false ∷ rest) e = (record e { sent = e.sent ++ m ∷ []; faults = rest }, false)
  write m (true ∷ rest) e =
      go_on (network_disconnect (record e { sent = e.sent ++ m ∷ []; faults = rest })) raise

  -- `NetworkConnection.send`; without a connection there is a log line and nothing else.
  unfoldable pub network_send : FixMessage → Act
  network_send m e = if e.attached && e.running then write m e.faults e else done e

  -- The end of `disconnect`, behind the decision about the Logout, as another task than the heartbeat's
  -- runs it: the heartbeat's own task cannot await its end, so there it raises after the network was
  -- disconnected, and neither the scheduler is stopped nor the store closed.
  unfoldable pub take_down : Act
  take_down e =
      let (e', _) = network_disconnect e in
      let e'' = record e' {
        heartbeat = record (e'.heartbeat) { running = false };
        scheduler_running = false;
        store = close e'.store;
        retry_attempts = 0;
      } in
      if is_disconnected e''.state then done e'' else on_event force_disconnect e''

  -- `disconnect(graceful=False)`
  unfoldable pub disconnect_now : Act
  disconnect_now e =
      let e' = record e { cleared = true } in
      if is_disconnected e.state && not e.running
      then done e'
      else go_on (if is_disconnected e.state then done e' else on_event disconnect e') take_down

  abbrev pub store_sent : Option ℕ → Text → MessageStore → MessageStore
  store_sent none wire s = s
  store_sent (some n) wire s =
      store_message (some env.config.version) (some env.config.sender) (some env.config.target) n
        wire s

  -- Behind a write that went through, or was skipped: store and count.
  unfoldable pub record_sent : FixMessage → Text → Act
  record_sent m wire e =
      let now = env.database_time e.clock in
      let stored = store_sent (seq_of (lookup 34 m)) wire e.store in
      if is_reset_logon m
      then done (record e { store = set_outgoing_sequence_number now 2 stored })
      else done (record e { store = increment_outgoing_sequence_number now stored })

  -- The header that `send_message` writes.
  unfoldable pub stamp : FixMessage → Engine → FixMessage
  stamp m e =
      let c = env.config in
      let dated =
        insert 52 (str (env.sending_time e.clock))
          (insert 56 (str c.target) (insert 49 (str c.sender) m)) in
      if contains 34 dated
      then dated
      else insert 34
          (int_value
            (if is_reset_logon dated then 1 else get_next_outgoing_sequence_number e.store))
          dated

  -- The `try` block of `send_message`, and its two handlers, which do the same.
  unfoldable pub transmit : FixMessage → Text → Act
  transmit m wire =
      attempt (network_send m >> record_sent m wire) (on_event disconnect >> disconnect_now)

  -- `to_wire` stands before the `try`: what it raises goes to the caller.
  abbrev pub with_wire : Option (FixMessage × Text) → (FixMessage → Text → Act) → Act
  with_wire none k = raise
  with_wire (some (m, wire)) k = k m wire

  unfoldable pub send_message : FixMessage → Act
  send_message m e =
      let can_send_logon =
        is_text (msg_type m) (codes "A")
        && is_initiator env.config.mode
        && is_logon_in_progress e.state in
      if is_disconnected e.state && not can_send_logon
      then done e
      else with_wire (env.to_wire (stamp m e)) transmit e

  -- The `except` of `send_logout_message`.
  abbrev pub logout_failed : Act
  logout_failed e =
      if is_disconnected e.state then done e else go_on (on_event disconnect e) disconnect_now

  unfoldable pub send_logout_message : Text → Act
  send_logout_message text e =
      let logout_msg = fixmsg ((35, str (codes "5")) ∷ (58, str text) ∷ []) in
      if is_disconnected e.state || is_logout_in_progress e.state
      then done e
      else attempt
          ((λ s. if is_active e.state then on_event logout_initiated s else done s)
            >> send_message logout_msg)
          logout_failed e

  -- `disconnect(graceful=True)`. What sending the Logout raises is logged.
  unfoldable pub disconnect_gracefully : Act
  disconnect_gracefully e =
      let e' = record e { cleared = true } in
      if is_active e.state
      then go_on (on_event logout_initiated e')
          (attempt (send_logout_message (codes "Operator requested logout")) done >> take_down)
      else disconnect_now e

  -- A tag, a type or a reason that is not given (for the first two: is 0 or empty) is left out.
  abbrev pub ref_tag : Option ℕ → FixMessage → FixMessage
  ref_tag none m = m
  ref_tag (some n) m = if n == 0 then m else insert 371 (int_value n) m

  abbrev pub ref_type : Option Text → FixMessage → FixMessage
  ref_type none m = m
  ref_type (some []) m = m
  ref_type (some (c ∷ t)) m = insert 372 (str (c ∷ t)) m

  abbrev pub ref_reason : Option ℕ → FixMessage → FixMessage
  ref_reason none m = m
  ref_reason (some n) m = insert 373 (int_value n) m

  unfoldable pub send_reject_message : Value → Option ℕ → Option ℕ → Text → Option Text → Act
  send_reject_message ref_seq_num ref_tag_id session_reject_reason text ref_msg_type =
      send_message (
        ref_reason session_reject_reason (
          ref_type ref_msg_type (
            ref_tag ref_tag_id
              (fixmsg ((35, str (codes "3")) ∷ (45, ref_seq_num) ∷ (58, str text) ∷ [])))))
