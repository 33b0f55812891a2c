-- ===== src/Engine/Incoming.antt =====
-- `MessageProcessor` of message_handler.py, and the check of sequence numbers in
-- `FixEngine.process_single_fix_message` of engine.py.
use gofixmsg.Prelude.{
  ℕ, ◌==◌, ltb, leb, Bool, true, false, ◌&&◌, ◌||◌, not, Option, none, some, List, [], ◌∷◌, Text,
  text_eq, isdigit, if◌then◌else◌,
}
use gofixmsg.Decimal.{codes}
use gofixmsg.Message.{FixMessage, Value, str, int_value, get_text, is_text, update}
use gofixmsg.StateMachine.{disconnect}
use gofixmsg.Store.{
  get_next_incoming_sequence_number, set_incoming_sequence_number,
  increment_incoming_sequence_number, store_message,
}
use gofixmsg.Engine.{
  Env, Engine, on_message_alone, Act, done, raise, go_on, ◌>>◌, is_active, on_event,
}
use gofixmsg.Engine.Reasons.{unsupported_type, invalid_received_seq_num, too_low}
use gofixmsg.Engine.Outgoing.{
  fixmsg, msg_type, number_of, send_message, send_logout_message, send_reject_message,
}
use gofixmsg.Engine.Handlers.{
  tell, handle_application, handle_test_request, handle_resend_request, handle_sequence_reset,
  handle_reject, handle_logout, handle_heartbeat,
}
use gofixmsg.Engine.Logon.{handle_logon}

-- The table that `FixEngine.__init__` registers.
pub data Handler : Type 0 where
  logon test_request application resend_request sequence_reset reject logout heartbeat : Handler

abbrev pub handler_table : List (Text × Handler)
handler_table =
    (codes "A", logon)
    ∷ (codes "1", test_request)
    ∷ (codes "8", application)
    ∷ (codes "D", application)
    ∷ (codes "F", application)
    ∷ (codes "G", application)
    ∷ (codes "9", application)
    ∷ (codes "AB", application)
    ∷ (codes "AC", application)
    ∷ (codes "2", resend_request)
    ∷ (codes "4", sequence_reset)
    ∷ (codes "3", reject)
    ∷ (codes "5", logout)
    ∷ (codes "0", heartbeat)
    ∷ []

-- `isupper` of an ASCII character.
abbrev pub is_upper : ℕ → Bool
is_upper c = leb b'A' c && leb c b'Z'

abbrev pub is_lower : ℕ → Bool
is_lower c = leb b'a' c && leb c b'z'

-- Admin types by their spelling: one capital or digit, or two characters, 'A' and no small letter.
abbrev pub is_admin_type : Text → Bool
is_admin_type (c ∷ []) = is_upper c || isdigit (c ∷ [])
is_admin_type (c ∷ d ∷ []) = not (is_lower d) && c == b'A'
is_admin_type _ = false

abbrev pub find_handler : Text → List (Text × Handler) → Option Handler
find_handler t [] = none
find_handler t ((u, h) ∷ rest) = if text_eq u t then some h else find_handler t rest

module _ (env : Env) where
  abbrev pub run_handler : Handler → FixMessage → Act
  run_handler logon = handle_logon env
  run_handler test_request = handle_test_request env
  run_handler application = handle_application env
  run_handler resend_request = handle_resend_request env
  run_handler sequence_reset = handle_sequence_reset env
  run_handler reject = handle_reject env
  run_handler logout = handle_logout env
  run_handler heartbeat = handle_heartbeat env

  abbrev pub seq_or_zero : Option ℕ → Option Text → Value
  seq_or_zero (some n) (some t) = str t
  seq_or_zero _ _ = int_value 0

  -- A type without a handler, in state ACTIVE.
  unfoldable pub unhandled : Text → FixMessage → Act
  unhandled t m e =
      if is_admin_type t
      then send_reject_message env (seq_or_zero (number_of (get_text 34 m)) (get_text 34 m))
          (some 35) (some 3) (unsupported_type t) (some t) e
      else if env.has_on_message
      then tell env (on_message_alone m) e
      else done e

  -- `len(None)` raises.
  abbrev pub unhandled_type : Option Text → FixMessage → Act
  unhandled_type none m = raise
  unhandled_type (some t) m = unhandled t m

  -- The message is serialised for the log first.
  abbrev pub logged_unhandled : Option (FixMessage × Text) → Option Text → Act
  logged_unhandled none t e = raise e
  logged_unhandled (some (m, _)) t e = if is_active e.state then unhandled_type t m e else done e

  abbrev pub dispatch : Option Handler → FixMessage → Act
  dispatch (some h) m = run_handler h m
  dispatch none m = logged_unhandled (env.to_wire m) (msg_type m)

  abbrev pub handler_of : Option Text → Option Handler
  handler_of none = none
  handler_of (some t) = find_handler t handler_table

  unfoldable pub process_message : FixMessage → Act
  process_message m = dispatch (handler_of (msg_type m)) m

  abbrev pub set_incoming : ℕ → Engine → Engine
  set_incoming n e = record e {
    store = set_incoming_sequence_number (env.database_time e.clock) n e.store;
  }

  -- A SequenceReset-GapFill is not passed on to its handler.
  abbrev pub gap_fill : Option ℕ → Engine → Engine
  gap_fill none e = e
  gap_fill (some new_seq_no) e =
      if ltb (get_next_incoming_sequence_number e.store) new_seq_no
      then set_incoming new_seq_no e
      else e

  -- The message types that do not count up the expected number.
  abbrev pub uncounted : FixMessage → Bool
  uncounted m =
      is_text (msg_type m) (codes "A")
      || is_text (msg_type m) (codes "5")
      || is_text (msg_type m) (codes "4")

  abbrev pub clear_resend : Engine → Engine
  clear_resend e = record e {
    resend_request_outstanding = false;
    resend_request_expected_seq = none;
  }

  abbrev pub store_received : Text → FixMessage → ℕ → Engine → Engine
  store_received wire m n e = record e {
    store = store_message (some env.config.version) (get_text 49 m) (get_text 56 m) n wire e.store;
  }

  abbrev pub count : FixMessage → Engine → Engine
  count m e = if uncounted m then e else record e {
    store = increment_incoming_sequence_number (env.database_time e.clock) e.store;
  }

  -- In sequence, or a possible duplicate: store, count, handle.
  unfoldable pub in_sequence : Text → FixMessage → ℕ → Act
  in_sequence wire m n e =
      let expected = get_next_incoming_sequence_number e.store in
      let cleared = if e.resend_request_outstanding && n == expected then clear_resend e else e in
      process_message m (count m (store_received wire m n cleared))

  abbrev pub expects : Option ℕ → ℕ → Bool
  expects none n = false
  expects (some k) n = k == n

  unfoldable pub resend_message : ℕ → FixMessage
  resend_message expected =
      fixmsg env ((35, str (codes "2")) ∷ (7, int_value expected) ∷ (16, int_value 0) ∷ [])

  -- A gap: ask for the missing messages, once for each expected number.
  unfoldable pub ask_resend : ℕ → Act
  ask_resend expected e =
      if e.resend_request_outstanding && expects e.resend_request_expected_seq expected
      then done e
      else go_on (send_message env (resend_message expected) e) (λ s. done (record s {
        resend_request_outstanding = true;
        resend_request_expected_seq = some expected;
      }))

  -- A message with a MsgSeqNum.
  unfoldable pub numbered : Text → FixMessage → ℕ → Act
  numbered wire m n e =
      let expected = get_next_incoming_sequence_number e.store in
      if is_text (msg_type m) (codes "4") && is_text (get_text 123 m) (codes "Y")
      then done (gap_fill (number_of (get_text 36 m)) e)
      else if is_text (msg_type m) (codes "A") && is_text (get_text 141 m) (codes "Y")
      then process_message m (set_incoming 2 e)
      else if ltb n expected && not (is_text (get_text 43 m) (codes "Y"))
      then send_logout_message env (too_low expected n) e
      else if ltb expected n
      then ask_resend expected e
      else in_sequence wire m n e

  abbrev pub with_number : Text → FixMessage → Option ℕ → Act
  with_number wire m none =
      send_logout_message env (invalid_received_seq_num (get_text 49 m) (get_text 34 m))
      >> on_event disconnect
  with_number wire m (some n) = numbered wire m n

  unfoldable pub process_parsed : Text → FixMessage → Act
  process_parsed wire m = with_number wire m (number_of (get_text 34 m))

  -- A text that does not parse is logged and dropped.
  abbrev pub when_parsed : Text → Option FixMessage → Act
  when_parsed wire none = done
  when_parsed wire (some m) = process_parsed wire (update (fixmsg env []) m)

  unfoldable pub process_single_fix_message : Text → Act
  process_single_fix_message wire = when_parsed wire (env.from_wire wire)
