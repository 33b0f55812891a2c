-- ===== src/Engine/Handlers.antt =====
-- zz_archive/pyfixmsg_plus/fixengine/message_handler.py: what the handlers of the messages behind the
-- Logon do with a message that the engine has passed on.
use gofixmsg.Prelude.{
  ℕ, zero, suc, ◌+◌, ◌-◌, ◌==◌, ltb, leb, Bool, false, ◌&&◌, ◌||◌, not, Option, none, some, [], ◌∷◌,
  ◌++◌, Text, text_eq, if◌then◌else◌, lookup, insert, nat_eq,
}
use mathlib.Core.Option
use gofixmsg.Decimal.{codes}
use gofixmsg.Message.{FixMessage, Value, str, int_value, get_text, is_text}
use gofixmsg.Store.{
  get_next_incoming_sequence_number, get_current_outgoing_sequence_number, get_message,
  set_incoming_sequence_number, set_outgoing_sequence_number,
}
use gofixmsg.Engine.{
  Env, Engine, AppCall, on_message, from_admin, on_reject, Act, done, raise, ◌>>◌, attempt,
  is_disconnected, is_logout_in_progress,
}
use gofixmsg.Engine.Reasons.{
  invalid_resend_request, invalid_range, invalid_new_seq_no, reset_not_ahead,
}
use gofixmsg.Engine.Outgoing.{
  fixmsg, msg_type, number_of, value_of, send_message, send_logout_message, send_reject_message,
  disconnect_now,
}

module _ (env : Env) where
  -- A call of the application.
  unfoldable pub tell : AppCall → Act
  tell call e = (record e { calls = e.calls ++ call ∷ [] }, env.raises call)

  -- `if hasattr(self.application, "fromAdmin")`
  unfoldable pub tell_admin : FixMessage → Act
  tell_admin m e = if env.has_from_admin then tell (from_admin m) e else done e

  abbrev pub when_logged : Option (FixMessage × Text) → (FixMessage → Act) → Act
  when_logged none handler = raise
  when_logged (some (m, _)) handler = handler m

  -- `logging_decorator`: the message is serialised for the log before the handler runs.
  abbrev pub logged : (FixMessage → Act) → FixMessage → Act
  logged handler m = when_logged (env.to_wire m) handler

  -- The handlers of application messages: ExecutionReport, NewOrder, Cancel and the others.
  unfoldable pub handle_application : FixMessage → Act
  handle_application = logged (λ m. tell (on_message m))

  abbrev pub answer_test_request : FixMessage → Option Text → Act
  answer_test_request m (some (c ∷ id)) =
      send_message env (fixmsg env ((35, str (codes "0")) ∷ (112, str (c ∷ id)) ∷ []))
  answer_test_request m _ =
      send_reject_message env (value_of (get_text 34 m)) (some 112) (some 1)
        (codes "TestRequest missing TestReqID(112)") (msg_type m)

  unfoldable pub handle_test_request : FixMessage → Act
  handle_test_request = logged (λ m. answer_test_request m (get_text 112 m))

  unfoldable pub send_gap_fill : ℕ → ℕ → Act
  send_gap_fill begin_gap_seq_num end_gap_seq_num = send_message env (
      fixmsg env (
        (35, str (codes "4"))
        ∷ (36, int_value (end_gap_seq_num + 1))
        ∷ (123, str (codes "Y"))
        ∷ []))

  -- `FixMessage.from_wire` has no return statement: `some none` is Python's None.
  abbrev pub from_wire_returns : Text → Option (Option FixMessage)
  from_wire_returns t = Option.map (λ _. none) (env.from_wire t)

  abbrev pub original_time : Option Value → FixMessage → FixMessage
  original_time (some (str (c ∷ t))) m = insert 122 (str (c ∷ t)) m
  original_time _ m = m

  -- `resent_msg[43] = 'Y'` and what follows; None takes no item.
  abbrev pub resend : Option (Option FixMessage) → Act
  resend (some (some m)) =
      let dup = insert 43 (str (codes "Y")) m in
      send_message env (original_time (lookup 52 dup) dup)
  resend _ = raise

  abbrev pub resend_stored : ℕ → Option Text → Act
  resend_stored n (some (c ∷ wire)) =
      attempt (resend (from_wire_returns (c ∷ wire))) (send_gap_fill n n)
  resend_stored n _ = send_gap_fill n n

  -- One round of the loop over the requested range.
  unfoldable pub resend_one : ℕ → Act
  resend_one n e =
      let c = env.config in resend_stored n (get_message c.version c.sender c.target n e.store) e

  -- `for n in range(start, start + count)`
  unfoldable pub resend_range : ℕ → ℕ → Act
  resend_range zero start = done
  resend_range (suc count) start = resend_one start >> resend_range count (suc start)

  unfoldable pub resend_to : FixMessage → ℕ → ℕ → Act
  resend_to m start effective_end = resend_range (effective_end + 1 - start) start >> tell_admin m

  abbrev pub resend_request : FixMessage → Option ℕ → Option ℕ → Act
  resend_request m (some start) (some end_seq_num) e =
      let current = get_current_outgoing_sequence_number e.store in
      if not (end_seq_num == 0) && ltb end_seq_num start
      then send_reject_message env (value_of (get_text 34 m)) (some 16) (some 5)
          (invalid_range end_seq_num start) (msg_type m) e
      else if end_seq_num == 0
      then if ltb current start && ltb 0 start then done e else resend_to m start current e
      else resend_to m start end_seq_num e
  resend_request m (some start) none e =
      send_reject_message env (value_of (get_text 34 m)) (some 16) (some 5)
        (invalid_resend_request (get_text 7 m) (get_text 16 m)) (msg_type m) e
  resend_request m none _ e =
      send_reject_message env (value_of (get_text 34 m)) (some 7) (some 5)
        (invalid_resend_request (get_text 7 m) (get_text 16 m)) (msg_type m) e

  unfoldable pub handle_resend_request : FixMessage → Act
  handle_resend_request =
      logged (λ m. resend_request m (number_of (get_text 7 m)) (number_of (get_text 16 m)))

  -- `message.get(34) or 0`
  abbrev pub seq_or_zero : Option Text → Value
  seq_or_zero (some (c ∷ t)) = str (c ∷ t)
  seq_or_zero _ = int_value 0

  abbrev pub set_both : ℕ → Engine → Engine
  set_both n e =
      let now = env.database_time e.clock in
      record e {
        store = set_outgoing_sequence_number now n (set_incoming_sequence_number now n e.store);
      }

  abbrev pub set_incoming : ℕ → Engine → Engine
  set_incoming n e = record e {
    store = set_incoming_sequence_number (env.database_time e.clock) n e.store;
  }

  abbrev pub reject_new_seq_no : FixMessage → ℕ → Text → Act
  reject_new_seq_no m header text =
      send_reject_message env (int_value header) (some 36) (some 5) text (msg_type m)

  -- SequenceReset with a new number and the number of its own header.
  unfoldable pub sequence_reset : FixMessage → Bool → ℕ → ℕ → Act
  sequence_reset m gap_fill_flag new_seq_no header e =
      let expected = get_next_incoming_sequence_number e.store in
      if leb new_seq_no header && not gap_fill_flag
      then reject_new_seq_no m header (codes "NewSeqNo must be > MsgSeqNum for SequenceReset-Reset")
          e
      else if not gap_fill_flag
      then if leb new_seq_no expected
        then reject_new_seq_no m header (reset_not_ahead new_seq_no expected) e
        else send_message env (fixmsg env ((35, str (codes "0")) ∷ [])) (set_both new_seq_no e)
      else if leb new_seq_no expected && leb new_seq_no header
      then reject_new_seq_no m header
          (codes "NewSeqNo in GapFill must be > MsgSeqNum of SequenceReset itself") e
      else tell_admin m (set_incoming new_seq_no e)

  -- `int(None)` raises, and `int` of what is no number.
  abbrev pub with_header : FixMessage → Option ℕ → Option ℕ → Act
  with_header m none _ =
      send_reject_message env (seq_or_zero (get_text 34 m)) (some 36) (some 5)
        (invalid_new_seq_no (get_text 36 m)) (msg_type m)
  with_header m (some new) none = raise
  with_header m (some new) (some header) =
      sequence_reset m (is_text (get_text 123 m) (codes "Y")) new header

  unfoldable pub handle_sequence_reset : FixMessage → Act
  handle_sequence_reset =
      logged (λ m. with_header m (number_of (get_text 36 m)) (number_of (get_text 34 m)))

  unfoldable pub handle_reject : FixMessage → Act
  handle_reject =
      logged (λ m. tell_admin m >> λ e. if env.has_on_reject then tell (on_reject m) e else done e)

  -- `notify_logoff_received`: the future of `request_logoff` is resolved.
  abbrev pub notify_logoff_received : Engine → Engine
  notify_logoff_received e = record e { logoff_pending = false }

  unfoldable pub handle_logout : FixMessage → Act
  handle_logout = logged λ m.
      (λ e.
        if is_disconnected e.state || is_logout_in_progress e.state
        then done e
        else send_logout_message env (codes "Logout Acknowledged by Handler") e)
      >> disconnect_now env
      >> λ e. tell_admin m (notify_logoff_received e)

  -- `Heartbeat.process_incoming_heartbeat`
  abbrev pub matched : Option Text → Option Text → Option Text
  matched (some (c ∷ id)) (some (d ∷ pending)) =
      if text_eq (c ∷ id) (d ∷ pending) then none else some (d ∷ pending)
  matched _ pending = pending

  unfoldable pub process_incoming_heartbeat : Option Text → Engine → Engine
  process_incoming_heartbeat test_req_id e = record e {
    heartbeat = record (e.heartbeat) {
      last_received_time = e.clock;
      missed_heartbeats = 0;
      test_request_id = matched test_req_id e.heartbeat.test_request_id;
    };
  }

  unfoldable pub handle_heartbeat : FixMessage → Act
  handle_heartbeat = logged (λ m e. tell_admin m (process_incoming_heartbeat (get_text 112 m) e))
