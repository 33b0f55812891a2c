-- ===== src/Engine/Handled.antt =====
-- The handlers of message_handler.py that change sequence numbers, or end or start a session.
use gofixmsg.Prelude.{
  ℕ, ◌==◌, ◌≡◌, refl, true, false, ◌&&◌, ◌||◌, not, Option, none, some, [], ◌∷◌, Text, arith, ltb,
  leb, nat_eq, if◌then◌else◌,
}
use gofixmsg.Decimal.{codes}
use gofixmsg.Message.{FixMessage, str, int_value, get_text, is_text}
use gofixmsg.Store.{
  set_incoming_sequence_number, get_next_incoming_sequence_number,
  get_current_outgoing_sequence_number,
}
use gofixmsg.Engine.{Env, Engine, on_reject, done, ◌>>◌, is_disconnected, is_logout_in_progress}
use gofixmsg.Engine.Steps.{if_rule, test_rule}
use gofixmsg.Engine.Effects.{incoming-set_outgoing}
use gofixmsg.Engine.Outgoing.{
  msg_type, number_of, value_of, fixmsg, send_message, send_logout_message, send_reject_message,
  disconnect_now,
}
use gofixmsg.Engine.Handlers.{
  tell, tell_admin, resend_to, resend_request, handle_resend_request, set_both, reject_new_seq_no,
  sequence_reset, with_header, seq_or_zero, handle_sequence_reset, handle_reject, handle_logout,
  notify_logoff_received, process_incoming_heartbeat, handle_heartbeat,
}
use gofixmsg.Engine.Advances.{
  Advances, Advances-refl, Advances-trans, raising_step, incoming-set_higher,
}
use gofixmsg.Engine.Handling.{
  KeepsTags, Advancing, then_rule, send_rule, logout_rule, reject_rule, disconnect_rule, tell_rule,
  tell_admin_rule, logged_rule, Advances-resend_to,
}
use gofixmsg.Engine.Reasons.{
  invalid_resend_request, invalid_range, invalid_new_seq_no, reset_not_ahead,
}

module _ (env : Env) where
  abbrev invalid_request : FixMessage → Text
  invalid_request m = invalid_resend_request (get_text 7 m) (get_text 16 m)

  request_rule : (m : FixMessage) (s t : Option ℕ) → Advancing env (resend_request env m s t)
  request_rule m none t =
      reject_rule env (value_of (get_text 34 m)) (some 7) (some 5) (invalid_request m) (msg_type m)
  request_rule m (some s) none =
      reject_rule env (value_of (get_text 34 m)) (some 16) (some 5) (invalid_request m) (msg_type m)
  request_rule m (some s) (some t) = λ e.
      let current = get_current_outgoing_sequence_number e.store in
      let text = invalid_range t s in
      let n = value_of (get_text 34 m) in
      let refuse = send_reject_message env n (some 16) (some 5) text (msg_type m) e in
      let answer = if ltb current s && ltb 0 s then done e else resend_to env m s current e in
      if_rule Advances e (not (t == 0) && ltb t s) refuse
        (if t == 0 then answer else resend_to env m s t e)
        (reject_rule env n (some 16) (some 5) text (msg_type m) e)
        (if_rule Advances e (t == 0) answer (resend_to env m s t e)
          (if_rule Advances e (ltb current s && ltb 0 s) (done e) (resend_to env m s current e)
            (Advances-refl e) (Advances-resend_to env m s current e))
          (Advances-resend_to env m s t e))

  pub Advances-resend_request : (m : FixMessage) → Advancing env (handle_resend_request env m)
  unfolding handle_resend_request
  Advances-resend_request m =
      logged_rule env
        (λ t. resend_request env t (number_of (get_text 7 t)) (number_of (get_text 16 t))) m
        (λ t wire p. request_rule t (number_of (get_text 7 t)) (number_of (get_text 16 t)))

  set_both_step :
      (n : ℕ) (e : Engine) → leb n e.store.incoming_seqnum ≡ false → Advances e (set_both env n e)
  set_both_step n e h =
      let now = env.database_time e.clock in
      let higher = incoming-set_higher now n e.store h in
      let same = incoming-set_outgoing now n (set_incoming_sequence_number now n e.store) in
      raising_step e (set_both env n e) (omega arith) refl refl

  -- A SequenceReset without GapFillFlag is refused or raises the expected number.
  Advances-sequence_reset :
      (m : FixMessage) (new header : ℕ) → Advancing env (sequence_reset env m false new header)
  unfolding sequence_reset
  Advances-sequence_reset m new header e =
      let expected = get_next_incoming_sequence_number e.store in
      let low = codes "NewSeqNo must be > MsgSeqNum for SequenceReset-Reset" in
      let ack = fixmsg env ((35, str (codes "0")) ∷ []) in
      let reset = set_both env new e in
      if_rule Advances e (leb new header && true) (reject_new_seq_no env m header low e)
        (if leb new expected
          then reject_new_seq_no env m header (reset_not_ahead new expected) e
          else send_message env ack reset)
        (reject_rule env (int_value header) (some 36) (some 5) low (msg_type m) e)
        (test_rule Advances e (leb new expected)
          (reject_new_seq_no env m header (reset_not_ahead new expected) e)
          (send_message env ack reset)
          (λ _.
            reject_rule env (int_value header) (some 36) (some 5) (reset_not_ahead new expected)
              (msg_type m) e)
          (λ h.
            Advances-trans e reset (send_message env ack reset).0 (set_both_step new e h)
              (send_rule env ack reset)))

  header_rule :
      (m : FixMessage) (n h : Option ℕ)
      → is_text (get_text 123 m) (codes "Y") ≡ false
      → Advancing env (with_header env m n h)
  header_rule m none h p =
      reject_rule env (seq_or_zero env (get_text 34 m)) (some 36) (some 5)
        (invalid_new_seq_no (get_text 36 m)) (msg_type m)
  header_rule m (some new) none p = Advances-refl
  header_rule m (some new) (some header) p = rw p (Advances-sequence_reset m new header)

  pub Advances-handle_sequence_reset :
      (m : FixMessage)
      → KeepsTags env
      → is_text (get_text 123 m) (codes "Y") ≡ false
      → Advancing env (handle_sequence_reset env m)
  unfolding handle_sequence_reset get_text
  Advances-handle_sequence_reset m keeps p =
      logged_rule env
        (λ t. with_header env t (number_of (get_text 36 t)) (number_of (get_text 34 t))) m
        (λ t wire q.
          header_rule t (number_of (get_text 36 t)) (number_of (get_text 34 t))
            (rw (keeps m t wire q 123 refl refl) p))

  pub Advances-reject : (m : FixMessage) → Advancing env (handle_reject env m)
  unfolding handle_reject
  Advances-reject m =
      let told = λ (t : FixMessage) (e : Engine).
        if env.has_on_reject then tell env (on_reject t) e else done e in
      logged_rule env (λ t. tell_admin env t >> told t) m
        (λ t wire p. then_rule env (tell_admin env t) (told t) (tell_admin_rule env t) (λ e.
          if_rule Advances e env.has_on_reject (tell env (on_reject t) e) (done e)
            (tell_rule env (on_reject t) e) (Advances-refl e)))

  admin_step :
      (m : FixMessage) (f : Engine → Engine)
      → ((e : Engine) → Advances e (f e))
      → Advancing env (λ e. tell_admin env m (f e))
  admin_step m f h e =
      Advances-trans e (f e) (tell_admin env m (f e)).0 (h e) (tell_admin_rule env m (f e))

  pub Advances-logout : (m : FixMessage) → Advancing env (handle_logout env m)
  unfolding handle_logout
  Advances-logout m =
      let text = codes "Logout Acknowledged by Handler" in
      let answer = λ (e : Engine).
        if is_disconnected e.state || is_logout_in_progress e.state
        then done e
        else send_logout_message env text e in
      let close_up =
        λ (t : FixMessage) (e : Engine). tell_admin env t (notify_logoff_received env e) in
      logged_rule env (λ t. answer >> disconnect_now env >> close_up t) m
        (λ t wire p.
          then_rule env (answer >> disconnect_now env) (close_up t)
            (then_rule env answer (disconnect_now env)
              (λ e.
                if_rule Advances e (is_disconnected e.state || is_logout_in_progress e.state)
                  (done e) (send_logout_message env text e) (Advances-refl e)
                  (logout_rule env text e))
              (disconnect_rule env))
            (admin_step t (notify_logoff_received env)
              (λ e. raising_step e (notify_logoff_received env e) (omega arith) refl refl)))

  pub Advances-heartbeat : (m : FixMessage) → Advancing env (handle_heartbeat env m)
  unfolding handle_heartbeat process_incoming_heartbeat
  Advances-heartbeat m =
      logged_rule env (λ t e. tell_admin env t (process_incoming_heartbeat env (get_text 112 t) e))
        m
        (λ t wire p. admin_step t (process_incoming_heartbeat env (get_text 112 t)) (λ e.
          raising_step e (process_incoming_heartbeat env (get_text 112 t) e) (omega arith) refl
            refl))
