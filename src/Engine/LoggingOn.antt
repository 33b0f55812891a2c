-- ===== src/Engine/LoggingOn.antt =====
-- The Logon handler of message_handler.py only advances a session, if the Logon does not reset it.
use gofixmsg.Prelude.{
  ℕ, ◌==◌, ◌≡◌, refl, Bool, false, ◌&&◌, not, Option, none, some, Text, arith, ltb, nat_eq,
  if◌then◌else◌,
}
use gofixmsg.Decimal.{codes}
use gofixmsg.Message.{FixMessage, get_text, is_text}
use gofixmsg.StateMachine.{logon_received_valid, logon_successful}
use gofixmsg.Store.{get_next_incoming_sequence_number}
use gofixmsg.Engine.{Env, Engine, Act, done, ◌>>◌, Mode, acceptor, initiator, other_mode, on_event}
use gofixmsg.Engine.Steps.{if_rule}
use gofixmsg.Engine.Outgoing.{msg_type, number_of, send_message, send_logout_message}
use gofixmsg.Engine.Advances.{Advances, Advances-refl, Advances-on_event, raising_step}
use gofixmsg.Engine.Handling.{KeepsTags, Advancing, then_rule, send_rule, logout_rule, logged_rule}
use gofixmsg.Engine.Logon.{
  start_heartbeat, comp_ids_match, resets, logon_response, accept_logon, logon_number,
  acceptor_logon, initiator_logon, by_mode, with_numbers, handle_logon,
}
use gofixmsg.Engine.Reasons.{
  invalid_seq_num, invalid_heartbeat_interval, invalid_comp_ids, invalid_comp_ids_response,
  logon_too_low, logon_too_high, response_too_low, response_too_high,
}

module _ (env : Env) where
  start_step : (e : Engine) → Advances e (start_heartbeat env e)
  unfolding start_heartbeat
  start_step e = raising_step e (start_heartbeat env e) (ground arith) (ground arith) (ground arith)

  accept_rule : (reset : Bool) → Advancing env (accept_logon env reset)
  unfolding accept_logon
  accept_rule reset =
      then_rule env (send_message env (logon_response env reset) >> on_event logon_received_valid)
        (λ e. done (start_heartbeat env e))
        (then_rule env (send_message env (logon_response env reset)) (on_event logon_received_valid)
          (send_rule env (logon_response env reset)) (Advances-on_event logon_received_valid))
        start_step

  number_rule :
      (n expected : ℕ) (valid : Act) (low high : ℕ → ℕ → Text)
      → Advancing env valid
      → Advancing env (logon_number env n expected valid low high)
  unfolding logon_number
  number_rule n expected valid low high f e =
      if_rule Advances e (ltb n expected) (send_logout_message env (low expected n) e)
        (if ltb expected n then send_logout_message env (high expected n) e else valid e)
        (logout_rule env (low expected n) e)
        (if_rule Advances e (ltb expected n) (send_logout_message env (high expected n) e) (valid e)
          (logout_rule env (high expected n) e) (f e))

  acceptor_rule :
      (m : FixMessage) (n : ℕ) → resets env m ≡ false → Advancing env (acceptor_logon env m n)
  unfolding acceptor_logon
  acceptor_rule m n plain e =
      let text =
        invalid_comp_ids env.config.target env.config.sender (get_text 49 m) (get_text 56 m) in
      let expected = get_next_incoming_sequence_number e.store in
      let plain_logon =
        logon_number env n expected (accept_logon env false) logon_too_low logon_too_high e in
      rw plain (
        if_rule Advances e (not (comp_ids_match env m)) (send_logout_message env text e) plain_logon
          (logout_rule env text e)
          (number_rule n expected (accept_logon env false) logon_too_low logon_too_high
            (accept_rule false) e))

  initiator_rule : (m : FixMessage) (n : ℕ) → Advancing env (initiator_logon env m n)
  unfolding initiator_logon
  initiator_rule m n e =
      let text =
        invalid_comp_ids_response env.config.target env.config.sender (get_text 49 m)
          (get_text 56 m) in
      let expected = get_next_incoming_sequence_number e.store in
      let success = on_event logon_successful in
      let compared = logon_number env n expected success response_too_low response_too_high e in
      let is_reset = env.config.reset_seq_num_on_logon && resets env m && n == 1 in
      if_rule Advances e (not (comp_ids_match env m)) (send_logout_message env text e)
        (if is_reset then success e else compared) (logout_rule env text e)
        (if_rule Advances e is_reset (success e) compared (Advances-on_event logon_successful e) (
          number_rule n expected success response_too_low response_too_high
            (Advances-on_event logon_successful) e))

  mode_rule :
      (mode : Mode) (m : FixMessage) (n : ℕ)
      → resets env m ≡ false
      → Advancing env (by_mode env mode m n)
  mode_rule acceptor m n plain = acceptor_rule m n plain
  mode_rule initiator m n plain = initiator_rule m n
  mode_rule other_mode m n plain = Advances-refl

  numbers_rule :
      (m : FixMessage) (n interval : Option ℕ)
      → resets env m ≡ false
      → Advancing env (with_numbers env m n interval)
  numbers_rule m none interval plain = logout_rule env (invalid_seq_num (get_text 34 m))
  numbers_rule m (some n) none plain = logout_rule env (invalid_heartbeat_interval (get_text 108 m))
  numbers_rule m (some n) (some interval) plain = mode_rule env.config.mode m n plain

  pub Advances-logon :
      (m : FixMessage)
      → KeepsTags env
      → is_text (get_text 141 m) (codes "Y") ≡ false
      → Advancing env (handle_logon env m)
  unfolding handle_logon get_text
  Advances-logon m keeps plain =
      let numbered = λ (t : FixMessage).
        with_numbers env t (number_of (get_text 34 t)) (number_of (get_text 108 t)) in
      let checked = λ (t : FixMessage) (e : Engine).
        if is_text (msg_type t) (codes "A") then numbered t e else done e in
      logged_rule env checked m (λ t wire p e.
        if_rule Advances e (is_text (msg_type t) (codes "A")) (numbered t e) (done e)
          (numbers_rule t (number_of (get_text 34 t)) (number_of (get_text 108 t))
            (rw (keeps m t wire p 141 refl refl) plain) e)
          (Advances-refl e))
