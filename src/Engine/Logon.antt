-- ===== src/Engine/Logon.antt =====
-- `LogonHandler` of message_handler.py, and `FixEngine.logon` of engine.py.
use gofixmsg.Prelude.{
  ℕ, ◌==◌, ltb, Bool, true, false, ◌&&◌, not, Option, none, some, [], ◌∷◌, Text, if◌then◌else◌,
}
use gofixmsg.Decimal.{codes}
use gofixmsg.Message.{FixMessage, str, int_value, get_text, is_text, update}
use gofixmsg.StateMachine.{logon_received_valid, logon_successful, logon_failed}
use gofixmsg.Store.{get_next_incoming_sequence_number, reset_sequence_numbers}
use gofixmsg.Engine.{
  Env, Engine, Mode, acceptor, initiator, other_mode, Act, done, ◌>>◌, attempt, is_acceptor,
  is_disconnected, is_logon_in_progress, on_event,
}
use gofixmsg.Engine.Reasons.{
  invalid_seq_num, invalid_heartbeat_interval, invalid_comp_ids, invalid_comp_ids_response,
  invalid_reset, logon_too_low, logon_too_high, response_too_low, response_too_high,
}
use gofixmsg.Engine.Outgoing.{
  fixmsg, msg_type, number_of, send_message, send_logout_message, disconnect_now,
}
use gofixmsg.Engine.Handlers.{logged}

module _ (env : Env) where
  -- `FixEngine.reset_sequence_numbers`
  unfoldable pub reset_numbers : Engine → Engine
  reset_numbers e = record e { store = reset_sequence_numbers (env.database_time e.clock) e.store }

  -- `Heartbeat.start`
  unfoldable pub start_heartbeat : Engine → Engine
  start_heartbeat e = if e.heartbeat.running then e else record e {
    heartbeat = record (e.heartbeat) {
      running = true;
      last_sent_time = e.clock;
      last_received_time = e.clock;
      missed_heartbeats = 0;
    };
  }

  -- The counterparty's SenderCompID is our target, and its TargetCompID our sender.
  unfoldable pub comp_ids_match : FixMessage → Bool
  comp_ids_match m =
      is_text (get_text 49 m) env.config.target && is_text (get_text 56 m) env.config.sender

  abbrev pub resets : FixMessage → Bool
  resets m = is_text (get_text 141 m) (codes "Y")

  abbrev pub logon_response : Bool → FixMessage
  logon_response reset = update (fixmsg env []) (
      if reset
      then (35, str (codes "A"))
        ∷ (108, int_value env.config.heartbeat_interval)
        ∷ (141, str (codes "Y"))
        ∷ []
      else (35, str (codes "A")) ∷ (108, int_value env.config.heartbeat_interval) ∷ [])

  -- A valid Logon at an acceptor: answer, become active, start the heartbeat.
  unfoldable pub accept_logon : Bool → Act
  accept_logon reset =
      send_message env (logon_response reset) >> on_event logon_received_valid >> λ e.
      done (start_heartbeat e)

  -- The comparison of MsgSeqNum with what is expected.
  unfoldable pub logon_number : ℕ → ℕ → Act → (ℕ → ℕ → Text) → (ℕ → ℕ → Text) → Act
  logon_number n expected valid low high e =
      if ltb n expected
      then send_logout_message env (low expected n) e
      else if ltb expected n
      then send_logout_message env (high expected n) e
      else valid e

  unfoldable pub acceptor_logon : FixMessage → ℕ → Act
  acceptor_logon m n e =
      if not (comp_ids_match m)
      then send_logout_message env
          (invalid_comp_ids env.config.target env.config.sender (get_text 49 m) (get_text 56 m)) e
      else if resets m
      then if not (n == 1)
        then send_logout_message env (invalid_reset n) e
        else logon_number n 1 (accept_logon true) logon_too_low logon_too_high (reset_numbers e)
      else logon_number n (get_next_incoming_sequence_number e.store) (accept_logon false)
          logon_too_low logon_too_high e

  unfoldable pub initiator_logon : FixMessage → ℕ → Act
  initiator_logon m n e =
      if not (comp_ids_match m)
      then send_logout_message env
          (invalid_comp_ids_response env.config.target env.config.sender (get_text 49 m)
            (get_text 56 m))
          e
      else if env.config.reset_seq_num_on_logon && resets m && n == 1
      then on_event logon_successful e
      else logon_number n (get_next_incoming_sequence_number e.store) (on_event logon_successful)
          response_too_low response_too_high e

  abbrev pub by_mode : Mode → FixMessage → ℕ → Act
  by_mode acceptor m n = acceptor_logon m n
  by_mode initiator m n = initiator_logon m n
  by_mode other_mode m n = done

  abbrev pub with_numbers : FixMessage → Option ℕ → Option ℕ → Act
  with_numbers m none _ = send_logout_message env (invalid_seq_num (get_text 34 m))
  with_numbers m (some n) none =
      send_logout_message env (invalid_heartbeat_interval (get_text 108 m))
  with_numbers m (some n) (some interval) = by_mode env.config.mode m n

  unfoldable pub handle_logon : FixMessage → Act
  handle_logon = logged env λ m e.
      if is_text (msg_type m) (codes "A")
      then with_numbers m (number_of (get_text 34 m)) (number_of (get_text 108 m)) e
      else done e

  -- The initiator's own Logon; `141` is set before `35`, `108` and `98`.
  abbrev pub own_logon : Bool → FixMessage
  own_logon reset = update (fixmsg env []) (
      (141, str (if reset then codes "Y" else codes "N"))
      ∷ (35, str (codes "A"))
      ∷ (108, int_value env.config.heartbeat_interval)
      ∷ (98, int_value env.config.encryptmethod)
      ∷ [])

  unfoldable pub logon : Act
  logon e =
      if is_acceptor env.config.mode
      then done e
      else if not (is_logon_in_progress e.state)
      then if is_disconnected e.state then done e else disconnect_now env e
      else let reset = env.config.reset_seq_num_on_logon in
        let ready = if reset then reset_numbers e else e in
        attempt (send_message env (own_logon reset) >> λ s. done (start_heartbeat s))
          (on_event logon_failed >> disconnect_now env) ready
