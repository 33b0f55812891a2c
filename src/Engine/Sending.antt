-- ===== src/Engine/Sending.antt =====
-- The operations of Engine/Outgoing only send and take the session down.
use gofixmsg.Prelude.{
  ℕ, Bool, true, false, ◌&&◌, ◌||◌, not, Option, none, some, List, [], ◌∷◌, ◌++◌, ◌≡◌, refl, ◌∙◌,
  Text, lookup, nat_eq, if◌then◌else◌,
}
use gofixmsg.Decimal.{codes}
use gofixmsg.Message.{FixMessage, Value, str, is_text}
use gofixmsg.StateMachine.{Event, disconnect, force_disconnect, logout_initiated}
use gofixmsg.Store.{
  MessageStore, increment_outgoing_sequence_number, set_outgoing_sequence_number, close,
}
use gofixmsg.Engine.{
  Env, Engine, done, raise, go_on, rescue, ◌>>◌, attempt, is_disconnected, is_active, is_acceptor,
  is_initiator, is_logon_in_progress, is_logout_in_progress, on_event,
}
use gofixmsg.Engine.Steps.{if_rule, go_on_rule, rescue_rule}
use gofixmsg.Engine.Outgoing.{
  fixmsg, msg_type, ref_tag, ref_type, ref_reason, network_disconnect, write, is_reset_logon,
  seq_of, network_send, take_down, disconnect_now, store_sent, record_sent, stamp, transmit,
  with_wire, send_message, logout_failed, send_logout_message, disconnect_gracefully,
  send_reject_message,
}
use gofixmsg.Engine.Effects.{
  Sends, Sends-refl, Sends-trans, Sends-on_event, Quiet-step, sent_step, incoming-store_message,
  incoming-increment_outgoing, incoming-set_outgoing,
}

module _ (env : Env) where
  pub Sends-network_disconnect : (e : Engine) → Sends e (network_disconnect env e).0
  unfolding network_disconnect
  Sends-network_disconnect e =
      if_rule Sends e (is_acceptor env.config.mode) (record e { running = false }, false)
        (record e { running = false; attached = false }, false)
        (Quiet-step e (record e { running = false }) (refl, refl, refl, refl, refl, refl) refl)
        (Quiet-step e (record e { running = false; attached = false })
          (refl, refl, refl, refl, refl, refl) refl)

  Sends-write :
      (m : FixMessage) (faults : List Bool) (e : Engine) → Sends e (write env m faults e).0
  Sends-write m [] e =
      sent_step e (record e { sent = e.sent ++ m ∷ [] }) m (refl, refl, refl, refl, refl, refl) refl
  Sends-write m (false ∷ rest) e =
      sent_step e (record e { sent = e.sent ++ m ∷ []; faults = rest }) m
        (refl, refl, refl, refl, refl, refl) refl
  Sends-write m (true ∷ rest) e =
      let f = record e { sent = e.sent ++ m ∷ []; faults = rest } in
      let r = network_disconnect env f in
      go_on_rule Sends Sends-trans e r raise
        (Sends-trans e f r.0 (sent_step e f m (refl, refl, refl, refl, refl, refl) refl)
          (Sends-network_disconnect f))
        Sends-refl

  pub Sends-network_send : (m : FixMessage) (e : Engine) → Sends e (network_send env m e).0
  unfolding network_send
  Sends-network_send m e =
      if_rule Sends e (e.attached && e.running) (write env m e.faults e) (done e)
        (Sends-write m e.faults e) (Sends-refl e)

  -- The fields that `take_down` resets, apart from the connection.
  Sends-reset :
      (e : Engine)
      → Sends e (record e {
        heartbeat = record (e.heartbeat) { running = false };
        scheduler_running = false;
        store = close e.store;
        retry_attempts = 0;
      })
  unfolding close
  Sends-reset e =
      Quiet-step e
        (record e {
          heartbeat = record (e.heartbeat) { running = false };
          scheduler_running = false;
          store = close e.store;
          retry_attempts = 0;
        })
        (refl, refl, refl, refl, refl, refl) refl

  Sends-unless :
      (b : Bool) (event : Event) (e : Engine) → Sends e (if b then done e else on_event event e).0
  Sends-unless b event e =
      if_rule Sends e b (done e) (on_event event e) (Sends-refl e) (Sends-on_event event e)

  pub Sends-take_down : (e : Engine) → Sends e (take_down env e).0
  unfolding take_down
  Sends-take_down e =
      let e' = (network_disconnect env e).0 in
      let e'' = record e' {
        heartbeat = record (e'.heartbeat) { running = false };
        scheduler_running = false;
        store = close e'.store;
        retry_attempts = 0;
      } in
      let t = (if is_disconnected e''.state then done e'' else on_event force_disconnect e'').0 in
      Sends-trans e e'' t (Sends-trans e e' e'' (Sends-network_disconnect e) (Sends-reset e'))
        (Sends-unless (is_disconnected e''.state) force_disconnect e'')

  pub Sends-clear : (e : Engine) → Sends e (record e { cleared = true })
  Sends-clear e =
      Quiet-step e (record e { cleared = true }) (refl, refl, refl, refl, refl, refl) refl

  pub Sends-disconnect_now : (e : Engine) → Sends e (disconnect_now env e).0
  unfolding disconnect_now
  Sends-disconnect_now e =
      let e' = record e { cleared = true } in
      let r = if is_disconnected e.state then done e' else on_event disconnect e' in
      if_rule Sends e (is_disconnected e.state && not e.running) (done e') (go_on r (take_down env))
        (Sends-clear e)
        (go_on_rule Sends Sends-trans e r (take_down env)
          (Sends-trans e e' r.0 (Sends-clear e)
            (Sends-unless (is_disconnected e.state) disconnect e'))
          Sends-take_down)

  incoming-store_sent :
      (n : Option ℕ) (wire : Text) (s : MessageStore)
      → (store_sent env n wire s).incoming_seqnum ≡ s.incoming_seqnum
  incoming-store_sent none wire s = refl
  incoming-store_sent (some n) wire s =
      incoming-store_message (some env.config.version) (some env.config.sender)
        (some env.config.target) n wire s

  pub Sends-record_sent :
      (m : FixMessage) (wire : Text) (e : Engine) → Sends e (record_sent env m wire e).0
  unfolding record_sent
  Sends-record_sent m wire e =
      let now = env.database_time e.clock in
      let stored = store_sent env (seq_of (lookup 34 m)) wire e.store in
      let same = incoming-store_sent (seq_of (lookup 34 m)) wire e.store in
      let two = record e { store = set_outgoing_sequence_number now 2 stored } in
      let one = record e { store = increment_outgoing_sequence_number now stored } in
      if_rule Sends e (is_reset_logon m) (done two) (done one)
        (Quiet-step e two (incoming-set_outgoing now 2 stored ∙ same, refl, refl, refl, refl, refl)
          refl)
        (Quiet-step e one
          (incoming-increment_outgoing now stored ∙ same, refl, refl, refl, refl, refl) refl)

  pub Sends-transmit :
      (m : FixMessage) (wire : Text) (e : Engine) → Sends e (transmit env m wire e).0
  unfolding transmit
  Sends-transmit m wire e =
      rescue_rule Sends Sends-trans e (go_on (network_send env m e) (record_sent env m wire))
        (on_event disconnect >> disconnect_now env)
        (go_on_rule Sends Sends-trans e (network_send env m e) (record_sent env m wire)
          (Sends-network_send m e) (Sends-record_sent m wire))
        (λ s.
          go_on_rule Sends Sends-trans s (on_event disconnect s) (disconnect_now env)
            (Sends-on_event disconnect s) Sends-disconnect_now)

  Sends-with_wire :
      (o : Option (FixMessage × Text)) (e : Engine) → Sends e (with_wire env o (transmit env) e).0
  Sends-with_wire none e = Sends-refl e
  Sends-with_wire (some (m, wire)) e = Sends-transmit m wire e

  pub Sends-send_message : (m : FixMessage) (e : Engine) → Sends e (send_message env m e).0
  unfolding send_message
  Sends-send_message m e =
      let can_send_logon =
        is_text (msg_type m) (codes "A")
        && is_initiator env.config.mode
        && is_logon_in_progress e.state in
      if_rule Sends e (is_disconnected e.state && not can_send_logon) (done e)
        (with_wire env (env.to_wire (stamp env m e)) (transmit env) e) (Sends-refl e)
        (Sends-with_wire (env.to_wire (stamp env m e)) e)

  Sends-logout_failed : (e : Engine) → Sends e (logout_failed env e).0
  Sends-logout_failed e =
      let r = go_on (on_event disconnect e) (disconnect_now env) in
      if_rule Sends e (is_disconnected e.state) (done e) r (Sends-refl e) (
        go_on_rule Sends Sends-trans e (on_event disconnect e) (disconnect_now env)
          (Sends-on_event disconnect e) Sends-disconnect_now)

  pub Sends-send_logout_message :
      (text : Text) (e : Engine) → Sends e (send_logout_message env text e).0
  unfolding send_logout_message
  Sends-send_logout_message text e =
      let logout_msg = fixmsg env ((35, str (codes "5")) ∷ (58, str text) ∷ []) in
      let first = if is_active e.state then on_event logout_initiated e else done e in
      let r = go_on first (send_message env logout_msg) in
      if_rule Sends e (is_disconnected e.state || is_logout_in_progress e.state) (done e)
        (rescue r (logout_failed env)) (Sends-refl e)
        (rescue_rule Sends Sends-trans e r (logout_failed env)
          (go_on_rule Sends Sends-trans e first (send_message env logout_msg)
            (if_rule Sends e (is_active e.state) (on_event logout_initiated e) (done e)
              (Sends-on_event logout_initiated e) (Sends-refl e))
            (Sends-send_message logout_msg))
          Sends-logout_failed)

  pub Sends-disconnect_gracefully : (e : Engine) → Sends e (disconnect_gracefully env e).0
  unfolding disconnect_gracefully
  Sends-disconnect_gracefully e =
      let e' = record e { cleared = true } in
      let text = codes "Operator requested logout" in
      let rest = attempt (send_logout_message env text) done >> take_down env in
      let r = on_event logout_initiated e' in
      if_rule Sends e (is_active e.state) (go_on r rest) (disconnect_now env e)
        (go_on_rule Sends Sends-trans e r rest
          (Sends-trans e e' r.0 (Sends-clear e) (Sends-on_event logout_initiated e'))
          (λ s.
            go_on_rule Sends Sends-trans s (rescue (send_logout_message env text s) done)
              (take_down env)
              (rescue_rule Sends Sends-trans s (send_logout_message env text s) done
                (Sends-send_logout_message text s) Sends-refl)
              Sends-take_down))
        (Sends-disconnect_now e)

  pub Sends-send_reject_message :
      (n : Value) (tag reason : Option ℕ) (text : Text) (t : Option Text) (e : Engine)
      → Sends e (send_reject_message env n tag reason text t e).0
  unfolding send_reject_message
  Sends-send_reject_message n tag reason text t e =
      Sends-send_message
        (ref_reason env reason (
          ref_type env t
            (ref_tag env tag (fixmsg env ((35, str (codes "3")) ∷ (45, n) ∷ (58, str text) ∷ [])))))
        e
