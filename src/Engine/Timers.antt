-- ===== src/Engine/Timers.antt =====
-- zz_archive/pyfixmsg_plus/fixengine/heartbeat.py: one round of the loop that watches the connection,
-- and testrequest.py, which it calls. The clock counts tenths of a second; the thresholds of 1.2
-- and 2.5 intervals are exact.
use gofixmsg.Prelude.{
  ℕ, ◌-◌, ◌*◌, ◌≡◌, refl, ap, ◌∙◌, Bool, true, false, ◌&&◌, not, Option, some, [], ◌∷◌, Text,
  insert, nat_eq, ltb, leb, if◌then◌else◌,
}
use gofixmsg.Decimal.{codes}
use gofixmsg.Message.{FixMessage, str}
use gofixmsg.StateMachine.{active}
use gofixmsg.Engine.{Env, Engine, Act, done, go_on, rescue, ◌>>◌, attempt, is_active}
use gofixmsg.Engine.Steps.{if_rule, go_on_rule}
use gofixmsg.Engine.Effects.{Sends, Sends-refl, Sends-trans, Quiet-step}
use gofixmsg.Engine.Outgoing.{fixmsg, send_message, disconnect_now}
use gofixmsg.Engine.Sending.{Sends-send_message}
use gofixmsg.Engine.Down.{IsDown, disconnect_now-IsDown, quiet-disconnect_now}

module _ (env : Env) where
  -- `send_test_request`: the fields, which `send_message` completes, and the id.
  abbrev pub test_request_id : Engine → Text
  test_request_id e = env.sending_time e.clock

  abbrev pub test_request_message : Text → FixMessage
  test_request_message id = fixmsg env (
      (35, str (codes "1"))
      ∷ (49, str env.config.sender)
      ∷ (56, str env.config.target)
      ∷ (112, str id)
      ∷ [])

  abbrev pub heartbeat_message : Option Text → FixMessage
  heartbeat_message (some (c ∷ id)) =
      insert 112 (str (c ∷ id)) (fixmsg env ((35, str (codes "0")) ∷ []))
  heartbeat_message _ = fixmsg env ((35, str (codes "0")) ∷ [])

  abbrev pub is_pending : Option Text → Bool
  is_pending (some (c ∷ id)) = true
  is_pending _ = false

  abbrev pub heartbeat_due : Engine → Bool
  heartbeat_due e = leb (10 * env.config.heartbeat_interval) (e.clock - e.heartbeat.last_sent_time)

  abbrev pub timed_out : Engine → Bool
  timed_out e = ltb (25 * env.config.heartbeat_interval) (e.clock - e.heartbeat.last_received_time)

  abbrev pub test_request_due : Engine → Bool
  test_request_due e =
      not (is_pending e.heartbeat.test_request_id)
      && ltb (12 * env.config.heartbeat_interval) (e.clock - e.heartbeat.last_received_time)

  -- `break`, or the end of the coroutine.
  abbrev pub end_loop : Engine → Engine
  end_loop e = record e { heartbeat = record (e.heartbeat) { running = false } }

  abbrev pub sent_at : ℕ → Engine → Engine
  sent_at now e = record e { heartbeat = record (e.heartbeat) { last_sent_time = now } }

  unfoldable pub send_heartbeat : Act
  send_heartbeat e =
      if heartbeat_due e
      then go_on (send_message env (heartbeat_message e.heartbeat.test_request_id) e)
          (λ s. done (sent_at e.clock s))
      else done e

  abbrev pub remember : Text → Engine → Engine
  remember id e = record e { heartbeat = record (e.heartbeat) { test_request_id = some id } }

  unfoldable pub send_test_request : Act
  send_test_request e =
      go_on (send_message env (test_request_message (test_request_id e)) e)
        (λ s. done (remember (test_request_id e) s))

  unfoldable pub watch : Act
  watch e =
      if timed_out e
      then go_on (disconnect_now env e) (λ s. done (end_loop s))
      else if test_request_due e
      then send_test_request e
      else done e

  -- A round of `_run_heartbeat_logic`, without the sleep at its end.
  unfoldable pub beat : Act
  beat e =
      if not (is_active e.state)
      then done e
      else attempt (send_heartbeat >> watch) (disconnect_now env >> λ s. done (end_loop s)) e

  sent_step : (now : ℕ) (e : Engine) → Sends e (sent_at now e)
  sent_step now e = Quiet-step e (sent_at now e) (refl, refl, refl, refl, refl, refl) refl

  Sends-send_heartbeat : (e : Engine) → Sends e (send_heartbeat e).0
  unfolding send_heartbeat
  Sends-send_heartbeat e =
      let m = heartbeat_message e.heartbeat.test_request_id in
      let r = go_on (send_message env m e) (λ s. done (sent_at e.clock s)) in
      if_rule Sends e (heartbeat_due e) r (done e)
        (go_on_rule Sends Sends-trans e (send_message env m e) (λ s. done (sent_at e.clock s))
          (Sends-send_message env m e) (sent_step e.clock))
        (Sends-refl e)

  abbrev give_up : Act
  give_up s = go_on (disconnect_now env s) (λ t. done (end_loop t))

  stopped :
      (r : Engine × Bool)
      → IsDown env r.0
      → r.1 ≡ false
      → IsDown env (rescue (go_on r (λ s. done (end_loop s))) give_up).0
  stopped (s, b) h q = rw q h

  given_up :
      (r : Engine × Bool)
      → IsDown env r.0
      → r.1 ≡ false
      → IsDown env (go_on r (λ s. done (end_loop s))).0
  given_up (s, b) h q = rw q h

  -- Whether the Heartbeat went out or raised, a session that timed out is taken down.
  watched :
      (r : Engine × Bool) → timed_out r.0 ≡ true → IsDown env (rescue (go_on r watch) give_up).0
  unfolding watch
  watched (s, true) out =
      given_up (disconnect_now env s) (disconnect_now-IsDown env s) (quiet-disconnect_now env s)
  watched (s, false) out =
      rw out
        (stopped (disconnect_now env s) (disconnect_now-IsDown env s) (quiet-disconnect_now env s))

  timed_out-send_heartbeat : (e : Engine) → timed_out (send_heartbeat e).0 ≡ timed_out e
  timed_out-send_heartbeat e =
      let h = Sends-send_heartbeat e in
      let limit = 25 * env.config.heartbeat_interval in
      ap (λ c. ltb limit (c - (send_heartbeat e).0.heartbeat.last_received_time)) h.clock
      ∙ ap (λ x. ltb limit (e.clock - x)) h.heard

  -- In state ACTIVE, a round that starts more than 2.5 intervals after the last received Heartbeat ends
  -- with the session DISCONNECTED and the network object stopped, whether a Heartbeat is due in the
  -- same round or not, and whether it can be sent or not.
  pub beat-timed_out : (e : Engine) → e.state ≡ active → timed_out e ≡ true → IsDown env (beat e).0
  unfolding beat
  beat-timed_out e a out =
      rw (ap (λ s. not (is_active s)) a)
        (watched (send_heartbeat e) (timed_out-send_heartbeat e ∙ out))
