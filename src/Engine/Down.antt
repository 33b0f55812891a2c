-- ===== src/Engine/Down.antt =====
-- Where taking a session down ends, and what a failing write leads to.
use gofixmsg.Prelude.{
  ◌++◌, [], ◌≡◌, refl, ap, ◌∙◌, Bool, true, false, ◌&&◌, not, Option, none, some, List, ◌∷◌, Text,
  if◌then◌else◌, arith,
}
use gofixmsg.Message.{FixMessage}
use gofixmsg.StateMachine.{State, disconnected, Event, disconnect, force_disconnect, state_on_event}
use gofixmsg.StateMachine.Runs.{next_state, disconnect_always}
use gofixmsg.Store.{close}
use gofixmsg.Engine.{
  Env, Engine, Act, done, raise, go_on, is_disconnected, is_acceptor, on_event, shift, on_event_lem,
}
use gofixmsg.Engine.Steps.{if_rule, test_rule, go_on_rule}
use gofixmsg.Engine.Outgoing.{
  network_disconnect, write, network_send, take_down, disconnect_now, stamp, transmit, with_wire,
  send_message,
}
use gofixmsg.Engine.Delivery.{send_message_up}

state-shift :
    (o : Option State) (e : Engine) (event : Event)
    → state_on_event e.state event ≡ o
    → (shift o e).state ≡ next_state e.state event
state-shift none e event h = rw h refl
state-shift (some s) e event h = rw h refl

pub state-on_event :
    (event : Event) (e : Engine) → (on_event event e).0.state ≡ next_state e.state event
state-on_event event e =
    rw (on_event_lem event e) (state-shift (state_on_event e.state event) e event refl)

pub is_disconnected_sound : (s : State) → is_disconnected s ≡ true → s ≡ disconnected
is_disconnected_sound s h = ground arith

-- Neither a message went out nor a number changed.
abbrev pub Silent : Engine → Engine → Type 0
Silent e t = (t.sent ≡ e.sent) × (t.store.outgoing_seqnum ≡ e.store.outgoing_seqnum)

Silent-trans : (a b c : Engine) → Silent a b → Silent b c → Silent a c
Silent-trans a b c h k = (k.0 ∙ h.0, k.1 ∙ h.1)

Silent-shift : (o : Option State) (e : Engine) → Silent e (shift o e)
Silent-shift o e = ground arith

Silent-on_event : (event : Event) (e : Engine) → Silent e (on_event event e).0
Silent-on_event event e = rw (on_event_lem event e) (Silent-shift (state_on_event e.state event) e)

-- Neither branch raises.
if_quiet :
    (b : Bool) (x y : Engine × Bool) → x.1 ≡ false → y.1 ≡ false → (if b then x else y).1 ≡ false
if_quiet true x y h k = h
if_quiet false x y h k = k

both : (a b : Bool) → a ≡ true → b ≡ true → (a && b) ≡ true
both a b h k = rw h k

raised : (r : Engine × Bool) → r.1 ≡ false → go_on r raise ≡ (r.0, true)
raised (s, b) h = rw h refl

module _ (env : Env) where
  Silent-network_disconnect : (e : Engine) → Silent e (network_disconnect env e).0
  unfolding network_disconnect
  Silent-network_disconnect e =
      if_rule Silent e (is_acceptor env.config.mode) (record e { running = false }, false)
        (record e { running = false; attached = false }, false) (refl, refl) (refl, refl)

  network_disconnect_stops :
      (e : Engine)
      → ((network_disconnect env e).0.running ≡ false)
        × ((network_disconnect env e).0.state ≡ e.state)
  unfolding network_disconnect
  network_disconnect_stops e = ground arith

  -- What `take_down` makes of the engine before its last test.
  abbrev put_down : Engine → Engine
  put_down e =
      let (e', _) = network_disconnect env e in
      record e' {
        heartbeat = record (e'.heartbeat) { running = false };
        scheduler_running = false;
        store = close e'.store;
        retry_attempts = 0;
      }

  abbrev finish : Engine → Engine × Bool
  finish e = if is_disconnected e.state then done e else on_event force_disconnect e

  finish_ends : (e : Engine) → (finish e).0.state ≡ disconnected
  finish_ends e =
      test_rule (λ _ t. t.state ≡ disconnected) e (is_disconnected e.state) (done e)
        (on_event force_disconnect e) (λ h. is_disconnected_sound e.state h)
        (λ _. state-on_event force_disconnect e ∙ (disconnect_always e.state).1)

  Silent-finish : (e : Engine) → Silent e (finish e).0
  Silent-finish e =
      if_rule Silent e (is_disconnected e.state) (done e) (on_event force_disconnect e) (refl, refl)
        (Silent-on_event force_disconnect e)

  running-shift : (o : Option State) (e : Engine) → (shift o e).running ≡ e.running
  running-shift o e = ground arith

  running-on_event : (event : Event) (e : Engine) → (on_event event e).0.running ≡ e.running
  running-on_event event e =
      rw (on_event_lem event e) (running-shift (state_on_event e.state event) e)

  running-finish : (e : Engine) → (finish e).0.running ≡ e.running
  running-finish e =
      if_rule (λ _ t. t.running ≡ e.running) e (is_disconnected e.state) (done e)
        (on_event force_disconnect e) refl (running-on_event force_disconnect e)

  -- The engine is down: DISCONNECTED, with its network object stopped.
  abbrev pub IsDown : Engine → Type 0
  IsDown t = (t.state ≡ disconnected) × (t.running ≡ false)

  pub take_down-IsDown : (e : Engine) → IsDown (take_down env e).0
  unfolding take_down
  take_down-IsDown e =
      (finish_ends (put_down e), running-finish (put_down e) ∙ (network_disconnect_stops e).0)

  pub Silent-take_down : (e : Engine) → Silent e (take_down env e).0
  unfolding take_down close
  Silent-take_down e =
      Silent-trans e (put_down e) (finish (put_down e)).0 (Silent-network_disconnect e)
        (Silent-finish (put_down e))

  abbrev leave : Engine → Engine × Bool
  leave e =
      if is_disconnected e.state
      then done (record e { cleared = true })
      else on_event disconnect (record e { cleared = true })

  quiet_leave : (e : Engine) → (leave e).1 ≡ false
  quiet_leave e =
      ground (arith, ap (λ r. r.1) (on_event_lem disconnect (record e { cleared = true })))

  -- Behind the decision about the state, nothing keeps `disconnect` from taking the session down.
  take_down_always :
      (e : Engine) (r : Engine × Bool) → r.1 ≡ false → IsDown (go_on r (take_down env)).0
  take_down_always e (s, b) h = rw h (take_down-IsDown s)

  IsDown-already : (e : Engine) → (is_disconnected e.state && not e.running) ≡ true → IsDown e
  IsDown-already e h = (ground (arith, is_disconnected_sound e.state), ground arith)

  -- `disconnect(graceful=False)` ends in DISCONNECTED with the network object stopped, from every
  -- state of the engine.
  pub disconnect_now-IsDown : (e : Engine) → IsDown (disconnect_now env e).0
  unfolding disconnect_now
  disconnect_now-IsDown e =
      test_rule (λ _ t. IsDown t) e (is_disconnected e.state && not e.running)
        (done (record e { cleared = true })) (go_on (leave e) (take_down env)) (IsDown-already e)
        (λ _. take_down_always e (leave e) (quiet_leave e))

  Silent-leave : (e : Engine) → Silent e (leave e).0
  Silent-leave e =
      if_rule Silent e (is_disconnected e.state) (done (record e { cleared = true }))
        (on_event disconnect (record e { cleared = true })) (refl, refl)
        (Silent-on_event disconnect (record e { cleared = true }))

  pub Silent-disconnect_now : (e : Engine) → Silent e (disconnect_now env e).0
  unfolding disconnect_now
  Silent-disconnect_now e =
      if_rule Silent e (is_disconnected e.state && not e.running)
        (done (record e { cleared = true })) (go_on (leave e) (take_down env)) (refl, refl)
        (go_on_rule Silent Silent-trans e (leave e) (take_down env) (Silent-leave e)
          Silent-take_down)

  quiet_on_event : (event : Event) (e : Engine) → (on_event event e).1 ≡ false
  quiet_on_event event e = ap (λ r. r.1) (on_event_lem event e)

  -- `take_down` raises nothing.
  quiet-take_down : (e : Engine) → (take_down env e).1 ≡ false
  unfolding take_down
  quiet-take_down e =
      if_quiet (is_disconnected (put_down e).state) (done (put_down e))
        (on_event force_disconnect (put_down e)) refl (quiet_on_event force_disconnect (put_down e))

  go_on_keeps_quiet :
      (r : Engine × Bool) (k : Act)
      → r.1 ≡ false
      → ((s : Engine) → (k s).1 ≡ false)
      → (go_on r k).1 ≡ false
  go_on_keeps_quiet (s, b) k h f = rw h (f s)

  pub quiet-disconnect_now : (e : Engine) → (disconnect_now env e).1 ≡ false
  unfolding disconnect_now
  quiet-disconnect_now e =
      if_quiet (is_disconnected e.state && not e.running) (done (record e { cleared = true }))
        (go_on (leave e) (take_down env)) refl
        (go_on_keeps_quiet (leave e) (take_down env) (quiet_leave e) quiet-take_down)

  raised_network :
      (s : Engine) → go_on (network_disconnect env s) raise ≡ ((network_disconnect env s).0, true)
  unfolding network_disconnect
  raised_network s = raised (network_disconnect env s) (
      if_quiet (is_acceptor env.config.mode) (record s { running = false }, false)
        (record s { running = false; attached = false }, false) refl refl)

  -- The engine when the drain behind the write of a message fails: the transport has the message.
  abbrev drained : FixMessage → List Bool → Engine → Engine
  drained m rest e = record e { sent = e.sent ++ m ∷ []; faults = rest }

  -- The exception comes after the network object was stopped.
  network_send_breaks :
      (m : FixMessage) (rest : List Bool) (e : Engine)
      → e.attached ≡ true
      → e.running ≡ true
      → e.faults ≡ true ∷ rest
      → network_send env m e ≡ ((network_disconnect env (drained m rest e)).0, true)
  unfolding network_send
  network_send_breaks m rest e a r f =
      let fault = drained m rest e in
      let to_write =
        ap (λ b. if b then write env m e.faults e else done e) (both e.attached e.running a r) in
      to_write ∙ ap (λ fs. write env m fs e) f ∙ raised_network fault

  abbrev give_up : Act
  give_up s = go_on (on_event disconnect s) (disconnect_now env)

  transmit_breaks :
      (m : FixMessage) (wire : Text) (rest : List Bool) (e : Engine)
      → e.attached ≡ true
      → e.running ≡ true
      → e.faults ≡ true ∷ rest
      → transmit env m wire e ≡ give_up (network_disconnect env (drained m rest e)).0
  unfolding transmit
  transmit_breaks m wire rest e a r f = rw (network_send_breaks m rest e a r f) refl

  disconnect_next : (r : Engine × Bool) → r.1 ≡ false → IsDown (go_on r (disconnect_now env)).0
  disconnect_next (s, b) h = rw h (disconnect_now-IsDown s)

  give_up_lem :
      (e s : Engine)
      → Silent e s
      → IsDown (give_up s).0 × Silent e (give_up s).0 × ((give_up s).1 ≡ false)
  give_up_lem e s h = (
    disconnect_next (on_event disconnect s) (quiet_on_event disconnect s),
    Silent-trans e s (give_up s).0 h (
        go_on_rule Silent Silent-trans s (on_event disconnect s) (disconnect_now env)
          (Silent-on_event disconnect s) Silent-disconnect_now),
    go_on_keeps_quiet (on_event disconnect s) (disconnect_now env) (quiet_on_event disconnect s)
        quiet-disconnect_now,
  )

  -- When a message is serialised and the drain behind its write to a running connection raises, on a
  -- session that is not DISCONNECTED, `send_message` takes the session down: it ends in DISCONNECTED
  -- with the network object stopped, without an exception; the message is the only one that was
  -- handed to the transport, and it is not counted: the outgoing number is the same.
  pub send_message_fails :
      (m t : FixMessage) (wire : Text) (rest : List Bool) (e : Engine)
      → is_disconnected e.state ≡ false
      → e.attached ≡ true
      → e.running ≡ true
      → e.faults ≡ true ∷ rest
      → env.to_wire (stamp env m e) ≡ some (t, wire)
      → IsDown (send_message env m e).0
        × ((send_message env m e).0.sent ≡ e.sent ++ t ∷ [])
        × ((send_message env m e).0.store.outgoing_seqnum ≡ e.store.outgoing_seqnum)
        × ((send_message env m e).1 ≡ false)
  send_message_fails m t wire rest e up a r f c =
      let s = drained t rest e in
      let (down, silent, quiet) =
        give_up_lem s (network_disconnect env s).0 (Silent-network_disconnect s) in
      rw
        (send_message_up env m e up
          ∙ ap (λ o. with_wire env o (transmit env) e) c
          ∙ transmit_breaks t wire rest e a r f)
        (down, silent.0, silent.1, quiet)
