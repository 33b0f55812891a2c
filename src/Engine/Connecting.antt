-- ===== src/Engine/Connecting.antt =====
-- engine.py: starting a session, connecting again with a growing pause, taking in a connection, and
-- asking for the end of the session.
use gofixmsg.Prelude.{
  ℕ, zero, suc, ◌+◌, ◌-◌, ◌*◌, ◌^◌, ◌≤◌, ◌<◌, ◌≡◌, ◌⊎◌, ◌≢◌, lt→ltb, ltb→lt, Bool-cases, inl, inr,
  refl, ap, ◌∙◌, Bool, true, false, ◌&&◌, not, Option, none, some, arith, ltb, leb, if◌then◌else◌,
}
use gofixmsg.Decimal.{codes}
use gofixmsg.StateMachine.{
  State, disconnected, reconnecting, active, Event, initiator_connect_attempt,
  connection_established, connection_failed, initiate_reconnect, reconnect_failed_max_retries,
  client_accepted_awaiting_logon, disconnect, state_on_event,
}
use gofixmsg.StateMachine.Runs.{next_state, disconnect_always}
use gofixmsg.Engine.{
  Env, Engine, initiator, Act, done, go_on, rescue, ◌>>◌, is_acceptor, is_initiator, is_active,
  is_disconnected, is_logout_in_progress, on_event, shift, on_event_lem,
}
use gofixmsg.Engine.Outgoing.{send_logout_message, disconnect_now}
use gofixmsg.Engine.Logon.{logon}
use gofixmsg.Engine.Down.{state-on_event, is_disconnected_sound}

-- A state from which `start` is called.
abbrev pub IsIdle : State → Type 0
IsIdle s = (s ≡ disconnected) ⊎ (s ≡ reconnecting)

from_idle :
    (s : State)
    → IsIdle s
    → (next_state (next_state s initiator_connect_attempt) connection_failed ≡ disconnected)
      × (state_on_event s initiator_connect_attempt ≢ some active)
unfolding state_on_event
from_idle s (inl p) = rw p (refl, λ q. ground arith)
from_idle s (inr p) = rw p (refl, λ q. ground arith)

fails_inactive : (s : State) → state_on_event s connection_failed ≢ some active
unfolding state_on_event
fails_inactive s p = ground arith

attempts-shift :
    (o : Option State) (e : Engine)
    → o ≢ some active
    → (shift o e).retry_attempts ≡ e.retry_attempts
attempts-shift o e h = ground arith

-- An event that does not lead to ACTIVE keeps the count of the attempts.
attempts-on_event :
    (event : Event) (e : Engine)
    → state_on_event e.state event ≢ some active
    → (on_event event e).0.retry_attempts ≡ e.retry_attempts
attempts-on_event event e h =
    rw (on_event_lem event e) (attempts-shift (state_on_event e.state event) e h)

if_no : {A : Type 0} → (b : Bool) (x y : A) → b ≡ false → (if b then x else y) ≡ y
if_no b x y h = rw h refl

if_yes : {A : Type 0} → (b : Bool) (x y : A) → b ≡ true → (if b then x else y) ≡ x
if_yes b x y h = rw h refl

ends :
    (t : Engine) (b : Bool)
    → is_disconnected t.state ≡ b
    → (if is_disconnected t.state then t else (on_event disconnect t).0).state ≡ disconnected
ends t true h = rw h (is_disconnected_sound t.state h)
ends t false h = rw h (state-on_event disconnect t ∙ (disconnect_always t.state).0)

module _ (env : Env) where
  -- `receive_message`, with `network.receive(self.on_network_data)` as a parameter.
  unfoldable pub receive_message : Act → Act
  receive_message receive e =
      let leave = on_event disconnect >> disconnect_now env in
      let unless_down = λ (s : Engine). if is_disconnected s.state then done s else leave s in
      if not e.running then unless_down e else rescue (receive e) unless_down

  -- `request_logoff`. While it waits for the answer, or for the time to run out, `meanwhile` happens.
  unfoldable pub request_logoff : (Engine → Engine) → Act
  request_logoff meanwhile e =
      if not (is_active e.state) && not (is_logout_in_progress e.state)
      then done e
      else go_on
          (send_logout_message env (codes "Operator requested logout")
            (record e { logoff_pending = true }))
          (λ s. disconnect_now env (meanwhile s))

-- What is passed in: `network.connect`, `network.start_accepting` and `network.receive` with `on_network_data`, each with all
-- that it does until it returns or raises.
module _ (env : Env) (connect accept receive : Act) (retry_interval : ℕ) where
  unfoldable pub connect_and_run : Act
  connect_and_run =
      on_event initiator_connect_attempt
      >> connect
      >> on_event connection_established
      >> logon env
      >> receive_message env receive

  abbrev pub pause : ℕ → ℕ
  pause attempts = 10 * (retry_interval * 2 ^ (attempts - 1))

  -- The engine behind the pause of the next attempt.
  unfoldable pub next_attempt : Engine → Engine
  next_attempt e =
      let t =
        (on_event initiate_reconnect (record e { retry_attempts = e.retry_attempts + 1 })).0 in
      record t { clock = t.clock + pause t.retry_attempts }

  -- `retry_connect`, whose call of `start` is `again`.
  unfoldable pub retry_connect : (Engine → Option Engine) → Engine → Option Engine
  retry_connect again e =
      if is_acceptor env.config.mode
      then some e
      else if not (is_active e.state) && ltb e.retry_attempts env.config.max_retries
      then again (next_attempt e)
      else if leb env.config.max_retries e.retry_attempts
      then some (on_event reconnect_failed_max_retries e).0
      else some e

  -- The `except` blocks of `start`, which do the same.
  abbrev pub start_failed : (Engine → Option Engine) → Engine × Bool → Option Engine
  start_failed again (e, false) = some e
  start_failed again (e, true) =
      if is_initiator env.config.mode
      then retry_connect again (on_event connection_failed e).0
      else some e

  abbrev pub started : Engine → Engine
  started e = record e { scheduler_running = true; cleared = true }

  -- `start`. `none` is that the fuel ran out.
  unfoldable pub start : ℕ → Engine → Option Engine
  start zero e = none
  start (suc fuel) e =
      let again = start fuel in
      if is_acceptor env.config.mode
      then start_failed again (accept (started e))
      else start_failed again (connect_and_run (started e))

  -- `handle_incoming_connection`: what is raised is logged, and the state ends in DISCONNECTED.
  unfoldable pub handle_incoming_connection : Engine → Engine
  handle_incoming_connection e =
      let s = record e { cleared = true; running = true; attached = true } in
      let opened = (on_event client_accepted_awaiting_logon s).0 in
      let t = (receive_message env receive (record opened { retry_attempts = 0 })).0 in
      if is_disconnected t.state then t else (on_event disconnect t).0

  -- `handle_incoming_connection` ends in DISCONNECTED, whatever the session did.
  pub handle_incoming_connection_ends :
      (e : Engine) → (handle_incoming_connection e).state ≡ disconnected
  unfolding handle_incoming_connection
  handle_incoming_connection_ends e =
      let s = record e { cleared = true; running = true; attached = true } in
      let opened = (on_event client_accepted_awaiting_logon s).0 in
      let t = (receive_message env receive (record opened { retry_attempts = 0 })).0 in
      ends t (is_disconnected t.state) refl

  abbrev AtMax : Engine → Type 0
  AtMax t = (t.state ≡ disconnected) × (t.retry_attempts ≡ env.config.max_retries)

  -- One failed attempt to connect.
  abbrev failed : Engine → Engine
  failed e = (on_event connection_failed (on_event initiator_connect_attempt (started e)).0).0

  failed_lem :
      (e : Engine)
      → IsIdle e.state
      → ((failed e).state ≡ disconnected) × ((failed e).retry_attempts ≡ e.retry_attempts)
  failed_lem e h =
      let s = started e in
      let t = (on_event initiator_connect_attempt s).0 in
      let first = state-on_event initiator_connect_attempt s in
      (
        state-on_event connection_failed t
            ∙ ap (λ x. next_state x connection_failed) first
            ∙ (from_idle e.state h).0,
        attempts-on_event connection_failed t (fails_inactive t.state)
            ∙ attempts-on_event initiator_connect_attempt s (from_idle e.state h).1,
      )

  connect_fails :
      (s : Engine)
      → ((x : Engine) → connect x ≡ (x, true))
      → connect_and_run s ≡ ((on_event initiator_connect_attempt s).0, true)
  unfolding connect_and_run
  connect_fails s refused =
      rw (on_event_lem initiator_connect_attempt s)
        (rw (refused (shift (state_on_event s.state initiator_connect_attempt) s)) refl)

  start_again :
      (fuel : ℕ) (e : Engine)
      → env.config.mode ≡ initiator
      → ((x : Engine) → connect x ≡ (x, true))
      → start (suc fuel) e ≡ retry_connect (start fuel) (failed e)
  unfolding start
  start_again fuel e mode refused =
      let again = start fuel in
      let s = (on_event initiator_connect_attempt (started e)).0 in
      if_no (is_acceptor env.config.mode) (start_failed again (accept (started e)))
        (start_failed again (connect_and_run (started e))) (rw mode refl)
      ∙ ap (start_failed again) (connect_fails (started e) refused)
      ∙ if_yes (is_initiator env.config.mode) (retry_connect again (failed e)) (some s)
          (rw mode refl)

  next_lem :
      (f : Engine)
      → f.state ≡ disconnected
      → ((next_attempt f).state ≡ reconnecting)
        × ((next_attempt f).retry_attempts ≡ f.retry_attempts + 1)
  unfolding next_attempt state_on_event
  next_lem f h =
      let g = record f { retry_attempts = f.retry_attempts + 1 } in
      (
        state-on_event initiate_reconnect g ∙ ap (λ x. next_state x initiate_reconnect) h,
        attempts-on_event initiate_reconnect g (rw h (λ p. ground arith)),
      )

  retries :
      (again : Engine → Option Engine) (f : Engine)
      → env.config.mode ≡ initiator
      → f.state ≡ disconnected
      → f.retry_attempts < env.config.max_retries
      → retry_connect again f ≡ again (next_attempt f)
  unfolding retry_connect
  retries again f mode h low =
      let max = env.config.max_retries in
      let over =
        if leb max f.retry_attempts
        then some (on_event reconnect_failed_max_retries f).0
        else some f in
      let go = again (next_attempt f) in
      let test = not (is_active f.state) && ltb f.retry_attempts max in
      if_no (is_acceptor env.config.mode) (some f) (if test then go else over) (rw mode refl)
      ∙ if_yes test go over (rw h (lt→ltb f.retry_attempts max low))

  gives_up :
      (again : Engine → Option Engine) (f : Engine)
      → env.config.mode ≡ initiator
      → f.state ≡ disconnected
      → f.retry_attempts ≡ env.config.max_retries
      → retry_connect again f ≡ some (on_event reconnect_failed_max_retries f).0
  unfolding retry_connect
  gives_up again f mode h full =
      let max = env.config.max_retries in
      let stop = some (on_event reconnect_failed_max_retries f).0 in
      let over = if leb max f.retry_attempts then stop else some f in
      let test = not (is_active f.state) && ltb f.retry_attempts max in
      if_no (is_acceptor env.config.mode) (some f) (if test then again (next_attempt f) else over)
        (rw mode refl)
      ∙ if_no test (again (next_attempt f)) over (rw h (ground arith))
      ∙ if_yes (leb max f.retry_attempts) stop (some f) (ground arith)

  last_lem :
      (f : Engine)
      → f.state ≡ disconnected
      → f.retry_attempts ≡ env.config.max_retries
      → AtMax (on_event reconnect_failed_max_retries f).0
  unfolding state_on_event
  last_lem f h full = (
    state-on_event reconnect_failed_max_retries f
        ∙ ap (λ x. next_state x reconnect_failed_max_retries) h,
    attempts-on_event reconnect_failed_max_retries f (rw h (λ p. ground arith)) ∙ full,
  )

  stop_here :
      (fuel : ℕ) (e : Engine)
      → env.config.mode ≡ initiator
      → ((x : Engine) → connect x ≡ (x, true))
      → IsIdle e.state
      → e.retry_attempts ≡ env.config.max_retries
      → (t : Engine) × (start (suc fuel) e ≡ some t) × AtMax t
  stop_here fuel e mode refused idle full =
      let f = failed e in
      let same = failed_lem e idle in
      (
        (on_event reconnect_failed_max_retries f).0,
        start_again fuel e mode refused ∙ gives_up (start fuel) f mode same.0 (same.1 ∙ full),
        last_lem f same.0 (same.1 ∙ full),
      )

  -- Let every attempt of an initiator to connect be refused. `start`, called in DISCONNECTED or RECONNECTING with
  -- no more attempts counted than allowed, and with fuel for those that are left, ends: in DISCONNECTED, with all
  -- allowed attempts counted.
  pub start_gives_up :
      (fuel : ℕ) (e : Engine)
      → env.config.mode ≡ initiator
      → ((x : Engine) → connect x ≡ (x, true))
      → IsIdle e.state
      → e.retry_attempts ≤ env.config.max_retries
      → env.config.max_retries ≤ e.retry_attempts + fuel
      → (t : Engine) × (start (suc fuel) e ≡ some t) × AtMax t
  start_gives_up zero e mode refused idle low enough =
      stop_here zero e mode refused idle (omega arith)
  start_gives_up (suc fuel) e mode refused idle low enough =
      let f = failed e in
      let same = failed_lem e idle in
      let next = next_lem f same.0 in
      let p = same.1 in
      let q = next.1 in
      elim (Bool-cases (ltb e.retry_attempts env.config.max_retries)) [
        | inl more ↦
            let less = ltb→lt e.retry_attempts env.config.max_retries more in
            let (t, runs, end) =
              start_gives_up fuel (next_attempt f) mode refused (inr next.0) (omega arith)
                (omega arith) in
            (
              t,
              start_again (suc fuel) e mode refused
                  ∙ retries (start (suc fuel)) f mode same.0 (omega arith)
                  ∙ runs,
              end,
            )
        | inr full ↦ stop_here (suc fuel) e mode refused idle (ground arith)
      ]
