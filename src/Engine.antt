-- ===== src/Engine.antt =====
-- zz_archive/pyfixmsg_plus/fixengine/engine.py: the state of a FIX session, what it is configured
-- with and connected to, and how its coroutines are composed. The children hold the operations.
mod Reasons
pub mod Outgoing
pub mod Handlers
pub mod Logon
pub mod Incoming
pub mod Reading
pub mod Steps
pub mod Effects
pub mod Sending
pub mod Delivery
pub mod Numbers
pub mod Down
pub mod Advances
pub mod Handling
pub mod Handled
pub mod LoggingOn
pub mod Receiving
pub mod InSequence
pub mod Order
pub mod Gaps
pub mod TooLow
pub mod Graceful
pub mod Timers
pub mod Connecting
mod Tests
use gofixmsg.Prelude.{
  ℕ, ◌≡◌, refl, ap, Bool, true, false, Option, none, some, List, [], ◌∷◌, Text, if◌then◌else◌,
}
use gofixmsg.Message.{FixMessage}
use gofixmsg.StateMachine
use gofixmsg.StateMachine.{
  State, disconnected, logon_in_progress, active, logout_in_progress, Event, observer, StateMachine,
}
use gofixmsg.Store.{MessageStore}

pub data Mode : Type 0 where
  acceptor initiator other_mode : Mode

-- The settings that the session layer reads from the configuration.
pub record Config : Type 0 where
  pub mode : Mode
  pub sender : Text
  pub target : Text
  pub version : Text
  pub heartbeat_interval : ℕ
  pub reset_seq_num_on_logon : Bool
  pub encryptmethod : ℕ
  pub max_retries : ℕ

-- The calls of the application object.
pub data AppCall : Type 0 where
  on_message : FixMessage → AppCall  -- with the session id
  on_message_alone : FixMessage → AppCall  -- without it
  from_admin : FixMessage → AppCall
  on_reject : FixMessage → AppCall

-- What a session works with: its settings; the codec, whose `to_wire` sets BodyLength and CheckSum on
-- the message and gives the text that goes out (`none`: it raises) and whose `from_wire` parses one;
-- the formats of a time in SendingTime and in the database; and the application, of which the
-- engine sees which callbacks it has and whether a call raises.
pub record Env : Type 0 where
  pub config : Config
  pub to_wire : FixMessage → Option (FixMessage × Text)
  pub from_wire : Text → Option FixMessage
  pub sending_time : ℕ → Text
  pub database_time : ℕ → Text
  pub has_from_admin : Bool
  pub has_on_reject : Bool
  pub has_on_message : Bool
  pub raises : AppCall → Bool

-- heartbeat.py: the fields of the Heartbeat object.
pub record Heartbeat : Type 0 where
  pub running : Bool
  pub last_sent_time : ℕ
  pub last_received_time : ℕ
  pub missed_heartbeats : ℕ
  pub test_request_id : Option Text

-- The engine's fields, the parts of its network object that it relies on, and the traces `sent` (what
-- was handed to the transport) and `calls` (what the application was told), newest last. `faults`
-- says of each coming write whether the drain behind it raises; when the list is used up, none does.
-- `cleared` is that the incoming buffer was emptied.
pub record Engine : Type 0 where
  pub state : State
  pub store : MessageStore
  pub running : Bool
  pub attached : Bool  -- network.writer is set
  pub heartbeat : Heartbeat
  pub retry_attempts : ℕ
  pub resend_request_outstanding : Bool
  pub resend_request_expected_seq : Option ℕ
  pub scheduler_running : Bool
  pub logoff_pending : Bool  -- _logoff_future is there and not done
  pub cleared : Bool
  pub clock : ℕ
  pub faults : List Bool
  pub sent : List FixMessage
  pub calls : List AppCall

-- A coroutine without a result: the engine that it leaves, and whether it ended by an exception.
abbrev pub Act : Type 0
Act = Engine → Engine × Bool

abbrev pub done : Act
done e = (e, false)

abbrev pub raise : Act
raise e = (e, true)

abbrev pub modify : (Engine → Engine) → Act
modify f e = (f e, false)

-- An exception skips what comes behind it.
abbrev pub go_on : Engine × Bool → Act → Engine × Bool
go_on (e, true) k = (e, true)
go_on (e, false) k = k e

infixl 5 ◌>>◌
abbrev pub ◌>>◌ : Act → Act → Act
◌>>◌ m k e = go_on (m e) k

-- `try: m` with `except Exception: handler`.
abbrev pub rescue : Engine × Bool → Act → Engine × Bool
rescue (e, false) handler = (e, false)
rescue (e, true) handler = handler e

abbrev pub attempt : Act → Act → Act
attempt m handler e = rescue (m e) handler

abbrev pub is_initiator : Mode → Bool
is_initiator initiator = true
is_initiator _ = false

abbrev pub is_disconnected : State → Bool
is_disconnected disconnected = true
is_disconnected _ = false

abbrev pub is_active : State → Bool
is_active active = true
is_active _ = false

abbrev pub is_logon_in_progress : State → Bool
is_logon_in_progress logon_in_progress = true
is_logon_in_progress _ = false

abbrev pub is_logout_in_progress : State → Bool
is_logout_in_progress logout_in_progress = true
is_logout_in_progress _ = false

abbrev pub is_acceptor : Mode → Bool
is_acceptor acceptor = true
is_acceptor _ = false

-- The engine's subscriber. Stopping the heartbeat is a task of its own there; here it has run.
abbrev pub on_state_change : State → Engine → Engine × Bool
on_state_change active e = (record e { retry_attempts = 0 }, false)
on_state_change disconnected e =
    (record e { heartbeat = record (e.heartbeat) { running = false }; cleared = true }, false)
on_state_change _ e = (e, false)

-- `self.state_machine.on_event(event)`
unfoldable pub on_event : Event → Act
unfolding StateMachine.on_event
on_event event e =
    let (m, e') =
      StateMachine.on_event
        (record { state = e.state; subscribers = observer on_state_change ∷ [] }) event e in
    (record e' { state = m.state }, false)

-- The engine after its state machine has moved to a new instance, or stayed.
abbrev pub shift : Option State → Engine → Engine
shift none e = e
shift (some s) e = record ((on_state_change s e).0) { state = s }

shift_lem :
    (o : Option State) (e : Engine)
    → let (m, e') =
        StateMachine.moved o
          (record { state = e.state; subscribers = observer on_state_change ∷ [] })
          e in
      record e' { state = m.state } ≡ shift o e
unfolding StateMachine.moved
shift_lem none e = refl
shift_lem (some s) e = refl

pub on_event_lem :
    (event : Event) (e : Engine)
    → on_event event e ≡ (shift (StateMachine.state_on_event e.state event) e, false)
unfolding on_event
on_event_lem event e =
    ap (λ (x : Engine). (x, false)) (shift_lem (StateMachine.state_on_event e.state event) e)
