-- ===== src/StateMachine.antt =====
-- zz_archive/pyfixmsg_plus/fixengine/state_machine.py: the session states, the reaction of each
-- state class to an event, and the machine that holds the current state and its subscribers.
pub mod Runs
pub mod Notices
mod Tests
use gofixmsg.Prelude.{Bool, true, false, Option, none, some, List, [], ◌∷◌, ◌++◌}

-- The state classes. `str(state)` is the class attribute `name`, which differs from class to class.
pub data State : Type 0 where
  disconnected connecting logon_in_progress awaiting_logon active : State
  logout_in_progress reconnecting : State

-- The event strings that some class tests for; every other string is `other`.
pub data Event : Type 0 where
  initiator_connect_attempt client_accepted_awaiting_logon initiate_reconnect : Event
  force_disconnect connection_established connection_failed disconnect : Event
  logon_successful logon_failed logon_received_valid invalid_logon_received : Event
  logon_timeout logout_initiated logout_confirmed reconnect_failed_max_retries : Event
  other : Event

-- What `on_event` of each class returns: `some` of a new instance, or `none` for `self`.
unfoldable pub state_on_event : State → Event → Option State
state_on_event disconnected initiator_connect_attempt = some connecting
state_on_event disconnected client_accepted_awaiting_logon = some awaiting_logon
state_on_event disconnected initiate_reconnect = some reconnecting
state_on_event disconnected force_disconnect = none
state_on_event connecting connection_established = some logon_in_progress
state_on_event connecting connection_failed = some disconnected
state_on_event connecting disconnect = some disconnected
state_on_event connecting force_disconnect = some disconnected
state_on_event logon_in_progress logon_successful = some active
state_on_event logon_in_progress logon_failed = some disconnected
state_on_event logon_in_progress disconnect = some disconnected
state_on_event logon_in_progress force_disconnect = some disconnected
state_on_event awaiting_logon logon_received_valid = some active
state_on_event awaiting_logon invalid_logon_received = some disconnected
state_on_event awaiting_logon logon_timeout = some disconnected
state_on_event awaiting_logon disconnect = some disconnected
state_on_event awaiting_logon force_disconnect = some disconnected
state_on_event active logout_initiated = some logout_in_progress
state_on_event active disconnect = some disconnected
state_on_event active force_disconnect = some disconnected
state_on_event active initiate_reconnect = some reconnecting
state_on_event logout_in_progress logout_confirmed = some disconnected
state_on_event logout_in_progress disconnect = some disconnected
state_on_event logout_in_progress force_disconnect = some disconnected
state_on_event reconnecting connection_established = some logon_in_progress
state_on_event reconnecting reconnect_failed_max_retries = some disconnected
state_on_event reconnecting connection_failed = some disconnected
state_on_event reconnecting disconnect = some disconnected
state_on_event reconnecting force_disconnect = some disconnected
state_on_event _ _ = none

-- A subscriber gets the name of the state, and may move the machine and change the world; `true` is that
-- it raised, with the changes made before it did.
abbrev Callback : Type 0 → Type 0
Callback W = State → State × W → (State × W) × Bool

-- A subscriber that leaves the machine alone.
abbrev pub observer : {W : Type 0} → (State → W → W × Bool) → Callback W
observer f name (s, w) = let (w', raised) = f name w in ((s, w'), raised)

pub record StateMachine (W : Type 0) : Type 0 where
  pub state : State
  pub subscribers : List (Callback W)

unfoldable pub subscribe : {W : Type 0} → StateMachine W → Callback W → StateMachine W
subscribe m callback = record m { subscribers = m.subscribers ++ callback ∷ [] }

-- `callback(str(self.state))` for each subscriber in turn, with the state that the one before it left;
-- an exception is logged and the loop goes on with the next one.
unfoldable pub notify : {W : Type 0} → List (Callback W) → State × W → State × W
notify [] x = x
notify (callback ∷ rest) x = notify rest (callback x.0 x).0

unfoldable pub notify_subscribers : {W : Type 0} → StateMachine W → W → StateMachine W × W
unfolding notify
notify_subscribers m w =
    let (s, w') = notify m.subscribers (m.state, w) in (record m { state = s }, w')

-- A new instance is stored and announced; `self` changes nothing.
unfoldable pub moved : {W : Type 0} → Option State → StateMachine W → W → StateMachine W × W
unfolding notify_subscribers
moved none m w = (m, w)
moved (some new_state) m w = notify_subscribers (record m { state = new_state }) w

unfoldable pub on_event : {W : Type 0} → StateMachine W → Event → W → StateMachine W × W
unfolding moved
on_event m e w = moved (state_on_event m.state e) m w
