-- ===== src/StateMachine/Tests.antt =====
-- Witnesses for the theorems about state_machine.py.
use mathlib.Core.List.{map}
use gofixmsg.Prelude.{◌≡◌, refl, true, [], ◌∷◌, List}
use gofixmsg.StateMachine.{
  State, disconnected, active, Event, initiator_connect_attempt, connection_established,
  logon_successful, other, observer, state_on_event,
}
use gofixmsg.StateMachine.Runs.{run, Handshake, active-Handshake}
use gofixmsg.StateMachine.Notices.{Watch, around, feed, changes, told_changes}

abbrev session_events : List Event
session_events = initiator_connect_attempt ∷ other ∷ connection_established ∷ logon_successful ∷ []

session_becomes_active : run disconnected session_events ≡ active
unfolding run state_on_event
session_becomes_active = refl

active-Handshake_example : Handshake session_events
active-Handshake_example = active-Handshake session_events session_becomes_active

-- A subscriber that keeps the last name and always raises.
abbrev last_name : Watch State
last_name s w = (s, true)

told_changes_example :
    let (m, w) =
      feed
        (record {
          state = disconnected;
          subscribers = map observer (around (last_name ∷ []) (last_name ∷ []));
        })
        session_events
        ([], disconnected) in
    (m.state ≡ run disconnected session_events) × (w.0 ≡ changes disconnected session_events)
told_changes_example =
    told_changes (last_name ∷ []) (last_name ∷ []) disconnected session_events ([], disconnected)
