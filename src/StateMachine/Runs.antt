-- ===== src/StateMachine/Runs.antt =====
-- What every sequence of events does to the state of state_machine.py.
use gofixmsg.Prelude.{
  ◌≡◌, refl, ap, ◌∙◌, ◌≢◌, ◌⊎◌, inl, inr, Option, none, some, List, [], ◌∷◌, ◌++◌, arith,
  Option-cases,
}
use gofixmsg.StateMachine.{
  State, disconnected, logon_in_progress, awaiting_logon, active, Event, force_disconnect,
  disconnect, logon_successful, logon_received_valid, connection_established,
  client_accepted_awaiting_logon, state_on_event,
}

-- The state after an event, whether the class returned a new instance or `self`.
abbrev pub after : Option State → State → State
after none s = s
after (some t) s = t

abbrev pub next_state : State → Event → State
next_state s e = after (state_on_event s e) s

unfoldable pub run : State → List Event → State
run s [] = s
run s (e ∷ es) = run (next_state s e) es

-- From every state both disconnect events lead to DISCONNECTED.
pub disconnect_always :
    (s : State)
    → (next_state s disconnect ≡ disconnected) × (next_state s force_disconnect ≡ disconnected)
unfolding state_on_event
disconnect_always s = ground arith

-- No class answers with a new instance of itself, so identity of instances is equality of names.
pub state_on_event-ne : (s t : State) (e : Event) → state_on_event s e ≡ some t → s ≢ t
unfolding state_on_event
state_on_event-ne s t e h = ground arith

into_active :
    (s : State) (e : Event)
    → state_on_event s e ≡ some active
    → ((s ≡ logon_in_progress) × (e ≡ logon_successful))
      ⊎ ((s ≡ awaiting_logon) × (e ≡ logon_received_valid))
unfolding state_on_event
into_active s e h = ground arith

into_logon_in_progress :
    (s : State) (e : Event)
    → state_on_event s e ≡ some logon_in_progress
    → e ≡ connection_established
unfolding state_on_event
into_logon_in_progress s e h = ground arith

into_awaiting_logon :
    (s : State) (e : Event)
    → state_on_event s e ≡ some awaiting_logon
    → e ≡ client_accepted_awaiting_logon
unfolding state_on_event
into_awaiting_logon s e h = ground arith

-- The event by which a run enters a state for the last time before its end.
pub record Entry (s t : State) (es : List Event) : Type 0 where
  pub before : List Event
  pub event : Event
  pub later : List Event
  pub split : es ≡ before ++ event ∷ later
  pub edge : state_on_event (run s before) event ≡ some t

Entry-later :
    {s t : State} (e : Event) {es : List Event} → Entry (next_state s e) t es → Entry s t (e ∷ es)
unfolding run
Entry-later e x = record {
  before = e ∷ x.before;
  event = x.event;
  later = x.later;
  split = ap (λ r. e ∷ r) x.split;
  edge = x.edge;
}

Entry-now :
    (s t : State) (e : Event) (es : List Event) → state_on_event s e ≡ some t → Entry s t (e ∷ es)
unfolding run
Entry-now s t e es h = record { before = []; event = e; later = es; split = refl; edge = h }

entry : (s t : State) (es : List Event) → run s es ≡ t → (s ≡ t) ⊎ Entry s t es
unfolding run
entry s t [] h = inl h
entry s t (e ∷ es) h = elim (entry (next_state s e) t es h) [
  | inr x ↦ inr (Entry-later e x)
  | inl p ↦ elim (Option-cases (state_on_event s e)) [
    | inl stays ↦ inl (ground arith)
    | inr (u, moves) ↦ inr (Entry-now s t e es (ground arith))
  ]
]

-- The two events of a handshake, in their order, with what lies between them.
pub record Handshake (es : List Event) : Type 0 where
  pub before : List Event
  pub connect : Event
  pub between : List Event
  pub logon : Event
  pub later : List Event
  pub split : es ≡ (before ++ connect ∷ between) ++ logon ∷ later
  pub kind :
      ((connect ≡ connection_established) × (logon ≡ logon_successful))
      ⊎ ((connect ≡ client_accepted_awaiting_logon) × (logon ≡ logon_received_valid))

entered : (s t : State) (es : List Event) → s ≢ t → run s es ≡ t → Entry s t es
entered s t es d h = elim (entry s t es h) [ inl p ↦ absurd (d p) | inr x ↦ x ]

Handshake-of :
    {es : List Event} (x : Entry disconnected active es) {t : State}
    (y : Entry disconnected t x.before)
    → ((y.event ≡ connection_established) × (x.event ≡ logon_successful))
      ⊎ ((y.event ≡ client_accepted_awaiting_logon) × (x.event ≡ logon_received_valid))
    → Handshake es
Handshake-of x y k = record {
  before = y.before;
  connect = y.event;
  between = y.later;
  logon = x.event;
  later = x.later;
  split = x.split ∙ ap (λ r. r ++ x.event ∷ x.later) y.split;
  kind = k;
}

-- A session that starts DISCONNECTED and ends ACTIVE has seen, in this order, either
-- 'connection_established' and 'logon_successful' (initiator), or 'client_accepted_awaiting_logon'
-- and 'logon_received_valid' (acceptor), whatever other events came before, between and after.
pub active-Handshake : (es : List Event) → run disconnected es ≡ active → Handshake es
active-Handshake es h =
    let x = entered disconnected active es (λ e. cc) h in
    elim (into_active (run disconnected x.before) x.event x.edge) [
      | inl (at, e) ↦
          let y = entered disconnected logon_in_progress x.before (λ p. cc) at in
          Handshake-of x y (inl (into_logon_in_progress _ y.event y.edge, e))
      | inr (at, e) ↦
          let y = entered disconnected awaiting_logon x.before (λ p. cc) at in
          Handshake-of x y (inr (into_awaiting_logon _ y.event y.edge, e))
    ]
