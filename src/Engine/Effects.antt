-- ===== src/Engine/Effects.antt =====
-- What sending, rejecting, logging out and disconnecting leave alone, and what they may do.
use gofixmsg.Prelude.{
  ◌+◌, ℕ, Option, none, some, List, [], ◌∷◌, ◌++◌, ◌≡◌, refl, sym, ap, ◌∙◌, Text, append_assoc,
  append-nil, Bool-cases, nat_eq, inl, inr, arith, ltb,
}
use gofixmsg.Message.{FixMessage}
use gofixmsg.StateMachine.{State, Event, state_on_event}
use gofixmsg.Store.{
  MessageStore, store_message, increment_outgoing_sequence_number, set_outgoing_sequence_number,
  save_sequence_numbers,
}
use gofixmsg.Engine.{Engine, on_event, shift, on_event_lem}

-- From `e` to `t` only messages were sent and the session was perhaps taken down: the expected
-- incoming number, the calls of the application, the resend request, the clock and the time of
-- the last Heartbeat are as before, and what was sent stays sent.
pub record Sends (e t : Engine) : Type 0 where
  pub incoming : t.store.incoming_seqnum ≡ e.store.incoming_seqnum
  pub calls : t.calls ≡ e.calls
  pub outstanding : t.resend_request_outstanding ≡ e.resend_request_outstanding
  pub asked : t.resend_request_expected_seq ≡ e.resend_request_expected_seq
  pub clock : t.clock ≡ e.clock
  pub heard : t.heartbeat.last_received_time ≡ e.heartbeat.last_received_time
  pub extra : List FixMessage
  pub sent : t.sent ≡ e.sent ++ extra

pub Sends-trans : (a b c : Engine) → Sends a b → Sends b c → Sends a c
Sends-trans a b c h k = record {
  incoming = k.incoming ∙ h.incoming;
  calls = k.calls ∙ h.calls;
  outstanding = k.outstanding ∙ h.outstanding;
  asked = k.asked ∙ h.asked;
  clock = k.clock ∙ h.clock;
  heard = k.heard ∙ h.heard;
  extra = h.extra ++ k.extra;
  sent = k.sent ∙ ap (λ s. s ++ k.extra) h.sent ∙ append_assoc a.sent h.extra k.extra;
}

-- What is expected, told and asked for, the clock and the time of the last Heartbeat are as before.
abbrev Quiet : Engine → Engine → Type 0
Quiet e t =
    (t.store.incoming_seqnum ≡ e.store.incoming_seqnum)
    × (t.calls ≡ e.calls)
    × (t.resend_request_outstanding ≡ e.resend_request_outstanding)
    × (t.resend_request_expected_seq ≡ e.resend_request_expected_seq)
    × (t.clock ≡ e.clock)
    × (t.heartbeat.last_received_time ≡ e.heartbeat.last_received_time)

Sends-sent :
    (e t : Engine) (extra : List FixMessage) → Quiet e t → t.sent ≡ e.sent ++ extra → Sends e t
Sends-sent e t extra q s = record {
  incoming = q.0;
  calls = q.1;
  outstanding = q.2;
  asked = q.3;
  clock = q.4;
  heard = q.5;
  extra = extra;
  sent = s;
}

pub Quiet-step : (e t : Engine) → Quiet e t → t.sent ≡ e.sent → Sends e t
Quiet-step e t q s = Sends-sent e t [] q (s ∙ sym (append-nil e.sent))

pub Sends-refl : (e : Engine) → Sends e e
Sends-refl e = Quiet-step e e (refl, refl, refl, refl, refl, refl) refl

pub sent_step : (e t : Engine) (m : FixMessage) → Quiet e t → t.sent ≡ e.sent ++ m ∷ [] → Sends e t
sent_step e t m q s = Sends-sent e t (m ∷ []) q s

Sends-shift : (o : Option State) (e : Engine) → Sends e (shift o e)
Sends-shift none e = Sends-refl e
Sends-shift (some s) e = Quiet-step e (shift (some s) e) (ground arith) (ground arith)

pub Sends-on_event : (event : Event) (e : Engine) → Sends e (on_event event e).0
Sends-on_event event e = rw (on_event_lem event e) (Sends-shift (state_on_event e.state event) e)

pub incoming-save :
    (now : Text) (s : MessageStore)
    → (save_sequence_numbers now s).incoming_seqnum ≡ s.incoming_seqnum
unfolding save_sequence_numbers
incoming-save now s = ground arith

pub incoming-store_message :
    (b f t : Option Text) (n : ℕ) (m : Text) (s : MessageStore)
    → (store_message b f t n m s).incoming_seqnum ≡ s.incoming_seqnum
unfolding store_message
incoming-store_message b f t n m s = ground arith

pub incoming-increment_outgoing :
    (now : Text) (s : MessageStore)
    → (increment_outgoing_sequence_number now s).incoming_seqnum ≡ s.incoming_seqnum
unfolding increment_outgoing_sequence_number
incoming-increment_outgoing now s =
    incoming-save now (record s { outgoing_seqnum = s.outgoing_seqnum + 1 })

pub incoming-set_outgoing :
    (now : Text) (n : ℕ) (s : MessageStore)
    → (set_outgoing_sequence_number now n s).incoming_seqnum ≡ s.incoming_seqnum
unfolding set_outgoing_sequence_number
incoming-set_outgoing now n s = elim (Bool-cases (ltb n 1)) [
  | inl low ↦ rw low
  | inr fine ↦ rw fine (incoming-save now (record s { outgoing_seqnum = n }))
]
