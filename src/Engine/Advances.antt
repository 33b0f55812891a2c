-- ===== src/Engine/Advances.antt =====
-- What handling a message may do to a session: the expected number, what was sent and told.
use gofixmsg.Prelude.{
  ℕ, ◌+◌, ◌≤◌, ◌≡◌, refl, sym, ap, ◌∙◌, false, List, [], ◌∷◌, ◌++◌, Text, append_assoc, append-nil,
  arith, ltb, leb, Bool-cases, inl, inr, if◌then◌else◌,
}
use gofixmsg.Message.{FixMessage}
use gofixmsg.StateMachine.{Event}
use gofixmsg.StateMachine.Runs.{run}
use gofixmsg.Store.{MessageStore, increment_incoming_sequence_number, set_incoming_sequence_number}
use gofixmsg.Engine.{Engine, AppCall, on_event}
use gofixmsg.Engine.Effects.{Sends, Sends-on_event, incoming-save}

-- From `e` to `t` the expected incoming number did not go down, what was sent and what the application
-- was told is still there.
pub record Advances (e t : Engine) : Type 0 where
  pub incoming : e.store.incoming_seqnum ≤ t.store.incoming_seqnum
  pub told : List AppCall
  pub calls : t.calls ≡ e.calls ++ told
  pub extra : List FixMessage
  pub sent : t.sent ≡ e.sent ++ extra

pub Sends-Advances : (e t : Engine) → Sends e t → Advances e t
Sends-Advances e t h = record {
  incoming = let p = h.incoming in omega arith;
  told = [];
  calls = h.calls ∙ sym (append-nil e.calls);
  extra = h.extra;
  sent = h.sent;
}

pub Advances-trans : (a b c : Engine) → Advances a b → Advances b c → Advances a c
Advances-trans a b c h k = record {
  incoming = let p = h.incoming in let q = k.incoming in omega arith;
  told = h.told ++ k.told;
  calls = k.calls ∙ ap (λ s. s ++ k.told) h.calls ∙ append_assoc a.calls h.told k.told;
  extra = h.extra ++ k.extra;
  sent = k.sent ∙ ap (λ s. s ++ k.extra) h.sent ∙ append_assoc a.sent h.extra k.extra;
}

-- The expected number may grow; the traces are as before.
pub raising_step :
    (e t : Engine)
    → e.store.incoming_seqnum ≤ t.store.incoming_seqnum
    → t.calls ≡ e.calls
    → t.sent ≡ e.sent
    → Advances e t
unfolding run
raising_step e t i c s = record {
  incoming = i;
  told = [];
  calls = c ∙ sym (append-nil e.calls);
  extra = [];
  sent = s ∙ sym (append-nil e.sent);
}

pub Advances-refl : (e : Engine) → Advances e e
Advances-refl e = raising_step e e (omega arith) refl refl

pub telling_step :
    (e : Engine) (call : AppCall) → Advances e (record e { calls = e.calls ++ call ∷ [] })
unfolding run
telling_step e call = record {
  incoming = omega arith;
  told = call ∷ [];
  calls = refl;
  extra = [];
  sent = sym (append-nil e.sent);
}

pub Advances-on_event : (event : Event) (e : Engine) → Advances e (on_event event e).0
Advances-on_event event e = Sends-Advances e (on_event event e).0 (Sends-on_event event e)

pub incoming-increment :
    (now : Text) (s : MessageStore)
    → (increment_incoming_sequence_number now s).incoming_seqnum ≡ s.incoming_seqnum + 1
unfolding increment_incoming_sequence_number
incoming-increment now s = incoming-save now (record s { incoming_seqnum = s.incoming_seqnum + 1 })

pub incoming-set :
    (now : Text) (n : ℕ) (s : MessageStore)
    → (set_incoming_sequence_number now n s).incoming_seqnum
      ≡ (if ltb n 1 then s.incoming_seqnum else n)
unfolding set_incoming_sequence_number
incoming-set now n s = elim (Bool-cases (ltb n 1)) [
  | inl low ↦ rw low refl
  | inr fine ↦ rw fine (incoming-save now (record s { incoming_seqnum = n }))
]

-- Setting the number to a higher one.
pub incoming-set_higher :
    (now : Text) (n : ℕ) (s : MessageStore)
    → leb n s.incoming_seqnum ≡ false
    → s.incoming_seqnum ≤ (set_incoming_sequence_number now n s).incoming_seqnum
incoming-set_higher now n s h = ground (arith, incoming-set now n s)
