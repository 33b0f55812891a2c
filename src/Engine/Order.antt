-- ===== src/Engine/Order.antt =====
-- Which application messages reach the application, and in which order.
use gofixmsg.Prelude.{
  ℕ, ◌==◌, ◌≡◌, refl, sym, ap, ◌∙◌, Bool, true, false, List, [], ◌∷◌, ◌++◌, Text, append-nil,
  if◌then◌else◌, ◌||◌, suc, take, length,
}
use mathlib.Core.List.{map}
use gofixmsg.Message.{FixMessage}
use gofixmsg.Engine.{Env, Engine, on_message}
use gofixmsg.Engine.Incoming.{process_parsed}
use gofixmsg.Engine.InSequence.{accepted, split, IsApplication, expected_next, Handed, step}

module _ (env : Env) where
  -- What a row of messages leaves: the engine, how many were handled, and whether it stopped early.
  pub record Received : Type 0 where
    pub engine : Engine
    pub count : ℕ
    pub stopped : Bool

  -- Handling the messages of the buffer one after another, as `on_network_data` does: an exception, or
  -- a buffer that was emptied (as by every end of the session), drops the messages behind.
  unfoldable pub receive_all : List (Text × FixMessage) → Engine → Received
  receive_all [] e = record { engine = e; count = 0; stopped = false }
  receive_all ((wire, m) ∷ rest) e =
      let (s, raised) = process_parsed env wire m (record e { cleared = false }) in
      let more = receive_all rest s in
      if raised || s.cleared
      then record { engine = s; count = 1; stopped = true }
      else record more { count = suc more.count }

  unfoldable pub AreApplication : List ℕ → List (Text × FixMessage) → Type 0
  AreApplication [] [] = Unit
  AreApplication (n ∷ ns) ((wire, m) ∷ rest) = IsApplication env n m × AreApplication ns rest
  AreApplication _ _ = ⊥

  -- The messages with their numbers, as the codec serialises them for the handler.
  unfoldable pub numbered_items :
      (ns : List ℕ) (items : List (Text × FixMessage))
      → AreApplication ns items
      → List (ℕ × FixMessage)
  unfolding AreApplication
  numbered_items [] [] h = []
  numbered_items (n ∷ ns) [] h = []
  numbered_items [] (item ∷ rest) h = []
  numbered_items (n ∷ ns) ((wire, m) ∷ rest) h =
      (n, h.0.serialised.message) ∷ numbered_items ns rest h.1

  accepted-step :
      (n : ℕ) (t : FixMessage) (rest : List (ℕ × FixMessage)) (e s : Engine)
      → Handed env n t e s
      → e.calls ++ map on_message (accepted e.store.incoming_seqnum ((n, t) ∷ rest))
        ≡ s.calls ++ map on_message (accepted s.store.incoming_seqnum rest)
  unfolding accepted
  accepted-step n t rest e s h =
      split (n == e.store.incoming_seqnum) e.store.incoming_seqnum t rest e.calls
      ∙ ap (λ x. x ++ map on_message (accepted (expected_next env n e) rest)) (sym h.calls)
      ∙ ap (λ k. s.calls ++ map on_message (accepted k rest)) (sym h.incoming)

  -- The application was told what the specification takes of the messages that were handled, and
  -- these are all unless the session stopped.
  pub record Told (items : List (ℕ × FixMessage)) (e : Engine) (r : Received) : Type 0 where
    pub calls :
        r.engine.calls
        ≡ e.calls ++ map on_message (accepted e.store.incoming_seqnum (take r.count items))
    pub complete : r.stopped ≡ false → r.count ≡ length items

  either : (P : Received → Type 0) (b : Bool) (x y : Received) → P x → P y → P (if b then x else y)
  either P true x y h k = h
  either P false x y h k = k

  Told-cons :
      (n : ℕ) (t : FixMessage) (items : List (ℕ × FixMessage)) (e s : Engine) (r : Received)
      → Handed env n t e s
      → Told items s r
      → Told ((n, t) ∷ items) e (record r { count = suc r.count })
  Told-cons n t items e s r h k = record {
    calls = k.calls ∙ sym (accepted-step n t (take r.count items) e s h);
    complete = λ all. ap suc (k.complete all);
  }

  Told-stopped :
      (n : ℕ) (t : FixMessage) (items : List (ℕ × FixMessage)) (e s : Engine)
      → Handed env n t e s
      → Told ((n, t) ∷ items) e (record { engine = s; count = 1; stopped = true })
  unfolding accepted
  Told-stopped n t items e s h = record {
    calls = sym (append-nil s.calls) ∙ sym (accepted-step n t [] e s h);
    complete = λ all. cc;
  }

  -- For application messages of any numbers in any order, without PossDupFlag=Y, each of which the codec
  -- serialises: the application is told exactly the messages that the specification `accepted` takes
  -- of those that were handled, once each and in their order; and all are handled, unless the
  -- handling of one raised or emptied the buffer.
  pub receive_all-accepted :
      (ns : List ℕ) (items : List (Text × FixMessage)) (e : Engine) (h : AreApplication ns items)
      → Told (numbered_items ns items h) e (receive_all items e)
  unfolding receive_all AreApplication numbered_items accepted
  receive_all-accepted [] [] e h = record {
    calls = sym (append-nil e.calls);
    complete = λ all. refl;
  }
  receive_all-accepted (n ∷ ns) [] e h = elim h [ ]
  receive_all-accepted [] (item ∷ rest) e h = elim h [ ]
  receive_all-accepted (n ∷ ns) ((wire, m) ∷ rest) e h =
      let ready = record e { cleared = false } in
      let handled = process_parsed env wire m ready in
      let c = h.0.serialised in
      let told : Handed env n c.message e handled.0 =
        let x = step env wire m n ready h.0 c in
        record { calls = x.calls; incoming = x.incoming } in
      let items = numbered_items ns rest h.1 in
      let more = receive_all rest handled.0 in
      either (Told ((n, c.message) ∷ items) e) (handled.1 || handled.0.cleared)
        (record { engine = handled.0; count = 1; stopped = true })
        (record more { count = suc more.count }) (Told-stopped n c.message items e handled.0 told)
        (Told-cons n c.message items e handled.0 more told
          (receive_all-accepted ns rest handled.0 h.1))
