-- ===== src/Engine/InSequence.antt =====
-- What one application message does: it is taken in sequence, or changes nothing that counts.
use gofixmsg.Prelude.{
  ℕ, ◌+◌, ◌==◌, ◌≡◌, refl, sym, ap, ◌∙◌, Bool, true, false, ◌&&◌, Option, none, some, List, [], ◌∷◌,
  ◌++◌, Text, text_eq, text_eq_sound, append_assoc, append-nil, arith, ltb, Bool-cases, inl, inr,
  if◌then◌else◌,
}
use mathlib.Core.List.{map}
use gofixmsg.Decimal.{codes}
use gofixmsg.Message.{FixMessage, get_text, is_text}
use gofixmsg.Engine.{Env, Engine, AppCall, on_message, done, go_on}
use gofixmsg.Engine.Steps.{if_rule}
use gofixmsg.Engine.Effects.{Sends, incoming-store_message}
use gofixmsg.Engine.Sending.{Sends-send_message, Sends-send_logout_message}
use gofixmsg.Engine.Outgoing.{msg_type, number_of, send_message, send_logout_message}
use gofixmsg.Engine.Handlers.{tell, handle_application}
use gofixmsg.Engine.Incoming.{
  application, logon, sequence_reset, logout, handler_table, find_handler, handler_of,
  process_message, uncounted, clear_resend, store_received, count, in_sequence, expects,
  resend_message, ask_resend, numbered, process_parsed,
}
use gofixmsg.Engine.Reasons.{too_low}
use gofixmsg.Engine.Advances.{incoming-increment}
use gofixmsg.Engine.Delivery.{Serialises}

-- The specification: a receiver that expects `k` takes the message with number `k`, then expects
-- `k + 1`, and drops every other message.
unfoldable pub accepted : {A : Type 0} → ℕ → List (ℕ × A) → List A
accepted k [] = []
accepted k ((n, m) ∷ rest) =
    let taken = accepted (k + 1) rest in
    let dropped = accepted k rest in if n == k then m ∷ taken else dropped

logon_type : find_handler (codes "A") handler_table ≡ some logon
unfolding text_eq
logon_type = refl

sequence_reset_type : find_handler (codes "4") handler_table ≡ some sequence_reset
unfolding text_eq
sequence_reset_type = refl

logout_type : find_handler (codes "5") handler_table ≡ some logout
unfolding text_eq
logout_type = refl

-- A type of the application's has none of the three spellings that the engine treats apart.
other_type :
    (t u : Text)
    → find_handler t handler_table ≡ some application
    → (find_handler u handler_table ≡ some application → ⊥)
    → text_eq t u ≡ false
other_type t u h never = elim (Bool-cases (text_eq t u)) [
  | inl same ↦ elim (never (rw⁻¹ (text_eq_sound t u same) h)) [ ]
  | inr other ↦ other
]

-- The first message is taken or dropped.
pub split :
    (b : Bool) (k : ℕ) (t : FixMessage) (rest : List (ℕ × FixMessage)) (xs : List AppCall)
    → xs ++ map on_message (if b then t ∷ accepted (k + 1) rest else accepted k rest)
      ≡ (xs ++ (if b then on_message t ∷ [] else []))
        ++ map on_message (accepted (if b then k + 1 else k) rest)
split true k t rest xs =
    sym (append_assoc xs (on_message t ∷ []) (map on_message (accepted (k + 1) rest)))
split false k t rest xs = ap (λ ys. ys ++ map on_message (accepted k rest)) (sym (append-nil xs))

-- A number is below, above or at what is expected.
three :
    (n k : ℕ) (P : Engine → Type 0) (late early now : Engine × Bool)
    → ((n == k) ≡ false → P late.0)
    → ((n == k) ≡ false → P early.0)
    → ((n == k) ≡ true → P now.0)
    → P (if ltb n k && true then late else if ltb k n then early else now).0
three n k P late early now a b c = elim (Bool-cases (ltb n k)) [
  | inl low ↦ rw low (a (ground arith))
  | inr fine ↦ rw fine (elim (Bool-cases (ltb k n)) [
    | inl high ↦ rw high (b (ground arith))
    | inr equal ↦ rw equal (c (ground arith))
  ])
]

module _ (env : Env) where
  -- An application message with its number, that is not marked as a possible duplicate, and that the
  -- codec serialises for the handler.
  pub record IsApplication (n : ℕ) (m : FixMessage) : Type 0 where
    pub handler : handler_of env (msg_type m) ≡ some application
    pub number : number_of (get_text 34 m) ≡ some n
    pub original : is_text (get_text 43 m) (codes "Y") ≡ false
    pub serialised : Serialises env m

  typed :
      (o : Option Text)
      → handler_of env o ≡ some application
      → (is_text o (codes "A") ≡ false)
        × (is_text o (codes "4") ≡ false)
        × (is_text o (codes "5") ≡ false)
  typed none h = (refl, refl, refl)
  typed (some t) h = (
    other_type t (codes "A") h (λ p. let q = logon_type in ground arith),
    other_type t (codes "4") h (λ p. let q = sequence_reset_type in ground arith),
    other_type t (codes "5") h (λ p. let q = logout_type in ground arith),
  )

  -- What the application is told, and the expected number, behind a message of number `n`.
  abbrev pub told : ℕ → FixMessage → Engine → List AppCall
  told n t e = if n == e.store.incoming_seqnum then on_message t ∷ [] else []

  abbrev pub expected_next : ℕ → Engine → ℕ
  expected_next n e =
      if n == e.store.incoming_seqnum then e.store.incoming_seqnum + 1 else e.store.incoming_seqnum

  pub record Handed (n : ℕ) (m : FixMessage) (e t : Engine) : Type 0 where
    pub calls : t.calls ≡ e.calls ++ told n m e
    pub incoming : t.store.incoming_seqnum ≡ expected_next n e

  -- Another number changes neither.
  kept :
      (n : ℕ) (m : FixMessage) (e t : Engine)
      → (n == e.store.incoming_seqnum) ≡ false
      → t.calls ≡ e.calls
      → t.store.incoming_seqnum ≡ e.store.incoming_seqnum
      → Handed n m e t
  kept n m e t h c i = record {
    calls = c ∙ sym (append-nil e.calls) ∙ rw h refl;
    incoming = i ∙ rw h refl;
  }

  abbrev Same : Engine → Engine → Type 0
  Same e t = (t.calls ≡ e.calls) × (t.store.incoming_seqnum ≡ e.store.incoming_seqnum)

  noted :
      (k : ℕ) (e : Engine) (r : Engine × Bool)
      → Sends e r.0
      → Same e
          (go_on r (λ s. done (record s {
            resend_request_outstanding = true;
            resend_request_expected_seq = some k;
          }))).0
  noted k e (s, true) h = (h.calls, h.incoming)
  noted k e (s, false) h = (h.calls, h.incoming)

  ask_resend-Same : (k : ℕ) (e : Engine) → Same e (ask_resend env k e).0
  unfolding ask_resend
  ask_resend-Same k e =
      if_rule Same e (e.resend_request_outstanding && expects env e.resend_request_expected_seq k)
        (done e)
        (go_on (send_message env (resend_message env k) e) (λ s.
          done
            (record s { resend_request_outstanding = true; resend_request_expected_seq = some k })))
        (refl, refl)
        (noted k e (send_message env (resend_message env k) e)
          (Sends-send_message env (resend_message env k) e))

  process_message-application :
      (m : FixMessage) (e : Engine)
      → handler_of env (msg_type m) ≡ some application
      → (c : Serialises env m)
      → (process_message env m e).0 ≡ record e { calls = e.calls ++ on_message c.message ∷ [] }
  unfolding process_message handle_application tell
  process_message-application m e h c = rw h (rw c.returns refl)

  -- Storing and counting: the number grows by one, nothing is told.
  counted :
      (wire : Text) (m : FixMessage) (n : ℕ) (e : Engine)
      → uncounted env m ≡ false
      → ((count env m (store_received env wire m n e)).store.incoming_seqnum
          ≡ e.store.incoming_seqnum + 1)
        × ((count env m (store_received env wire m n e)).calls ≡ e.calls)
  counted wire m n e h =
      let stored = store_received env wire m n e in
      let same =
        incoming-store_message (some env.config.version) (get_text 49 m) (get_text 56 m) n wire
          e.store in
      rw h
        (incoming-increment (env.database_time e.clock) stored.store ∙ ap (λ k. k + 1) same, refl)

  cleared-Same : (b : Bool) (e : Engine) → Same e (if b then clear_resend env e else e)
  cleared-Same true e = (refl, refl)
  cleared-Same false e = (refl, refl)

  taken :
      (wire : Text) (m : FixMessage) (n : ℕ) (e : Engine)
      → (n == e.store.incoming_seqnum) ≡ true
      → uncounted env m ≡ false
      → handler_of env (msg_type m) ≡ some application
      → (c : Serialises env m) → Handed n c.message e (in_sequence env wire m n e).0
  unfolding in_sequence
  taken wire m n e h u a c =
      let matches = e.resend_request_outstanding && n == e.store.incoming_seqnum in
      let cleared = if matches then clear_resend env e else e in
      let ready = count env m (store_received env wire m n cleared) in
      let same = cleared-Same matches e in
      let more = counted wire m n cleared u in
      let end = process_message-application m ready a c in
      record {
        calls =
            ap (λ t. t.calls) end
            ∙ ap (λ s. s ++ on_message c.message ∷ []) (more.1 ∙ same.0)
            ∙ rw h refl;
        incoming =
            ap (λ t. t.store.incoming_seqnum) end ∙ more.0 ∙ ap (λ k. k + 1) same.1 ∙ rw h refl;
      }

  uncounted_lem :
      (m : FixMessage)
      → is_text (msg_type m) (codes "A") ≡ false
      → is_text (msg_type m) (codes "5") ≡ false
      → is_text (msg_type m) (codes "4") ≡ false
      → uncounted env m ≡ false
  uncounted_lem m p q r = rw p (rw q r)

  late-Same : (text : Text) (e : Engine) → Same e (send_logout_message env text e).0
  late-Same text e = let h = Sends-send_logout_message env text e in (h.calls, h.incoming)

  -- One message: either it has the expected number, or it changes neither.
  pub step :
      (wire : Text) (m : FixMessage) (n : ℕ) (e : Engine)
      → IsApplication n m
      → (c : Serialises env m) → Handed n c.message e (process_parsed env wire m e).0
  unfolding process_parsed numbered
  step wire m n e a c =
      let (not_logon, not_reset, not_logout) = typed (msg_type m) a.handler in
      let k = e.store.incoming_seqnum in
      let counts = uncounted_lem m not_logon not_logout not_reset in
      let late = send_logout_message env (too_low k n) e in
      let early = ask_resend env k e in
      let now = in_sequence env wire m n e in
      rw a.number (
        rw not_reset (
          rw not_logon (
            rw a.original (
              three n k (Handed n c.message e) late early now
                (λ h.
                  kept n c.message e late.0 h (late-Same (too_low k n) e).0
                    (late-Same (too_low k n) e).1)
                (λ h. kept n c.message e early.0 h (ask_resend-Same k e).0 (ask_resend-Same k e).1)
                (λ h. taken wire m n e h counts a.handler c)))))
