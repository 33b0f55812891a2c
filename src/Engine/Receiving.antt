-- ===== src/Engine/Receiving.antt =====
-- A received message advances the session, through the check of its number and its handler.
use gofixmsg.Prelude.{
  ℕ, ◌==◌, ◌≡◌, refl, ap, ◌∙◌, Bool, true, false, ◌&&◌, not, Option, none, some, Text, text_eq,
  text_eq_sound, text_eq_refl, arith, ltb, if◌then◌else◌,
}
use gofixmsg.Decimal.{codes}
use gofixmsg.Message.{FixMessage, get_text, is_text}
use gofixmsg.StateMachine.{disconnect}
use gofixmsg.Store.{get_next_incoming_sequence_number, increment_incoming_sequence_number}
use gofixmsg.Engine.{Env, Engine, on_message_alone, done, go_on, is_active, on_event}
use gofixmsg.Engine.Steps.{if_rule, test_rule}
use gofixmsg.Engine.Effects.{incoming-store_message}
use gofixmsg.Engine.Outgoing.{
  msg_type, number_of, send_message, send_logout_message, send_reject_message,
}
use gofixmsg.Engine.Handlers.{tell}
use gofixmsg.Engine.Incoming.{
  Handler, logon, test_request, application, resend_request, sequence_reset, reject, logout,
  heartbeat, handler_table, find_handler, is_admin_type, run_handler, seq_or_zero, unhandled,
  unhandled_type, logged_unhandled, dispatch, handler_of, process_message, set_incoming, gap_fill,
  uncounted, clear_resend, store_received, count, in_sequence, expects, resend_message, ask_resend,
  numbered, with_number, process_parsed,
}
use gofixmsg.Engine.Reasons.{unsupported_type, invalid_received_seq_num, too_low}
use gofixmsg.Engine.Advances.{
  Advances, Advances-refl, Advances-trans, Advances-on_event, raising_step, incoming-increment,
  incoming-set_higher,
}
use gofixmsg.Engine.Handling.{
  KeepsTags, Advancing, then_rule, send_rule, logout_rule, reject_rule, tell_rule,
  Advances-application, Advances-test_request,
}
use gofixmsg.Engine.LoggingOn.{Advances-logon}
use gofixmsg.Engine.Handled.{
  Advances-resend_request, Advances-handle_sequence_reset, Advances-reject, Advances-logout,
  Advances-heartbeat,
}

-- The only type that the SequenceReset handler is registered for.
sequence_reset_type :
    (t : Text) → find_handler t handler_table ≡ some sequence_reset → text_eq (codes "4") t ≡ true
sequence_reset_type t h = ground arith

is_text_of : (t u : Text) → text_eq u t ≡ true → text_eq t u ≡ true
is_text_of t u h = rw (text_eq_sound u t h) (text_eq_refl t)

test_step : (b : Bool) (e t : Engine) → (b ≡ true → Advances e t) → Advances e (if b then t else e)
test_step true e t h = h refl
test_step false e t h = Advances-refl e

kept_step : (b : Bool) (e t : Engine) → Advances e t → Advances e (if b then e else t)
kept_step true e t h = Advances-refl e
kept_step false e t h = h

no_reset : (a b : Bool) → b ≡ false → (a && b) ≡ false
no_reset a b h = ground arith

-- A message that neither resets the numbers nor is a SequenceReset-GapFill.
abbrev IsPlain : FixMessage → Type 0
IsPlain m =
    (is_text (get_text 141 m) (codes "Y") ≡ false)
    × ((is_text (msg_type m) (codes "4") && is_text (get_text 123 m) (codes "Y")) ≡ false)

module _ (env : Env) where
  handled_type :
      (o : Option Text) → handler_of env o ≡ some sequence_reset → is_text o (codes "4") ≡ true
  handled_type none h = ground arith
  handled_type (some t) h = is_text_of t (codes "4") (sequence_reset_type t h)

  clear_step : (b : Bool) (e : Engine) → Advances e (if b then clear_resend env e else e)
  clear_step true e = raising_step e (clear_resend env e) (omega arith) refl refl
  clear_step false e = Advances-refl e

  store_step :
      (wire : Text) (m : FixMessage) (n : ℕ) (e : Engine)
      → Advances e (store_received env wire m n e)
  store_step wire m n e =
      let same =
        incoming-store_message (some env.config.version) (get_text 49 m) (get_text 56 m) n wire
          e.store in
      raising_step e (store_received env wire m n e) (omega arith) refl refl

  count_step : (m : FixMessage) (e : Engine) → Advances e (count env m e)
  count_step m e =
      let more = incoming-increment (env.database_time e.clock) e.store in
      kept_step (uncounted env m) e
        (record e {
          store = increment_incoming_sequence_number (env.database_time e.clock) e.store;
        })
        (raising_step e
          (record e {
            store = increment_incoming_sequence_number (env.database_time e.clock) e.store;
          })
          (omega arith) refl refl)

module _ (env : Env) (keeps : KeepsTags env) where
  handler_rule :
      (h : Handler) (m : FixMessage)
      → is_text (get_text 141 m) (codes "Y") ≡ false
      → (h ≡ sequence_reset → is_text (get_text 123 m) (codes "Y") ≡ false)
      → Advancing env (run_handler env h m)
  handler_rule logon m p q = Advances-logon env m keeps p
  handler_rule test_request m p q = Advances-test_request env m
  handler_rule application m p q = Advances-application env m
  handler_rule resend_request m p q = Advances-resend_request env m
  handler_rule sequence_reset m p q = Advances-handle_sequence_reset env m keeps (q refl)
  handler_rule reject m p q = Advances-reject env m
  handler_rule logout m p q = Advances-logout env m
  handler_rule heartbeat m p q = Advances-heartbeat env m

  unhandled_rule : (t : Text) (m : FixMessage) → Advancing env (unhandled env t m)
  unfolding unhandled
  unhandled_rule t m e =
      let n = seq_or_zero env (number_of (get_text 34 m)) (get_text 34 m) in
      let refuse = send_reject_message env n (some 35) (some 3) (unsupported_type t) (some t) e in
      let told = tell env (on_message_alone m) e in
      if_rule Advances e (is_admin_type t) refuse (if env.has_on_message then told else done e)
        (reject_rule env n (some 35) (some 3) (unsupported_type t) (some t) e)
        (if_rule Advances e env.has_on_message told (done e) (tell_rule env (on_message_alone m) e)
          (Advances-refl e))

  type_rule : (o : Option Text) (m : FixMessage) → Advancing env (unhandled_type env o m)
  type_rule none m = Advances-refl
  type_rule (some t) m = unhandled_rule t m

  logged_type_rule :
      (w : Option (FixMessage × Text)) (o : Option Text) → Advancing env (logged_unhandled env w o)
  logged_type_rule none o e = Advances-refl e
  logged_type_rule (some (m, wire)) o e =
      if_rule Advances e (is_active e.state) (unhandled_type env o m e) (done e) (type_rule o m e)
        (Advances-refl e)

  dispatch_rule :
      (o : Option Handler) (m : FixMessage)
      → IsPlain m
      → handler_of env (msg_type m) ≡ o
      → Advancing env (dispatch env o m)
  dispatch_rule none m plain h = logged_type_rule (env.to_wire m) (msg_type m)
  dispatch_rule (some k) m plain h = handler_rule k m plain.0 (λ p.
      let t = handled_type env (msg_type m) (h ∙ ap some p) in let q = plain.1 in ground arith)

  pub Advances-process_message :
      (m : FixMessage) → IsPlain m → Advancing env (process_message env m)
  unfolding process_message
  Advances-process_message m plain = dispatch_rule (handler_of env (msg_type m)) m plain refl

  gap_fill_step : (o : Option ℕ) (e : Engine) → Advances e (gap_fill env o e)
  gap_fill_step none e = Advances-refl e
  gap_fill_step (some new) e =
      let t = set_incoming env new e in
      let higher = incoming-set_higher (env.database_time e.clock) new e.store in
      test_step (ltb e.store.incoming_seqnum new) e t
        (λ h. raising_step e t (higher (ground arith)) refl refl)

  in_sequence_rule :
      (wire : Text) (m : FixMessage) (n : ℕ) → IsPlain m → Advancing env (in_sequence env wire m n)
  unfolding in_sequence
  in_sequence_rule wire m n plain e =
      let matches = e.resend_request_outstanding && n == e.store.incoming_seqnum in
      let cleared = if matches then clear_resend env e else e in
      let stored = store_received env wire m n cleared in
      let counted = count env m stored in
      Advances-trans e counted (process_message env m counted).0
        (Advances-trans e cleared counted (clear_step env matches e) (
          Advances-trans cleared stored counted (store_step env wire m n cleared)
            (count_step env m stored)))
        (Advances-process_message m plain counted)

  ask_rule : (expected : ℕ) → Advancing env (ask_resend env expected)
  unfolding ask_resend
  ask_rule expected e =
      let asked =
        e.resend_request_outstanding && expects env e.resend_request_expected_seq expected in
      let note = λ (s : Engine). record s {
        resend_request_outstanding = true;
        resend_request_expected_seq = some expected;
      } in
      let request = send_message env (resend_message env expected) in
      if_rule Advances e asked (done e) (go_on (request e) (λ s. done (note s))) (Advances-refl e) (
        then_rule env request (λ s. done (note s)) (send_rule env (resend_message env expected))
          (λ s. raising_step s (note s) (omega arith) refl refl) e)

  numbered_rule :
      (wire : Text) (m : FixMessage) (n : ℕ)
      → is_text (get_text 141 m) (codes "Y") ≡ false
      → Advancing env (numbered env wire m n)
  unfolding numbered
  numbered_rule wire m n plain e =
      let expected = get_next_incoming_sequence_number e.store in
      let is_gap_fill = is_text (msg_type m) (codes "4") && is_text (get_text 123 m) (codes "Y") in
      let low = ltb n expected && not (is_text (get_text 43 m) (codes "Y")) in
      let in_order =
        if ltb expected n then ask_resend env expected e else in_sequence env wire m n e in
      let late = if low then send_logout_message env (too_low expected n) e else in_order in
      rw (no_reset (is_text (msg_type m) (codes "A")) (is_text (get_text 141 m) (codes "Y")) plain)
        (test_rule Advances e is_gap_fill (done (gap_fill env (number_of (get_text 36 m)) e)) late
          (λ _. gap_fill_step (number_of (get_text 36 m)) e)
          (λ other.
            if_rule Advances e low (send_logout_message env (too_low expected n) e) in_order
              (logout_rule env (too_low expected n) e)
              (if_rule Advances e (ltb expected n) (ask_resend env expected e)
                (in_sequence env wire m n e) (ask_rule expected e)
                (in_sequence_rule wire m n (plain, other) e))))

  number_rule :
      (wire : Text) (m : FixMessage) (o : Option ℕ)
      → is_text (get_text 141 m) (codes "Y") ≡ false
      → Advancing env (with_number env wire m o)
  number_rule wire m none plain =
      let text = invalid_received_seq_num (get_text 49 m) (get_text 34 m) in
      then_rule env (send_logout_message env text) (on_event disconnect) (logout_rule env text)
        (Advances-on_event disconnect)
  number_rule wire m (some n) plain = numbered_rule wire m n plain

  -- With a codec that leaves all tags but BodyLength and CheckSum alone, a received message without
  -- ResetSeqNumFlag=Y does not lower the expected incoming number, and what was sent and what the
  -- application was told stays a prefix of what is sent and told afterwards.
  pub Advances-process_parsed :
      (wire : Text) (m : FixMessage)
      → is_text (get_text 141 m) (codes "Y") ≡ false
      → (e : Engine) → Advances e (process_parsed env wire m e).0
  unfolding process_parsed
  Advances-process_parsed wire m plain = number_rule wire m (number_of (get_text 34 m)) plain
