-- ===== src/Engine/Handling.antt =====
-- The handlers of message_handler.py only advance a session.
use gofixmsg.Prelude.{
  ℕ, zero, suc, ◌+◌, ◌-◌, ◌==◌, ◌≡◌, false, Option, none, some, [], ◌∷◌, Text, lookup, insert,
  nat_eq, Option-cases, inl, inr,
}
use gofixmsg.Decimal.{codes}
use gofixmsg.Message.{FixMessage, Value, str, int_value, get_text}
use gofixmsg.Store.{get_message}
use gofixmsg.Engine.{Env, Engine, AppCall, on_message, from_admin, Act, done, ◌>>◌}
use gofixmsg.Engine.Steps.{if_rule, go_on_rule, rescue_rule}
use gofixmsg.Engine.Outgoing.{
  msg_type, value_of, fixmsg, send_message, send_logout_message, send_reject_message,
  disconnect_now,
}
use gofixmsg.Engine.Sending.{
  Sends-send_message, Sends-send_logout_message, Sends-send_reject_message, Sends-disconnect_now,
}
use gofixmsg.Engine.Handlers.{
  tell, tell_admin, logged, handle_application, answer_test_request, handle_test_request,
  send_gap_fill, from_wire_returns, resend, original_time, resend_stored, resend_one, resend_range,
  resend_to,
}
use gofixmsg.Engine.Advances.{Advances, Advances-refl, Advances-trans, Sends-Advances, telling_step}

-- Of what the codec serialises: the message stays the same but for BodyLength and CheckSum.
abbrev pub KeepsTags : Env → Type 0
KeepsTags env =
    (m t : FixMessage) (wire : Text)
    → env.to_wire m ≡ some (t, wire)
    → (tag : ℕ) → (9 == tag) ≡ false
    → (10 == tag) ≡ false
    → lookup tag t ≡ lookup tag m

module _ (env : Env) where
  abbrev pub Advancing : Act → Type 0
  Advancing k = (e : Engine) → Advances e (k e).0

  pub then_rule : (h k : Act) → Advancing h → Advancing k → Advancing (h >> k)
  then_rule h k f g e = go_on_rule Advances Advances-trans e (h e) k (f e) g

  pub send_rule : (m : FixMessage) → Advancing (send_message env m)
  send_rule m e = Sends-Advances e (send_message env m e).0 (Sends-send_message env m e)

  pub logout_rule : (text : Text) → Advancing (send_logout_message env text)
  logout_rule text e =
      Sends-Advances e (send_logout_message env text e).0 (Sends-send_logout_message env text e)

  pub reject_rule :
      (n : Value) (tag reason : Option ℕ) (text : Text) (t : Option Text)
      → Advancing (send_reject_message env n tag reason text t)
  reject_rule n tag reason text t e =
      Sends-Advances e (send_reject_message env n tag reason text t e).0
        (Sends-send_reject_message env n tag reason text t e)

  pub disconnect_rule : Advancing (disconnect_now env)
  disconnect_rule e = Sends-Advances e (disconnect_now env e).0 (Sends-disconnect_now env e)

  pub tell_rule : (call : AppCall) → Advancing (tell env call)
  unfolding tell
  tell_rule call e = telling_step e call

  pub tell_admin_rule : (m : FixMessage) → Advancing (tell_admin env m)
  unfolding tell_admin
  tell_admin_rule m e =
      if_rule Advances e env.has_from_admin (tell env (from_admin m) e) (done e)
        (tell_rule (from_admin m) e) (Advances-refl e)

  -- A handler behind the log, which sees the serialised message.
  pub logged_rule :
      (handler : FixMessage → Act) (m : FixMessage)
      → ((t : FixMessage) (wire : Text) → env.to_wire m ≡ some (t, wire) → Advancing (handler t))
      → Advancing (logged env handler m)
  logged_rule handler m f e = elim (Option-cases (env.to_wire m)) [
    | inl p ↦ rw p (Advances-refl e)
    | inr ((t, wire), p) ↦ rw p (f t wire p e)
  ]

  pub Advances-application : (m : FixMessage) → Advancing (handle_application env m)
  unfolding handle_application
  Advances-application m =
      logged_rule (λ t. tell env (on_message t)) m (λ t wire p. tell_rule (on_message t))

  answer_rule : (m : FixMessage) (id : Option Text) → Advancing (answer_test_request env m id)
  answer_rule m (some (c ∷ id)) =
      send_rule (fixmsg env ((35, str (codes "0")) ∷ (112, str (c ∷ id)) ∷ []))
  answer_rule m (some []) =
      reject_rule (value_of (get_text 34 m)) (some 112) (some 1)
        (codes "TestRequest missing TestReqID(112)") (msg_type m)
  answer_rule m none =
      reject_rule (value_of (get_text 34 m)) (some 112) (some 1)
        (codes "TestRequest missing TestReqID(112)") (msg_type m)

  pub Advances-test_request : (m : FixMessage) → Advancing (handle_test_request env m)
  unfolding handle_test_request
  Advances-test_request m =
      logged_rule (λ t. answer_test_request env t (get_text 112 t)) m
        (λ t wire p. answer_rule t (get_text 112 t))

  Advances-gap_fill : (n k : ℕ) → Advancing (send_gap_fill env n k)
  unfolding send_gap_fill
  Advances-gap_fill n k =
      send_rule
        (fixmsg env ((35, str (codes "4")) ∷ (36, int_value (k + 1)) ∷ (123, str (codes "Y")) ∷ []))

  resend_rule : (r : Option (Option FixMessage)) → Advancing (resend env r)
  resend_rule none e = Advances-refl e
  resend_rule (some none) e = Advances-refl e
  resend_rule (some (some m)) e =
      let dup = insert 43 (str (codes "Y")) m in send_rule (original_time env (lookup 52 dup) dup) e

  stored_rule : (n : ℕ) (o : Option Text) → Advancing (resend_stored env n o)
  stored_rule n none = Advances-gap_fill n n
  stored_rule n (some []) = Advances-gap_fill n n
  stored_rule n (some (c ∷ wire)) = λ e.
      let r = resend env (from_wire_returns env (c ∷ wire)) in
      rescue_rule Advances Advances-trans e (r e) (send_gap_fill env n n)
        (resend_rule (from_wire_returns env (c ∷ wire)) e) (Advances-gap_fill n n)

  Advances-resend_one : (n : ℕ) → Advancing (resend_one env n)
  unfolding resend_one
  Advances-resend_one n e =
      stored_rule n (get_message env.config.version env.config.sender env.config.target n e.store) e

  Advances-resend_range : (count start : ℕ) → Advancing (resend_range env count start)
  unfolding resend_range
  Advances-resend_range zero start = Advances-refl
  Advances-resend_range (suc count) start =
      then_rule (resend_one env start) (resend_range env count (suc start))
        (Advances-resend_one start) (Advances-resend_range count (suc start))

  pub Advances-resend_to :
      (m : FixMessage) (start last : ℕ) → Advancing (resend_to env m start last)
  unfolding resend_to
  Advances-resend_to m start last =
      then_rule (resend_range env (last + 1 - start) start) (tell_admin env m)
        (Advances-resend_range (last + 1 - start) start) (tell_admin_rule m)
