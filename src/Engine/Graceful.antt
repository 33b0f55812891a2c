-- ===== src/Engine/Graceful.antt =====
-- Two operations that do less than their log lines say: `disconnect(graceful=True)` of engine.py and
-- the resending of stored messages in message_handler.py.
use gofixmsg.Prelude.{
  ℕ, ◌≡◌, refl, ap, ◌∙◌, true, false, Option, none, some, [], ◌∷◌, Text, Bool-cases, inl, inr,
  arith,
}
use mathlib.Core.Option
use gofixmsg.Decimal.{codes}
use gofixmsg.Message.{FixMessage}
use gofixmsg.StateMachine.{State, active, logout_in_progress, logout_initiated, state_on_event}
use gofixmsg.Store.{get_message}
use gofixmsg.Engine.{Env, Engine, rescue, is_active, on_event, on_event_lem}
use gofixmsg.Engine.Outgoing.{take_down, send_logout_message, disconnect_gracefully}
use gofixmsg.Engine.Down.{
  Silent, IsDown, take_down-IsDown, Silent-take_down, disconnect_now-IsDown, Silent-disconnect_now,
}
use gofixmsg.Engine.Handlers.{resend, resend_stored, resend_one, send_gap_fill}

is_active_sound : (s : State) → is_active s ≡ true → s ≡ active
is_active_sound s h = ground arith

module _ (env : Env) where
  abbrev leaving : Engine → Engine
  leaving e = record e { cleared = true; state = logout_in_progress }

  abbrev logout_text : Text
  logout_text = codes "Operator requested logout"

  left :
      (e : Engine)
      → e.state ≡ active
      → on_event logout_initiated (record e { cleared = true }) ≡ (leaving e, false)
  unfolding state_on_event
  left e h = on_event_lem logout_initiated (record e { cleared = true }) ∙ rw h refl

  -- In LOGOUT_IN_PROGRESS a Logout is not sent.
  no_logout : (e : Engine) → send_logout_message env logout_text (leaving e) ≡ (leaving e, false)
  unfolding send_logout_message
  no_logout e = refl

  gracefully_lem :
      (e : Engine) → e.state ≡ active → disconnect_gracefully env e ≡ take_down env (leaving e)
  unfolding disconnect_gracefully
  gracefully_lem e h = rw (ap is_active h) (rw (left e h) (rw (no_logout e) refl))

  -- `disconnect(graceful=True)` ends in DISCONNECTED with the network object stopped, from every
  -- state; it sends nothing, no Logout from ACTIVE either, and the outgoing number stays.
  pub disconnect_gracefully-Silent :
      (e : Engine)
      → IsDown env (disconnect_gracefully env e).0 × Silent e (disconnect_gracefully env e).0
  unfolding disconnect_gracefully
  disconnect_gracefully-Silent e = elim (Bool-cases (is_active e.state)) [
    | inl up ↦
        rw (gracefully_lem e (is_active_sound e.state up))
          (take_down-IsDown env (leaving e), Silent-take_down env (leaving e))
    | inr other ↦ rw other (disconnect_now-IsDown env e, Silent-disconnect_now env e)
  ]

  never_resent :
      (n : ℕ) (o : Option FixMessage) (e : Engine)
      → rescue (resend env (Option.map (λ _. none) o) e) (send_gap_fill env n n)
        ≡ send_gap_fill env n n e
  never_resent n none e = refl
  never_resent n (some m) e = refl

  stored_lem :
      (n : ℕ) (o : Option Text) (e : Engine) → resend_stored env n o e ≡ send_gap_fill env n n e
  stored_lem n none e = refl
  stored_lem n (some []) e = refl
  stored_lem n (some (c ∷ wire)) e = never_resent n (env.from_wire (c ∷ wire)) e

  -- For every requested number, whatever the store holds for it, the loop of the ResendRequest
  -- handler does what `send_gap_fill` does for this number alone.
  pub resend_one-gap_fill : (n : ℕ) (e : Engine) → resend_one env n e ≡ send_gap_fill env n n e
  unfolding resend_one
  resend_one-gap_fill n e =
      stored_lem n (get_message env.config.version env.config.sender env.config.target n e.store) e
