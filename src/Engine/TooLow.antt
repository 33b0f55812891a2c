-- ===== src/Engine/TooLow.antt =====
-- What a session does with a message whose number is below the expected one.
use gofixmsg.Prelude.{
  ℕ, ◌==◌, ◌<◌, ◌≡◌, refl, ◌∙◌, Bool, true, false, ◌||◌, some, [], ◌∷◌, ◌++◌, Text, lookup,
  contains, insert, text_eq, nat_eq, lt→ltb,
}
use gofixmsg.Decimal.{codes}
use gofixmsg.Message.{FixMessage, str, get_text, is_text}
use gofixmsg.StateMachine.{active, logout_in_progress, logout_initiated, state_on_event}
use gofixmsg.Engine.{
  Env, Engine, Act, rescue, is_active, is_disconnected, is_logout_in_progress, on_event,
  on_event_lem,
}
use gofixmsg.Engine.Outgoing.{fixmsg, stamp, send_message, send_logout_message, logout_failed}
use gofixmsg.Engine.Sending.{Sends-send_message}
use gofixmsg.Engine.Delivery.{state_kept, IsLive, IsFresh, send_message-Delivered, lookup-stamp}
use gofixmsg.Engine.Handling.{KeepsTags}
use gofixmsg.Engine.Incoming.{numbered, process_parsed}
use gofixmsg.Engine.Reasons.{too_low}
use gofixmsg.Engine.Gaps.{IsOrdinary, serialises}

open_lem :
    (e : Engine)
    → e.state ≡ active
    → (is_disconnected e.state || is_logout_in_progress e.state) ≡ false
open_lem e h = rw h refl

active_lem : (e : Engine) → e.state ≡ active → is_active e.state ≡ true
active_lem e h = rw h refl

module _ (env : Env) where
  late_lem :
      (wire : Text) (m : FixMessage) (n : ℕ) (e : Engine)
      → IsOrdinary env n m
      → n < e.store.incoming_seqnum
      → is_text (get_text 43 m) (codes "Y") ≡ false
      → process_parsed env wire m e ≡ send_logout_message env (too_low e.store.incoming_seqnum n) e
  unfolding process_parsed numbered
  late_lem wire m n e o h d =
      rw o.number
        (rw o.no_gap_fill (rw o.no_reset (rw (lt→ltb n e.store.incoming_seqnum h) (rw d refl))))

  abbrev pub logout_message : Text → FixMessage
  logout_message text = fixmsg env ((35, str (codes "5")) ∷ (58, str text) ∷ [])

  logout-IsFresh : (text : Text) → IsFresh (logout_message text)
  unfolding contains insert get_text lookup text_eq
  logout-IsFresh text = (refl, refl)

  logout_fields :
      (text : Text)
      → (lookup 35 (logout_message text) ≡ some (str (codes "5")))
        × (lookup 58 (logout_message text) ≡ some (str text))
  unfolding insert lookup
  logout_fields text = (refl, refl)

  -- The engine that `send_logout_message` sends from, in state ACTIVE.
  abbrev leaving : Engine → Engine
  leaving e = record e { state = logout_in_progress }

  initiated : (e : Engine) → e.state ≡ active → on_event logout_initiated e ≡ (leaving e, false)
  unfolding state_on_event
  initiated e h = on_event_lem logout_initiated e ∙ rw h refl

  rescue_quiet : (r : Engine × Bool) (k : Act) → r.1 ≡ false → (rescue r k).0 ≡ r.0
  rescue_quiet (s, b) k h = rw h refl

  send_logout_active :
      (text : Text) (e : Engine)
      → e.state ≡ active
      → (send_message env (logout_message text) (leaving e)).1 ≡ false
      → (send_logout_message env text e).0 ≡ (send_message env (logout_message text) (leaving e)).0
  unfolding send_logout_message
  send_logout_active text e a quiet = rw (open_lem e a) (
      rw (active_lem e a) (
        rw (initiated e a) (
          rescue_quiet (send_message env (logout_message text) (leaving e)) (logout_failed env)
            quiet)))

  -- A session whose Logout with `text` went out.
  pub record LoggedOut (text : Text) (e t : Engine) : Type 0 where
    pub message : FixMessage
    pub sent : t.sent ≡ e.sent ++ message ∷ []
    pub logout : lookup 35 message ≡ some (str (codes "5"))
    pub reason : lookup 58 message ≡ some (str text)
    pub calls : t.calls ≡ e.calls
    pub incoming : t.store.incoming_seqnum ≡ e.store.incoming_seqnum
    pub state : t.state ≡ logout_in_progress

  state-sent :
      (m t : FixMessage) (wire : Text) (e : Engine)
      → IsLive e
      → IsFresh m
      → KeepsTags env
      → env.to_wire (stamp env m e) ≡ some (t, wire)
      → (send_message env m e).0.state ≡ e.state
  state-sent m t wire e l f keeps p =
      state_kept env m e l f (serialises env (stamp env m e) t wire keeps p)

  logs_out :
      (text : Text) (t : FixMessage) (out : Text) (e : Engine)
      → e.state ≡ active
      → IsLive e
      → KeepsTags env
      → env.to_wire (stamp env (logout_message text) e) ≡ some (t, out)
      → LoggedOut text e (send_logout_message env text e).0
  unfolding stamp
  logs_out text t out e a l keeps p =
      let m = logout_message text in
      let f = logout-IsFresh text in
      let s = leaving e in
      let ready : IsLive s = record {
        up = refl;
        attached = l.attached;
        running = l.running;
        opened = l.opened;
        sound = l.sound;
      } in
      let (d, quiet) =
        send_message-Delivered env m s ready f (serialises env (stamp env m s) t out keeps p) in
      let h = Sends-send_message env m s in
      let same = λ (tag : ℕ) (a : (9 == tag) ≡ false) (b : (10 == tag) ≡ false).
        keeps (stamp env m s) d.message d.wire d.serialised tag a b in
      rw (send_logout_active text e a quiet) (record {
        message = d.message;
        sent = d.sent;
        logout =
            same 35 refl refl
            ∙ lookup-stamp env 35 m s f refl refl refl refl
            ∙ (logout_fields text).0;
        reason =
            same 58 refl refl
            ∙ lookup-stamp env 58 m s f refl refl refl refl
            ∙ (logout_fields text).1;
        calls = h.calls;
        incoming = h.incoming;
        state = state-sent m t out s ready f keeps p;
      })

  -- A message whose number is below the expected one and that is not marked as a possible duplicate
  -- (and is no SequenceReset-GapFill and no resetting Logon), in state ACTIVE on a live
  -- connection, with a codec that changes BodyLength and CheckSum alone and serialises the Logout: one
  -- Logout is sent whose Text says that the number is too low, the state becomes LOGOUT_IN_PROGRESS,
  -- the application is told nothing and the expected number stays.
  pub low-LoggedOut :
      (wire : Text) (m : FixMessage) (n : ℕ) (t : FixMessage) (out : Text) (e : Engine)
      → IsOrdinary env n m
      → n < e.store.incoming_seqnum
      → is_text (get_text 43 m) (codes "Y") ≡ false
      → e.state ≡ active
      → IsLive e
      → KeepsTags env
      → env.to_wire (stamp env (logout_message (too_low e.store.incoming_seqnum n)) e)
        ≡ some (t, out)
      → LoggedOut (too_low e.store.incoming_seqnum n) e (process_parsed env wire m e).0
  low-LoggedOut wire m n t out e o h d a l keeps p =
      rw (late_lem wire m n e o h d)
        (logs_out (too_low e.store.incoming_seqnum n) t out e a l keeps p)
