-- ===== src/Engine/Gaps.antt =====
-- What a session does with a message whose number is above the expected one.
use gofixmsg.Prelude.{
  ℕ, ◌==◌, ◌<◌, ◌≡◌, refl, sym, ap, subst, ◌∙◌, Bool, true, false, ◌&&◌, Option, some, [], ◌∷◌,
  ◌++◌, Text, lookup, contains, insert, text_eq, nat_eq, arith, ltb, if◌then◌else◌, lt→ltb,
}
use gofixmsg.Decimal.{codes}
use gofixmsg.Message.{FixMessage, str, int_value, get_text, is_text}
use gofixmsg.Engine.{Env, Engine, done, go_on}
use gofixmsg.Engine.Outgoing.{msg_type, number_of, stamp, send_message}
use gofixmsg.Engine.Sending.{Sends-send_message}
use gofixmsg.Engine.Delivery.{IsLive, IsFresh, Serialises, send_message-Delivered, lookup-stamp}
use gofixmsg.Engine.Handling.{KeepsTags}
use gofixmsg.Engine.Incoming.{expects, resend_message, ask_resend, numbered, process_parsed}

not_below : (n k : ℕ) → k < n → ltb n k ≡ false
not_below n k h = ground arith

module _ (env : Env) where
  both_asked :
      (b : Bool) (o : Option ℕ) (k : ℕ) → b ≡ true → o ≡ some k → (b && expects env o k) ≡ true
  both_asked b o k p q = rw p (rw q (ground arith))

  -- A message of number `n` that is no SequenceReset-GapFill and no resetting Logon.
  pub record IsOrdinary (n : ℕ) (m : FixMessage) : Type 0 where
    pub number : number_of (get_text 34 m) ≡ some n
    pub no_gap_fill :
        (is_text (msg_type m) (codes "4") && is_text (get_text 123 m) (codes "Y")) ≡ false
    pub no_reset :
        (is_text (msg_type m) (codes "A") && is_text (get_text 141 m) (codes "Y")) ≡ false

  early_lem :
      (wire : Text) (m : FixMessage) (n : ℕ) (e : Engine)
      → IsOrdinary n m
      → e.store.incoming_seqnum < n
      → process_parsed env wire m e ≡ ask_resend env e.store.incoming_seqnum e
  unfolding process_parsed numbered
  early_lem wire m n e o h = rw o.number (
      rw o.no_gap_fill (
        rw o.no_reset (
          rw (not_below n e.store.incoming_seqnum h)
            (rw (lt→ltb e.store.incoming_seqnum n h) refl))))

  request-IsFresh : (k : ℕ) → IsFresh (resend_message env k)
  unfolding resend_message contains insert get_text lookup text_eq
  request-IsFresh k = (refl, refl)

  request_fields :
      (k : ℕ)
      → (lookup 35 (resend_message env k) ≡ some (str (codes "2")))
        × (lookup 7 (resend_message env k) ≡ some (int_value k))
        × (lookup 16 (resend_message env k) ≡ some (int_value 0))
  unfolding resend_message insert lookup
  request_fields k = (refl, refl, refl)

  pub serialises :
      (m t : FixMessage) (wire : Text)
      → KeepsTags env
      → env.to_wire m ≡ some (t, wire)
      → Serialises env m
  serialises m t wire keeps p = record {
    message = t;
    wire = wire;
    returns = p;
    keeps_34 = keeps m t wire p 34 refl refl;
    keeps_35 = keeps m t wire p 35 refl refl;
    keeps_141 = keeps m t wire p 141 refl refl;
  }

  asked_lem :
      (k : ℕ) (e : Engine)
      → e.resend_request_outstanding ≡ true
      → e.resend_request_expected_seq ≡ some k
      → ask_resend env k e ≡ (e, false)
  unfolding ask_resend
  asked_lem k e a b =
      ap
        (λ x.
          if x
          then done e
          else go_on (send_message env (resend_message env k) e) (λ s.
            done (record s {
              resend_request_outstanding = true;
              resend_request_expected_seq = some k;
            })))
        (both_asked e.resend_request_outstanding e.resend_request_expected_seq k a b)

  -- What the first message behind a gap leaves: one ResendRequest went out, for everything from the
  -- expected number on, and the engine remembers that it asked.
  pub record AskedFor (k : ℕ) (e t : Engine) : Type 0 where
    pub message : FixMessage
    pub sent : t.sent ≡ e.sent ++ message ∷ []
    pub resend_request : lookup 35 message ≡ some (str (codes "2"))
    pub begin_seq_no : lookup 7 message ≡ some (int_value k)
    pub end_seq_no : lookup 16 message ≡ some (int_value 0)
    pub calls : t.calls ≡ e.calls
    pub incoming : t.store.incoming_seqnum ≡ e.store.incoming_seqnum
    pub outstanding : t.resend_request_outstanding ≡ true
    pub asked : t.resend_request_expected_seq ≡ some k

  noted_lem :
      (r : Engine × Bool) (k : ℕ)
      → r.1 ≡ false
      → go_on r (λ s.
        done (record s { resend_request_outstanding = true; resend_request_expected_seq = some k }))
        ≡ (
          record (r.0) { resend_request_outstanding = true; resend_request_expected_seq = some k },
          false,
        )
  noted_lem (s, b) k h = rw h refl

  asks :
      (k : ℕ) (t : FixMessage) (wire : Text) (e : Engine)
      → IsLive e
      → (e.resend_request_outstanding && expects env e.resend_request_expected_seq k) ≡ false
      → KeepsTags env
      → env.to_wire (stamp env (resend_message env k) e) ≡ some (t, wire)
      → AskedFor k e (ask_resend env k e).0
  unfolding ask_resend
  asks k t wire e l first keeps p =
      let m = resend_message env k in
      let f = request-IsFresh k in
      let (d, quiet) =
        send_message-Delivered env m e l f (serialises (stamp env m e) t wire keeps p) in
      let h = Sends-send_message env m e in
      let same = λ (tag : ℕ) (a : (9 == tag) ≡ false) (b : (10 == tag) ≡ false).
        keeps (stamp env m e) d.message d.wire d.serialised tag a b in
      rw first (
        rw (noted_lem (send_message env m e) k quiet) (record {
          message = d.message;
          sent = d.sent;
          resend_request =
              same 35 refl refl
              ∙ lookup-stamp env 35 m e f refl refl refl refl
              ∙ (request_fields k).0;
          begin_seq_no =
              same 7 refl refl
              ∙ lookup-stamp env 7 m e f refl refl refl refl
              ∙ (request_fields k).1;
          end_seq_no =
              same 16 refl refl
              ∙ lookup-stamp env 16 m e f refl refl refl refl
              ∙ (request_fields k).2;
          calls = h.calls;
          incoming = h.incoming;
          outstanding = refl;
          asked = refl;
        }))

  -- A message whose number is above the expected number `k` (and that is no SequenceReset-GapFill and
  -- no resetting Logon), on a live connection on which nothing was asked for from `k` on, with
  -- a codec that changes BodyLength and CheckSum alone and serialises the request: one ResendRequest
  -- with BeginSeqNo `k` and EndSeqNo 0 is sent, the application is told nothing, the expected number stays, and the
  -- request is noted as outstanding for `k`.
  pub gap-AskedFor :
      (wire : Text) (m : FixMessage) (n : ℕ) (t : FixMessage) (out : Text) (e : Engine)
      → IsOrdinary n m
      → e.store.incoming_seqnum < n
      → IsLive e
      → (e.resend_request_outstanding
          && expects env e.resend_request_expected_seq e.store.incoming_seqnum)
        ≡ false
      → KeepsTags env
      → env.to_wire (stamp env (resend_message env e.store.incoming_seqnum) e) ≡ some (t, out)
      → AskedFor e.store.incoming_seqnum e (process_parsed env wire m e).0
  gap-AskedFor wire m n t out e o h l first keeps p =
      rw (early_lem wire m n e o h) (asks e.store.incoming_seqnum t out e l first keeps p)

  -- Behind a gap: after a first message with a number above the expected one was answered as
  -- `gap-AskedFor` says, under its conditions, a second one, of any number above the expected one (no
  -- SequenceReset-GapFill and no resetting Logon either), changes nothing and raises nothing, so for
  -- both together exactly one ResendRequest was sent.
  pub gap_asked_once :
      (wire later : Text) (m r : FixMessage) (n k : ℕ) (t : FixMessage) (out : Text) (e : Engine)
      → IsOrdinary n m
      → IsOrdinary k r
      → e.store.incoming_seqnum < n
      → e.store.incoming_seqnum < k
      → IsLive e
      → (e.resend_request_outstanding
          && expects env e.resend_request_expected_seq e.store.incoming_seqnum)
        ≡ false
      → KeepsTags env
      → env.to_wire (stamp env (resend_message env e.store.incoming_seqnum) e) ≡ some (t, out)
      → let s = (process_parsed env wire m e).0 in
        AskedFor e.store.incoming_seqnum e (process_parsed env later r s).0
        × (process_parsed env later r s ≡ (s, false))
  gap_asked_once wire later m r n k t out e o p h g l first keeps w =
      let s = (process_parsed env wire m e).0 in
      let a = gap-AskedFor wire m n t out e o h l first keeps w in
      let still : s.store.incoming_seqnum < k = let i = a.incoming in omega arith in
      let quiet : process_parsed env later r s ≡ (s, false) =
        early_lem later r k s p still
        ∙ asked_lem s.store.incoming_seqnum s a.outstanding (a.asked ∙ ap some (sym a.incoming)) in
      (subst (λ (x : Engine × Bool). AskedFor e.store.incoming_seqnum e x.0) (sym quiet) a, quiet)
