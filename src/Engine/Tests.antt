-- ===== src/Engine/Tests.antt =====
-- Witnesses for the theorems about a session.
use gofixmsg.Prelude.{
  ℕ, zero, suc, inl, ◌≡◌, refl, sym, ap, ◌∙◌, Bool, true, false, Option, none, some, List, [], ◌∷◌,
  Text, text_eq, insert, lookup, contains, nat_eq, lookup-insert_ne, arith, isdigit, int,
}
use gofixmsg.Decimal.{codes}
use gofixmsg.Message.{FixMessage, str, get_text, is_text}
use gofixmsg.StateMachine.{active}
use gofixmsg.Store.{MessageStore}
use gofixmsg.Engine.Reading.{Read, received, receive, receive_stops}
use gofixmsg.Engine.{initiator, Config, Env, Engine}
use gofixmsg.Engine.{Act, done}
use gofixmsg.StateMachine.{disconnected}
use gofixmsg.Engine.Outgoing.{stamp, send_message, disconnect_now, disconnect_gracefully}
use gofixmsg.Engine.Incoming.{process_parsed, resend_message}
use gofixmsg.Engine.Handlers.{resend_one, send_gap_fill}
use gofixmsg.Engine.Handling.{KeepsTags}
use gofixmsg.Engine.Advances.{Advances}
use gofixmsg.Engine.Receiving.{Advances-process_parsed}
use gofixmsg.Engine.Delivery.{IsLive, IsFresh, Serialises, Delivered, send_message-Delivered}
use gofixmsg.Engine.Down.{Silent, IsDown, disconnect_now-IsDown, send_message_fails}
use gofixmsg.Engine.Gaps.{IsOrdinary, AskedFor, gap-AskedFor, gap_asked_once}
use gofixmsg.Engine.TooLow.{LoggedOut, low-LoggedOut, logout_message}
use gofixmsg.Engine.Order.{AreApplication, receive_all, numbered_items, Told, receive_all-accepted}
use gofixmsg.Engine.Graceful.{disconnect_gracefully-Silent, resend_one-gap_fill}
use gofixmsg.Engine.Timers.{beat, beat-timed_out}
use gofixmsg.Engine.Connecting.{
  start, start_gives_up, handle_incoming_connection, handle_incoming_connection_ends,
}
use gofixmsg.Engine.Reasons.{too_low}

abbrev config : Config
config = record {
  mode = initiator;
  sender = b'U' ∷ [];
  target = b'T' ∷ [];
  version = b'F' ∷ b'4' ∷ [];
  heartbeat_interval = 30;
  reset_seq_num_on_logon = false;
  encryptmethod = 0;
  max_retries = 5;
}

-- The message with its BodyLength and CheckSum.
abbrev wired : FixMessage → FixMessage
wired m = insert 10 (str (b'1' ∷ [])) (insert 9 (str (b'5' ∷ [])) m)

abbrev fst_or : FixMessage → Option (FixMessage × Text) → FixMessage
fst_or m none = m
fst_or m (some (t, wire)) = t

abbrev env : Env
env = record {
  config = config;
  to_wire = λ m. some (wired m, b'w' ∷ []);
  from_wire = λ t. none;
  sending_time = λ n. b'2' ∷ [];
  database_time = λ n. b'3' ∷ [];
  has_from_admin = true;
  has_on_reject = false;
  has_on_message = true;
  raises = λ c. false;
}

abbrev store : MessageStore
store = record {
  db = record { messages = []; sessions = [] };
  conn = true;
  beginstring = some (b'F' ∷ b'4' ∷ []);
  sendercompid = some (b'U' ∷ []);
  targetcompid = some (b'T' ∷ []);
  incoming_seqnum = 5;
  outgoing_seqnum = 7;
}

-- A session that is ACTIVE, waits for message 5, and whose writes go as the list says.
abbrev session : List Bool → Engine
session faults = record {
  state = active;
  store = store;
  running = true;
  attached = true;
  heartbeat = record {
    running = true;
    last_sent_time = 900;
    last_received_time = 200;
    missed_heartbeats = 0;
    test_request_id = none;
  };
  retry_attempts = 0;
  resend_request_outstanding = false;
  resend_request_expected_seq = none;
  scheduler_running = true;
  logoff_pending = false;
  cleared = false;
  clock = 1000;
  faults = faults;
  sent = [];
  calls = [];
}

-- An ExecutionReport with a MsgSeqNum.
abbrev report : Text → FixMessage
report n = (35, str (codes "8")) ∷ (34, str n) ∷ []

abbrev order : FixMessage
order = (35, str (codes "D")) ∷ (11, str (b'1' ∷ [])) ∷ []

taken : (m t : FixMessage) (wire : Text) → env.to_wire m ≡ some (t, wire) → wired m ≡ t
taken m t wire p = ap (λ o. fst_or m o) p

keeps : KeepsTags env
keeps m t wire p tag a b =
    ap (lookup tag) (sym (taken m t wire p))
    ∙ lookup-insert_ne 10 tag (str (b'1' ∷ [])) (insert 9 (str (b'5' ∷ [])) m) b
    ∙ lookup-insert_ne 9 tag (str (b'5' ∷ [])) m a

codec : (m : FixMessage) → Serialises env m
codec m = record {
  message = wired m;
  wire = b'w' ∷ [];
  returns = refl;
  keeps_34 = keeps m (wired m) (b'w' ∷ []) refl 34 refl refl;
  keeps_35 = keeps m (wired m) (b'w' ∷ []) refl 35 refl refl;
  keeps_141 = keeps m (wired m) (b'w' ∷ []) refl 141 refl refl;
}

live : IsLive (session [])
live = record { up = refl; attached = refl; running = refl; opened = refl; sound = refl }

order-IsFresh : IsFresh order
unfolding contains get_text lookup text_eq
order-IsFresh = (refl, refl)

send_message-Delivered_example :
    Delivered env order (session []) (send_message env order (session [])).0
    × ((send_message env order (session [])).1 ≡ false)
send_message-Delivered_example =
    send_message-Delivered env order (session []) live order-IsFresh
      (codec (stamp env order (session [])))

send_message_fails_example :
    IsDown env (send_message env order (session (true ∷ []))).0
    × ((send_message env order (session (true ∷ []))).0.sent
        ≡ wired (stamp env order (session (true ∷ []))) ∷ [])
    × ((send_message env order (session (true ∷ []))).0.store.outgoing_seqnum ≡ 7)
    × ((send_message env order (session (true ∷ []))).1 ≡ false)
send_message_fails_example =
    send_message_fails env order (wired (stamp env order (session (true ∷ [])))) (b'w' ∷ []) []
      (session (true ∷ [])) refl refl refl refl refl

disconnect_now-IsDown_example : IsDown env (disconnect_now env (session [])).0
disconnect_now-IsDown_example = disconnect_now-IsDown env (session [])

disconnect_gracefully-Silent_example :
    IsDown env (disconnect_gracefully env (session [])).0
    × Silent (session []) (disconnect_gracefully env (session [])).0
disconnect_gracefully-Silent_example = disconnect_gracefully-Silent env (session [])

resend_one-gap_fill_example : resend_one env 3 (session []) ≡ send_gap_fill env 3 3 (session [])
resend_one-gap_fill_example = resend_one-gap_fill env 3 (session [])

beat-timed_out_example : IsDown env (beat env (session [])).0
beat-timed_out_example = beat-timed_out env (session []) refl refl

no_reset_report : is_text (get_text 141 (report (b'5' ∷ []))) (codes "Y") ≡ false
unfolding get_text lookup
no_reset_report = refl

Advances-process_parsed_example :
    Advances (session []) (process_parsed env (b'x' ∷ []) (report (b'5' ∷ [])) (session [])).0
Advances-process_parsed_example =
    Advances-process_parsed env keeps (b'x' ∷ []) (report (b'5' ∷ [])) no_reset_report (session [])

high : IsOrdinary env 9 (report (b'9' ∷ []))
unfolding get_text lookup text_eq isdigit int
high = record { number = refl; no_gap_fill = refl; no_reset = refl }

low : IsOrdinary env 2 (report (b'2' ∷ []))
unfolding get_text lookup text_eq isdigit int
low = record { number = refl; no_gap_fill = refl; no_reset = refl }

low_original : is_text (get_text 43 (report (b'2' ∷ []))) (codes "Y") ≡ false
unfolding get_text lookup
low_original = refl

gap-AskedFor_example :
    AskedFor env 5 (session []) (process_parsed env (b'x' ∷ []) (report (b'9' ∷ [])) (session [])).0
gap-AskedFor_example =
    gap-AskedFor env (b'x' ∷ []) (report (b'9' ∷ [])) 9
      (wired (stamp env (resend_message env 5) (session []))) (b'w' ∷ []) (session []) high
      (omega arith) live refl keeps refl

higher : IsOrdinary env 8 (report (b'8' ∷ []))
unfolding get_text lookup text_eq isdigit int
higher = record { number = refl; no_gap_fill = refl; no_reset = refl }

gap_asked_once_example :
    let s = (process_parsed env (b'x' ∷ []) (report (b'9' ∷ [])) (session [])).0 in
    AskedFor env 5 (session []) (process_parsed env (b'y' ∷ []) (report (b'8' ∷ [])) s).0
    × (process_parsed env (b'y' ∷ []) (report (b'8' ∷ [])) s ≡ (s, false))
gap_asked_once_example =
    gap_asked_once env (b'x' ∷ []) (b'y' ∷ []) (report (b'9' ∷ [])) (report (b'8' ∷ [])) 9 8
      (wired (stamp env (resend_message env 5) (session []))) (b'w' ∷ []) (session []) high higher
      (omega arith) (omega arith) live refl keeps refl

low-LoggedOut_example :
    LoggedOut env
      (too_low 5 2)
      (session [])
      (process_parsed env (b'x' ∷ []) (report (b'2' ∷ [])) (session [])).0
low-LoggedOut_example =
    low-LoggedOut env (b'x' ∷ []) (report (b'2' ∷ [])) 2
      (wired (stamp env (logout_message env (too_low 5 2)) (session []))) (b'w' ∷ []) (session [])
      low (omega arith) low_original refl live keeps refl

application_items :
    AreApplication env
      (9 ∷ 5 ∷ [])
      ((b'x' ∷ [], report (b'9' ∷ [])) ∷ (b'y' ∷ [], report (b'5' ∷ [])) ∷ [])
unfolding AreApplication get_text lookup text_eq isdigit int
application_items = (
  record {
    handler = refl;
    number = refl;
    original = refl;
    serialised = codec (report (b'9' ∷ []));
  },
  (
    record {
      handler = refl;
      number = refl;
      original = refl;
      serialised = codec (report (b'5' ∷ []));
    },
    tt,
  ),
)

abbrev items : List (Text × FixMessage)
items = (b'x' ∷ [], report (b'9' ∷ [])) ∷ (b'y' ∷ [], report (b'5' ∷ [])) ∷ []

receive_all-accepted_example :
    Told env
      (numbered_items env (9 ∷ 5 ∷ []) items application_items)
      (session [])
      (receive_all env items (session []))
receive_all-accepted_example =
    receive_all-accepted env (9 ∷ 5 ∷ []) items (session []) application_items

abbrev refuse : Act
refuse e = (e, true)

-- The same session before it was started.
abbrev idle : Engine
idle = record (session []) { state = disconnected }

start_gives_up_example :
    (t : Engine) × (start env refuse done done 5 6 idle ≡ some t)
    × ((t.state ≡ disconnected) × (t.retry_attempts ≡ 5))
start_gives_up_example =
    start_gives_up env refuse done done 5 5 idle refl (λ x. refl) (inl refl) (omega arith)
      (omega arith)

handle_incoming_connection_ends_example :
    (handle_incoming_connection env refuse done refuse 5 idle).state ≡ disconnected
handle_incoming_connection_ends_example =
    handle_incoming_connection_ends env refuse done refuse 5 idle

-- Some bytes, and then the end of the stream.
abbrev stream : ℕ → Read
stream zero = received (codes "8=FIX.4.4")
stream (suc n) = received []

receive_stops_example :
    (d : Text × Engine) × (receive env 2 stream ([], session []) ≡ some d) × (d.1.running ≡ false)
receive_stops_example = receive_stops env 1 2 stream ([], session []) refl (omega arith)
