-- ===== src/Engine/Numbers.antt =====
-- The numbers of several messages that are sent one after another.
use gofixmsg.Prelude.{ℕ, ◌+◌, ◌≡◌, some, List, [], ◌∷◌, ◌++◌, length, lookup, nat_eq}
use gofixmsg.Message.{FixMessage, int_value}
use gofixmsg.Engine.{Env, Engine, Act, done, ◌>>◌}
use gofixmsg.Engine.Outgoing.{stamp, send_message}
use gofixmsg.Engine.Delivery.{IsLive, IsFresh, Serialises}

-- Messages that bear the numbers from `n` on.
unfoldable pub IsNumbered : ℕ → List FixMessage → Type 0
IsNumbered n [] = Unit
IsNumbered n (m ∷ ms) = (lookup 34 m ≡ some (int_value n)) × IsNumbered (n + 1) ms

unfoldable pub AreFresh : List FixMessage → Type 0
AreFresh [] = Unit
AreFresh (m ∷ ms) = IsFresh m × AreFresh ms

module _ (env : Env) where
  unfoldable pub send_all : List FixMessage → Act
  send_all [] = done
  send_all (m ∷ ms) = send_message env m >> send_all ms

  -- What a row of messages leaves: the messages that went out, with their numbers.
  pub record DeliveredAll (ms : List FixMessage) (e t : Engine) : Type 0 where
    pub messages : List FixMessage
    pub sent : t.sent ≡ e.sent ++ messages
    pub numbers : IsNumbered e.store.outgoing_seqnum messages
    pub complete : length messages ≡ length ms
    pub counted : t.store.outgoing_seqnum ≡ e.store.outgoing_seqnum + length ms
    pub live : IsLive t

  -- The codec serialises each message with the header that it gets when its turn comes, and keeps its
  -- MsgSeqNum, MsgType and ResetSeqNumFlag.
  unfoldable pub AreSerialised : List FixMessage → Engine → Type 0
  AreSerialised [] e = Unit
  AreSerialised (m ∷ ms) e =
      Serialises env (stamp env m e) × AreSerialised ms (send_message env m e).0
