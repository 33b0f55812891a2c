-- ===== src/Framer.antt =====
-- `FixEngine.on_network_data` of zz_archive/pyfixmsg_plus/fixengine/engine.py: cutting the byte stream
-- from the network into FIX messages by BeginString, BodyLength and the trailing SOH.
pub mod Fuel
pub mod Frames
pub mod Partial
pub mod Chunks
mod Tests
use gofixmsg.Prelude.{
  ℕ, zero, suc, ◌+◌, ltb, Bool, true, false, Option, none, some, List, [], ◌∷◌, ◌++◌, Text,
  if◌then◌else◌, length, take, drop, find, find_from, ends_in, isdigit, int,
}

abbrev pub Bytes : Type 0
Bytes = List ℕ

abbrev pub soh : ℕ
soh = 1

-- b"8=FIX"
abbrev pub begin_mark : Bytes
begin_mark = b'8' ∷ b'=' ∷ b'F' ∷ b'I' ∷ b'X' ∷ []

-- SOH followed by b"9="
abbrev pub length_mark : Bytes
length_mark = soh ∷ b'9' ∷ b'=' ∷ []

-- What one round of the loop does with the buffer: wait for more data and keep this buffer (`break`),
-- go on with this buffer (`continue`), or hand out the first `size` bytes of it as a message.
pub data Round : Type 0 where
  wait : Bytes → Round
  skip : Bytes → Round
  deliver : Bytes → ℕ → Round

abbrev pub checksum_field_len : ℕ
checksum_field_len = 7

-- The next BeginString behind the first byte, or nothing.
abbrev pub resync_at : Bytes → Option ℕ → Bytes
resync_at b none = []
resync_at b (some j) = drop j b

abbrev pub resync : Bytes → Bytes
resync b = resync_at b (find_from begin_mark b 1)

-- The message's bytes are all there.
unfoldable pub complete : Bytes → ℕ → Round
complete b size = if ends_in soh (take size b) then deliver b size else skip (resync b)

-- From the BodyLength value, which stands in `b` from `value_start` to `value_end`.
unfoldable pub body_length : Bytes → ℕ → ℕ → Round
body_length b value_start value_end =
    let value = take value_end (drop value_start b) in
    let size = value_start + value_end + 1 + int value + checksum_field_len in
    if isdigit value
    then if ltb (length b) size then wait b else complete b size
    else skip (drop (value_start + value_end) b)

-- From where the SOH behind the BodyLength value was looked for, and the distance at which it is.
abbrev pub value_found : Bytes → ℕ → Option ℕ → Round
value_found b value_start none = wait (if ltb 4096 (length b) then [] else b)
value_found b value_start (some value_end) = body_length b value_start value_end

-- From the position of the BodyLength tag.
unfoldable pub length_tag : Bytes → ℕ → Round
length_tag b tag = value_found b (tag + 3) (find (soh ∷ []) (drop (tag + 3) b))

abbrev pub tag_found : Bytes → Option ℕ → Round
tag_found b none = wait (if ltb 4096 (length b) then resync b else b)
tag_found b (some tag) = length_tag b tag

-- From a buffer that starts with the BeginString.
unfoldable pub begun : Bytes → Round
begun b = tag_found b (find length_mark b)

-- Garbage before the BeginString is dropped.
abbrev pub begin_found : Bytes → Option ℕ → Round
begin_found buffer none = wait (if ltb 8192 (length buffer) then [] else buffer)
begin_found buffer (some start) = begun (drop start buffer)

unfoldable pub round : Bytes → Round
round buffer = begin_found buffer (find begin_mark buffer)

-- What `process_single_fix_message` does to the rest of the engine, to the buffer, which it leaves
-- alone or clears (`disconnect` and the state callback do), and whether it raises.
pub record Processed (S : Type 0) : Type 0 where
  pub state : S
  pub cleared : Bool
  pub raised : Bool

module _ {S : Type 0} where
  -- Behind a message: an exception clears the buffer and ends the loop.
  abbrev pub handled :
      (Bytes → S → Option (Bytes × S)) → Bytes → S → Bool → Bool → Option (Bytes × S)
  handled next rest s cleared true = some ([], s)
  handled next rest s true false = next [] s
  handled next rest s false false = next rest s

-- The loop. `none` is that the fuel ran out.
module _ {S : Type 0} (process : Bytes → S → Processed S) where
  -- The end of one round; `next` is the rest of the loop.
  abbrev pub continue : (Bytes → S → Option (Bytes × S)) → S → Round → Option (Bytes × S)
  continue next s (wait b) = some (b, s)
  continue next s (skip b) = next b s
  continue next s (deliver b size) =
      let done = process (take size b) s in
      handled next (drop size b) done.state done.cleared done.raised

  unfoldable pub loop : ℕ → Bytes → S → Option (Bytes × S)
  loop zero buffer s = none
  loop (suc fuel) buffer s = continue (loop fuel) s (round buffer)

  -- `self.incoming_buffer += data_bytes`, then the loop, with fuel for every byte.
  unfoldable pub on_network_data : Bytes → Bytes × S → Option (Bytes × S)
  unfolding loop
  on_network_data chunk c = let b = c.0 ++ chunk in loop (suc (length b)) b c.1
