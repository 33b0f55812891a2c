-- ===== src/Framer/Tests.antt =====
-- Witnesses for the theorems about `on_network_data`.
use gofixmsg.Prelude.{
  ◌≡◌, ◌++◌, refl, false, some, [], ◌∷◌, List, arith, length, avoids, isdigit, int, ends_in,
}
use gofixmsg.Framer.{Bytes, soh, round, wait, deliver, Processed, on_network_data}
use gofixmsg.Framer.Fuel.{on_network_data_returns}
use gofixmsg.Framer.Frames.{Frame, IsFrame, wire, round-wire}
use gofixmsg.Framer.Partial.{round-partial}
use gofixmsg.Framer.Chunks.{process_all, feed, feed_stream}

-- 8=FIX4, a body of three bytes, and a checksum.
abbrev heartbeat : Frame
heartbeat = record {
  version = b'4' ∷ [];
  digits = b'3' ∷ [];
  body = b'3' ∷ b'=' ∷ soh ∷ [];
  checksum = b'1' ∷ b'0' ∷ b'=' ∷ b'0' ∷ b'0' ∷ b'1' ∷ soh ∷ [];
}

heartbeat-IsFrame : IsFrame heartbeat
unfolding avoids isdigit int ends_in
heartbeat-IsFrame = record {
  one_field = refl;
  number = refl;
  exact = refl;
  checksum_len = refl;
  closed = refl;
  short_header = omega arith;
}

-- Processing that collects the messages.
abbrev collect : Bytes → List Bytes → Processed (List Bytes)
collect b s = record { state = s ++ b ∷ []; cleared = false; raised = false }

abbrev reads : List Bytes
reads =
    (b'8' ∷ b'=' ∷ b'F' ∷ [])
    ∷ []
    ∷ (b'I' ∷ b'X' ∷ b'4' ∷ soh ∷ b'9' ∷ b'=' ∷ b'3' ∷ soh ∷ b'3' ∷ b'=' ∷ soh ∷ b'1' ∷ [])
    ∷ (b'0' ∷ b'=' ∷ b'0' ∷ b'0' ∷ b'1' ∷ soh ∷ [])
    ∷ []

feed_stream_example :
    feed collect reads ([], []) ≡ some ([], process_all collect (heartbeat ∷ []) [])
feed_stream_example =
    feed_stream collect reads (heartbeat ∷ []) [] (λ b s. (refl, refl)) (heartbeat-IsFrame, tt) refl

round-wire_example :
    round (wire heartbeat ++ b'8' ∷ [])
    ≡ deliver (wire heartbeat ++ b'8' ∷ []) (length (wire heartbeat))
round-wire_example = round-wire heartbeat (b'8' ∷ []) heartbeat-IsFrame

abbrev beginning : Bytes
beginning = b'8' ∷ b'=' ∷ b'F' ∷ b'I' ∷ b'X' ∷ b'4' ∷ soh ∷ b'9' ∷ b'=' ∷ []

abbrev remainder : Bytes
remainder = soh ∷ b'3' ∷ b'=' ∷ soh ∷ b'1' ∷ b'0' ∷ b'=' ∷ b'0' ∷ b'0' ∷ b'1' ∷ soh ∷ []

round-partial_example : round beginning ≡ wait beginning
round-partial_example = round-partial heartbeat beginning remainder b'3' heartbeat-IsFrame refl

on_network_data_returns_example :
    (r : Bytes × List Bytes) × (on_network_data collect (b'x' ∷ []) ([], []) ≡ some r)
on_network_data_returns_example = on_network_data_returns collect (b'x' ∷ []) ([], [])
