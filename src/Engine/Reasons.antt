-- ===== src/Engine/Reasons.antt =====
-- The texts that engine.py and message_handler.py put into Text(58).
use gofixmsg.Prelude.{ℕ, ◌++◌, Option, none, some, Text}
use gofixmsg.Decimal.{codes, show}

-- `{x}` of a value that may be None.
abbrev pub shown : Option Text → Text
shown none = codes "None"
shown (some t) = t

abbrev quoted : Option Text → Text
quoted o = codes "'" ++ (shown o ++ codes "'")

pub invalid_seq_num : Option Text → Text
invalid_seq_num s = codes "Invalid or missing MsgSeqNum (34) in Logon: " ++ quoted s

pub invalid_heartbeat_interval : Option Text → Text
invalid_heartbeat_interval s = codes "Invalid or missing HeartBtInt (108) in Logon: " ++ quoted s

comp_ids : Text → Text → Text → Option Text → Option Text → Text
comp_ids what sender target got_sender got_target =
    what
    ++ (codes ". Expected Sender="
        ++ (target
            ++ (codes "/Target="
                ++ (sender
                    ++ (codes ". Got Sender="
                        ++ (shown got_sender ++ (codes "/Target=" ++ shown got_target)))))))

pub invalid_comp_ids : Text → Text → Option Text → Option Text → Text
invalid_comp_ids = comp_ids (codes "Invalid CompIDs in Logon")

pub invalid_comp_ids_response : Text → Text → Option Text → Option Text → Text
invalid_comp_ids_response = comp_ids (codes "Invalid CompIDs in Logon response")

pub invalid_reset : ℕ → Text
invalid_reset n =
    codes "Invalid Logon: ResetSeqNumFlag(141)=Y but MsgSeqNum(34)="
    ++ (show n ++ codes " (expected 1).")

expected_got : Text → Text → ℕ → ℕ → Text
expected_got what wanted expected got =
    what ++ (wanted ++ (show expected ++ (codes ", Got " ++ (show got ++ codes "."))))

pub logon_too_low : ℕ → ℕ → Text
logon_too_low = expected_got (codes "MsgSeqNum too low in Logon.") (codes " Expected >= ")

pub logon_too_high : ℕ → ℕ → Text
logon_too_high = expected_got (codes "MsgSeqNum too high in Logon.") (codes " Expected ")

pub response_too_low : ℕ → ℕ → Text
response_too_low =
    expected_got (codes "MsgSeqNum too low in Logon response.") (codes " Expected >= ")

pub response_too_high : ℕ → ℕ → Text
response_too_high =
    expected_got (codes "MsgSeqNum too high in Logon response.") (codes " Expected ")

pub invalid_resend_request : Option Text → Option Text → Text
invalid_resend_request b e =
    codes "Invalid BeginSeqNo(7) or EndSeqNo(16) in ResendRequest: Begin="
    ++ (quoted b ++ (codes ", End=" ++ quoted e))

pub invalid_range : ℕ → ℕ → Text
invalid_range e b =
    codes "Invalid range in ResendRequest: EndSeqNo("
    ++ (show e ++ (codes ") < BeginSeqNo(" ++ (show b ++ codes ")")))

pub invalid_new_seq_no : Option Text → Text
invalid_new_seq_no s = codes "Invalid or missing NewSeqNo(36) in SequenceReset: " ++ quoted s

pub reset_not_ahead : ℕ → ℕ → Text
reset_not_ahead new expected =
    codes "SequenceReset-Reset: NewSeqNo ("
    ++ (show new
        ++ (codes ") must be greater than current expected incoming ("
            ++ (show expected ++ codes ").")))

pub unsupported_type : Text → Text
unsupported_type t = codes "Unsupported admin message type: " ++ t

pub invalid_received_seq_num : Option Text → Option Text → Text
invalid_received_seq_num from s =
    codes "Invalid or missing MsgSeqNum (34) in msg from "
    ++ (sender from ++ (codes ": " ++ quoted s))
  where
    sender : Option Text → Text
    sender none = codes "UNKNOWN"
    sender (some t) = t

pub too_low : ℕ → ℕ → Text
too_low expected received =
    codes "MsgSeqNum too low, expected "
    ++ (show expected ++ (codes " but received " ++ show received))
