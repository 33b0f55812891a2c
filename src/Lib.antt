-- ===== src/Lib.antt =====
-- The FIX session engine of zz_archive: pyfixmsg_plus, with the parts of pyfixmsg that it rests on.
--
-- The program and the files that model it
--
-- A FixEngine owns a state machine, a message store, a network connection, a heartbeat and a message
-- processor with one handler for each type of message. Bytes from the network are cut into messages
-- (on_network_data), each message is parsed and its MsgSeqNum compared with the expected one
-- (process_single_fix_message), and a message in sequence goes to its handler, which may send
-- messages, change the store, move the state machine and call the application.
--
--   StateMachine  zz_archive/pyfixmsg_plus/fixengine/state_machine.py. The state classes are the data
--                 type State, their on_event the table state_on_event; subscribers are functions on
--                 the state and a world that may raise.
--   Store         .../database_message_store.py. The tables are association lists, the object is a
--                 record, each method a function on it. Reopen and Closing: a second process on the
--                 same file; Messages: what is read back.
--   AsyncStore    .../database_message_store_aiosqlite.py and message_store_factory.py. Agreement: the
--                 same calls on both stores.
--   Framer        .../engine.py, on_network_data. One round of the loop is `round`; `loop` is on fuel,
--                 one more than the bytes of the buffer, and every round that goes on shortens it.
--   Message       .../pyfixmsg/fixmessage.py, as far as the session layer reads and writes messages.
--   Engine        .../engine.py, network.py, message_handler.py, heartbeat.py, testrequest.py. An
--                 operation is a function from the engine to the engine and whether an exception came
--                 out (Act). Outgoing: sending and disconnecting; Incoming: the check of numbers and
--                 the dispatch; Handlers and Logon: the handlers; Timers: the heartbeat loop. The
--                 proofs are in Steps, Effects, Sending, Delivery, Numbers, Down, Advances, Handling,
--                 Handled, LoggingOn, Receiving, InSequence, Order, Gaps, TooLow and Graceful, after what they prove.
--                 Connecting: start, retry_connect (on fuel, one for each attempt that is left),
--                 incoming connections. Reading: the network's receive over a stream of reads, with
--                 the framer and the handling of messages.
--   Fragment      .../pyfixmsg/fixmessage.py and __init__.py: messages with repeating groups, ordered
--                 dicts as a data type with their groups, and the searches through them.
--   Spec          .../pyfixmsg/reference.py: the composition of a message type or group, its groups and
--                 its sorting key.
--   Codec         .../pyfixmsg/codecs/stringfix.py: parse and serialise. The regular expression is a
--                 scanner by clauses; each open call of _process_group is a Frame on a stack, so the
--                 loop is structural on the fields and needs no fuel. Scan, Fields, Closing, Inner,
--                 Groups, Order, Messages and RoundTrip prove the round trip; Edges what is not read
--                 back.
--   Checksum      .../pyfixmsg/__init__.py and fixmessage.py: BodyLength, CheckSum and to_wire. Weights and
--                 BodyLength: independence of the order; Fields, Sealing and Wire: from to_wire
--                 through the framer to parse.
--   Query         .../pyfixmsg/fixmessage.py: set_or_delete, apply, and the tests of a tag's value.
--   IdGen         .../idgen/id_generator.py: the numeric, month and year-month-day generators;
--                 Ose: the generator with a fixed prefix; Nyse: the NYSE and CHIX generators up to the
--                 starting branch code.
--   Crypt         .../fixengine/simple_crypt.py. The blocks of the cipher are on fuel, the number of
--                 bytes; hashlib, base64, UTF-8 and os.urandom are parameters.
--   ConfigManager .../fixengine/configmanager.py over a configparser that is a parameter.
--   Decimal, Prelude  Decimal numerals and the helpers that the parts share.
--
-- Conventions and bounds
--
-- A text is the list of its code points, ASCII only; numbers are the native ℕ, and the limit of
-- Python's int() on very long texts is not modelled. Each coroutine runs as one step, as the lock of
-- process_single_fix_message makes it for received messages; a task that only stops the heartbeat is
-- taken as run at once. The codec, the formats of a time and the application are fields of Env: the
-- codec is a function that may raise, and what a theorem relies on is a hypothesis (Serialises,
-- KeepsTags: only BodyLength and CheckSum change). The writes whose drain fails are a list in the
-- engine. The clock counts tenths of a second, and the thresholds of the heartbeat are exact. A row
-- whose MsgSeqNum is no number is not stored. Log lines are left out, but for the serialisation that they call.
--
-- Sequence numbers stay below 2 ^ 63, where SQLite refuses them (the store logs that and goes on); other
-- failures of its statements, as of a full disk, are not modelled. A subscriber of the state machine
-- may move it, but not subscribe another; the engine's own does neither. The reads of a connection are
-- an endless stream, and its loop is on fuel for the turns. disconnect is modelled as another task than
-- the heartbeat's runs it: that one cannot await its own end, raises there, and leaves the scheduler
-- running and the store open, the state and the network being the same.
--
-- The keys of a message with groups are numbers or texts; a sorting key that is missing counts as
-- infinite, as float('inf') does, and keys in tenths stand for the fractions of the checksum's table.
--
-- Not modelled: sockets, TLS, the scheduler, configuration files,
-- encodings other than ASCII, the XML of specifications, the NYSE and CHIX generators behind the
-- starting branch code (their constructor raises before it), and the tools and examples.
pub mod Prelude
pub mod StateMachine
pub mod Store
pub mod AsyncStore
pub mod Fragment
pub mod Spec
pub mod Codec
pub mod Checksum
pub mod Framer
pub mod Decimal
pub mod Message
pub mod Engine
pub mod IdGen
pub mod Crypt
pub mod ConfigManager
pub mod Query
