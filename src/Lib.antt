-- ===== src/Lib.antt =====
-- SDSyslog: the protocol of the log messages, and the protocol by which receiver processes hand
-- fragments to one another.
--
-- A sender cuts a message into fragments (pkg/protocol/fragmentation.go), and serialises each as an
-- inner payload (inner.go) whose custom fields are typed values (context.go), in an encrypted
-- packet (outer.go). A receiver reads the payloads back and joins the fragments. Where a message's
-- fragments reach different receiver processes, one of them hands its fragment on over a session of
-- pkg/fipr: frames with a sequence number and a keyed hash, an acknowledgement for each, and
-- requests to send a frame again.
--
-- Common: names, lists, results, Boolean tests and big-endian words that the parts share.
-- Protocol: the constants and types of pkg/protocol. Protocol.Wire has the reads from a byte
--   reader and readTerminator; Protocol.Inner has ConstructInnerPayload and
--   DeconstructInnerPayload, section by section; Protocol.Values has serializeAnyValue and
--   deserializeAnyValue; Protocol.Fragments has Fragment, Defragment and EqualTo; Protocol.Outer
--   has ConstructOuterPayload and DeconstructOuterPayload; Protocol.Signatures has
--   SerializeSignature; Protocol.Overhead has CalculateProtocolOverhead; Protocol.Payloads has
--   ConstructPayload and DeconstructPayload; Protocol.Messages has Create and Extract of
--   wrapper.go.
-- Fipr: the types of pkg/fipr and its connection. Fipr.Frames has encodeFrame, decodeFrame and
--   validateFrame; Fipr.Framing has readFrame, writeFrame and tryParseFrame; Fipr.Handlers has
--   send, await, awaitAck and resend; Fipr.Public has the calls of the two ends.
-- Filtering: internal/filtering, with the filters' tests of package bytes in Filtering.Texts, and
--   pkg/protocol/filtering.go in Filtering.Messages.
-- Shards: internal/receiver/shard/queue.go and runtime.go, with atomics.Subtract and the calls
--   that internal/receiver/assembler/worker.go makes: the operations in Shards, their interleavings
--   in Shards.Steps. Protocol.Sizes has Payload.Size.
-- Routing: internal/receiver/shard/routing.go. The answers of the routing view are given for each
--   of the three rounds, since others change the shards meanwhile; Routing.Instances has those that
--   a snapshot of internal/receiver/assembler/routing.go gives.
-- Queues: the lock-free ring of internal/queue/mpmc/entry.go: the atomic actions of Push and Pop
--   in Queues, threads that interleave them in Queues.Steps, and the bounded queue that they make
--   in Queues.Fifo.
-- Replays: internal/receiver/listener/replayprotection.go, with runs of its operations in any
--   order.
--
-- A Go function that returns a value and an error is a function into Result. A method of a session
-- takes the session and returns the changed one beside its result, also where it fails. The errors
-- are the sentinels that errors.Is finds, and whether one is bare or wrapped where the source
-- compares by ==. A run-time panic is an error of its own.
--
-- Bytes are natural numbers, of which be_bytes writes the remainder modulo 256. The integers of the
-- wire keep their widths: a length is written modulo the width of its field, and the sequence
-- number of a session is counted modulo 2 ^ 16. Sizes and sequence numbers of type int are natural
-- numbers.
--
-- The loop over the context section runs on the length of the section as fuel, and each round takes
-- five bytes; the loop of Fragment runs on the length of the message, and each round takes a byte.
-- The rounds of await and awaitAck are the three of maxConsecutiveResends.
--
-- Parameters stand for code of others: crypto/rand (the padding and rand.Int), fmt.Sprint, FNV-1a,
-- SHA-256, and HMAC-SHA256, of which the proofs use that it returns 32 bytes. The encryption is a
-- record of two functions, of which they use the sizes and that a decryption undoes it. A
-- connection is the list of what its reads and writes do.
--
-- Not modelled: the encryption and the signatures themselves, the goroutines of sender and receiver
-- with their scaling and metrics, the two ends that hand a fragment over on a session of pkg/fipr
-- (internal/receiver/shard/fiprsend and fiprrecv), the change of a ring's capacity, the deadlines
-- of a connection, the locks of a session, and the command line.
pub mod Common
pub mod Protocol
pub mod Fipr
pub mod Filtering
pub mod Replays
pub mod Shards
pub mod Queues
pub mod Routing
