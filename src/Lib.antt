-- ===== src/Lib.antt =====
-- Runloop runs agents: an agent is a WebAssembly module under a set of capabilities, agents exchange
-- framed messages over a bus, and an opening is a graph of such agents. This library models the parts
-- of the Rust workspace that the rest stands on, file by file:
--
--   Core/Content, Core/Types   crates/core/src/content.rs and content_types.rs: the schema ids and the
--                              registry of type strings (descriptor_for_schema, type_name_for, ...).
--   Rmp/Error, Rmp/Header,     crates/rmp/src/lib.rs and header.rs: the 64-byte header (encode_into,
--   Rmp/Frame                  decode_from, expires_at_ms, is_expired) and the length-prefixed frame
--                              (encode_frame, decode_frame).
--   Rmp/Meta, Rmp/Envelope     crates/rmp/src/envelope.rs and registry.rs: the metadata as the derived
--                              code writes and reads it, encode_payload and decode_payload.
--   Bus/Message, Bus/Metrics,  crates/bus/src/lib.rs: messages and errors, the counters, DedupeCache and
--   Bus/Dedupe, Bus/Server,    its reservations, the state of Server with subscribe, remove_subscriber,
--   Bus/Publish                shutdown, snapshot_stats and push_message, and publish with deliver and
--                              emit_drop.
--   Router/Builtins, Router/   crates/router: the known commands, the comparison up to case, the tokens of
--   Casefold, Router/Tokens,   a prompt (TokenIter, trim_token) and Router::classify.
--   Router/Classifier
--   Runtime/Caps, Runtime/     crates/runtime/src/caps.rs and error.rs: capability sets, network and
--   Error                      filesystem entries, Caps with its checks and intersect_with, from_policy,
--                              and the kinds of capability that a denial names.
--   Runtime/Hosts, Runtime/    crates/runtime/src/hostcalls.rs: the checks before a host call
--   Hostcalls, Runtime/Audit,  (ensure_time, ..., ensure_exec) with what they count, flag and audit, and
--   Runtime/Mailbox            the mailbox of an agent; crates/runtime/src/audit.rs: the ring buffer of
--                              audit events; AuditPolicy of runtime.rs and CapAuditRecord of
--                              crates/kb/src/lib.rs.
--   Runtime/Ready              crates/runtime/src/ready.rs: the readiness barrier, access by access.
--   Openings/Types, Openings/  crates/openings/src/parser.rs: the types of an opening (AgentRef is in
--   Locate, Openings/Graph,    crates/core/src/agents.rs), the locations of errors, validate_graph, and
--   Openings/Parser            the parser: port references, predicates and literals (Terms), parameter
--                              templates (Templates), schema hints (Hints), fields, policy and retry
--                              (Fields), the nodes (Nodes), the edges and parse_opening_str (Document).
--   Openings/Predicates,       crates/openings/src/runner.rs: the comparisons of predicates, and
--   Openings/Runner            Runner::run in three parts: the attempts at one node (Attempts), the queue
--                              of nodes (Schedule), the final states, the trace and its hash (Finish).
--   Openings/Replay            crates/openings/src/replay.rs: replay.
--
-- The bus carries messages whose headers are those of Rmp/Header, asks the header for expiry and dedupe
-- key, and encodes its drop notices by Rmp/Envelope, which resolves schema ids by Core/Types. The
-- checks before a host call read the capabilities, and take the kind of a denial from Runtime/Error.
--
-- An opening is parsed to a list of nodes and a list of edges, which the parser has checked to be a graph
-- without cycles; the runner walks that graph and leaves a trace, and the replay compares a trace with a
-- second execution. The parts of the parser that search, cut and trim texts share Runtime/Text.
--
-- State and errors. A function that may fail returns Result. An operation of Server goes from a state to
-- its result and the next state (M in Bus/Server). A subscriber's cache is shared by the copies of the
-- subscriber, so the caches stand in the state under the subscriber's id, and a reservation names its
-- cache by that id. Dropping a reservation is the call of rollback. The id counter, a static of the
-- process in the source, is a field of the state, wraps at 2^64, and is moved by subscriptions on other
-- servers too. A call on the server runs with no other task at work on that server while it waits for
-- a channel: the interleavings of two publishes are not modelled.
--
-- Numbers. The fields of a header are natural numbers, and IsHeader gives the widths of the source's
-- types. Where the source casts (`as u32`) or counts with wrapping, the remainder is written out; the
-- expiry time is a sum in 128 bits, as in the source. A text of the runtime is the list of its code
-- points; a text that is only compared is a String. Paths are compared by their components on Unix, so a
-- path is the list of them (Runtime/FsPath).
--
-- Loops are structural, but for four that run on fuel. `prune` pops entries of the cache while they
-- are stale: one round for each entry, and each round takes one entry away. The queue of
-- validate_graph and that of `run` have one round for each node, as no node is queued twice. The
-- loop over the attempts at a node has max_attempts rounds, as the last of them does not ask for
-- another.
--
-- The calls on the readiness barrier come from several threads, and its flags are atomics with
-- sequentially consistent order, so a state is the variables with the calls that are under way, a step
-- is one access of one call, and a schedule names the call of each step. Taking the sender under its
-- lock and sending is one access. The waiter, which blocks on the channel until a deadline, is not
-- modelled.
--
-- The mutable variables of `run` are the record Run, and a panic of `expect` is `none`, as is the
-- end of the fuel. The argument map of a node, `with` in the source, is the field `args`. The list
-- of operators in parse_port_predicate is walked in its order. A vector that is indexed is a
-- function of the index.
--
-- Parameters, for code that is not in the repository. Rmp/Buf is the `bytes` crate: a put is read
-- back by the matching get and the other way round, at the widths in use. Rmp/Envelope takes the
-- MsgPack of `rmp_serde` with the law that what was serialized, a type string, a payload and the
-- entries of the metadata, deserializes to itself. What the derived code of EnvelopeMeta makes of
-- its fields, the skipped ones and the flattened map included, is modelled in Rmp/Meta, over
-- encodings of single values that are read back. Bus/Lru is the `lru` crate's cache, told on its
-- entries from the least recently used on. Bus/Env is tokio's channels and timer, and the clock,
-- where a send that succeeds queues its message once. Runtime/Toml is a view of the `toml` crate's
-- values, Resolver in Runtime/Caps/Net is address parsing and name resolution, Outside in
-- Runtime/Hosts is the clock, the hash of blake3 and the parser of the `url` crate, and Receiver in
-- Runtime/Mailbox is tokio's receiver. Numbers in Openings/Json is serde_json's numbers with the
-- floats and their parser; JSON itself is a data type with the variants of serde_json's Value.
-- Openings/Yaml is the values of serde_yaml, with the conversion to JSON and the text of an error.
-- Openings/Runner/Env is the executor under tokio's timeout, the clock, fresh ids, the wait before a
-- retry, and the channel for events; a line of the log or the trace is the event's data, not its
-- text. In Router/Classifier the regular expression SIMPLE_COMMAND is a test on texts. Hashing in
-- Openings/Runner/Env is blake3, fed with texts, and the JSON text of a value. Rmp/Buf/BigEndian,
-- Rmp/Meta/Plain, Bus/Lru and the Tests modules have concrete instances.
--
-- A hash map is an association list with one entry for a key, and a set the list of its elements.
-- The order in which a hash map or a concurrent map is walked matters only to the two maxima of
-- snapshot_stats and to TYPE_TO_DESC, where it makes no difference, and to the order of the events
-- and records at the end of a run, which are in the order of the nodes here.
--
-- Not modelled: the writing of an audit record to the ledger of the knowledge base, whose failure is
-- only logged (the list in memory is modelled), the host functions behind the checks and the life
-- cycle of an agent, the process-wide registry of bound paths and the IPC back end of the bus,
-- logging, the length of the wait before a retry (compute_backoff_ms, which computes in 32-bit
-- floats), the texts of a replay's mismatches, which are a data type, and the other crates
-- (registries, knowledge base, daemon, broker, command line, SDK).
pub mod Prelude
pub mod Core
pub mod Rmp
pub mod Bus
pub mod Router
pub mod Runtime
pub mod Openings
