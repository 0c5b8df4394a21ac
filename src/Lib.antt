-- ===== src/Lib.antt =====
-- A verification library of the agent bridge: of its task bus, which accepts tasks for agents, orders
-- them, runs each one against a transport and records what happens to it; of the Matrix adapter, which
-- turns messages into tasks; of the ACP adapter's frames, messages and durable output; and of the A2A
-- transport's policy on addresses.
--
-- The parts and how they interact. A task names a target endpoint. The registry, built once from the
-- configuration, knows the endpoints. The worker takes tasks from a bounded channel into a priority
-- queue, takes the most urgent one, and processes it: it checks cancellation, deadline and limits,
-- validates the target, finds the dispatcher of its transport, claims a queue lease, and then makes
-- attempts. An attempt records `Dispatched`, delivers, records `Running`, executes, and ends the task
-- or starts the next attempt. Other threads may write the cancellation table at any time; the worker
-- reads it at its checkpoints and while it waits. Every event goes through the task lifecycle (storage)
-- and then to the event sink. Before that, a Matrix message is decoded, checked against the table of
-- seen events, the routes, the registry and the permissions, and submitted to the bus. The ACP adapter,
-- one of the transports, reads JSON frames from a process and publishes its output in segment files.
--
-- Files and sources, by paths from the repository's root:
--   Prelude: names of the standard library, tests on numbers, lists, maps, results and texts.
--   Models/Task, Event, Agent, Conversation: src/models/task.rs, ids.rs, event.rs, agent.rs and
--     conversation.rs. Identifiers and instants are numbers, texts are lists of UTF-8 bytes.
--   Bus/Error: src/bus/error.rs.
--   Bus/Control: src/bus/control.rs. `CancellationState` has the fields of the source; each method that
--     locks it is a function to the new state; `Calls` has sequences of these methods, which is what
--     any interleaving of threads amounts to, since each holds the lock. Reason, Oldest, Bounds, Apart
--     and Standing hold the lemmas on truncation, displacement, ceilings, disjointness of the tables,
--     and the state machine of one task.
--   Bus/Registry: src/bus/registry.rs, with the endpoint declaration of src/config.rs.
--   Bus/Queue: `PriorityQueue` and `admit_ready` of src/bus/worker.rs.
--   Bus/Policy: `LoopLimits`, `RetryPolicy`, `Backoff` and `deadline_after` of src/bus/worker.rs.
--   Bus/Worker: `Worker::process` of src/bus/worker.rs. World has the traits the worker calls and the
--     state of a run; Events has `emit`, `terminate` and `finalize_capability`; Stages, Execution and
--     Process have the body of `process` from the first `Dispatched` event to the loop. Stages/Monad is
--     the control flow: a stage goes on, returns from `process`, or continues with the next attempt.
--     Trace says which events may follow each other; the Rules files, Grammar and Lifecycle have its lemmas.
--   Bus/Worker/Run, Drain, Backlog: `Worker::run` of src/bus/worker.rs and the lemmas on its end and on
--     its queue.
--   Bus/Memory: `MemoryBus::submit` of src/bus/memory.rs.
--   Bus/Fanout: `EventBroadcaster` of src/bus/fanout.rs, with fuel for the events of its channel.
--   Boundaries: character boundaries of UTF-8 texts and the cut at one, which src/bus/control.rs and
--     src/acp share; Utf8 is the check of `str::from_utf8`, and Chars has the structure of a text as a
--     list of characters.
--   Acp/Framing: src/acp/framing.rs and the loop of src/acp/transport.rs that reads frames. Scan is a
--     reference reader of all bytes at once; Lines, Answers and Reading compare the code
--     with it. What the transport does with a value that it has read is a function that may fail.
--   Acp/JsonRpc: src/acp/jsonrpc.rs, over a record of what it does with serde_json's values.
--   Acp/Output: src/acp/output_policy.rs, `utf8_ranges` of src/acp/output_files.rs and, in Publisher, the
--     `StreamingPublisher` of src/acp/output_stream.rs; Written has its invariant. Its spool,
--     store and hash are the record Outside, and paths the record Filesystem; the
--     model keeps the text given to the hash and the contents of the files published.
--   Matrix/Dedup, Permission, Router: src/matrix/dedup.rs, permission.rs, router.rs and identity.rs, with
--     `AdmissionContext` of src/bus/mod.rs. Words has the operations on `str` that the router uses. The
--     bus and the durable admission of the router are records of functions on the outside, and the SDK's
--     parser of user IDs is a parameter; Durable has the admission's contract as a hypothesis, in which
--     every operation may fail.
--   Matrix/Event, Conversation: src/matrix/event.rs and conversation.rs, with src/models/conversation.rs.
--     The accessors of serde_json's values are a record, and so is the repository, whose promise to keep
--     the rows it has is a hypothesis; it may fail at any time.
--   A2a/Policy: src/a2a/policy.rs, with the standard library's tests on addresses written out, and the
--     errors of src/a2a/error.rs.
--   Matrix/Reply: src/matrix/reply.rs and, in Consumer, `TerminalReplyConsumer` of src/app/ingress.rs;
--     Once joins it with the traces of Bus/Worker/Trace.
--
-- Conventions. The outside of the worker is a state and functions on it, all of them parameters:
-- dispatchers, lifecycle, sink, clock, identifiers, the first future of a `select!`, and the calls that
-- other threads make on the cancellation table before each lock. An await is a call; one that never
-- completes is not modelled. A cancelled future's partial effect is part of
-- the answer to which future is first. Other parameters are UUIDv5, the display of UUIDs and
-- transports, the task channel, and chrono's conversions. Sequence numbers, attempts, versions and
-- arrival numbers wrap at their width; `usize` has 64 bits. A hash map is an association list, a binary
-- heap a list. The other parts keep the same style: the state is passed on, and what a trait, a store or
-- a library answers is a function on the outside, with its documented promise as a hypothesis.
--
-- Fuel. The attempts of `process` take fuel, one unit an attempt. `RetryPolicy` allows at most
-- `max(max_attempts, 1)` attempts, so that much is enough, for each `max_attempts` of 32 bits,
-- and it is what `run` gives. The rounds of `run` take fuel too, as senders may never stop; when they
-- send finitely many tasks, twice their number and one more is enough. A reader of frames takes a line
-- off its buffer in each round, so the buffer's bytes bound its rounds; the publisher's `append` takes a
-- byte or empties its buffer in each round, so a little over twice the text's bytes is enough.
--
-- Not modelled: logging, `Debug` output, serde, the in-memory channel and runtime of tokio, and every
-- other part of the repository (the rest of ACP, of Matrix and of A2A, storage, gateway, maintenance
-- tools).

pub mod Prelude
pub mod Boundaries
pub mod Models
pub mod Bus
pub mod Acp
pub mod Matrix
pub mod A2a
