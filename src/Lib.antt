-- ===== src/Lib.antt =====
-- mod_audio_fork sends the audio of a call to a WebSocket server and plays back what the server
-- sends. The media thread hands frames over a ring to a shard; there a fork keeps them in a send
-- buffer until its connection takes them, and plays audio out of a jitter buffer. All buffers lease
-- slabs from one pool under a cap for the process. A state machine that any thread may drive decides
-- when a fork connects, retries, drains and dies.
--
-- Common (helpers): natural numbers with the tests of the code, lists, arithmetic modulo 2 ^ 64.
-- SessionState (core/include/audiofork/session_state.hpp): `session_transition_for` is
--   `SessionTransitionFor`; a call of `OnEvent` is cut at its accesses to the atomic state
--   (`enter_loop`, `attempt`), and `Threads` interleaves any number of calls. A compare-exchange may
--   fail spuriously. The accesses are taken in one order for all threads.
-- SlabPool (core/src/slab_pool.cpp): `acquire`, `release`, `can_lease`. The code runs under a mutex,
--   so calls are a sequence; the allocation that `Acquire` makes outside of the lock is part of its
--   step, and fails or not by an argument.
-- SlabQueue (core/src/slab_queue.cpp): a list of chunks, each with the storage that it leases.
-- SendBuffer (core/src/send_buffer.cpp) and JitterBuffer (core/src/jitter_buffer.cpp): records that
--   hold a queue, as in the code.
-- SpscRing (core/include/audiofork/spsc_ring.hpp): `push` and `pop` with their masked indices, and in
--   `Threads` one producer and one consumer that each hold an index of the other loaded before.
-- Protocol (core/src/protocol.cpp): the encoders and `parse_server_message`, over a `JsonLibrary` that
--   stands for the JSON library's operations.
-- ForkSession (core/src/fork_session.cpp): the record is the class; `Ports` has what a session asks of
--   the network, the events and the clock, as effects, and an `Environment` that answers by all that
--   was asked before; `Media` has the calls of other threads, `Outbound` the audio's way out, `Texts`
--   that of texts, `Inbound` the playback, `Lifecycle` `Apply` with the callbacks and the tasks, and
--   `Lifecycle.Runs` the whole life of a session. A port calls no handler before the session's call of
--   it returns, and the functions of the shard's thread run one after another.
-- Config (core/src/config.cpp): `sanitize_config`; `Url` has `parse_ws_url` with the searches in a text
--   as functions, `Url.Accepts` and `Url.Sound` the URLs that it takes. Durations are integers, which do
--   not wrap.
-- WsClient (net/src/ws_client.cpp): a connection is the record of its class, with a trace of what its
--   handler was told and what libwebsockets was asked; `handle_lws` is `HandleLws`, where the handler's
--   calls within a callback are a function of the trace. `Closing.Reach` are the histories of callbacks
--   and calls; there is no callback on a connection that the loop has erased, and the owner makes no
--   call then. `Loop` has the tasks and the timers, where a task is what it asks of the loop.
-- ShardPool (net/src/shard_pool.cpp): the loads, the placement and the ticks of a shard over sessions of
--   any kind; `Adapter` joins a session's calls to a `WsClient` connection; `Contexts` is the order in
--   which a pool makes and ends contexts and threads.
-- Module (module/mod_audio_fork.cpp): `Settings` is `LoadConfig` and `MakeTuning`, from the parameters of
--   the XML file; `Registry` the forks of each call; `Start` is `StartFork`, with FreeSWITCH's answers as
--   `Answers`, over `ForkSession.create` and the pool; `Commands` the subcommands of
--   `uuid_audio_fork_api`, the hook for DTMF and the end of a fork; `Status` the sums of
--   `audio_fork_status_api`; `Bug` the media bug over a `ForkSession`, with the resamplers as functions;
--   `Lifetime` load and shutdown; `Events` the names and headers of events.
--   Commands run one after another. A fork is a number, its answers are an argument. Where the
--   code reads a number that no `int` holds, or multiplies beyond an `int`, the configuration is
--   undefined, `none`.
--
-- Loops that the code runs until nothing remains take fuel: a round of `SlabQueue.append_loop` stores a
-- byte, one of `SlabQueue.consume_loop` pops a chunk or is the last, and one of `SendBuffer.store_loop`
-- loses a byte of the queue or of what remains, so fuel for each of these is enough; each operation
-- gives its loop that much. `SpscRing.grow` doubles at most 31 times;
-- `drain_loop` takes a byte of the ring each round, and `flush_loop` sends one or returns;
-- `apply` bounds the calls of `Apply` within `Apply` by four, the longest way through the table.
--
-- Sizes are natural numbers: bytes in memory are fewer than 2 ^ 64. Where a counter could wrap
-- (`allocated_bytes`, `leased_slabs`, the offsets of the jitter buffer), the wrap is written out.
-- A slab that cannot be allocated makes `Acquire` throw; `SlabPool` models this, and the queues, in
-- which the code does not catch it, call `acquire` with memory to be had.
--
-- Not modelled: the JSON text of the counters and the registration of the commands, which are calls of the
-- JSON library and of FreeSWITCH; the creation of libwebsockets' context with its TLS options; the
-- backoff of core/, whose delays, computed in doubles, are an answer of the environment.
pub mod Common
pub mod SessionState
pub mod SlabPool
pub mod SlabQueue
pub mod SendBuffer
pub mod JitterBuffer
pub mod SpscRing
pub mod Protocol
pub mod ForkSession
pub mod Config
pub mod WsClient
pub mod ShardPool
pub mod Module
