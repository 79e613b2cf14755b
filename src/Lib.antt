-- ===== src/Lib.antt =====
-- A verification library for the companion's backend: its inner state, the rules that move it, the
-- store that keeps it, the brakes on its spending, and parts of its voice pipeline.
--
-- The program. A message of the user goes to the behavior engine (backend/app/behavior/engine.py),
-- which reads the kernel (the mood and relationship rows of backend/app/memory/_store_state.py),
-- moves the mood (mood.py), projects a tone (tone.py), writes both back and decides whether a model
-- is called. The budget gate (backend/app/memory/usage_guard.py) may still block the call by what
-- the message log (_store_messages.py) counts; chat_persistence.py writes the finished turn to that
-- log. Afterwards the turn analyzer's appraisal moves the kernel again (behavior/kernel.py), and
-- the reflection runs under a lock (_store_meta.py). Old parts of the chat are recapped
-- (summary_policy.py). The voice pipeline (backend/realtime) speaks a binary protocol with its
-- dialog service and lets the user interrupt the companion. The soul runtime (backend/app/soul)
-- composes these parts into a turn: decide, ask a model unless the brake is on, parse the reply and
-- its signals (behavior/parser.py), store the turn, write memories (memory/write_policy.py), refresh
-- the recap, count the turn and log it. What a model is told is built by memory/context_builder.py
-- from the kernel, the recap, and the memories that retrieval.py ranks.
--
-- The files, with paths below backend/:
--   Records               app/memory/database.py: the rows, and the JSON of their metadata columns
--   Store/State           app/memory/_store_state.py and schema.py; a method is a function from the
--                         kernel tables to its result and the tables it leaves
--   Store/Meta            app/memory/_store_meta.py; a call is one step, but in Store/Meta/Overlap a claim
--                         is its SELECTs and then its INSERTs, with another call in between
--   Store/Messages        app/memory/_store_messages.py; the table is a list, newest row first
--   Store/Budget, Store/UsageGuard
--                         app/memory/budget.py and usage_guard.py
--   Store/ChatPersistence app/memory/chat_persistence.py
--   Store/Tokens, Store/Retrieval
--                         app/memory/retrieval.py: the tokenizer; expiry, scores and ranking
--   Store/Memories        app/memory/_store_memories.py: the memories and their links
--   Store/Candidates, Store/WritePolicy
--                         app/memory/write_policy.py: what a text asks for; what is written
--   Store/Context         app/memory/context_builder.py: the selection of memories, the blocks of the
--                         system message (Blocks), the packed messages (Prompt)
--   Store/Cost            app/providers/cost.py and app/behavior/completion.py
--   Store/Holidays        app/memory/holidays.py
--   Store/Events          the log of soul events of app/memory/_store_loops.py
--   Store/Loops           app/memory/_store_loops.py, with a timestamp helper of _store_helpers.py
--   Store/Summary         app/memory/summary_policy.py and the summaries of _store_records.py
--   Behavior/Mood, Behavior/Tone, Behavior/Types, Behavior/Rules, Behavior/Engine
--                         app/behavior/mood.py, tone.py, types.py, rules.py with local_responses.py,
--                         engine.py
--   Behavior/Signals      app/behavior/kernel.py
--   Behavior/Parser       app/behavior/parser.py: the parser of replies, and the filter of a stream
--   Soul/Ports            app/soul/ports.py: an interface of operations over any state; an operation
--                         returns nothing where it raises, with the state that it left
--   Soul/Runtime          app/soul/runtime.py over any ports
--   Soul/Sqlite           app/soul/adapters.py: the ports over the product of the tables above
--   Files/Gateway         app/files/gateway.py with types.py, and the file access log of
--                         app/memory/_store_records.py
--   Speech/Tags           app/tts/expression_tagger.py: the tags of a text, their guards, and the
--                         tagger of a sentence
--   Speech/Sentences      the sentences of a reply and the guard between them, and the tagging of a
--                         reply by sentences in app/soul/runtime.py
--   Realtime/Codec, Realtime/Dialog
--                         realtime/doubao_realtime_protocol.py
--   Realtime/Asr          realtime/doubao_streaming_protocol.py
--   Realtime/BargeIn      realtime/barge_in_processor.py
--   Base                  shared types and lemmas; Examples holds the runs on concrete states
--
-- Parameters. Floats are the interface Base/Float: the operations with the laws of IEEE 754
-- doubles that the code relies on, none of which excludes NaN; Base/Micro is an instance that
-- counts millionths. Regular expressions, `str.lower`, jieba, the clock and `float()` are
-- arguments (Store/Tokens, Behavior/Rules, Behavior/Signals, Store/Loops); gzip, JSON and UTF-8
-- are the record Realtime/Codec with their round trips as laws. Timestamps come in as arguments.
-- The searches of write_policy.py's patterns are the record Store/Candidates.Patterns; what the
-- persona file, the calendar and the number formats give to a prompt is
-- Store/Context/Prompt.Surroundings. The provider, the translator and the tagging of a whole reply
-- are the record Soul/Ports.Router. The file system, with `os.path`, is the record
-- Files/Gateway.FileSystem.
--
-- Bounds. Every loop is structural recursion, so there is no fuel. Limits, counters and sizes are
-- natural numbers: a negative limit acts as 0 in the code, and a counter that the program wrote is
-- never negative. The fields of a frame are bytes, with the range that `struct.pack` accepts.
--
-- Not modelled: SQLite itself and its migrations (a statement is a function on lists of rows, and
-- outside Store/Meta/Overlap a call is atomic, and a turn of Soul/Runtime has one reading of the
-- clock), the voice turns that reflection/turn_analyzer.py commits without the gate, HTTP routes,
-- the clients of model, speech and RTC services, prompts of the auxiliary models, the proactive
-- check of the engine, the one-call tagging of a whole reply, the agenda port (the runtime does
-- not use it), the listing of all links, and the frontend. A label of a reply that is JSON but not
-- a text is left out (Behavior/Parser).
pub mod Base
pub mod Records
pub mod Store
pub mod Behavior
pub mod Soul
pub mod Files
pub mod Speech
pub mod Realtime
pub mod Examples
