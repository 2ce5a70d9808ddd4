-- ===== src/Lib.antt =====
-- The verification library of exoclaw-plugins: models of the parts of the repository that carry its
-- own state and decisions, with what is proved of them. Paths are from the repository's root.
--
-- LoopDetection (packages/exoclaw-loop-detection/exoclaw_loop_detection/policy.py, config.py): the policy that
-- stops an agent loop. `Policy` is LoopDetectionPolicy; record, reset, should_continue and
-- on_limit_reached keep their names (`record_call` for record). Window is about the bounded history,
-- Streak and PingPong about the two detectors, Verdict about the whole decision.
--
-- BatchStore (packages/exoclaw-subagent/exoclaw_subagent/batch_store.py): the store of the batches of subagent
-- tasks. `Store` is InMemoryBatchStore. Each locked section is one step: register,
-- begin_completion and mark_announced, the latter two being the parts of
-- record_completion_and_maybe_announce before and after the awaited announcement. View states what
-- the operations mean for one batch, Rosters is about lists of task ids, Invariant is what the
-- operations keep, Announce what a sequence of calls announces, Schedule what any interleaving of steps
-- allows.
--
-- TurnBudget (packages/exoclaw-turn-budget/exoclaw_turn_budget/): Config is config.py and enforcement.py; Usage,
-- Thresholds, Turn and Daily are the two trackers of tracker.py; Policy is policy.py; Wrapper is
-- BudgetWrapper of wrapper.py. Both trackers fill the interface `Tracker`, over which the wrapper is
-- written. The inner provider is a parameter, which answers a request or raises. Floats are the
-- parameter `W` with the interface `Floats`: comparison, division of counts, scaling and percent, with
-- `IsOrdered` where an order is needed. A usage counts natural numbers. Stored state is what
-- _persist wrote, since a corrupt one only has a fresh tracker as its result.
--
-- Cron (packages/exoclaw-tools-cron/exoclaw_tools_cron/types.py, service.py): Schedule is the computation of next
-- runs, Service the state with its file and timer, Run the timer and the deferred jobs, Api the
-- public operations. Jobs are objects that several lists share, so the state has a heap of them and
-- lists of references. Parameters are the clock (`clock n` is its n-th answer), croniter with
-- zoneinfo (`next_cron`, `known_tz`) and the callback `on_job`, which may do anything to the service
-- and may return, raise, or be cancelled. The file holds the document that Codec makes of the jobs,
-- as a value of JSON, and no two writes of it have the same modification time. In a document that
-- another program wrote, a value of another kind than _save_store writes makes it one that does not load.
--
-- Conversation (packages/exoclaw-conversation/exoclaw_conversation/): Repair is _repair_and_project and
-- _normalize_history of session/manager.py; Session is Session, SessionManager and its reader there, with
-- `Prepare` for _prepare_turn of conversation.py; Policy is summarizing_policy.py with the sidecars of
-- _consolidation_state.py; Turns is append, record, clear and recover_from_overflow of DefaultConversation. A
-- message is a record of the keys that the code reads. `Store` has the files by path and the weak cache,
-- from which any session may go between two calls; `World` adds the sidecars. A pass of the policy is
-- two steps, before and after the awaited summarizer, which is a parameter and may fail. Times come
-- from a parameter `clock`, which gives each message its time by its place in the log: two runs over
-- one clock stamp a message alike, as two runs of the code do not.
--
-- Voice (packages/exoclaw-tools-voice/exoclaw_tools_voice/): Base64 is B64StreamEncoder of b64.py, whose state is
-- its carry, and Body is _AudioBodyIter of streaming.py; Bits has the shifts and masks as arithmetic.
-- json.dumps is a parameter, and the recorder is the list of its chunks.
--
-- Reduce (packages/exoclaw-tools-batch/exoclaw_tools_batch/reduce.py): ReduceTool. Dedup and Chunks are about
-- _dedup and the slices of the items, Rounds about the loop of _tree_reduce, Run is _run with its
-- checks. What a path holds (`read`), the listing of a directory and the tool of a reduction are
-- parameters; an outcome is what _run returns together with what it writes. Values of JSON have natural
-- numbers only, here and in Cron.
--
-- Screen (packages/exoclaw-screen/exoclaw_screen/parser.py, ast.py): Ial is parse_ial and the tests of lines for
-- attributes, Span is _parse_inline, Lines what is asked of a line, Parse is _parse_blocks and parse. A
-- position in a text or the cursor is what follows there, and one round of each loop is a function
-- (`move`, `step`) into the things that a round can do. Span.Total and Progress are about what a round leaves
-- to read, Stuck about the lines at which the loop stands still.
--
-- The parts meet in the agent loop, which is outside this repository: a loop policy is asked before
-- each iteration, the wrapper stands before the provider, the conversation keeps the messages and makes
-- the model's view of them, subagents complete in the batch store, and the cron service's callback
-- starts a turn.
--
-- Loops run over a list or a number where they can. Fuel is spent by `collect` of Voice.Body.Run, which
-- iterates the body as a caller does, where as many calls as there are chunks and five more are enough;
-- by `parse_inline`, where the length of the text and one more is enough; by `parse_blocks`, whose loop
-- need not end in the code either; and `reduce_rounds` has the 20 rounds of the code. Numbers are
-- unbounded, as Python's are. Not modelled are channels, providers, most tools, firmware and applications,
-- which adapt other services, and so far the prompt builder, the durable executor, the layout of
-- screens and the subagent manager. Log lines and the text of JSON documents are left out.
--
-- Prelude has what the parts share: Boolean tests with their lemmas, lists measured by native numbers,
-- texts, sets and dictionaries. Tests has small runs of the definitions and the theorems at
-- concrete inputs.
pub mod Prelude
pub mod LoopDetection
pub mod BatchStore
pub mod TurnBudget
pub mod Cron
pub mod Conversation
pub mod Reduce
pub mod Screen
pub mod Voice
mod Tests
