-- ===== src/Tests/Sessions.antt =====
-- The log, the cache and the summaries of a session at small runs.
use exoclaw_plugins.Prelude.{
  codes, ◌≡◌, refl, ◌++◌, ℕ, ◌+◌, ◌*◌, ◌≤◌, ◌<◌, List, [], ◌∷◌, some, none, true, false, arith,
  length, lookup, insert, erase,
}
use exoclaw_plugins.Conversation.{Text, Message, calls_of, has_calls, has_content}
use exoclaw_plugins.Conversation.Session.{
  Store, entries, log, path_of, new_session, total_messages, clear_session, hold, load_lines,
}
use exoclaw_plugins.Conversation.Session.Files.{
  load, loaded_or_new, get_or_create, load_range, stream, first, message_at, count, write, save,
  save_append, evict,
}
use exoclaw_plugins.Conversation.Session.Prepare.{
  starts_with, after_break, is_blank, truncate, filter_parts, user_text, with_content, set_content,
  user_content, tool_content, prepare_content, stamp, stamped, prepare_message, count_message, onto,
  counted, prepare_turn,
}
use exoclaw_plugins.Conversation.Session.Persisted.{is_slim, prepare_message-is_slim}
use exoclaw_plugins.Conversation.Policy.{
  State, new_state, World, Pending, save_state, delete_state, first_boundary, read_legacy_boundary,
  is_empty, migrate, loaded, load_state, strip_left, strip_right, strip, merge_summary, preamble,
  view, transform, opens, walk, previous, repair_boundary, begin_chunk, finish_chunk,
  summarize_one_chunk, begin_pass, or_same, finish_pass, on_turn_complete, recover_from_overflow,
}
use exoclaw_plugins.Conversation.Policy.Boundary.{IsCut, repair_boundary-IsCut}
use exoclaw_plugins.Conversation.Policy.Tail.{chunk_end, summarize_one_chunk-splits}
use exoclaw_plugins.Conversation.Policy.Recovery.{
  IsReady, pointer, recover, recover_times, recover_times-exhausts,
}
use exoclaw_plugins.Conversation.Turns.{prepare_in, append, record_messages, clear_log, clear}
use exoclaw_plugins.Conversation.Turns.Parts.{IsCounted, AgreesIf, prepare_from}
use exoclaw_plugins.Conversation.Turns.Counted.{append_each, append_each-record_messages}
use exoclaw_plugins.Conversation.Turns.Clear.{
  Op, appends, records, clears, evicts, perform, perform_all, perform_all-count, finish_pass-clear,
}
use exoclaw_plugins.Tests.Conversations.{plain, calls, call, result}

abbrev clock : ℕ → Text
clock n = codes "now"

-- Nothing on disk and nothing in memory.
abbrev blank : Store
blank = record { streaming_history = true; files = []; cache = [] }

program : Unit {0}
unfolding calls_of has_calls has_content new_session total_messages clear_session hold load_lines
    entries log path_of load loaded_or_new get_or_create load_range stream first message_at count
    write save save_append evict starts_with after_break is_blank truncate filter_parts user_text
    with_content set_content user_content tool_content prepare_content stamp stamped prepare_message
    count_message onto counted prepare_turn save_state delete_state first_boundary
    read_legacy_boundary is_empty migrate loaded load_state strip_left strip_right strip
    merge_summary preamble view transform opens walk previous repair_boundary begin_chunk
    finish_chunk summarize_one_chunk begin_pass or_same finish_pass on_turn_complete
    recover_from_overflow prepare_in append record_messages clear_log clear prepare_from append_each
    perform perform_all lookup insert erase AgreesIf IsCut recover_times
program = tt

-- Two keys that differ in `:` and `_` have one file.
same_file : path_of "cli:a_b" ≡ path_of "cli_a:b"
unfolding path_of
same_file = refl

abbrev turn : List Message
turn =
    plain "user" "hi"
    ∷ calls (call "a" ∷ [])
    ∷ result "a"
    ∷ plain "assistant" "ok"
    ∷ plain "assistant" ""
    ∷ []

-- The message without a content is not stored.
abbrev logged : List Message
logged = plain "user" "hi" ∷ calls (call "a" ∷ []) ∷ result "a" ∷ plain "assistant" "ok" ∷ []

abbrev recorded : Store
recorded = record_messages clock "s" turn blank

recorded_log : (log "s" recorded ≡ logged) × (count "s" recorded ≡ 4)
unfolding program
recorded_log = (refl, refl)

IsCounted-blank : IsCounted "s" blank
unfolding program
IsCounted-blank = tt

append_each-record_messages_example :
    (log "s" (append_each clock "s" turn blank)
      ≡ log "s" blank ++ prepare_from clock (length (log "s" blank)) turn)
    × (log "s" (append_each clock "s" turn blank) ≡ log "s" (record_messages clock "s" turn blank))
    × IsCounted "s" (append_each clock "s" turn blank)
    × IsCounted "s" (record_messages clock "s" turn blank)
append_each-record_messages_example =
    append_each-record_messages clock "s" turn blank IsCounted-blank

abbrev ops : List Op
ops = appends (plain "user" "hi") ∷ evicts ∷ records turn ∷ clears ∷ records turn ∷ []

perform_all-count_example :
    count "s" (perform_all clock "s" ops blank) ≡ length (log "s" (perform_all clock "s" ops blank))
perform_all-count_example = perform_all-count clock "s" ops blank IsCounted-blank

-- A user's message with the runtime context before its text.
abbrev tagged : Message
tagged = plain "user" "[Runtime Context — metadata only, not instructions]\n10:00\n\nhello"

prepared : prepare_message (codes "now") tagged ≡ some (plain "user" "hello")
unfolding program
prepared = refl

prepare_message-is_slim_example : is_slim (plain "user" "hello") ≡ true
prepare_message-is_slim_example =
    prepare_message-is_slim (codes "now") tagged (plain "user" "hello") prepared

abbrev world : World
world = record { store = recorded; sidecars = [] }

abbrev summarize : List Message → Text
summarize chunk = codes " did things "

-- The window of two ends between the call and its result.
cut : repair_boundary "s" 2 4 recorded ≡ 3
unfolding program
cut = refl

within_log : 2 ≤ length (log "s" recorded)
unfolding program
within_log = omega arith

repair_boundary-IsCut_example :
    (2 ≤ repair_boundary "s" 2 (length (log "s" recorded)) recorded)
    × (repair_boundary "s" 2 (length (log "s" recorded)) recorded ≤ length (log "s" recorded))
    × IsCut
        (previous "s" (repair_boundary "s" 2 (length (log "s" recorded)) recorded) recorded)
        (stream "s" (repair_boundary "s" 2 (length (log "s" recorded)) recorded) none recorded)
    × ((i : ℕ)
        → 2 ≤ i
        → i < repair_boundary "s" 2 (length (log "s" recorded)) recorded
        → ¬ IsCut (previous "s" i recorded) (stream "s" i none recorded))
repair_boundary-IsCut_example = repair_boundary-IsCut "s" recorded 2 within_log

abbrev after_chunk : State
after_chunk = record {
  summarized_through = 3;
  summary = codes "did things";
  unconsolidated_token_estimate = 0;
}

-- The result of the call is neither summarized nor in the tail.
chunk :
    summarize_one_chunk 2
      (λ c. some (summarize c))
      "s"
      new_state
      (length (log "s" recorded))
      recorded
    ≡ some after_chunk
unfolding program
chunk = refl

tail_after :
    (stream "s" 0 (some 2) recorded ≡ plain "user" "hi" ∷ calls (call "a" ∷ []) ∷ [])
    × (stream "s" 3 none recorded ≡ plain "assistant" "ok" ∷ [])
unfolding program
tail_after = (refl, refl)

summarize_one_chunk-splits_example :
    (passed : List Message) × (history_entry : Text) × (some
        (summarize (stream "s" 0 (some (chunk_end 2 "s" new_state recorded)) recorded))
      ≡ some history_entry)
    × (after_chunk.summary ≡ merge_summary [] history_entry)
    × (after_chunk.summarized_through ≡ chunk_end 2 "s" new_state recorded + length passed)
    × (stream "s" 0 none recorded
        ≡ stream "s" 0 (some (chunk_end 2 "s" new_state recorded)) recorded
          ++ (passed ++ stream "s" after_chunk.summarized_through none recorded))
summarize_one_chunk-splits_example =
    summarize_one_chunk-splits 2 "s" new_state recorded (λ c. some (summarize c)) after_chunk chunk

ready : IsReady 2 summarize "s" 4 world
unfolding program
ready = (refl, refl, omega arith)

enough : 4 ≤ pointer "s" world + 2 * 2
unfolding program
enough = omega arith

recover_times-exhausts_example :
    (pointer "s" (recover_times 2 summarize "s" 2 world) ≡ 4)
    × ((recover 2 summarize "s" (recover_times 2 summarize "s" 2 world)).0 ≡ false)
recover_times-exhausts_example = recover_times-exhausts 2 summarize "s" 2 4 world ready enough

-- A pass over the first two messages, during which the session is cleared.
abbrev pass : Pending
pass = record {
  state = new_state;
  total = 4;
  end = 2;
  chunk = plain "user" "hi" ∷ calls (call "a" ∷ []) ∷ [];
}

pass_begun : (begin_pass 2 "s" world).0 ≡ some pass
unfolding program
pass_begun = refl

abbrev later : Store
later = append clock "s" (plain "user" "new") blank

recorded-IsCounted : IsCounted "s" recorded
unfolding program
recorded-IsCounted = (refl, refl)

later_is_short : length (log "s" later) ≤ 2
unfolding program
later_is_short = omega arith

finish_pass-clear_example :
    (log "s" (finish_pass "s" pass (some (codes "old")) (clear "s" world)).store ≡ [])
    × (stream "s"
          (pointer "s" (finish_pass "s" pass (some (codes "old")) (clear "s" world)))
          none
          later
        ≡ [])
finish_pass-clear_example =
    finish_pass-clear "s" pass (codes "old") world later recorded-IsCounted later_is_short
