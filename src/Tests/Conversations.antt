-- ===== src/Tests/Conversations.antt =====
-- The conversation at small logs.
use exoclaw_plugins.Prelude.{
  codes, ◌≡◌, refl, ◌&&◌, String, List, [], ◌∷◌, none, map, contains, add, select,
}
use exoclaw_plugins.Conversation.{
  absent, null, value, text, ToolCall, Message, calls_of, has_calls, has_content,
}
use exoclaw_plugins.Conversation.Repair.{
  add_id, add_calls, declare, respond, declared, responded, common, within, same_set, is_valid,
  keep_calls, strip_calls, repair_message, repair, project, repaired, repair_and_project,
  drop_to_user, slice, normalize_history,
}
use exoclaw_plugins.Conversation.Repair.Pairs.{repair_and_project-balanced, repair_and_project_idem}
use exoclaw_plugins.Conversation.Repair.Kept.{speaks, transcript, transcript-repair_and_project}

abbrev pub plain : String → String → Message
plain role t = record {
  role = role;
  content = value (text (codes t));
  tool_calls = absent;
  tool_call_id = absent;
  name = absent;
  timestamp = value (codes "12:00");
}

abbrev pub call : String → ToolCall
call id = record { id = value id; function = codes "ls" }

-- An assistant's message without text that calls tools, and a result.
abbrev pub calls : List ToolCall → Message
calls cs = record (plain "assistant" "") { content = null; tool_calls = value cs }

abbrev pub result : String → Message
result id = record (plain "tool" "done") { tool_call_id = value id }

-- The call of b has no result, and c was never called.
abbrev broken : List Message
broken =
    plain "user" "hi"
    ∷ calls (call "a" ∷ call "b" ∷ [])
    ∷ result "a"
    ∷ result "c"
    ∷ plain "assistant" "ok"
    ∷ []

program : Unit {0}
unfolding calls_of has_calls has_content add_id add_calls declare respond declared responded common
    within same_set is_valid keep_calls strip_calls repair_message repair project repaired
    repair_and_project contains add select speaks drop_to_user slice normalize_history
program = tt

repaired_log :
    repaired broken
    ≡ plain "user" "hi" ∷ calls (call "a" ∷ []) ∷ result "a" ∷ plain "assistant" "ok" ∷ []
unfolding program
repaired_log = refl

repair_and_project-balanced_example :
    (contains "a" (declared (repair_and_project broken) [])
      ≡ contains "a" (responded (repair_and_project broken) []))
    × (contains "a" (declared (repair_and_project broken) [])
        ≡ (contains "a" (declared broken []) && contains "a" (responded broken [])))
repair_and_project-balanced_example = repair_and_project-balanced broken "a"

repair_and_project_idem_example :
    repair_and_project (repair_and_project broken) ≡ repair_and_project broken
repair_and_project_idem_example = repair_and_project_idem broken

transcript-repair_and_project_example : transcript (repair_and_project broken) ≡ transcript broken
transcript-repair_and_project_example = transcript-repair_and_project broken

-- A result that stands before the call is not an orphan for the code, and one without an id is one only
-- if there is another.
early_result :
    repaired (result "a" ∷ calls (call "a" ∷ []) ∷ []) ≡ result "a" ∷ calls (call "a" ∷ []) ∷ []
unfolding program
early_result = refl

abbrev no_id : Message
no_id = record (plain "tool" "done") { tool_call_id = absent }

lone_result : (repaired (no_id ∷ []) ≡ no_id ∷ []) × (repaired (no_id ∷ result "a" ∷ []) ≡ [])
unfolding program
lone_result = (refl, refl)

-- The history starts with the user.
started :
    map (λ (m : Message). m.role) (normalize_history (result "a" ∷ broken) none)
    ≡ "user" ∷ "assistant" ∷ "tool" ∷ "assistant" ∷ []
unfolding program
started = refl
