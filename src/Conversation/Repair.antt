-- ===== src/Conversation/Repair.antt =====
-- `_repair_and_project` and `_normalize_history` of session/manager.py.
pub mod Ids
pub mod Pairs
pub mod Kept
use exoclaw_plugins.Prelude.{
  ℕ, String, List, [], ◌∷◌, map, Option, none, some, Bool, true, false, not, ◌&&◌, ◌||◌, str_eq,
  if◌then◌else◌, ◌==◌, contains, add, select, last_slice,
}
use exoclaw_plugins.Conversation.{
  Key, absent, null, value, Content, text, ToolCall, Message, is_role, calls_of, has_calls,
  has_content,
}

-- `if tid := …: ids.add(tid)`; an empty id counts as none.
unfoldable pub add_id : Key String → List String → List String
add_id absent ids = ids
add_id null ids = ids
add_id (value t) ids = if str_eq t "" then ids else add t ids

unfoldable pub add_calls : List ToolCall → List String → List String
add_calls [] ids = ids
add_calls (c ∷ calls) ids = add_calls calls (add_id c.id ids)

-- The two sets of ids that the first loop collects.
unfoldable pub declare : Message → List String → List String
declare m ids = if is_role "assistant" m then add_calls (calls_of m) ids else ids

unfoldable pub respond : Message → List String → List String
respond m ids =
    if is_role "assistant" m
    then ids
    else if is_role "tool" m
    then add_id m.tool_call_id ids
    else ids

unfoldable pub declared : List Message → List String → List String
declared [] ids = ids
declared (m ∷ ms) ids = declared ms (declare m ids)

unfoldable pub responded : List Message → List String → List String
responded [] ids = ids
responded (m ∷ ms) ids = responded ms (respond m ids)

-- `s & t`
unfoldable pub common : List String → List String → List String
common s t = select (λ k. contains k t) s

unfoldable pub within : List String → List String → Bool
within [] t = true
within (k ∷ s) t = contains k t && within s t

-- `s == t`
unfoldable pub same_set : List String → List String → Bool
same_set s t = within s t && within t s

-- `x in ids`, where x may be None.
unfoldable pub is_valid : List String → Key String → Bool
is_valid valid absent = false
is_valid valid null = false
is_valid valid (value t) = contains t valid

unfoldable pub keep_calls : List String → List ToolCall → List ToolCall
keep_calls valid calls = select (λ (c : ToolCall). is_valid valid c.id) calls

-- What an assistant message with calls becomes, none if it goes.
unfoldable pub strip_calls : Message → List ToolCall → Option Message
strip_calls m [] = if has_content m then some (record m { tool_calls = absent }) else none
strip_calls m (c ∷ kept) = some (record m { tool_calls = value (c ∷ kept) })

unfoldable pub repair_message : List String → Message → Option Message
repair_message valid m =
    if is_role "tool" m
    then if is_valid valid m.tool_call_id then some m else none
    else if is_role "assistant" m && has_calls m
    then strip_calls m (keep_calls valid (calls_of m))
    else some m

abbrev pub push : Option Message → List Message → List Message
push none ms = ms
push (some m) ms = m ∷ ms

unfoldable pub repair : List String → List Message → List Message
repair valid [] = []
repair valid (m ∷ ms) = push (repair_message valid m) (repair valid ms)

-- The entry for the model: what is absent of the content becomes an empty text.
unfoldable pub project : Message → Message
project m = record m {
  content = elim m.content [ absent ↦ value (text []) | null ↦ null | value c ↦ value c ];
  timestamp = absent;
}

unfoldable pub repaired : List Message → List Message
repaired ms =
    let d = declared ms [] in
    let r = responded ms [] in
    let valid = common d r in
    if not (same_set d valid) || not (same_set r valid) then repair valid ms else ms

unfoldable pub repair_and_project : List Message → List Message
repair_and_project ms = map project (repaired ms)

unfoldable pub drop_to_user : List Message → List Message → List Message
drop_to_user whole [] = whole
drop_to_user whole (m ∷ ms) =
    let rest = drop_to_user whole ms in if is_role "user" m then m ∷ ms else rest

-- `messages[-max_messages:] if max_messages else list(messages)`
unfoldable pub slice : List Message → Option ℕ → List Message
slice ms none = ms
slice ms (some k) = last_slice k ms

unfoldable pub normalize_history : List Message → Option ℕ → List Message
normalize_history ms max_messages =
    let sliced = slice ms max_messages in repair_and_project (drop_to_user sliced sliced)
