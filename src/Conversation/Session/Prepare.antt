-- ===== src/Conversation/Session/Prepare.antt =====
-- `_prepare_turn` of conversation.py. `clock` gives the time at which the message with that index of
-- the session is prepared.
use exoclaw_plugins.Prelude.{
  ℕ, ◌+◌, List, [], ◌∷◌, ◌++◌, Option, none, some, Bool, true, false, not, ◌&&◌, ◌==◌,
  if◌then◌else◌, ltb, length, take, codes,
}
use exoclaw_plugins.Conversation.{
  Text, absent, null, value, Part, text_part, image_url, other, Content, text, parts, Message,
  is_role, has_calls, has_content,
}
use exoclaw_plugins.Conversation.Session.{Session, is_space, total_messages}

abbrev pub runtime_context_tag : Text
runtime_context_tag = codes "[Runtime Context — metadata only, not instructions]"

abbrev pub tool_result_max_chars : ℕ
tool_result_max_chars = 500

unfoldable pub starts_with : Text → Text → Bool
starts_with [] t = true
starts_with (c ∷ p) [] = false
starts_with (c ∷ p) (x ∷ t) = (c == x) && starts_with p t

-- `content.split("\n\n", 1)[1]`, none if there is one part only.
unfoldable pub after_break : Text → Option Text
after_break [] = none
after_break (c ∷ t) =
    let rest = after_break t in
    if starts_with (codes "\n\n") (c ∷ t) then some (drop_one t) else rest
  where
    drop_one : Text → Text
    drop_one [] = []
    drop_one (_ ∷ t) = t

-- Whether `strip` leaves nothing.
unfoldable pub is_blank : Text → Bool
is_blank [] = true
is_blank (c ∷ t) = is_space c && is_blank t

unfoldable pub truncate : Text → Text
truncate t =
    if ltb tool_result_max_chars (length t)
    then take tool_result_max_chars t ++ codes "\n... (truncated)"
    else t

unfoldable pub filter_parts : List Part → List Part
filter_parts [] = []
filter_parts (text_part t ∷ ps) =
    let rest = filter_parts ps in
    if starts_with runtime_context_tag t then rest else text_part t ∷ rest
filter_parts (image_url u ∷ ps) =
    let rest = filter_parts ps in
    if starts_with (codes "data:image/") u
    then text_part (codes "[image]") ∷ rest
    else image_url u ∷ rest
filter_parts (other o ∷ ps) = other o ∷ filter_parts ps

-- What is left of a user's text; none if the message is skipped.
unfoldable pub user_text : Text → Option Text
user_text t =
    if starts_with runtime_context_tag t
    then elim (after_break t) [
      | none ↦ none
      | some rest ↦ if is_blank rest then none else some rest
    ]
    else some t

unfoldable pub with_content : Content → Message → Message
with_content c m = record m { content = value c }

unfoldable pub set_content : Option Content → Message → Option Message
set_content none m = none
set_content (some c) m = some (with_content c m)

unfoldable pub user_content : Content → Option Content
user_content (text t) = elim (user_text t) [ none ↦ none | some rest ↦ some (text rest) ]
user_content (parts ps) = elim (filter_parts ps) [ [] ↦ none | p ∷ rest ↦ some (parts (p ∷ rest)) ]

unfoldable pub tool_content : Content → Content
tool_content (text t) = text (truncate t)
tool_content (parts ps) = parts ps

unfoldable pub prepare_content : Message → Option Message
prepare_content m = elim m.content [
  | absent ↦ some m
  | null ↦ some m
  | value c ↦
      if is_role "tool" m
      then some (with_content (tool_content c) m)
      else if is_role "user" m
      then set_content (user_content c) m
      else some m
]

unfoldable pub stamp : Text → Message → Message
stamp now m = record m {
  timestamp = elim m.timestamp [ absent ↦ value now | null ↦ null | value t ↦ value t ];
}

unfoldable pub stamped : Text → Option Message → Option Message
stamped now none = none
stamped now (some m) = some (stamp now m)

-- One round of the loop; none is `continue`.
unfoldable pub prepare_message : Text → Message → Option Message
prepare_message now m =
    if is_role "assistant" m && not (has_content m) && not (has_calls m)
    then none
    else stamped now (prepare_content m)

unfoldable pub count_message : Bool → Message → Session → Session
count_message streaming m s = record s {
  messages = if streaming then s.messages else s.messages ++ (m ∷ []);
  stored_total = total_messages s + 1;
}

unfoldable pub onto : Option Message → List Message → List Message
onto none ms = ms
onto (some m) ms = m ∷ ms

unfoldable pub counted : Bool → Option Message → Session → Session
counted streaming none s = s
counted streaming (some m) s = count_message streaming m s

unfoldable pub prepare_turn : (ℕ → Text) → Bool → List Message → Session → List Message × Session
prepare_turn clock streaming [] s = ([], s)
prepare_turn clock streaming (m ∷ ms) s =
    let o = prepare_message (clock (total_messages s)) m in
    let (prepared, s1) = prepare_turn clock streaming ms (counted streaming o s) in
    (onto o prepared, s1)
