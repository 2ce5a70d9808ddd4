-- ===== src/Conversation.antt =====
-- packages/exoclaw-conversation, exoclaw_conversation/: the messages of a session. A message is a record of the keys that the code
-- reads, each of which may be absent or null.
pub mod Repair
pub mod Session
pub mod Policy
pub mod Turns
use exoclaw_plugins.Prelude.{ℕ, String, List, [], ◌∷◌, Bool, true, false, str_eq}

abbrev pub Text : Type 0
Text = List ℕ

pub data Key (A : Type 0) : Type 0 where
  absent : Key A
  null : Key A
  value : A → Key A

-- An element of a content that is a list; the third kind is any other one.
pub data Part : Type 0 where
  text_part : Text → Part
  image_url : Text → Part
  other : Text → Part

pub data Content : Type 0 where
  text : Text → Content
  parts : List Part → Content

-- `function` stands for whatever else the call has.
pub record ToolCall : Type 0 where
  pub id : Key String
  pub function : Text

-- The role is always there.
pub record Message : Type 0 where
  pub role : String
  pub content : Key Content
  pub tool_calls : Key (List ToolCall)
  pub tool_call_id : Key String
  pub name : Key Text
  pub timestamp : Key Text

abbrev pub is_role : String → Message → Bool
is_role r m = str_eq m.role r

-- `m.get("tool_calls") or []`
unfoldable pub calls_of : Message → List ToolCall
calls_of m = elim m.tool_calls [ absent ↦ [] | null ↦ [] | value calls ↦ calls ]

unfoldable pub has_calls : Message → Bool
has_calls m = elim (calls_of m) [ [] ↦ false | _ ∷ _ ↦ true ]

-- `bool(m.get("content"))`
unfoldable pub has_content : Message → Bool
has_content m = elim m.content [
  | absent ↦ false
  | null ↦ false
  | value c ↦ elim c [
    | text t ↦ elim t [ [] ↦ false | _ ∷ _ ↦ true ]
    | parts ps ↦ elim ps [ [] ↦ false | _ ∷ _ ↦ true ]
  ]
]
