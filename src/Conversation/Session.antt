-- ===== src/Conversation/Session.antt =====
-- session/manager.py: `Session`, `SessionManager` and the reader of its files. A file is the list of its lines, which
-- all parse; the times of a session are left out, since only list_sessions shows them. The cache is
-- weak, so that an entry may go whenever no caller holds the session: `evict` is that step.
pub mod Files
pub mod Prepare
pub mod Persisted
use Prim.Native.Char.{code}
use exoclaw_plugins.Prelude.{
  ℕ, suc, ◌+◌, ◌-◌, String, List, [], ◌∷◌, ◌++◌, map, Option, none, some, Bool, true, false, ◌&&◌,
  ◌||◌, str_eq, if◌then◌else◌, ◌==◌, ltb, leb, length, take, drop, Dict, lookup, insert, erase,
  codes, any,
}
use exoclaw_plugins.Conversation.{Text, Message}
use Prim.Native.String

abbrev is_unsafe : ℕ → Bool
is_unsafe c = any (λ x. x == c) (codes "<>:\"/\\|?*")

-- The characters that `str.strip` removes.
abbrev pub is_space : ℕ → Bool
is_space c =
    (leb 9 c && leb c 13)
    || (leb 28 c && leb c 32)
    || (leb 8192 c && leb c 8202)
    || any (λ x. x == c) (133 ∷ 160 ∷ 5760 ∷ 8232 ∷ 8233 ∷ 8239 ∷ 8287 ∷ 12288 ∷ [])

replace_unsafe : String → String
replace_unsafe String.[] = String.[]
replace_unsafe (String.◌∷◌ c s) =
    let rest = replace_unsafe s in
    if is_unsafe (code c) then String.◌++◌ "_" rest else String.◌∷◌ c rest

strip_left : String → String
strip_left String.[] = String.[]
strip_left (String.◌∷◌ c s) =
    let rest = strip_left s in if is_space (code c) then rest else String.◌∷◌ c s

strip_right : String → String
strip_right String.[] = String.[]
strip_right (String.◌∷◌ c s) =
    let rest = strip_right s in
    if str_eq rest "" && is_space (code c) then "" else String.◌∷◌ c rest

-- `_get_session_path`, without the directory and the extension. The replacement of `:` by `_` is
-- one of those of `safe_filename`.
unfoldable pub path_of : String → String
unfolding replace_unsafe strip_left strip_right
path_of key = strip_right (strip_left (replace_unsafe key))

-- The summary in it is that of older versions; `others` is the rest of the dictionary.
pub record Metadata : Type 0 where
  pub summary : Text
  pub others : Text

pub record Session : Type 0 where
  pub key : String
  pub messages : List Message
  pub stored_total : ℕ
  pub metadata : Metadata

unfoldable pub new_session : String → Session
new_session key = record {
  key = key;
  messages = [];
  stored_total = 0;
  metadata = record { summary = []; others = [] };
}

unfoldable pub total_messages : Session → ℕ
total_messages s = if ltb 0 s.stored_total then s.stored_total else length s.messages

unfoldable pub add_message : Message → Session → Session
add_message m s = record s {
  messages = s.messages ++ (m ∷ []);
  stored_total = total_messages s + 1;
}

unfoldable pub clear_session : Session → Session
clear_session s = record s { messages = []; stored_total = 0 }

-- A header may have the boundary that older versions wrote, which is 0 if it does not.
pub data Line : Type 0 where
  header : Metadata → ℕ → Line
  entry : Message → Line

pub record Store : Type 0 where
  pub streaming_history : Bool
  pub files : Dict (List Line)
  pub cache : Dict Session

-- The session is mutated in place, so what the cache has of it is the same object.
unfoldable pub hold : Session → Store → Store
hold session s = record s { cache = insert session.key session s.cache }

unfoldable pub entries : List Line → List Message
entries [] = []
entries (header _ _ ∷ lines) = entries lines
entries (entry m ∷ lines) = m ∷ entries lines

unfoldable pub log : String → Store → List Message
log key s = elim (lookup (path_of key) s.files) [ none ↦ [] | some lines ↦ entries lines ]

-- The loop of `_load`. In what is written a header stands first.
unfoldable pub load_lines : Bool → List Line → Session → Session
load_lines streaming [] s = s
load_lines streaming (header m _ ∷ lines) s = load_lines streaming lines (record s { metadata = m })
load_lines streaming (entry m ∷ lines) s = load_lines streaming lines (record s {
  messages = if streaming then s.messages else s.messages ++ (m ∷ []);
  stored_total = suc s.stored_total;
})
