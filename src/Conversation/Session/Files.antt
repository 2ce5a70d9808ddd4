-- ===== src/Conversation/Session/Files.antt =====
-- The operations of `SessionManager` and of `_JsonlSessionReader`.
use exoclaw_plugins.Prelude.{
  ℕ, ◌+◌, ◌^◌, String, List, [], ◌∷◌, ◌++◌, map, Option, none, some, ◌&&◌, if◌then◌else◌, ltb,
  length, take, drop, lookup, insert, erase,
}
use exoclaw_plugins.Conversation.{Message}
use exoclaw_plugins.Conversation.Repair.{normalize_history}
use exoclaw_plugins.Conversation.Session.{
  Session, Store, Line, header, entry, log, path_of, new_session, total_messages, load_lines,
}

unfoldable pub load : String → Store → Option Session
load key s = elim (lookup (path_of key) s.files) [
  | none ↦ none
  | some lines ↦ some (load_lines s.streaming_history lines (new_session key))
]

unfoldable pub loaded_or_new : String → Option Session → Session
loaded_or_new key none = new_session key
loaded_or_new key (some session) = session

unfoldable pub get_or_create : String → Store → Session × Store
get_or_create key s = elim (lookup key s.cache) [
  | some session ↦ (session, s)
  | none ↦
      let session = loaded_or_new key (load key s) in
      (session, record s { cache = insert key session s.cache })
]

unfoldable pub load_range : String → ℕ → ℕ → Store → List Message
load_range key start end s = drop start (take end (log key s))

unfoldable pub stream : String → ℕ → Option ℕ → Store → List Message
stream key start none s = drop start (log key s)
stream key start (some end) s = load_range key start end s

unfoldable pub first : List Message → Option Message
first [] = none
first (m ∷ _) = some m

unfoldable pub message_at : String → ℕ → Store → Option Message
message_at key i s = first (stream key i (some (i + 1)) s)

unfoldable pub count : String → Store → ℕ
count key s = elim (lookup key s.cache) [
  | some session ↦ total_messages session
  | none ↦ length (log key s)
]

unfoldable pub write : String → List Line → Store → Store
write key lines s = record s { files = insert (path_of key) lines s.files }

unfoldable pub save : Session → Store → Store
save session s =
    let messages =
      if s.streaming_history && ltb 0 (total_messages session)
      then load_range session.key 0 (total_messages session) s
      else session.messages in
    write session.key (header session.metadata 0 ∷ map entry messages) s

unfoldable pub save_append : Session → List Message → Store → Store
save_append session new_messages s = elim (lookup (path_of session.key) s.files) [
  | none ↦ write session.key (header session.metadata 0 ∷ map entry new_messages) s
  | some lines ↦ write session.key (lines ++ map entry new_messages) s
]

-- `invalidate`, and what the weak cache does by itself when no caller holds the session.
unfoldable pub evict : String → Store → Store
evict key s = record s { cache = erase key s.cache }

unfoldable pub read_history : String → Option ℕ → Store → List Message × Store
read_history key limit s =
    let (session, s1) = get_or_create key s in
    if s.streaming_history
    then (normalize_history (load_range key 0 (2 ^ 30) s) limit, s)
    else (normalize_history session.messages limit, s1)
