-- ===== src/Conversation/Turns.antt =====
-- The operations of `DefaultConversation` in conversation.py on the log, the cache and the sidecars. Messages are
-- prepared with the time of `clock`; the hooks and the prompt builder are left out.
pub mod Parts
pub mod Counted
pub mod Clear
use exoclaw_plugins.Prelude.{
  ℕ, String, List, [], ◌∷◌, Option, none, some, Bool, true, false, if◌then◌else◌, contains, add,
  discard,
}
use exoclaw_plugins.Conversation.{Text, Message}
use exoclaw_plugins.Conversation.Repair.{repair_and_project}
use exoclaw_plugins.Conversation.Session.{Session, Store, hold, clear_session}
use exoclaw_plugins.Conversation.Session.Files.{get_or_create, save, save_append, evict}
use exoclaw_plugins.Conversation.Session.Prepare.{prepare_turn}
use exoclaw_plugins.Conversation.Policy.{
  World, transform, on_turn_complete, recover_from_overflow, delete_state,
}

module _ (clock : ℕ → Text) where
  -- `get_or_create` and `_prepare_turn`, which changes the session in place.
  unfoldable pub prepare_in : String → List Message → Store → List Message × Session × Store
  prepare_in key ms s =
      let (session, s1) = get_or_create key s in
      let (prepared, session1) = prepare_turn clock s.streaming_history ms session in
      (prepared, session1, hold session1 s1)

  unfoldable pub append : String → Message → Store → Store
  append key m s =
      let (prepared, session, s1) = prepare_in key (m ∷ []) s in
      elim prepared [ [] ↦ s1 | p ∷ ps ↦ save_append session (p ∷ ps) s1 ]

  -- `record` up to the maintenance.
  unfoldable pub record_messages : String → List Message → Store → Store
  record_messages key ms s =
      let (prepared, session, s1) = prepare_in key ms s in save_append session prepared s1

-- `clear` on the log, and the whole of it.
unfoldable pub clear_log : String → Store → Store
clear_log key s =
    let (session, s1) = get_or_create key s in
    evict key (save (clear_session session) (hold (clear_session session) s1))

unfoldable pub clear : String → World → World
clear key w = delete_state key (record w { store = clear_log key w.store })

-- The history that `build_prompt` gives to the prompt builder.
unfoldable pub history_for_prompt : Bool → String → World → List Message × World
history_for_prompt isolated key w =
    let (messages, w1) = transform key w in
    if isolated then ([], w) else (repair_and_project messages, w1)

-- `recover_from_overflow` of the conversation, without the system prompt that goes first.
unfoldable pub recover_view :
    ℕ → (List Message → Option Text) → String → World → Option (List Message) × World
recover_view memory_window summarize key w =
    let (advanced, w1) = recover_from_overflow memory_window summarize key w in
    let (messages, w2) = transform key w1 in
    if advanced then (some (repair_and_project messages), w2) else (none, w1)
