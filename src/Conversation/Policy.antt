-- ===== src/Conversation/Policy.antt =====
-- summarizing_policy.py and its sidecar files of _consolidation_state.py. A sidecar parses or does not; the time
-- of its last update is left out. `summarize` is the call of the model: none if it fails.
pub mod Boundary
pub mod Tail
pub mod Recovery
use exoclaw_plugins.Prelude.{
  ℕ, ◌+◌, ◌-◌, min, String, List, [], ◌∷◌, ◌++◌, Option, none, some, Bool, true, false, not, ◌&&◌,
  ◌||◌, if◌then◌else◌, ltb, leb, Dict, lookup, insert, erase, codes,
}
use exoclaw_plugins.Conversation.{Text, absent, value, text, Message, is_role, has_calls}
use exoclaw_plugins.Conversation.Session.{Store, Line, header, entry, path_of, is_space}
use exoclaw_plugins.Conversation.Session.Files.{stream, message_at, count}

pub record State : Type 0 where
  pub summarized_through : ℕ
  pub summary : Text
  pub unconsolidated_token_estimate : ℕ

abbrev pub new_state : State
new_state = record { summarized_through = 0; summary = []; unconsolidated_token_estimate = 0 }

pub data Sidecar : Type 0 where
  saved : State → Sidecar
  unreadable : Sidecar

pub record World : Type 0 where
  pub store : Store
  pub sidecars : Dict Sidecar

unfoldable pub save_state : String → State → World → World
save_state key state w = record w { sidecars = insert (path_of key) (saved state) w.sidecars }

unfoldable pub delete_state : String → World → World
delete_state key w = record w { sidecars = erase (path_of key) w.sidecars }

unfoldable pub first_boundary : Option (List Line) → ℕ × Text
first_boundary (some (header m n ∷ _)) = (n, m.summary)
first_boundary _ = (0, [])

unfoldable pub read_legacy_boundary : String → World → ℕ × Text
read_legacy_boundary key w = first_boundary (lookup (path_of key) w.store.files)

unfoldable pub is_empty : Text → Bool
is_empty [] = true
is_empty (_ ∷ _) = false

unfoldable pub migrate : String → World → State × World
migrate key w =
    let (last_consolidated, summary) = read_legacy_boundary key w in
    let state = record new_state { summarized_through = last_consolidated; summary = summary } in
    if ltb 0 last_consolidated || not (is_empty summary)
    then (state, save_state key state w)
    else (state, w)

unfoldable pub loaded : String → World → Option Sidecar → State × World
loaded key w none = migrate key w
loaded key w (some (saved state)) = (state, w)
loaded key w (some unreadable) = (new_state, w)

unfoldable pub load_state : String → World → State × World
load_state key w = loaded key w (lookup (path_of key) w.sidecars)

unfoldable pub strip_left : Text → Text
strip_left [] = []
strip_left (c ∷ t) = let rest = strip_left t in if is_space c then rest else c ∷ t

unfoldable pub strip_right : Text → Text
strip_right [] = []
strip_right (c ∷ t) =
    let rest = strip_right t in if is_empty rest && is_space c then [] else c ∷ rest

unfoldable pub strip : Text → Text
strip t = strip_right (strip_left t)

unfoldable pub merge_summary : Text → Text → Text
merge_summary existing new_entry =
    if is_empty existing
    then strip new_entry
    else strip existing ++ (codes "\n\n" ++ strip new_entry)

unfoldable pub preamble : Text → Message
preamble summary = record {
  role = "system";
  content = value (text (codes "## Previous Session Summary\n" ++ summary));
  tool_calls = absent;
  tool_call_id = absent;
  name = absent;
  timestamp = absent;
}

unfoldable pub view : String → State → Store → List Message
view key state s =
    let tail = stream key state.summarized_through none s in
    if is_empty state.summary then tail else preamble state.summary ∷ tail

-- The messages that `transform` yields, and the migration that it may make.
unfoldable pub transform : String → World → List Message × World
transform key w = let (state, w1) = load_state key w in (view key state w1.store, w1)

-- Whether a message is an assistant's that calls tools.
unfoldable pub opens : Option Message → Bool
opens none = false
opens (some m) = is_role "assistant" m && has_calls m

unfoldable pub walk : Option Message → List Message → ℕ → ℕ
walk prev [] i = i
walk prev (m ∷ ms) i =
    let on = walk (some m) ms (i + 1) in
    if is_role "tool" m then on else if opens prev then on else i

unfoldable pub previous : String → ℕ → Store → Option Message
previous key boundary s = if ltb 0 boundary then message_at key (boundary - 1) s else none

unfoldable pub repair_boundary : String → ℕ → ℕ → Store → ℕ
repair_boundary key boundary total s =
    if leb total boundary
    then boundary
    else walk (previous key boundary s) (stream key boundary (some total) s) boundary

-- A pass that awaits the summarizer: the state that it loaded, the count that it took and the chunk that it
-- has read.
pub record Pending : Type 0 where
  pub state : State
  pub total : ℕ
  pub end : ℕ
  pub chunk : List Message

module _ (memory_window : ℕ) where
  -- `_summarize_one_chunk` up to the call of the summarizer; none is False.
  unfoldable pub begin_chunk : String → State → ℕ → Store → Option Pending
  begin_chunk key state total s =
      let end = min total (state.summarized_through + memory_window) in
      if leb end state.summarized_through
      then none
      else elim (stream key state.summarized_through (some end) s) [
        | [] ↦ none
        | m ∷ ms ↦ some (record { state = state; total = total; end = end; chunk = m ∷ ms })
      ]

-- The rest of it; none is False, after which the state is as it was.
unfoldable pub finish_chunk : String → Pending → Option Text → Store → Option State
finish_chunk key p none s = none
finish_chunk key p (some history_entry) s = some (record p.state {
  summarized_through = repair_boundary key p.end p.total s;
  summary = merge_summary p.state.summary history_entry;
})

module _ (memory_window : ℕ) where
  -- `on_turn_complete` up to the call of the summarizer, or all of it if there is no call. A pass that
  -- finds nothing to summarize saves the state as it was.
  unfoldable pub begin_pass : String → World → Option Pending × World
  begin_pass key w =
      let (state, w1) = load_state key w in
      let total = count key w1.store in
      if ltb total (state.summarized_through + memory_window)
      then (none, w1)
      else elim (begin_chunk memory_window key state total w1.store) [
        | none ↦ (none, save_state key state w1)
        | some p ↦ (some p, w1)
      ]

unfoldable pub or_same : State → Option State → State
or_same state none = state
or_same state (some next) = next

-- The rest of it.
unfoldable pub finish_pass : String → Pending → Option Text → World → World
finish_pass key p answer w = save_state key (or_same p.state (finish_chunk key p answer w.store)) w

module _ (memory_window : ℕ) (summarize : List Message → Option Text) where
  unfoldable pub summarize_one_chunk : String → State → ℕ → Store → Option State
  summarize_one_chunk key state total s = elim (begin_chunk memory_window key state total s) [
    | none ↦ none
    | some p ↦ finish_chunk key p (summarize p.chunk) s
  ]

  -- The summarizer is awaited between the two steps of the pass.
  unfoldable pub on_turn_complete : String → World → World
  on_turn_complete key w =
      let (begun, w1) = begin_pass memory_window key w in
      elim begun [ none ↦ w1 | some p ↦ finish_pass key p (summarize p.chunk) w1 ]

  unfoldable pub recover_from_overflow : String → World → Bool × World
  recover_from_overflow key w =
      let (state, w1) = load_state key w in
      elim (summarize_one_chunk key state (count key w1.store) w1.store) [
        | none ↦ (false, w1)
        | some next ↦ (true, save_state key next w1)
      ]
