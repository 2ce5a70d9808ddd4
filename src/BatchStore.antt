-- ===== src/BatchStore.antt =====
-- packages/exoclaw-subagent, exoclaw_subagent/batch_store.py: `BatchSnapshot` and
-- `InMemoryBatchStore`. What the lock protects is one step: `record_completion_and_maybe_announce`
-- is two of them, with the awaited `announce` callback in between.
pub mod Rosters
pub mod View
pub mod Invariant
pub mod Announce
pub mod Schedule
use exoclaw_plugins.Prelude.{
  ℕ, suc, ◌+◌, String, ◌≡◌, Bool, true, false, not, ◌&&◌, Option, none, some, List, [], ◌∷◌, ◌++◌,
  leb, if◌then◌else◌, str_eq, contains, add, discard, Dict, lookup, insert, erase, select, map,
}

-- An entry of `results`.
pub record TaskResult : Type 0 where
  pub label : String
  pub status : String
  pub path : String

pub record Snapshot : Type 0 where
  pub batch_id : String
  pub total : ℕ
  pub completed : ℕ
  pub results : List TaskResult
  pub origin_channel : String
  pub origin_chat_id : String
  pub session_key : Option String

pub record Store : Type 0 where
  pub batches : Dict Snapshot
  pub registered : Dict (List String)
  pub completed : Dict (List String)
  pub announced : List String

abbrev pub init : Store
init = record { batches = []; registered = []; completed = []; announced = [] }

-- The keyword arguments of `register`.
pub record Origin : Type 0 where
  pub session_key : Option String
  pub origin_channel : String
  pub origin_chat_id : String

-- The keyword arguments of a completion.
pub record Completion : Type 0 where
  pub status : String
  pub label : String
  pub result_path : Option String

-- `d.get(k)` or `d.setdefault(k, set())`, as the set that is read.
abbrev pub set_at : String → Dict (List String) → List String
set_at k d = elim (lookup k d) [ none ↦ [] | some s ↦ s ]

-- A batch id that was announced starts afresh.
unfoldable pub drop_stale : String → Store → Store
drop_stale b s =
    if contains b s.announced
    then record {
      batches = erase b s.batches;
      registered = erase b s.registered;
      completed = erase b s.completed;
      announced = discard b s.announced;
    }
    else s

unfoldable pub new_snapshot : String → Origin → Snapshot
new_snapshot b o = record {
  batch_id = b;
  total = 0;
  completed = 0;
  results = [];
  origin_channel = o.origin_channel;
  origin_chat_id = o.origin_chat_id;
  session_key = o.session_key;
}

-- `snap` of `register`: the batch's snapshot, or a new one.
abbrev pub snapshot_or_new : String → Origin → Option Snapshot → Snapshot
snapshot_or_new b o none = new_snapshot b o
snapshot_or_new b o (some snap) = snap

unfoldable pub enroll : String → String → Origin → Store → Store
enroll b t o s =
    let registered = set_at b s.registered in
    let snap = snapshot_or_new b o (lookup b s.batches) in
    if contains t registered then s else record s {
      registered = insert b (registered ++ (t ∷ [])) s.registered;
      batches = insert b (record snap { total = snap.total + 1 }) s.batches;
    }

unfoldable pub register : String → String → Origin → Store → Store
register b t o s = enroll b t o (drop_stale b s)

-- `result_path or "(no file)"`
unfoldable pub path_or_placeholder : Option String → String
path_or_placeholder none = "(no file)"
path_or_placeholder (some p) = if str_eq p "" then "(no file)" else p

-- The dictionary that a completion appends to `results`.
abbrev pub entry : Completion → TaskResult
entry c = record { label = c.label; status = c.status; path = path_or_placeholder c.result_path }

unfoldable pub complete_snapshot : Completion → Snapshot → Snapshot
complete_snapshot c snap = record snap {
  completed = snap.completed + 1;
  results = snap.results ++ (entry c ∷ []);
}

-- The first locked section, on a batch that is there: the store and the snapshot after it.
unfoldable pub complete : String → String → Completion → Snapshot → Store → Store × Snapshot
complete b t c snap s =
    let done = set_at b s.completed in
    let snap' = complete_snapshot c snap in
    if contains t done then (s, snap) else (
      record s {
        completed = insert b (done ++ (t ∷ [])) s.completed;
        batches = insert b snap' s.batches;
      },
      snap',
    )

-- `should_announce`
unfoldable pub should_announce : String → Snapshot → Store → Bool
should_announce b snap s = leb snap.total snap.completed && not (contains b s.announced)

-- The first locked section: the store, the copied snapshot and whether to announce it. `none` is
-- the `KeyError`.
unfoldable pub begin_completion :
    String → String → Completion → Store → Option (Store × Snapshot × Bool)
begin_completion b t c s = elim (lookup b s.batches) [
  | none ↦ none
  | some snap ↦
      let (s', snap') = complete b t c snap s in some (s', snap', should_announce b snap' s')
]

-- The second locked section.
unfoldable pub mark_announced : String → Store → Store
mark_announced b s = record s { announced = add b s.announced }

-- What a call of `record_completion_and_maybe_announce` that nothing interrupts does: the store,
-- the returned snapshot, and whether `announce` was called (with that snapshot). `published` says
-- whether the callback returned; a callback that raises leaves the batch unmarked.
unfoldable pub record_completion :
    Bool → String → String → Completion → Store → Option (Store × Snapshot × Bool)
record_completion published b t c s = elim (begin_completion b t c s) [
  | none ↦ none
  | some (s', snap, announce) ↦
      some ((if announce && published then mark_announced b s' else s'), snap, announce)
]

-- `list_active`
unfoldable pub list_active : Store → List Snapshot
list_active s = map (λ e. e.1) (select (λ e. not (contains e.0 s.announced)) s.batches)
