-- ===== src/Reduce/Run.antt =====
-- `_run`, with the checks of `_tree_reduce`. The path of the output is left out: it only says where what is written goes.
use exoclaw_plugins.Prelude.{
  ℕ, zero, suc, String, List, [], ◌∷◌, Option, none, some, Bool, true, false, not, ◌&&◌,
  if◌then◌else◌, str_eq, ◌==◌, ltb, length,
}
use exoclaw_plugins.Cron.Codec.{
  Json, Fields, null, boolean, number, text, array, object, empty, item, nil,
}
use exoclaw_plugins.Reduce.{
  ℤ, pos, negsuc, FileRead, Failure, Answer, extract_items, dedup, chunks_of, max_rounds,
  reduce_rounds,
}

pub record Then : Type 0 where
  pub tool : String
  pub params : Json

-- The registry: which tools it has, and what a tool answers in a round to a chunk.
pub record Registry : Type 0 where
  pub has : String → Bool
  pub execute : String → Fields → ℕ → List Json → Answer

pub record Arguments : Type 0 where
  pub files : List String
  pub dir : String
  pub key : String
  pub dedup : String
  pub chunk_size : ℤ
  pub until : Option ℤ
  pub then_call : Option Then

-- What is returned, and what is written for it.
pub data Outcome : Type 0 where
  no_input : Outcome
  not_a_directory : String → Outcome
  no_files : Outcome
  type_error : Outcome
  in_chunks : ℕ → List (List Json) → Outcome
  in_one : List Json → List Failure → Outcome
  no_registry : Outcome
  no_tool : Outcome
  unknown_tool : String → Outcome
  bad_params : Outcome
  reduced : List Json → ℕ → List Failure → Outcome

-- `chunk_size or 20`
unfoldable pub or_twenty : ℤ → ℤ
or_twenty (pos zero) = pos 20
or_twenty (pos (suc k)) = pos (suc k)
or_twenty (negsuc k) = negsuc k

-- `then.get("params") or {}`, none if it is no dictionary.
unfoldable pub params_of : Json → Option Fields
params_of null = some nil
params_of (boolean b) = if b then none else some nil
params_of (number n) = if n == 0 then some nil else none
params_of (text t) = if str_eq t "" then some nil else none
params_of (array empty) = some nil
params_of (array (item j js)) = none
params_of (object fs) = some fs

unfoldable pub reduced_by : List Failure → List Json × ℕ → Outcome
reduced_by errors r = reduced r.0 r.1 errors

unfoldable pub tree_reduce : Option Registry → List Json → ℤ → Then → ℤ → List Failure → Outcome
tree_reduce none items until t chunk_size errors = no_registry
tree_reduce (some registry) items until t chunk_size errors =
    if str_eq t.tool ""
    then no_tool
    else if not (registry.has t.tool)
    then unknown_tool t.tool
    else elim (params_of t.params) [
      | none ↦ bad_params
      | some params ↦
          reduced_by errors
            (reduce_rounds (registry.execute t.tool params) until chunk_size max_rounds 0 items)
    ]

-- `chunk_size and len(merged) > chunk_size`
unfoldable pub wants_chunks : ℤ → List Json → Bool
wants_chunks (pos k) items = ltb 0 k && ltb k (length items)
wants_chunks (negsuc k) items = true

unfoldable pub is_given : {A : Type 0} → List A → Bool
is_given [] = false
is_given (_ ∷ _) = true

unfoldable pub finish : Option Registry → Arguments → List Json → List Failure → Outcome
finish registry a merged errors =
    let plain_output =
      if wants_chunks a.chunk_size merged
      then in_chunks (length merged) (chunks_of a.chunk_size merged)
      else in_one merged errors in
    elim a.until [
      | none ↦ plain_output
      | some until ↦ elim a.then_call [
        | none ↦ plain_output
        | some t ↦ tree_reduce registry merged until t (or_twenty a.chunk_size) errors
      ]
    ]

module _ (read : String → FileRead) (json_files : String → Option (List String)) where
  unfoldable pub reduce_files : Option Registry → Arguments → List String → Outcome
  reduce_files registry a [] = no_files
  reduce_files registry a (p ∷ paths) =
      let (merged, errors) = extract_items read a.key (p ∷ paths) in
      if str_eq a.dedup "" then finish registry a merged errors else elim (dedup merged a.dedup) [
        | none ↦ type_error
        | some unique ↦ finish registry a unique errors
      ]

  -- `_run`; no files is as an empty list of them, and no dir, key or dedup as an empty text.
  unfoldable pub run : Option Registry → Arguments → Outcome
  run registry a =
      if is_given a.files
      then reduce_files registry a a.files
      else if str_eq a.dir ""
      then no_input
      else elim (json_files a.dir) [
        | none ↦ not_a_directory a.dir
        | some paths ↦ reduce_files registry a paths
      ]
