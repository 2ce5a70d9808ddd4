-- ===== src/Tests/Reductions.antt =====
-- The reduction of the results of a batch at small files.
use exoclaw_plugins.Prelude.{
  ℕ, ◌*◌, ◌^◌, ◌≤◌, ◌≡◌, refl, String, List, [], ◌∷◌, none, some, true, arith, length,
  if◌then◌else◌, str_eq,
}
use exoclaw_plugins.Cron.Codec.{
  Json, null, number, text, array, object, empty, item, nil, field, get,
}
use exoclaw_plugins.Reduce.{
  pos, negsuc, FileRead, not_found, plain, parsed, elements, spread, or_null, at_key, value_at,
  missing, extracted, extract_items, Key, key_of_value, key_of, same_key, seen_before, dedup_from,
  dedup, range_count, slices, chunks_of, Answer, words, answer_items, collect, exceeds, max_rounds,
  reduce_rounds,
}
use exoclaw_plugins.Reduce.Run.{
  Registry, Arguments, in_chunks, in_one, reduced, or_twenty, params_of, reduced_by, tree_reduce,
  wants_chunks, is_given, finish, reduce_files, run,
}
use exoclaw_plugins.Reduce.Dedup.{has_key, all_distinct, dedup_lem}
use exoclaw_plugins.Reduce.Rounds.{reduce_rounds-converges}

program : Unit {0}
unfolding elements spread or_null at_key value_at extracted extract_items key_of_value key_of
    same_key seen_before dedup_from dedup range_count slices chunks_of answer_items collect exceeds
    reduce_rounds or_twenty params_of reduced_by tree_reduce wants_chunks is_given finish
    reduce_files run get
program = tt

abbrev page : ℕ → Json
page n = object (field "id" (number n) nil)

-- Two pages and one of them again, a text, and a path without a file.
abbrev read : String → FileRead
read path =
    if str_eq path "a"
    then parsed (object (field "results" (array (item (page 1) (item (page 2) empty))) nil))
    else if str_eq path "b"
    then parsed (array (item (page 1) empty))
    else if str_eq path "c"
    then plain "c" "hello"
    else not_found

abbrev arguments : Arguments
arguments = record {
  files = "a" ∷ "b" ∷ "c" ∷ "d" ∷ [];
  dir = "";
  key = "results";
  dedup = "id";
  chunk_size = pos 0;
  until = none;
  then_call = none;
}

abbrev hello : Json
hello = object (field "file" (text "c") (field "content" (text "hello") nil))

merged :
    run read (λ _. none) none arguments ≡ in_one (page 1 ∷ page 2 ∷ hello ∷ []) (missing "d" ∷ [])
unfolding program
merged = refl

-- In chunks the missing file is not reported.
in_twos :
    run read (λ _. none) none (record arguments { chunk_size = pos 2 })
    ≡ in_chunks 3 ((page 1 ∷ page 2 ∷ []) ∷ (hello ∷ []) ∷ [])
unfolding program
in_twos = refl

-- A tool that answers each chunk by one text.
abbrev call : ℕ → List Json → Answer
call n chunk = words "summary"

abbrev registry : Registry
registry = record { has = λ _. true; execute = λ _ _. call }

abbrev reducing : Arguments
reducing = record arguments {
  until = some (pos 1);
  then_call = some (record { tool = "llm_call"; params = null });
}

reduced_to_one :
    run read (λ _. none) (some registry) (record reducing { chunk_size = pos 2 })
    ≡ reduced (text "summary" ∷ []) 2 (missing "d" ∷ [])
unfolding program
reduced_to_one = refl

-- A negative size makes no chunks, and the items are gone.
negative_size :
    (run read (λ _. none) (some registry) (record reducing { chunk_size = negsuc 0 })
      ≡ reduced [] 1 (missing "d" ∷ []))
    × (run read (λ _. none) none (record arguments { chunk_size = negsuc 0 }) ≡ in_chunks 3 [])
unfolding program
negative_size = (refl, refl)

abbrev five : List Json
five = page 1 ∷ page 2 ∷ page 3 ∷ page 2 ∷ page 1 ∷ []

distinct_five : dedup five "id" ≡ some (page 1 ∷ page 2 ∷ page 3 ∷ [])
unfolding program
distinct_five = refl

dedup_lem_example :
    (all_distinct "id" (page 1 ∷ page 2 ∷ page 3 ∷ []) ≡ true)
    × ((k : Key) → has_key "id" k (page 1 ∷ page 2 ∷ page 3 ∷ []) ≡ has_key "id" k five)
dedup_lem_example = dedup_lem "id" five (page 1 ∷ page 2 ∷ page 3 ∷ []) distinct_five

one_answer : (n : ℕ) (chunk : List Json) → length (answer_items (call n chunk)) ≤ 1
unfolding answer_items
one_answer n chunk = omega arith

few_enough : length five ≤ 1 * 2 ^ max_rounds
few_enough = omega arith

reduce_rounds-converges_example :
    length (reduce_rounds call (pos 1) (pos 2) max_rounds 0 five).0 ≤ 1
reduce_rounds-converges_example =
    reduce_rounds-converges call one_answer 1 2 max_rounds 0 five (omega arith) (omega arith)
      few_enough
