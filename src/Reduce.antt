-- ===== src/Reduce.antt =====
-- packages/exoclaw-tools-batch, exoclaw_tools_batch/reduce.py: `ReduceTool`. A file is read by `read`, an argument, and the
-- tool of a tree reduction by `call`, which is asked in each round for each chunk. An answer is the JSON
-- value in it or, if it does not parse, its text.
pub mod Chunks
pub mod Dedup
pub mod Rounds
pub mod Run
use exoclaw_plugins.Prelude.{
  ℕ, zero, suc, ◌+◌, ◌-◌, ◌/◌, String, List, [], ◌∷◌, ◌++◌, map, Option, none, some, Bool, true,
  false, not, ◌&&◌, if◌then◌else◌, str_eq, ◌==◌, ltb, length, take, drop,
}
use exoclaw_plugins.Cron.Codec.{
  Json, Items, Fields, null, boolean, number, text, array, object, empty, item, nil, field, get,
}

pub data ℤ : Type 0 where
  pos : ℕ → ℤ
  negsuc : ℕ → ℤ

-- What there is to a path; a file that is there has a name, the last part of the path.
pub data FileRead : Type 0 where
  not_found : FileRead
  os_error : String → String → FileRead
  plain : String → String → FileRead
  parsed : Json → FileRead

unfoldable pub elements : Items → List Json
elements empty = []
elements (item j js) = j ∷ elements js

-- A list is spread, any other value is one item.
unfoldable pub spread : Json → List Json
spread (array js) = elements js
spread null = null ∷ []
spread (boolean b) = boolean b ∷ []
spread (number n) = number n ∷ []
spread (text t) = text t ∷ []
spread (object fs) = object fs ∷ []

unfoldable pub or_null : Option Json → Json
or_null none = null
or_null (some j) = j

unfoldable pub at_key : String → Json → Json
at_key key (object fs) = or_null (get key fs)
at_key key j = j

unfoldable pub value_at : String → Json → Json
value_at key j = if str_eq key "" then j else at_key key j

pub data Failure : Type 0 where
  missing : String → Failure
  failing : String → String → Failure

unfoldable pub extracted : String → String → FileRead → List Json × List Failure
extracted key path not_found = ([], missing path ∷ [])
extracted key path (os_error name e) = ([], failing name e ∷ [])
extracted key path (plain name t) =
    (object (field "file" (text name) (field "content" (text t) nil)) ∷ [], [])
extracted key path (parsed j) = (spread (value_at key j), [])

unfoldable pub extract_items : (String → FileRead) → String → List String → List Json × List Failure
extract_items read key [] = ([], [])
extract_items read key (p ∷ paths) =
    let (merged, errors) = extracted key p (read p) in
    let (merged1, errors1) = extract_items read key paths in (merged ++ merged1, errors ++ errors1)

-- What an item is told by: nothing, a value that a set can hold, or one that it refuses with a TypeError. True
-- and 1 are one value. Negative numbers and floats are left out.
pub data Key : Type 0 where
  no_key : Key
  number_key : ℕ → Key
  text_key : String → Key
  unhashable : Key

unfoldable pub key_of_value : Json → Key
key_of_value null = no_key
key_of_value (boolean b) = number_key (if b then 1 else 0)
key_of_value (number n) = number_key n
key_of_value (text t) = text_key t
key_of_value (array js) = unhashable
key_of_value (object fs) = unhashable

unfoldable pub key_of : String → Json → Key
key_of name (object fs) = key_of_value (or_null (get name fs))
key_of name j = no_key

unfoldable pub same_key : Key → Key → Bool
same_key (number_key m) (number_key n) = m == n
same_key (text_key s) (text_key t) = str_eq s t
same_key k l = false

unfoldable pub seen_before : Key → List Key → Bool
seen_before k [] = false
seen_before k (l ∷ seen) = if same_key l k then true else seen_before k seen

infixl 3 ◌>>=◌
abbrev pub ◌>>=◌ : {A B : Type 0} → Option A → (A → Option B) → Option B
none >>= f = none
some a >>= f = f a

-- The loop with its set of seen keys; none is a TypeError.
unfoldable pub dedup_from : String → List Key → List Json → Option (List Json)
dedup_from name seen [] = some []
dedup_from name seen (j ∷ items) =
    let k = key_of name j in
    let keep = dedup_from name (k ∷ seen) items in
    let keyless = dedup_from name seen items in
    elim k [
      | no_key ↦ do rest ← keyless; some (j ∷ rest)
      | unhashable ↦ none
      | number_key n ↦
          if seen_before (number_key n) seen then keyless else (do rest ← keep; some (j ∷ rest))
      | text_key t ↦
          if seen_before (text_key t) seen then keyless else (do rest ← keep; some (j ∷ rest))
    ]

unfoldable pub dedup : List Json → String → Option (List Json)
dedup items name = dedup_from name [] items

-- `len(range(0, n, k))` for a positive k.
unfoldable pub range_count : ℕ → ℕ → ℕ
range_count n k = (n + (k - 1)) / k

-- `items[i : i + k]` for i, i + k, i + 2k and so on.
unfoldable pub slices : {A : Type 0} → ℕ → ℕ → ℕ → List A → List (List A)
slices k zero i items = []
slices k (suc rounds) i items = take k (drop i items) ∷ slices k rounds (i + k) items

-- A negative step from 0 runs over nothing.
unfoldable pub chunks_of : {A : Type 0} → ℤ → List A → List (List A)
chunks_of (pos k) items = slices k (range_count (length items) k) 0 items
chunks_of (negsuc k) items = []

pub data Answer : Type 0 where
  structured : Json → Answer
  words : String → Answer

unfoldable pub answer_items : Answer → List Json
answer_items (structured j) = spread j
answer_items (words t) = text t ∷ []

unfoldable pub collect : List Answer → List Json
collect [] = []
collect (a ∷ answers) = answer_items a ++ collect answers

unfoldable pub exceeds : ℕ → ℤ → Bool
exceeds n (pos until) = ltb until n
exceeds n (negsuc until) = true

abbrev pub max_rounds : ℕ
max_rounds = 20

module _ (call : ℕ → List Json → Answer) (until chunk_size : ℤ) where
  -- The loop, with so many rounds left; the answer is the items and the number of rounds.
  unfoldable pub reduce_rounds : ℕ → ℕ → List Json → List Json × ℕ
  reduce_rounds zero round items = (items, round)
  reduce_rounds (suc left) round items =
      let next = collect (map (call (suc round)) (chunks_of chunk_size items)) in
      let rest = reduce_rounds left (suc round) next in
      if exceeds (length items) until then rest else (items, round)
