-- ===== src/Screen/Parse.antt =====
-- `_parse_blocks` and `parse`. The cursor is the list of the lines that are left. `step` is one round of the loop, and
-- `parse_blocks` spends a unit of fuel on each.
pub mod Stuck
pub mod Sizes
pub mod Progress
use exoclaw_plugins.Prelude.{
  ℕ, zero, suc, ◌+◌, List, [], ◌∷◌, ◌++◌, map, Option, none, some, Bool, true, false, not, ◌&&◌,
  ◌||◌, if◌then◌else◌, ◌==◌, ltb, length, drop, codes,
}
use exoclaw_plugins.Conversation.Policy.{strip}
use exoclaw_plugins.Screen.{
  Text, Attrs, Inline, Inlines, Block, Blocks, container, heading, paragraph, list_block,
  blockquote, code_block, horizontal_rule, nil, end, block, text_eq, starts_with, is_empty, find,
}
use exoclaw_plugins.Screen.Ial.{
  parse_trailing_ial, belongs_to_image, is_standalone_ial_line, is_fence_open, is_fence_close,
}
use exoclaw_plugins.Screen.Span.{parse_inline}
use exoclaw_plugins.Screen.Lines.{
  splitlines, is_blank_line, is_hr, detect_list_marker, strip_list_marker, hashes, is_heading,
  line_starts_block, is_some, container_kind,
}

-- The inline nodes of a text; its length and one more is fuel enough.
unfoldable pub inlines : Text → Inlines
inlines t = elim (parse_inline (suc (length t)) [] t) [ none ↦ nil | some xs ↦ xs ]

-- What a round does: it returns, goes on at other lines, opens a container of a kind, opens a quote over its own lines,
-- emits a block, or raises a TypeError.
pub data Step : Type 0 where
  returns : List Text → Step
  goes_on : Attrs → List Text → Step
  opens : Text → Attrs → List Text → Step
  quotes : Attrs → List Text → List Text → Step
  emits : Block → List Text → Step
  raises : Step

unfoldable pub skip_blank_lines : List Text → List Text
skip_blank_lines [] = []
skip_blank_lines (l ∷ ls) =
    let rest = skip_blank_lines ls in if is_blank_line l then rest else l ∷ ls

unfoldable pub opens_list : List Text → Bool
opens_list [] = false
opens_list (l ∷ ls) = is_some (detect_list_marker l)

unfoldable pub heading_of : Text → Block
heading_of line =
    let r = parse_trailing_ial (drop (suc (hashes line)) line) in
    heading (hashes line) (inlines r.0) r.1

unfoldable pub join_lines : List Text → Text
join_lines [] = []
join_lines (l ∷ ls) = if is_empty ls then l else l ++ (10 ∷ join_lines ls)

-- The lines up to the closing fence, and those after it.
unfoldable pub code_lines : List Text → List Text × List Text
code_lines [] = ([], [])
code_lines (l ∷ ls) =
    let rest = code_lines ls in
    if starts_with (codes "```") l then ([], ls) else (l ∷ rest.0, rest.1)

-- What stands before the first occurrence of a character, none if there is none.
unfoldable pub cut_at : ℕ → Text → Option Text
cut_at c t = elim (find (c ∷ []) t) [ none ↦ none | some r ↦ some r.0 ]

-- The first word: up to a space or, if there is none, up to a tab.
unfoldable pub first_word : Text → Text
first_word t = elim (cut_at 32 t) [
  | some w ↦ w
  | none ↦ elim (cut_at 9 t) [ some w ↦ w | none ↦ t ]
]

unfoldable pub code_of : Text → List Text → Block
code_of line inner =
    let info = strip (drop 3 line) in
    let r = parse_trailing_ial info in
    let lang = first_word (strip (if is_empty r.1 then info else r.0)) in
    code_block (join_lines inner) lang r.1

unfoldable pub unquote : Text → Text
unquote line = if starts_with (codes "> ") line then drop 2 line else drop 1 line

-- The lines of a quote without their marks, and those after it.
unfoldable pub quote_lines : List Text → List Text × List Text
quote_lines [] = ([], [])
quote_lines (l ∷ ls) =
    let rest = quote_lines ls in
    if starts_with (codes ">") l then (unquote l ∷ rest.0, rest.1) else ([], l ∷ ls)

unfoldable pub line_ial : Text → Text × Attrs
line_ial line = if belongs_to_image line then (line, []) else parse_trailing_ial line

-- The attributes of the last line that is not blank, taken off it.
unfoldable pub take_quote_ial : List Text → List Text × Attrs
take_quote_ial [] = ([], [])
take_quote_ial (l ∷ ls) =
    let rest = take_quote_ial ls in
    let r = line_ial l in
    if is_empty (skip_blank_lines ls)
    then if is_blank_line l || is_empty r.1 then (l ∷ ls, []) else (r.0 ∷ ls, r.1)
    else (l ∷ rest.0, rest.1)

unfoldable pub same_marker : Bool → Option Bool → Bool
same_marker ordered none = false
same_marker ordered (some b) = if ordered then b else not b

unfoldable pub list_items : Bool → List Text → List Inlines × List Text
list_items ordered [] = ([], [])
list_items ordered (l ∷ ls) =
    let rest = list_items ordered ls in
    if same_marker ordered (detect_list_marker l)
    then (inlines (strip_list_marker l ordered) ∷ rest.0, rest.1)
    else ([], l ∷ ls)

unfoldable pub para_lines : List Text → List Text × List Text
para_lines [] = ([], [])
para_lines (l ∷ ls) =
    let rest = para_lines ls in
    if is_blank_line l || line_starts_block l then ([], l ∷ ls) else (l ∷ rest.0, rest.1)

-- The attributes of the last line of a paragraph, taken off it.
unfoldable pub take_para_ial : List Text → List Text × Attrs
take_para_ial [] = ([], [])
take_para_ial (l ∷ ls) =
    let rest = take_para_ial ls in
    let r = line_ial l in if is_empty ls then (r.0 ∷ [], r.1) else (l ∷ rest.0, rest.1)

unfoldable pub paragraph_step : Attrs → List Text × List Text → Step
paragraph_step pending ([], rest) = goes_on pending rest
paragraph_step pending (l ∷ ls, rest) =
    let r = take_para_ial (l ∷ ls) in emits (paragraph (inlines (join_lines r.0)) r.1) rest

unfoldable pub quote_step : List Text × List Text → Step
quote_step (quoted, rest) =
    let r = take_quote_ial quoted in quotes r.1 (splitlines (join_lines r.0)) rest

-- The rounds for a line that opens no container.
unfoldable pub block_step : Attrs → Text → List Text → Step
block_step pending line rest =
    if starts_with (codes "#") line && is_heading line
    then emits (heading_of line) rest
    else if is_hr line
    then emits horizontal_rule rest
    else if starts_with (codes "```") line
    then emits (code_of line (code_lines rest).0) (code_lines rest).1
    else if starts_with (codes ">") line
    then quote_step (quote_lines (line ∷ rest))
    else elim (detect_list_marker line) [
      | some ordered ↦
          let r = list_items ordered (line ∷ rest) in emits (list_block ordered r.0 pending) r.1
      | none ↦ paragraph_step pending (para_lines (line ∷ rest))
    ]

unfoldable pub open_container : Option Text → Attrs → List Text → Step
open_container none attrs rest = raises
open_container (some kind) attrs rest = opens kind attrs rest

unfoldable pub open_step : Attrs → Text → List Text → Step
open_step pending line rest = elim (is_fence_open line) [
  | some attrs ↦ open_container (container_kind attrs) attrs rest
  | none ↦ block_step pending line rest
]

unfoldable pub step : ℕ → Attrs → Text → List Text → Step
step depth pending line rest =
    if ltb 0 depth && is_fence_close line
    then returns rest
    else if is_blank_line line
    then goes_on pending rest
    else elim (is_standalone_ial_line line) [
      | none ↦ open_step pending line rest
      | some attrs ↦
          if opens_list (skip_blank_lines rest)
          then goes_on attrs (skip_blank_lines rest)
          else open_step pending line rest
    ]

pub data Parsed (A : Type 0) : Type 0 where
  no_fuel : Parsed A
  type_error : Parsed A
  answer : A → Parsed A

infixl 3 ◌>>=◌
abbrev ◌>>=◌ : {A B : Type 0} → Parsed A → (A → Parsed B) → Parsed B
no_fuel >>= f = no_fuel
type_error >>= f = type_error
answer a >>= f = f a

-- The blocks and the lines that are left, or no_fuel if the fuel does not do.
unfoldable pub parse_blocks : ℕ → ℕ → Attrs → List Text → Parsed (Blocks × List Text)
parse_blocks zero depth pending lines = no_fuel
parse_blocks (suc f) depth pending [] = answer (end, [])
parse_blocks (suc f) depth pending (line ∷ rest) = elim (step depth pending line rest) [
  | returns left ↦ answer (end, left)
  | goes_on attrs left ↦ parse_blocks f depth attrs left
  | opens kind attrs left ↦ do
    inside ← parse_blocks f (suc depth) [] left
    after ← parse_blocks f depth [] inside.1
    answer (block (container kind attrs inside.0) after.0, after.1)
  | quotes attrs quoted left ↦ do
    inside ← parse_blocks f 0 [] quoted
    after ← parse_blocks f depth [] left
    answer (block (blockquote inside.0 attrs) after.0, after.1)
  | emits b left ↦ do after ← parse_blocks f depth [] left; answer (block b after.0, after.1)
  | raises ↦ type_error
]

unfoldable pub parse : ℕ → Text → Parsed Blocks
parse fuel source = do r ← parse_blocks fuel 0 [] (splitlines source); answer r.0
