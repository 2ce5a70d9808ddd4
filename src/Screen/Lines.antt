-- ===== src/Screen/Lines.antt =====
-- `splitlines`, and what `_parse_blocks` asks of a line.
use exoclaw_plugins.Prelude.{
  ℕ, suc, List, [], ◌∷◌, ◌++◌, Option, none, some, Bool, true, false, ◌&&◌, ◌||◌, any,
  if◌then◌else◌, ◌==◌, leb, length, drop, codes,
}
use exoclaw_plugins.Conversation.Policy.{strip}
use exoclaw_plugins.Screen.{Text, flag, word, classes, Attrs, text_eq, starts_with, is_empty}

-- The characters at which `str.splitlines` breaks.
unfoldable pub is_break : ℕ → Bool
is_break c =
    (leb 10 c && leb c 13) || (leb 28 c && leb c 30) || any (λ x. x == c) (133 ∷ 8232 ∷ 8233 ∷ [])

-- With the line so far, and whether a carriage return was the last character.
unfoldable pub split_from : Text → Bool → Text → List Text
split_from line after_cr [] = if is_empty line then [] else line ∷ []
split_from line after_cr (c ∷ t) =
    let skip = split_from [] false t in
    let break = split_from [] (c == 13) t in
    let more = split_from (line ++ (c ∷ [])) false t in
    if after_cr && (c == 10) then skip else if is_break c then line ∷ break else more

unfoldable pub splitlines : Text → List Text
splitlines t = split_from [] false t

unfoldable pub is_blank_line : Text → Bool
is_blank_line line = is_empty (strip line)

unfoldable pub all_same : ℕ → Text → Bool
all_same c [] = true
all_same c (x ∷ t) = (x == c) && all_same c t

unfoldable pub rule_of : Text → Bool
rule_of [] = false
rule_of (c ∷ t) = leb 2 (length t) && any (λ x. x == c) (codes "-*_") && all_same c t

unfoldable pub is_hr : Text → Bool
is_hr line = rule_of (strip line)

unfoldable pub is_digit : ℕ → Bool
is_digit c = leb 48 c && leb c 57

unfoldable pub skip_digits : Text → Text
skip_digits [] = []
skip_digits (c ∷ t) = let rest = skip_digits t in if is_digit c then rest else c ∷ t

unfoldable pub starts_with_digit : Text → Bool
starts_with_digit [] = false
starts_with_digit (c ∷ t) = is_digit c

-- Whether the list is ordered, none if the line has no marker.
unfoldable pub detect_list_marker : Text → Option Bool
detect_list_marker line =
    if starts_with (codes "- ") line || starts_with (codes "* ") line
    then some false
    else if starts_with_digit line && starts_with (codes ". ") (skip_digits line)
    then some true
    else none

unfoldable pub strip_list_marker : Text → Bool → Text
strip_list_marker line false = drop 2 line
strip_list_marker line true = drop 2 (skip_digits line)

unfoldable pub hashes : Text → ℕ
hashes [] = 0
hashes (c ∷ t) = let more = hashes t in if c == b'#' then suc more else 0

unfoldable pub is_heading : Text → Bool
is_heading line =
    leb 1 (hashes line) && leb (hashes line) 6 && starts_with (codes " ") (drop (hashes line) line)

unfoldable pub is_some : {A : Type 0} → Option A → Bool
is_some none = false
is_some (some a) = true

unfoldable pub line_starts_block : Text → Bool
line_starts_block line =
    if starts_with (codes "#") line
    then is_heading line
    else starts_with (codes ">") line
      || (starts_with (codes "```") line
          || (starts_with (codes ":::") line || (is_hr line || is_some (detect_list_marker line))))

-- The first class of the list that names a kind.
unfoldable pub first_kind : List Text → Text
first_kind [] = codes "col"
first_kind (c ∷ cs) =
    let rest = first_kind cs in
    if text_eq c (codes "row") || text_eq c (codes "col") || text_eq c (codes "grid")
    then c
    else rest

-- A `class` that is given as an attribute is a text, and none of its characters names a kind. A bare `class` is True,
-- over which the loop raises a TypeError: none.
unfoldable pub container_kind : Attrs → Option Text
container_kind [] = some (codes "col")
container_kind ((key, v) ∷ attrs) =
    let rest = container_kind attrs in
    if text_eq key (codes "class")
    then elim v [ flag ↦ none | word w ↦ some (codes "col") | classes cs ↦ some (first_kind cs) ]
    else rest
