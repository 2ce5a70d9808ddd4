-- ===== src/Screen/Ial.antt =====
-- `parse_ial`, `parse_trailing_ial` and the tests of lines for attributes.
use exoclaw_plugins.Prelude.{
  ℕ, ◌+◌, ◌-◌, List, [], ◌∷◌, ◌++◌, reverse, Option, none, some, Bool, false, ◌&&◌, if◌then◌else◌,
  ◌==◌, drop, codes,
}
use exoclaw_plugins.Conversation.Policy.{strip, strip_right}
use exoclaw_plugins.Screen.{
  Text, Value, flag, word, classes, Attrs, text_eq, starts_with, is_empty, is_blank, contains,
}

unfoldable pub set_attr : Text → Value → Attrs → Attrs
set_attr key v [] = (key, v) ∷ []
set_attr key v (e ∷ attrs) = if text_eq e.0 key then (key, v) ∷ attrs else e ∷ set_attr key v attrs

-- The runs of characters between spaces and tabs: each round of the loop reads one.
unfoldable pub words : Text → Text → List Text
words [] run = if is_empty run then [] else run ∷ []
words (c ∷ t) run =
    let next = words t [] in
    let more = words t (run ++ (c ∷ [])) in
    if is_blank c then if is_empty run then next else run ∷ next else more

-- What stands before `=`, and what after it if there is one.
unfoldable pub split_equals : Text → Text × Option Text
split_equals [] = ([], none)
split_equals (c ∷ t) =
    let rest = split_equals t in if c == b'=' then ([], some t) else (c ∷ rest.0, rest.1)

unfoldable pub value_of : Option Text → Value
value_of none = flag
value_of (some v) = word v

unfoldable pub add_pair : Text × Option Text → Attrs → Attrs
add_pair p attrs = if is_empty p.0 then attrs else set_attr p.0 (value_of p.1) attrs

-- The attributes and the classes so far.
unfoldable pub read_word : Text → Attrs × List Text → Attrs × List Text
read_word [] r = r
read_word (c ∷ w) r =
    if c == b'.'
    then if is_empty w then r else (r.0, r.1 ++ (w ∷ []))
    else (add_pair (split_equals (c ∷ w)) r.0, r.1)

unfoldable pub read_words : List Text → Attrs × List Text → Attrs × List Text
read_words [] r = r
read_words (w ∷ ws) r = read_words ws (read_word w r)

unfoldable pub with_classes : Attrs × List Text → Attrs
with_classes r = if is_empty r.1 then r.0 else set_attr (codes "class") (classes r.1) r.0

unfoldable pub parse_ial : Text → Attrs
parse_ial t = with_classes (read_words (words t []) ([], []))

-- From the end of a line backwards, after its last `}`: what is inside the braces, and what is before them.
unfoldable pub match_back : Text → ℕ → Text → Option (Text × Text)
match_back [] depth inner = none
match_back (c ∷ rest) depth inner =
    let deeper = match_back rest (depth + 1) (c ∷ inner) in
    let outer = match_back rest (depth - 1) (c ∷ inner) in
    let on = match_back rest depth (c ∷ inner) in
    if c == b'}'
    then deeper
    else if c == b'{'
    then if depth == 1 then some (inner, reverse rest) else outer
    else on

-- The braces that end a line.
unfoldable pub last_braces : Text → Option (Text × Text)
last_braces line = elim (reverse (strip_right line)) [
  | [] ↦ none
  | c ∷ rest ↦ if c == b'}' then match_back rest 1 [] else none
]

unfoldable pub parse_trailing_ial : Text → Text × Attrs
parse_trailing_ial line = elim (last_braces line) [
  | none ↦ (line, [])
  | some r ↦
      let attrs = parse_ial r.0 in if is_empty attrs then (line, []) else (strip_right r.1, attrs)
]

unfoldable pub skip_blanks : Text → Text
skip_blanks [] = []
skip_blanks (c ∷ t) = let rest = skip_blanks t in if is_blank c then rest else c ∷ t

-- `_trailing_ial_belongs_to_image`
unfoldable pub belongs_to_image : Text → Bool
belongs_to_image line = elim (last_braces line) [
  | none ↦ false
  | some r ↦ elim (skip_blanks (reverse r.1)) [
    | [] ↦ false
    | c ∷ before ↦ (c == b')') && contains (codes "![") (reverse before)
  ]
]

-- A text in braces, without them.
unfoldable pub braced : Text → Option Text
braced [] = none
braced (c ∷ t) = elim (reverse t) [
  | [] ↦ none
  | d ∷ inner ↦ if (c == b'{') && (d == b'}') then some (reverse inner) else none
]

unfoldable pub unless_none : Attrs → Option Attrs
unless_none [] = none
unless_none (e ∷ attrs) = some (e ∷ attrs)

unfoldable pub braced_attrs : Text → Option Attrs
braced_attrs s = elim (braced s) [ none ↦ none | some inner ↦ unless_none (parse_ial inner) ]

-- none is `(False, {})`.
unfoldable pub is_standalone_ial_line : Text → Option Attrs
is_standalone_ial_line line = braced_attrs (strip line)

unfoldable pub is_fence_open : Text → Option Attrs
is_fence_open line =
    let s = strip line in
    if starts_with (codes ":::") s then braced_attrs (strip (drop 3 s)) else none

unfoldable pub is_fence_close : Text → Bool
is_fence_close line = text_eq (strip line) (codes ":::")
