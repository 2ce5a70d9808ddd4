-- ===== src/Screen/Span.antt =====
-- `_parse_inline`. One round of its loop looks at what follows and says what it makes of it; `parse_inline` spends a
-- unit of fuel on each round.
pub mod Searches
pub mod Total
use exoclaw_plugins.Prelude.{
  ℕ, zero, suc, ◌+◌, ◌-◌, List, [], ◌∷◌, ◌++◌, reverse, Option, none, some, Bool, true, false, not,
  ◌&&◌, ◌||◌, if◌then◌else◌, ◌==◌, length, drop, replicate, codes,
}
use exoclaw_plugins.Conversation.Policy.{strip}
use exoclaw_plugins.Screen.{
  Text, Attrs, Inline, Inlines, plain, bold, italic, inline_code, link, image, hard_break, nil,
  cons, starts_with, is_empty, is_blank, find,
}
use exoclaw_plugins.Screen.Ial.{parse_ial}

-- What a round does: characters go to the text so far, a node ends it, or a node with its own text
-- to parse ends it.
pub data Move : Type 0 where
  verbatim : Text → Text → Move
  emit : Inline → Text → Move
  nested : (Inlines → Inline) → Text → Text → Move

unfoldable pub before_blank : Text → Text × Text
before_blank [] = ([], [])
before_blank (c ∷ t) =
    let rest = before_blank t in if is_blank c then ([], c ∷ t) else (c ∷ rest.0, rest.1)

-- A title in double quotes, without them; the text is empty if there is none.
unfoldable pub quoted : Text → Text
quoted [] = []
quoted (c ∷ t) = elim (reverse t) [
  | [] ↦ []
  | d ∷ inner ↦ if (c == b'"') && (d == b'"') then reverse inner else []
]

unfoldable pub split_url_title : Text → Text × Text
split_url_title inner =
    let r = before_blank (strip inner) in
    if is_empty r.1 then (strip inner, []) else (r.0, quoted (strip r.1))

unfoldable pub backticks : Text → ℕ
backticks [] = 0
backticks (c ∷ t) = let more = backticks t in if c == b'`' then suc more else 0

-- From after an opening brace: what is inside it, and what follows it.
unfoldable pub match_forward : Text → ℕ → Text → Option (Text × Text)
match_forward [] depth inner = none
match_forward (c ∷ t) depth inner =
    let deeper = match_forward t (depth + 1) (inner ++ (c ∷ [])) in
    let outer = match_forward t (depth - 1) (inner ++ (c ∷ [])) in
    let on = match_forward t depth (inner ++ (c ∷ [])) in
    if c == b'{'
    then deeper
    else if c == b'}'
    then if depth == 1 then some (inner, t) else outer
    else on

-- `[text](paren)` from after the `[`: the text, what is in the parentheses, and what follows.
unfoldable pub paren_of : Text → Text → Option (Text × Text × Text)
paren_of label t =
    if starts_with (codes "](") t
    then elim (find (codes ")") (drop 2 t)) [ none ↦ none | some r ↦ some (label, r.0, drop 1 r.1) ]
    else none

unfoldable pub bracketed : Text → Option (Text × Text × Text)
bracketed t = elim (find (codes "]") t) [ none ↦ none | some r ↦ paren_of r.0 r.1 ]

unfoldable pub image_attrs : Text → Attrs × Text
image_attrs [] = ([], [])
image_attrs (c ∷ t) =
    if c == b'{'
    then elim (match_forward t 1 []) [ none ↦ ([], c ∷ t) | some r ↦ (parse_ial r.0, r.1) ]
    else ([], c ∷ t)

unfoldable pub code_move : Text → Move
code_move src =
    let run = backticks src in
    let literal = verbatim (replicate run b'`') (drop run src) in
    elim (find (replicate run b'`') (drop run src)) [
      | none ↦ literal
      | some r ↦
          let rest = drop run r.1 in
          if is_empty r.0 || starts_with (codes "`") rest
          then literal
          else emit (inline_code r.0) rest
    ]

unfoldable pub bold_move : Text → Move
bold_move t = elim (find (codes "**") t) [
  | none ↦ verbatim (codes "**") t
  | some r ↦ nested bold r.0 (drop 2 r.1)
]

unfoldable pub underscore_move : Text → Move
underscore_move t = elim (find (codes "_") t) [
  | none ↦ verbatim (codes "_") t
  | some r ↦ if is_empty r.0 then verbatim (codes "_") t else nested italic r.0 (drop 1 r.1)
]

unfoldable pub star_move : Text → Move
star_move t = elim (find (codes "*") t) [
  | none ↦ verbatim (codes "*") t
  | some r ↦
      if is_empty r.0 || starts_with (codes "*") (drop 1 r.1)
      then verbatim (codes "*") t
      else nested italic r.0 (drop 1 r.1)
]

unfoldable pub image_move : Text → Move
image_move t = elim (bracketed (drop 1 t)) [
  | none ↦ verbatim (codes "!") t
  | some r ↦ let after = image_attrs r.2 in emit (image (split_url_title r.1).0 r.0 after.0) after.1
]

unfoldable pub link_move : Text → Move
link_move t = elim (bracketed t) [
  | none ↦ verbatim (codes "[") t
  | some r ↦ nested (λ xs. link xs (split_url_title r.1).0 (split_url_title r.1).1) r.0 r.2
]

-- The character after a backslash.
unfoldable pub escaped : Text → Move
escaped [] = verbatim [] []
escaped (d ∷ t) = verbatim (d ∷ []) t

-- One round at the character c with t after it.
unfoldable pub move : ℕ → Text → Move
move c t =
    if (c == b' ') && starts_with (codes " \n") t
    then emit hard_break (drop 2 t)
    else if (c == b'\\') && not (is_empty t)
    then escaped t
    else if c == b'`'
    then code_move (c ∷ t)
    else if (c == b'*') && starts_with (codes "*") t
    then bold_move (drop 1 t)
    else if c == b'_'
    then underscore_move t
    else if c == b'*'
    then star_move t
    else if (c == b'!') && starts_with (codes "[") t
    then image_move t
    else if c == b'['
    then link_move t
    else verbatim (c ∷ []) t

unfoldable pub flush : Text → Inlines → Inlines
flush buf xs = if is_empty buf then xs else cons (plain buf) xs

infixl 3 ◌>>=◌
abbrev pub ◌>>=◌ : {A B : Type 0} → Option A → (A → Option B) → Option B
none >>= f = none
some a >>= f = f a

-- The loop with the text so far; none if the fuel does not do.
unfoldable pub parse_inline : ℕ → Text → Text → Option Inlines
parse_inline zero buf src = none
parse_inline (suc f) buf [] = some (flush buf nil)
parse_inline (suc f) buf (c ∷ t) = elim (move c t) [
  | verbatim chars rest ↦ parse_inline f (buf ++ chars) rest
  | emit x rest ↦ do xs ← parse_inline f [] rest; some (flush buf (cons x xs))
  | nested wrap inner rest ↦ do
    inside ← parse_inline f [] inner
    xs ← parse_inline f [] rest
    some (flush buf (cons (wrap inside) xs))
]
