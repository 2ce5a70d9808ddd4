-- ===== src/Screen/Parse/Sizes.antt =====
-- What a round of `_parse_blocks` leaves to read: the sizes of texts and lines through the parts of a round.
use exoclaw_plugins.Prelude.{
  ℕ, suc, ◌+◌, ◌-◌, ◌≤◌, ◌<◌, ◌≡◌, refl, List, [], ◌∷◌, ◌++◌, reverse, Option, none, some, Bool,
  true, false, ◌&&◌, ◌||◌, if◌then◌else◌, ◌==◌, length, length-append, length-reverse, length-drop,
  drop, codes, arith,
}
use exoclaw_plugins.Conversation.Session.{is_space}
use exoclaw_plugins.Conversation.Policy.{strip_right}
use exoclaw_plugins.Screen.{Text, Attrs, starts_with, is_empty}
use exoclaw_plugins.Screen.Ial.{
  parse_ial, match_back, last_braces, parse_trailing_ial, belongs_to_image,
}
use exoclaw_plugins.Screen.Lines.{
  is_break, split_from, is_blank_line, detect_list_marker, line_starts_block,
}
use exoclaw_plugins.Screen.Parse.{
  skip_blank_lines, join_lines, code_lines, unquote, quote_lines, line_ial, take_quote_ial,
  same_marker, list_items, para_lines,
}

-- The characters of the lines, and one for the end of each.
unfoldable pub size : List Text → ℕ
size [] = 0
size (l ∷ ls) = suc (length l + size ls)

length-strip_right : (t : Text) → length (strip_right t) ≤ length t
unfolding strip_right
length-strip_right [] = omega arith
length-strip_right (c ∷ t) =
    let rest = length-strip_right t in
    elim (exoclaw_plugins.Conversation.Policy.is_empty (strip_right t) && is_space c)
      as (λ b. length (if b then [] else c ∷ strip_right t) ≤ suc (length t)) [
        | true ↦ omega arith
        | false ↦ omega (arith, rest)
      ]

Before : ℕ → Option (Text × Text) → Type 0
Before n none = Unit
Before n (some r) = length r.1 ≤ n

Before-mono : (m n : ℕ) (o : Option (Text × Text)) → m ≤ n → Before m o → Before n o
unfolding Before
Before-mono m n none h b = tt
Before-mono m n (some r) h b = omega (arith, h, b)

Before-if :
    (n : ℕ) (b : Bool) (x y : Option (Text × Text))
    → Before n x
    → Before n y
    → Before n (if b then x else y)
Before-if n true x y h k = h
Before-if n false x y h k = k

match_back-Before :
    (t : Text) (depth : ℕ) (inner : Text) → Before (length t) (match_back t depth inner)
unfolding match_back Before
match_back-Before [] depth inner = tt
match_back-Before (c ∷ t) depth inner =
    let n = suc (length t) in
    let less : length t ≤ n = omega arith in
    let later : (depth : ℕ) → Before n (match_back t depth (c ∷ inner)) =
      λ d. Before-mono (length t) n _ less (match_back-Before t d (c ∷ inner)) in
    Before-if n (c == b'}') _ _ (later (depth + 1)) (
      Before-if n (c == b'{') _ _
        (Before-if n (depth == 1) _ _ (omega (arith, length-reverse t)) (later (depth - 1)))
        (later depth))

last_braces-Before : (line : Text) → Before (length line) (last_braces line)
unfolding last_braces Before
last_braces-Before line =
    let shorter : length (reverse (strip_right line)) ≤ length line =
      omega (arith, length-reverse (strip_right line), length-strip_right line) in
    elim (reverse (strip_right line))
        as (λ t.
          let o : Option (Text × Text) = elim t [
            | [] ↦ none
            | c ∷ rest ↦ if c == b'}' then match_back rest 1 [] else none
          ] in
          length t ≤ length line → Before (length line) o) [
            | [] ↦ λ h. tt
            | c ∷ rest ↦ λ h.
                let within : length rest ≤ length line = omega (arith, h) in
                Before-if (length line) (c == b'}') _ _
                  (Before-mono (length rest) (length line) _ within (match_back-Before rest 1 []))
                  tt
          ]
      shorter

-- The text of a line and its attributes.
Short : ℕ → Text × Attrs → Type 0
Short n p = length p.0 ≤ n

Short-if :
    (n : ℕ) (b : Bool) (p q : Text × Attrs) → Short n p → Short n q → Short n (if b then p else q)
Short-if n true p q h k = h
Short-if n false p q h k = k

parse_trailing_ial-Short : (line : Text) → Short (length line) (parse_trailing_ial line)
unfolding parse_trailing_ial Before Short
parse_trailing_ial-Short line =
    elim (last_braces line)
        as (λ o.
          let p : Text × Attrs = elim o [
            | none ↦ (line, [])
            | some r ↦
                let attrs = parse_ial r.0 in
                if is_empty attrs then (line, []) else (strip_right r.1, attrs)
          ] in
          Before (length line) o → Short (length line) p) [
            | none ↦ λ _. omega arith
            | some r ↦ λ b.
                Short-if (length line) (is_empty (parse_ial r.0)) _ _ (omega arith)
                  (omega (arith, length-strip_right r.1, b))
          ]
      (last_braces-Before line)

line_ial-Short : (line : Text) → Short (length line) (line_ial line)
unfolding line_ial Short
line_ial-Short line =
    Short-if (length line) (belongs_to_image line) _ _ (omega arith) (parse_trailing_ial-Short line)

pub size-split_from :
    (line : Text) (cr : Bool) (t : Text)
    → size (split_from line cr t) ≤ suc (length line + length t)
unfolding split_from size is_empty
size-split_from [] cr [] = omega arith
size-split_from (c ∷ line) cr [] = omega arith
size-split_from line cr (c ∷ t) =
    let n = suc (length line + suc (length t)) in
    let skip : size (split_from [] false t) ≤ n = omega (arith, size-split_from [] false t) in
    let break : size (line ∷ split_from [] (c == 13) t) ≤ n =
      omega (arith, size-split_from [] (c == 13) t) in
    let more : size (split_from (line ++ (c ∷ [])) false t) ≤ n =
      omega (arith, size-split_from (line ++ (c ∷ [])) false t, length-append line (c ∷ [])) in
    size-if n (cr && (c == 10)) _ _ skip (size-if n (is_break c) _ _ break more)
  where
    size-if :
        (n : ℕ) (b : Bool) (x y : List Text)
        → size x ≤ n
        → size y ≤ n
        → size (if b then x else y) ≤ n
    size-if n true x y h k = h
    size-if n false x y h k = k

pub length-join_lines : (ls : List Text) → length (join_lines ls) ≤ size ls - 1
unfolding join_lines size is_empty
length-join_lines [] = omega arith
length-join_lines (l ∷ []) = omega arith
length-join_lines (l ∷ m ∷ ls) =
    omega (arith, length-append l (10 ∷ join_lines (m ∷ ls)), length-join_lines (m ∷ ls))

-- Both parts of a pair of lines.
abbrev pub Split : ℕ → List Text × List Text → Type 0
Split n p = size p.0 + size p.1 ≤ n

Split-if :
    (n : ℕ) (b : Bool) (x y : List Text × List Text)
    → Split n x
    → Split n y
    → Split n (if b then x else y)
Split-if n true x y h k = h
Split-if n false x y h k = k

pub size-para_lines : (ls : List Text) → Split (size ls) (para_lines ls)
unfolding para_lines size
size-para_lines [] = omega arith
size-para_lines (l ∷ ls) =
    Split-if (size (l ∷ ls)) (is_blank_line l || line_starts_block l) _ _ (omega arith)
      (omega (arith, size-para_lines ls))

-- The second part of a pair of what was read and what is left.
Rest : {A : Type 0} → ℕ → A × List Text → Type 0
Rest n p = size p.1 ≤ n

Rest-if :
    {A : Type 0} (n : ℕ) (b : Bool) (p q : A × List Text)
    → Rest n p
    → Rest n q
    → Rest n (if b then p else q)
Rest-if n true p q h k = h
Rest-if n false p q h k = k

pub size-list_items : (ordered : Bool) (ls : List Text) → size (list_items ordered ls).1 ≤ size ls
unfolding list_items size Rest
size-list_items ordered [] = omega arith
size-list_items ordered (l ∷ ls) =
    Rest-if (size (l ∷ ls)) (same_marker ordered (detect_list_marker l)) _ _
      (omega (arith, size-list_items ordered ls)) (omega arith)

pub size-code_lines : (ls : List Text) → size (code_lines ls).1 ≤ size ls
unfolding code_lines size Rest
size-code_lines [] = omega arith
size-code_lines (l ∷ ls) =
    Rest-if (size (l ∷ ls)) (starts_with (codes "```") l) _ _ (omega arith)
      (omega (arith, size-code_lines ls))

pub size-skip_blank_lines : (ls : List Text) → size (skip_blank_lines ls) ≤ size ls
unfolding skip_blank_lines size
size-skip_blank_lines [] = omega arith
size-skip_blank_lines (l ∷ ls) =
    elim (is_blank_line l)
      as (λ b. size (if b then skip_blank_lines ls else l ∷ ls) ≤ size (l ∷ ls)) [
        | true ↦ omega (arith, size-skip_blank_lines ls)
        | false ↦ omega arith
      ]

pub length-unquote : (l : Text) → starts_with (codes ">") l ≡ true → length (unquote l) < length l
unfolding unquote starts_with
length-unquote [] h = absurd (ground (arith, h))
length-unquote (c ∷ l) h =
    elim (starts_with (codes "> ") (c ∷ l))
      as (λ b. length (if b then drop 2 (c ∷ l) else drop 1 (c ∷ l)) < suc (length l)) [
        | true ↦ omega (arith, length-drop 1 l)
        | false ↦ omega arith
      ]

pub size-quote_lines : (ls : List Text) → Split (size ls) (quote_lines ls)
unfolding quote_lines size
size-quote_lines [] = omega arith
size-quote_lines (l ∷ ls) = at_mark (starts_with (codes ">") l) refl (size-quote_lines ls)
  where
    at_mark :
        (b : Bool)
        → starts_with (codes ">") l ≡ b
        → Split (size ls) (quote_lines ls)
        → Split
            (suc (length l + size ls))
            (if b then (unquote l ∷ (quote_lines ls).0, (quote_lines ls).1) else ([], l ∷ ls))
    at_mark true h k = omega (arith, length-unquote l h, k)
    at_mark false h k = omega arith

Fits : ℕ → List Text × Attrs → Type 0
Fits n p = size p.0 ≤ n

Fits-if :
    (n : ℕ) (b : Bool) (p q : List Text × Attrs) → Fits n p → Fits n q → Fits n (if b then p else q)
Fits-if n true p q h k = h
Fits-if n false p q h k = k

pub size-take_quote_ial : (ls : List Text) → size (take_quote_ial ls).0 ≤ size ls
unfolding take_quote_ial size Fits Short
size-take_quote_ial [] = omega arith
size-take_quote_ial (l ∷ ls) =
    let n = size (l ∷ ls) in
    Fits-if n (is_empty (skip_blank_lines ls)) _ _
      (Fits-if n (is_blank_line l || is_empty (line_ial l).1) _ _ (omega arith)
        (omega (arith, line_ial-Short l)))
      (omega (arith, size-take_quote_ial ls))
