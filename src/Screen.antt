-- ===== src/Screen.antt =====
-- packages/exoclaw-screen, exoclaw_screen/ast.py and parser.py: the markdown of a screen. A text is the list of its code points,
-- and a position in it is what follows there.
pub mod Ial
pub mod Span
pub mod Lines
pub mod Parse
use exoclaw_plugins.Prelude.{
  ℕ, zero, suc, ◌+◌, List, [], ◌∷◌, ◌++◌, Option, none, some, Bool, true, false, not, ◌&&◌, ◌||◌,
  if◌then◌else◌, ◌==◌, leb, codes,
}

abbrev pub Text : Type 0
Text = List ℕ

-- The value of an attribute: a bare key is True, `class` is a list.
pub data Value : Type 0 where
  flag : Value
  word : Text → Value
  classes : List Text → Value

abbrev pub Attrs : Type 0
Attrs = List (Text × Value)

mutual
  pub data Inline : Type 0 where
    plain : Text → Inline
    bold : Inlines → Inline
    italic : Inlines → Inline
    inline_code : Text → Inline
    link : Inlines → Text → Text → Inline
    image : Text → Text → Attrs → Inline
    hard_break : Inline

  pub data Inlines : Type 0 where
    nil : Inlines
    cons : Inline → Inlines → Inlines

mutual
  pub data Block : Type 0 where
    container : Text → Attrs → Blocks → Block
    heading : ℕ → Inlines → Attrs → Block
    paragraph : Inlines → Attrs → Block
    list_block : Bool → List Inlines → Attrs → Block
    blockquote : Blocks → Attrs → Block
    code_block : Text → Text → Attrs → Block
    horizontal_rule : Block

  pub data Blocks : Type 0 where
    end : Blocks
    block : Block → Blocks → Blocks

unfoldable pub text_eq : Text → Text → Bool
text_eq [] [] = true
text_eq (c ∷ s) (d ∷ t) = (c == d) && text_eq s t
text_eq _ _ = false

unfoldable pub starts_with : Text → Text → Bool
starts_with [] t = true
starts_with (c ∷ p) [] = false
starts_with (c ∷ p) (x ∷ t) = (c == x) && starts_with p t

unfoldable pub is_empty : {A : Type 0} → List A → Bool
is_empty [] = true
is_empty (_ ∷ _) = false

-- A space or a tab.
unfoldable pub is_blank : ℕ → Bool
is_blank c = (c == 32) || (c == 9)

unfoldable pub contains : Text → Text → Bool
contains p [] = is_empty p
contains p (c ∷ t) = starts_with p (c ∷ t) || contains p t

-- What stands before the first occurrence of a text, and what from there on.
unfoldable pub find : Text → Text → Option (Text × Text)
find p [] = none
find p (c ∷ t) =
    let more = find p t in
    if starts_with p (c ∷ t)
    then some ([], c ∷ t)
    else elim more [ none ↦ none | some r ↦ some (c ∷ r.0, r.1) ]
