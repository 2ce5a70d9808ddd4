-- ===== src/Tests/Screens.antt =====
-- The markdown of screens at small texts.
use exoclaw_plugins.Prelude.{◌≡◌, refl, String, [], ◌∷◌, none, some, true, false, codes, arith}
use exoclaw_plugins.Conversation.Policy.{strip, strip_left, strip_right}
use exoclaw_plugins.Screen.{
  text_eq, starts_with, is_empty, is_blank, contains, find, Text, plain, bold, inline_code, link,
  nil, cons, container, heading, paragraph, list_block, end, block, word, classes, Inlines, image,
  code_block, blockquote, horizontal_rule,
}
use exoclaw_plugins.Screen.Ial.{
  set_attr, words, split_equals, value_of, add_pair, read_word, read_words, with_classes, parse_ial,
  match_back, last_braces, parse_trailing_ial, skip_blanks, belongs_to_image, braced, unless_none,
  braced_attrs, is_standalone_ial_line, is_fence_open, is_fence_close,
}
use exoclaw_plugins.Screen.Span.{
  before_blank, quoted, split_url_title, backticks, match_forward, paren_of, bracketed, image_attrs,
  code_move, bold_move, underscore_move, star_move, image_move, link_move, escaped, move, flush,
  parse_inline,
}
use exoclaw_plugins.Screen.Lines.{
  is_break, split_from, splitlines, is_blank_line, all_same, rule_of, is_hr, is_digit, skip_digits,
  starts_with_digit, detect_list_marker, strip_list_marker, hashes, is_heading, is_some,
  line_starts_block, first_kind, container_kind,
}
use exoclaw_plugins.Screen.Parse.{
  answer, no_fuel, type_error, open_container, inlines, skip_blank_lines, opens_list, heading_of,
  join_lines, code_lines, cut_at, first_word, code_of, unquote, quote_lines, line_ial,
  take_quote_ial, same_marker, list_items, para_lines, take_para_ial, paragraph_step, quote_step,
  block_step, open_step, step, parse_blocks, parse,
}
use exoclaw_plugins.Screen.Span.Total.{parse_inline-total}
use exoclaw_plugins.Screen.Parse.Sizes.{size}
use exoclaw_plugins.Screen.Parse.Progress.{Shrinks, step-Shrinks}
use exoclaw_plugins.Screen.Parse.Stuck.{fence, parse_blocks-fence}

program : Unit {0}
unfolding exoclaw_plugins.Conversation.Policy.is_empty strip strip_left strip_right text_eq
    starts_with is_empty is_blank contains find set_attr words split_equals value_of add_pair
    read_word read_words with_classes parse_ial match_back last_braces parse_trailing_ial
    skip_blanks belongs_to_image braced unless_none braced_attrs is_standalone_ial_line
    is_fence_open is_fence_close before_blank quoted split_url_title backticks match_forward
    paren_of bracketed image_attrs code_move bold_move underscore_move star_move image_move
    link_move escaped move flush parse_inline is_break split_from splitlines is_blank_line all_same
    rule_of is_hr is_digit skip_digits starts_with_digit detect_list_marker strip_list_marker hashes
    is_heading is_some line_starts_block first_kind container_kind inlines skip_blank_lines
    opens_list heading_of join_lines code_lines cut_at first_word code_of unquote quote_lines
    line_ial take_quote_ial same_marker list_items para_lines take_para_ial paragraph_step
    quote_step block_step open_container open_step step parse_blocks parse
program = tt

abbrev word_of : String → Inlines
word_of s = cons (plain (codes s)) nil

page :
    parse 20 (codes "# Hi **you**\n::: {.row gap=2}\n- a\n- b\n:::\nlast `x`")
    ≡ answer (
        block (heading 1 (cons (plain (codes "Hi ")) (cons (bold (word_of "you")) nil)) []) (
          block
            (container
              (codes "row")
              ((codes "gap", word (codes "2")) ∷ (codes "class", classes (codes "row" ∷ [])) ∷ [])
              (block (list_block false (word_of "a" ∷ word_of "b" ∷ []) []) end))
            (block
              (paragraph (cons (plain (codes "last ")) (cons (inline_code (codes "x")) nil)) [])
              end)))
unfolding program
page = refl

linked :
    parse 20 (codes "> see [it](u \"t\")\n---\n```py {.a}\nx\n```\n![q](s){.b}")
    ≡ answer (
        block
          (blockquote
            (block
              (paragraph
                (cons
                  (plain (codes "see "))
                  (cons (link (word_of "it") (codes "u") (codes "t")) nil))
                [])
              end)
            [])
          (block horizontal_rule (
            block
              (code_block (codes "x") (codes "py") ((codes "class", classes (codes "a" ∷ [])) ∷ []))
              (block
                (paragraph
                  (cons
                    (image (codes "s") (codes "q") ((codes "class", classes (codes "b" ∷ [])) ∷ []))
                    nil)
                  [])
                end))))
unfolding program
linked = refl

-- A bare class.
bare_class : parse 20 (codes "::: {class}\na\n:::") ≡ type_error
unfolding program
bare_class = refl

-- A pending list attribute goes to the list only.
attached :
    parse 20 (codes "{cols=2}\n\n1. a")
    ≡ answer
        (block (list_block true (word_of "a" ∷ []) ((codes "cols", word (codes "2")) ∷ [])) end)
unfolding program
attached = refl

abbrev sample : Text
sample = codes "a **b** _c_ `d` [e](f)"

parse_inline-total_example : (xs : Inlines) × (parse_inline 30 [] sample ≡ some xs)
parse_inline-total_example = parse_inline-total 30 [] sample (omega arith)

abbrev note : Text
note = codes " note"

not_open : is_fence_open (fence note) ≡ none
unfolding program
not_open = refl

-- ::: note at the top level.
parse_blocks-fence_example : parse_blocks 1000 0 [] (fence note ∷ []) ≡ no_fuel
parse_blocks-fence_example = parse_blocks-fence note 1000 0 [] [] not_open refl

-- A line of a quote.
step-Shrinks_example :
    Shrinks (size (codes "> a" ∷ codes "b" ∷ [])) (step 0 [] (codes "> a") (codes "b" ∷ []))
unfolding starts_with
step-Shrinks_example = step-Shrinks [] (codes "> a") (codes "b" ∷ []) 0 refl
