-- ===== src/Screen/Parse/Stuck.antt =====
-- The lines at which the loop of `_parse_blocks` does not move.
use exoclaw_plugins.Prelude.{
  ℕ, zero, suc, ◌≡◌, refl, ◌∙◌, ap, List, [], ◌∷◌, ◌++◌, reverse, Option, none, some, true, false,
  ◌&&◌, if◌then◌else◌, ◌==◌, ltb, codes, arith,
}
use exoclaw_plugins.Conversation.Session.{is_space}
use exoclaw_plugins.Conversation.Policy.{strip, strip_left, strip_right}
use exoclaw_plugins.Screen.{Text, Attrs, starts_with, is_empty}
use exoclaw_plugins.Screen.Ial.{
  braced, braced_attrs, is_standalone_ial_line, is_fence_open, is_fence_close,
}
use exoclaw_plugins.Screen.Lines.{
  is_blank_line, rule_of, is_hr, is_digit, starts_with_digit, detect_list_marker, line_starts_block,
}
use exoclaw_plugins.Screen.Parse.{
  goes_on, block_step, open_step, step, para_lines, paragraph_step, no_fuel, parse_blocks,
}

kept : (c : ℕ) (u : Text) → is_space c ≡ false → strip_right (c ∷ u) ≡ c ∷ strip_right u
unfolding strip_right
kept c u h = ground (arith, h)

braced-colon : (u : Text) → braced (58 ∷ u) ≡ none
unfolding braced
braced-colon u =
    elim (reverse u)
      as (λ r.
        let o : Option Text = elim r [
          | [] ↦ none
          | d ∷ inner ↦ if (58 == b'{') && (d == b'}') then some (reverse inner) else none
        ] in
        o ≡ none) [ [] ↦ refl | d ∷ inner ↦ refl ]

not_braced : (u : Text) → braced_attrs (58 ∷ u) ≡ none
unfolding braced_attrs
not_braced u = rw (braced-colon u, braced_attrs)

not_rule : (u : Text) → rule_of (58 ∷ u) ≡ false
unfolding rule_of
not_rule u = ground arith

stays :
    (pending : Attrs) (rest : List Text) → paragraph_step pending ([], rest) ≡ goes_on pending rest
unfolding paragraph_step
stays pending rest = refl

module _ (t : Text) where
  abbrev pub fence : Text
  fence = codes ":::" ++ t

  -- What strip leaves of it, after its first colon.
  tail : Text
  tail = strip_right (codes "::" ++ t)

  strip-fence : strip fence ≡ 58 ∷ tail
  unfolding strip strip_left strip_right tail
  strip-fence = kept 58 (codes "::" ++ t) refl

  blank_line : is_blank_line fence ≡ false
  unfolding is_blank_line is_empty
  blank_line = ap is_empty strip-fence

  standalone : is_standalone_ial_line fence ≡ none
  unfolding is_standalone_ial_line
  standalone = ap braced_attrs strip-fence ∙ not_braced tail

  rule : is_hr fence ≡ false
  unfolding is_hr
  rule = ap rule_of strip-fence ∙ not_rule tail

  starts_block : line_starts_block fence ≡ true
  unfolding line_starts_block starts_with
  starts_block = refl

  no_paragraph : (rest : List Text) → para_lines (fence ∷ rest) ≡ ([], fence ∷ rest)
  unfolding para_lines
  no_paragraph rest = rw (blank_line, starts_block)

  block_step-fence :
      (pending : Attrs) (rest : List Text)
      → block_step pending fence rest ≡ goes_on pending (fence ∷ rest)
  unfolding block_step starts_with detect_list_marker starts_with_digit is_digit paragraph_step
  block_step-fence pending rest =
      rw rule (ap (paragraph_step pending) (no_paragraph rest) ∙ stays pending (fence ∷ rest))

  open_step-fence :
      (pending : Attrs) (rest : List Text)
      → is_fence_open fence ≡ none
      → open_step pending fence rest ≡ goes_on pending (fence ∷ rest)
  unfolding open_step
  open_step-fence pending rest shut = rw (shut, open_step) (block_step-fence pending rest)

  step-fence :
      (depth : ℕ) (pending : Attrs) (rest : List Text)
      → is_fence_open fence ≡ none
      → (ltb 0 depth && is_fence_close fence) ≡ false
      → step depth pending fence rest ≡ goes_on pending (fence ∷ rest)
  unfolding step
  step-fence depth pending rest shut close =
      rw (close, blank_line, standalone) (open_step-fence pending rest shut)

  -- A line that starts with ::: without opening a container, and without closing one that is
  -- open, holds the loop: it never ends, whatever fuel it is given.
  pub parse_blocks-fence :
      (fuel depth : ℕ) (pending : Attrs) (rest : List Text)
      → is_fence_open fence ≡ none
      → (ltb 0 depth && is_fence_close fence) ≡ false
      → parse_blocks fuel depth pending (fence ∷ rest) ≡ no_fuel
  unfolding parse_blocks
  parse_blocks-fence zero depth pending rest shut close = refl
  parse_blocks-fence (suc fuel) depth pending rest shut close =
      rw (step-fence depth pending rest shut close, parse_blocks)
        (parse_blocks-fence fuel depth pending rest shut close)
