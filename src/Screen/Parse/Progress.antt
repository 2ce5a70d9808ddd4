-- ===== src/Screen/Parse/Progress.antt =====
-- Each round of `_parse_blocks` leaves less to read, but for the lines that start with :::.
use exoclaw_plugins.Prelude.{
  Option, ℕ, ◌<◌, ◌≡◌, refl, sym, subst, List, [], ◌∷◌, none, some, Bool, true, false, ◌&&◌,
  if◌then◌else◌, ltb, codes, arith,
}
use exoclaw_plugins.Screen.{Text, Attrs, list_block, starts_with}
use exoclaw_plugins.Screen.Ial.{is_standalone_ial_line, is_fence_open, is_fence_close}
use exoclaw_plugins.Screen.Lines.{
  splitlines, is_blank_line, is_hr, is_heading, is_some, detect_list_marker, line_starts_block,
  container_kind,
}
use exoclaw_plugins.Screen.Parse.{
  Step, returns, goes_on, opens, raises, open_container, quotes, emits, skip_blank_lines,
  opens_list, join_lines, unquote, quote_lines, take_quote_ial, same_marker, list_items, para_lines,
  paragraph_step, quote_step, block_step, open_step, step,
}
use exoclaw_plugins.Screen.Parse.Sizes.{
  size, length-join_lines, length-unquote, size-code_lines, size-list_items, size-para_lines,
  size-quote_lines, size-skip_blank_lines, size-split_from, size-take_quote_ial,
}

-- What is left to read after a round, and what a quote has, is less. A round that raises leaves nothing.
unfoldable pub Shrinks : ℕ → Step → Type 0
Shrinks n (returns left) = size left < n
Shrinks n (goes_on attrs left) = size left < n
Shrinks n (opens kind attrs left) = size left < n
Shrinks n (quotes attrs quoted left) = (size quoted < n) × (size left < n)
Shrinks n (emits b left) = size left < n
Shrinks n raises = Unit

Shrinks-if :
    (n : ℕ) (b : Bool) (x y : Step)
    → (b ≡ true → Shrinks n x)
    → (b ≡ false → Shrinks n y)
    → Shrinks n (if b then x else y)
Shrinks-if n true x y h k = h refl
Shrinks-if n false x y h k = k refl

same_marker_refl : (ordered : Bool) → same_marker ordered (some ordered) ≡ true
unfolding same_marker
same_marker_refl true = refl
same_marker_refl false = refl

-- A line that is none of the blocks before a paragraph does not start a block.
not_started :
    (line : Text)
    → starts_with (codes ":::") line ≡ false
    → (starts_with (codes "#") line && is_heading line) ≡ false
    → is_hr line ≡ false
    → starts_with (codes "```") line ≡ false
    → starts_with (codes ">") line ≡ false
    → detect_list_marker line ≡ none
    → line_starts_block line ≡ false
unfolding line_starts_block is_some
not_started line fence heading hr code quote list =
    rw (fence, hr, code, quote, list)
      (elim (starts_with (codes "#") line)
          as (λ b.
            (b && is_heading line) ≡ false → (if b then is_heading line else false) ≡ false) [
              | true ↦ λ h. h
              | false ↦ λ h. refl
            ]
        heading)

module _ (pending : Attrs) (line : Text) (rest : List Text) where
  abbrev whole : ℕ
  whole = size (line ∷ rest)

  quote_lines-cons :
      starts_with (codes ">") line ≡ true
      → quote_lines (line ∷ rest) ≡ (unquote line ∷ (quote_lines rest).0, (quote_lines rest).1)
  unfolding quote_lines
  quote_lines-cons h = rw h

  quote_step-Shrinks :
      starts_with (codes ">") line ≡ true → Shrinks whole (quote_step (quote_lines (line ∷ rest)))
  unfolding quote_step Shrinks size splitlines
  quote_step-Shrinks h =
      let quoted = unquote line ∷ (quote_lines rest).0 in
      let read = (take_quote_ial quoted).0 in
      let goal : Shrinks whole (quote_step (quoted, (quote_lines rest).1)) = (
        omega (
          arith,
          size-split_from [] false (join_lines read),
          length-join_lines read,
          size-take_quote_ial quoted,
          length-unquote line h,
          size-quote_lines rest,
        ),
        omega (arith, size-quote_lines rest),
      ) in
      subst (λ p. Shrinks whole (quote_step p)) (sym (quote_lines-cons h)) goal

  list_items-Shrinks :
      (ordered : Bool)
      → detect_list_marker line ≡ some ordered
      → size (list_items ordered (line ∷ rest)).1 < whole
  unfolding list_items size
  list_items-Shrinks ordered h =
      rw (h, same_marker_refl ordered) (omega (arith, size-list_items ordered rest))

  para_lines-cons :
      is_blank_line line ≡ false
      → line_starts_block line ≡ false
      → para_lines (line ∷ rest) ≡ (line ∷ (para_lines rest).0, (para_lines rest).1)
  unfolding para_lines
  para_lines-cons blank starts = rw (blank, starts)

  paragraph_step-Shrinks :
      is_blank_line line ≡ false
      → line_starts_block line ≡ false
      → Shrinks whole (paragraph_step pending (para_lines (line ∷ rest)))
  unfolding paragraph_step Shrinks size
  paragraph_step-Shrinks blank starts =
      let goal : Shrinks whole
          (paragraph_step pending (line ∷ (para_lines rest).0, (para_lines rest).1)) =
        omega (arith, size-para_lines rest) in
      subst (λ p. Shrinks whole (paragraph_step pending p)) (sym (para_lines-cons blank starts))
        goal

  block_step-Shrinks :
      is_blank_line line ≡ false
      → starts_with (codes ":::") line ≡ false
      → Shrinks whole (block_step pending line rest)
  unfolding block_step Shrinks size
  block_step-Shrinks blank fence =
      Shrinks-if whole (starts_with (codes "#") line && is_heading line) _ _ (λ _. omega arith)
        (λ heading.
          Shrinks-if whole (is_hr line) _ _ (λ _. omega arith)
            (λ hr.
              Shrinks-if whole (starts_with (codes "```") line) _ _
                (λ _. omega (arith, size-code_lines rest))
                (λ code.
                  Shrinks-if whole (starts_with (codes ">") line) _ _ quote_step-Shrinks (λ quote.
                    (elim (detect_list_marker line)
                        as (λ o.
                          let s : Step = elim o [
                            | some ordered ↦
                                let r = list_items ordered (line ∷ rest) in
                                emits (list_block ordered r.0 pending) r.1
                            | none ↦ paragraph_step pending (para_lines (line ∷ rest))
                          ] in
                          detect_list_marker line ≡ o → Shrinks whole s) [
                            | some ordered ↦ list_items-Shrinks ordered
                            | none ↦ λ list.
                                paragraph_step-Shrinks blank
                                  (not_started line fence heading hr code quote list)
                          ]
                      refl)))))

  open_container-Shrinks :
      (attrs : Attrs) (kind : Option Text) → Shrinks whole (open_container kind attrs rest)
  unfolding open_container Shrinks size
  open_container-Shrinks attrs none = tt
  open_container-Shrinks attrs (some kind) = omega arith

  open_step-Shrinks :
      is_blank_line line ≡ false
      → starts_with (codes ":::") line ≡ false
      → Shrinks whole (open_step pending line rest)
  unfolding open_step Shrinks size
  open_step-Shrinks blank fence =
      elim (is_fence_open line)
        as (λ o.
          let s : Step = elim o [
            | some attrs ↦ open_container (container_kind attrs) attrs rest
            | none ↦ block_step pending line rest
          ] in
          Shrinks whole s) [
            | some attrs ↦ open_container-Shrinks attrs (container_kind attrs)
            | none ↦ block_step-Shrinks blank fence
          ]

  -- If a line does not start with :::, then the round for it raises, or it leaves less to read, counted in
  -- characters and lines, and so does what it makes of a quote.
  pub step-Shrinks :
      (depth : ℕ)
      → starts_with (codes ":::") line ≡ false
      → Shrinks (size (line ∷ rest)) (step depth pending line rest)
  unfolding step Shrinks size
  step-Shrinks depth fence =
      Shrinks-if whole (ltb 0 depth && is_fence_close line) _ _ (λ _. omega arith)
        (λ _.
          Shrinks-if whole (is_blank_line line) _ _ (λ _. omega arith)
            (λ blank.
              elim (is_standalone_ial_line line)
                as (λ o.
                  let s : Step = elim o [
                    | none ↦ open_step pending line rest
                    | some attrs ↦
                        if opens_list (skip_blank_lines rest)
                        then goes_on attrs (skip_blank_lines rest)
                        else open_step pending line rest
                  ] in
                  Shrinks whole s) [
                    | none ↦ open_step-Shrinks blank fence
                    | some attrs ↦
                        Shrinks-if whole (opens_list (skip_blank_lines rest)) _ _
                          (λ _. omega (arith, size-skip_blank_lines rest))
                          (λ _. open_step-Shrinks blank fence)
                  ]))
