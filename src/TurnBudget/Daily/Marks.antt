-- ===== src/TurnBudget/Daily/Marks.antt =====
-- The set of fired thresholds that tracker.py stores sorted.
use exoclaw_plugins.Prelude.{◌≡◌, refl, ◌∙◌, ap, List, [], ◌∷◌, ◌++◌, arith, reverse}
use mathlib.Core.List.{reverse-cons}
use exoclaw_plugins.TurnBudget.Floats.{Floats, mem_float, insert_desc, sorted_desc}

module _ {W : Type 0} ⦃f : Floats W⦄ where
  pub mem_float-insert_desc :
      (t x : W) (xs : List W) → mem_float t (insert_desc x xs) ≡ mem_float t (x ∷ xs)
  unfolding mem_float insert_desc
  mem_float-insert_desc t x [] = refl
  mem_float-insert_desc t x (y ∷ ys) = ground (arith, mem_float-insert_desc t x ys)

  pub mem_float-sorted_desc : (t : W) (xs : List W) → mem_float t (sorted_desc xs) ≡ mem_float t xs
  unfolding mem_float sorted_desc
  mem_float-sorted_desc t [] = refl
  mem_float-sorted_desc t (x ∷ xs) =
      mem_float-insert_desc t x (sorted_desc xs) ∙ ground (arith, mem_float-sorted_desc t xs)

  pub mem_float-snoc : (t x : W) (xs : List W) → mem_float t (xs ++ (x ∷ [])) ≡ mem_float t (x ∷ xs)
  unfolding mem_float
  mem_float-snoc t x [] = refl
  mem_float-snoc t x (y ∷ ys) = ground (arith, mem_float-snoc t x ys)

  pub mem_float-cons :
      (t x : W) (xs ys : List W)
      → mem_float t xs ≡ mem_float t ys
      → mem_float t (x ∷ xs) ≡ mem_float t (x ∷ ys)
  unfolding mem_float
  mem_float-cons t x xs ys h = ground arith

  pub mem_float-reverse : (t : W) (xs : List W) → mem_float t (reverse xs) ≡ mem_float t xs
  mem_float-reverse t [] = refl
  mem_float-reverse t (x ∷ xs) =
      ap (mem_float t) (reverse-cons x xs)
      ∙ mem_float-snoc t x (reverse xs)
      ∙ mem_float-cons t x (reverse xs) xs (mem_float-reverse t xs)
