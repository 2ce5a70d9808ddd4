-- ===== src/TurnBudget/Thresholds.antt =====
-- The loop that both `consume_threshold_warning` methods of tracker.py run, and its meaning.
pub mod Order
pub mod Marks
pub mod Fires
use exoclaw_plugins.Prelude.{
  ◌≡◌, ◌∙◌, Bool, true, false, Option, none, some, List, [], ◌∷◌, arith, if◌then◌else◌, All,
  All-imp, Bool-cases, Option-cases, ap, inl, inr, ◌⊎◌, subst, sym,
}
use exoclaw_plugins.TurnBudget.Floats.{Floats, IsOrdered, ◌≼◌, mem_float, insert_desc, sorted_desc}

module _ {W : Type 0} ⦃f : Floats W⦄ where
  -- The first threshold of the sorted list that has not fired and is reached.
  unfoldable pub find_crossed : List W → W → List W → Option W
  find_crossed warned util [] = none
  find_crossed warned util (t ∷ ts) =
      let rest = find_crossed warned util ts in
      if mem_float t warned then rest else if f.le t util then some t else rest

  -- `warned.add(t)`
  unfoldable pub add_float : W → List W → List W
  add_float t warned = if mem_float t warned then warned else t ∷ warned

  -- The inner loop: the threshold and every lower one are marked.
  unfoldable pub mark_crossed : List W → W → List W → List W
  mark_crossed [] threshold warned = warned
  mark_crossed (t ∷ ts) threshold warned =
      mark_crossed ts threshold (if f.le t threshold then add_float t warned else warned)

  -- Both: the threshold that fires, and the set of those that have fired.
  unfoldable pub cross : List W → W → List W → Option (W × List W)
  cross thresholds util warned = elim (find_crossed warned util (sorted_desc thresholds)) [
    | none ↦ none
    | some t ↦ some (t, mark_crossed thresholds t warned)
  ]
