-- ===== src/TurnBudget/Thresholds/Fires.antt =====
-- Which threshold fires, in the loop that both `consume_threshold_warning` methods of tracker.py run.
use exoclaw_plugins.Prelude.{
  ◌≡◌, ◌∙◌, true, none, some, List, [], ◌∷◌, arith, All, Option-cases, ap, inl, inr, ◌⊎◌, sym,
}
use exoclaw_plugins.TurnBudget.Floats.{Floats, IsOrdered, ◌≼◌, mem_float, sorted_desc}
use exoclaw_plugins.TurnBudget.Thresholds.{find_crossed, mark_crossed, cross}
use exoclaw_plugins.TurnBudget.Thresholds.Order.{
  All-sorted_desc, All-sorted_desc_back, sorted_desc-IsDescending, IsPending, find_crossed-All,
  find_crossed_highest, find_crossed-none,
}
use exoclaw_plugins.TurnBudget.Thresholds.Marks.{
  mem_float-mark_crossed, mark_crossed-All, mark_crossed_only,
}

module _ {W : Type 0} ⦃f : Floats W⦄ where
  -- The threshold that fires is the highest of those that are reached and have not fired.
  pub record Fires (ts : List W) (util : W) (warned : List W) (t : W) (warned' : List W)
      : Type 0 where
    pub pending : IsPending warned util t
    pub highest : All (λ x. IsPending warned util x → x ≼ t) ts
    pub marked : All (λ x. x ≼ t → mem_float x warned' ≡ true) ts
    pub kept : (x : W) → mem_float x warned ≡ true → mem_float x warned' ≡ true
    pub only : (x : W) → mem_float x warned' ≡ true → (mem_float x warned ≡ true) ⊎ (x ≼ t)

  All-unit : (xs : List W) → All (λ x. Unit {0}) xs
  All-unit [] = tt
  All-unit (x ∷ xs) = (tt, All-unit xs)

  find_crossed-cross :
      (ts : List W) (util : W) (warned : List W)
      → cross ts util warned ≡ none
      → find_crossed warned util (sorted_desc ts) ≡ none
  unfolding cross
  find_crossed-cross ts util warned h =
      elim (Option-cases (find_crossed warned util (sorted_desc ts))) [
        | inl e ↦ e
        | inr (x, e) ↦ absurd (ground arith)
      ]

  cross-inversion :
      (ts : List W) (util : W) (warned : List W) (t : W) (warned' : List W)
      → cross ts util warned ≡ some (t, warned')
      → (find_crossed warned util (sorted_desc ts) ≡ some t) × (warned' ≡ mark_crossed ts t warned)
  unfolding cross
  cross-inversion ts util warned t warned' h =
      elim (Option-cases (find_crossed warned util (sorted_desc ts))) [
        | inl e ↦ absurd (ground arith)
        | inr (x, e) ↦
            let q : x ≡ t = ground arith in
            (e ∙ ap some q, sym (ground arith) ∙ ap (λ (z : W). mark_crossed ts z warned) q)
      ]

  pub cross-Fires :
      (o : IsOrdered W) (ts : List W) (util : W) (warned : List W) (t : W) (warned' : List W)
      → cross ts util warned ≡ some (t, warned')
      → Fires ts util warned t warned'
  cross-Fires o ts util warned t warned' h =
      let (e, q) = cross-inversion ts util warned t warned' h in
      let (_, new, reached) =
        find_crossed-All (λ x. Unit {0}) warned util t (sorted_desc ts)
          (All-sorted_desc (λ x. Unit {0}) ts (All-unit ts)) e in
      rw q (record {
        pending = (new, reached);
        highest =
            All-sorted_desc_back (λ x. IsPending warned util x → x ≼ t) ts
              (find_crossed_highest o warned util t (sorted_desc ts) (sorted_desc-IsDescending o ts)
                e);
        marked = mark_crossed-All o ts t warned;
        kept = λ x k. mem_float-mark_crossed ts t x warned k;
        only = λ x k. mark_crossed_only o ts t x warned k;
      })

  -- Nothing fires when nothing is pending, and only then.
  pub cross-none :
      (ts : List W) (util : W) (warned : List W)
      → cross ts util warned ≡ none
      → All (λ x. ¬ IsPending warned util x) ts
  cross-none ts util warned h =
      All-sorted_desc_back (λ x. ¬ IsPending warned util x) ts
        (find_crossed-none warned util (sorted_desc ts) (find_crossed-cross ts util warned h))

  -- What holds of every threshold holds of the one that fires.
  pub cross_All :
      (P : W → Type 0) (ts : List W) (util : W) (warned : List W) (t : W) (warned' : List W)
      → All P ts
      → cross ts util warned ≡ some (t, warned')
      → P t
  cross_All P ts util warned t warned' all h =
      let (e, q) = cross-inversion ts util warned t warned' h in
      (find_crossed-All P warned util t (sorted_desc ts) (All-sorted_desc P ts all) e).0
