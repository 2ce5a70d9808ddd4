-- ===== src/TurnBudget/Thresholds/Marks.antt =====
-- Which thresholds count as fired after the inner loop.
use exoclaw_plugins.Prelude.{
  ◌≡◌, Bool, true, false, List, [], ◌∷◌, arith, if◌then◌else◌, All, Bool-cases, inl, inr, ◌⊎◌,
}
use exoclaw_plugins.TurnBudget.Floats.{Floats, IsOrdered, ◌≼◌, mem_float}
use exoclaw_plugins.TurnBudget.Thresholds.{add_float, mark_crossed}

module _ {W : Type 0} ⦃f : Floats W⦄ where
  pub mem_float-add_float :
      (t x : W) (warned : List W)
      → mem_float t warned ≡ true
      → mem_float t (add_float x warned) ≡ true
  unfolding add_float mem_float
  mem_float-add_float t x warned h = elim (Bool-cases (mem_float x warned)) [
    | inl m ↦ rw m h
    | inr m ↦ rw m (ground arith)
  ]

  pub mem_float-add_float_self :
      (o : IsOrdered W) (x : W) (warned : List W) → mem_float x (add_float x warned) ≡ true
  unfolding add_float mem_float
  mem_float-add_float_self o x warned = elim (Bool-cases (mem_float x warned)) [
    | inl m ↦ rw m m
    | inr m ↦ rw m (ground (arith, o.le_refl x))
  ]

  pub mem_float_of_add_float :
      (t x : W) (warned : List W)
      → mem_float t (add_float x warned) ≡ true
      → (mem_float t warned ≡ true) ⊎ (t ≼ x)
  unfolding add_float mem_float
  mem_float_of_add_float t x warned h = elim (Bool-cases (mem_float x warned)) [
    | inl m ↦ inl (ground arith)
    | inr m ↦ elim (Bool-cases (f.le t x)) [ inl e ↦ inr e | inr e ↦ inl (ground arith) ]
  ]

  -- A mark stays.
  pub mem_float-mark_crossed :
      (ts : List W) (threshold t : W) (warned : List W)
      → mem_float t warned ≡ true
      → mem_float t (mark_crossed ts threshold warned) ≡ true
  unfolding mark_crossed
  mem_float-mark_crossed [] threshold t warned h = h
  mem_float-mark_crossed (x ∷ xs) threshold t warned h =
      mem_float-mark_crossed xs threshold t
        (if f.le x threshold then add_float x warned else warned)
        (elim (f.le x threshold)
          as (λ (b : Bool). mem_float t (if b then add_float x warned else warned) ≡ true) [
            | true ↦ mem_float-add_float t x warned h
            | false ↦ h
          ])

  -- Every threshold up to the one that fires is marked.
  pub mark_crossed-All :
      (o : IsOrdered W) (ts : List W) (threshold : W) (warned : List W)
      → All (λ x. x ≼ threshold → mem_float x (mark_crossed ts threshold warned) ≡ true) ts
  unfolding mark_crossed
  mark_crossed-All o [] threshold warned = tt
  mark_crossed-All o (x ∷ xs) threshold warned = (
    λ h. rw h (
        mem_float-mark_crossed xs threshold x (add_float x warned)
          (mem_float-add_float_self o x warned)),
    mark_crossed-All o xs threshold (if f.le x threshold then add_float x warned else warned),
  )

  -- And no other.
  pub mark_crossed_only :
      (o : IsOrdered W) (ts : List W) (threshold t : W) (warned : List W)
      → mem_float t (mark_crossed ts threshold warned) ≡ true
      → (mem_float t warned ≡ true) ⊎ (t ≼ threshold)
  unfolding mark_crossed
  mark_crossed_only o [] threshold t warned h = inl h
  mark_crossed_only o (x ∷ xs) threshold t warned h = elim (Bool-cases (f.le x threshold)) [
    | inl e ↦ elim (mark_crossed_only o xs threshold t (add_float x warned) (rw e at h)) [
      | inl m ↦ elim (mem_float_of_add_float t x warned m) [
        | inl k ↦ inl k
        | inr k ↦ inr (o.le_trans t x threshold k e)
      ]
      | inr k ↦ inr k
    ]
    | inr e ↦ mark_crossed_only o xs threshold t warned (rw e at h)
  ]
