-- ===== src/TurnBudget/Thresholds/Order.antt =====
-- Sorting the thresholds, and the search of the first that is reached.
use exoclaw_plugins.Prelude.{
  ◌≡◌, Bool, true, false, none, some, List, [], ◌∷◌, arith, if◌then◌else◌, All, All-imp, Bool-cases,
  inl, inr, subst,
}
use exoclaw_plugins.TurnBudget.Floats.{Floats, IsOrdered, ◌≼◌, mem_float, insert_desc, sorted_desc}
use exoclaw_plugins.TurnBudget.Thresholds.{find_crossed}

module _ {W : Type 0} ⦃f : Floats W⦄ where
  abbrev pub IsDescending : List W → Type 0
  IsDescending [] = Unit
  IsDescending (x ∷ xs) = All (λ y. y ≼ x) xs × IsDescending xs

  pub All-insert_desc :
      (P : W → Type 0) (x : W) (xs : List W) → P x → All P xs → All P (insert_desc x xs)
  unfolding insert_desc
  All-insert_desc P x [] p h = (p, tt)
  All-insert_desc P x (y ∷ ys) p h = elim (Bool-cases (f.le y x)) [
    | inl e ↦ rw e (p, h)
    | inr e ↦ rw e (h.0, All-insert_desc P x ys p h.1)
  ]

  pub All-sorted_desc : (P : W → Type 0) (xs : List W) → All P xs → All P (sorted_desc xs)
  unfolding sorted_desc
  All-sorted_desc P [] h = tt
  All-sorted_desc P (x ∷ xs) h = All-insert_desc P x (sorted_desc xs) h.0 (All-sorted_desc P xs h.1)

  pub All-insert_desc_back :
      (P : W → Type 0) (x : W) (xs : List W) → All P (insert_desc x xs) → P x × All P xs
  unfolding insert_desc
  All-insert_desc_back P x [] h = h
  All-insert_desc_back P x (y ∷ ys) h =
      elim (f.le y x)
          as (λ (b : Bool).
            All P (if b then x ∷ y ∷ ys else y ∷ insert_desc x ys) → P x × All P (y ∷ ys)) [
              | true ↦ λ h'. h'
              | false ↦ λ h'. let (p, rest) = All-insert_desc_back P x ys h'.1 in (p, (h'.0, rest))
            ]
        h

  pub All-sorted_desc_back : (P : W → Type 0) (xs : List W) → All P (sorted_desc xs) → All P xs
  unfolding sorted_desc
  All-sorted_desc_back P [] h = tt
  All-sorted_desc_back P (x ∷ xs) h =
      let (p, rest) = All-insert_desc_back P x (sorted_desc xs) h in
      (p, All-sorted_desc_back P xs rest)

  pub insert_desc-IsDescending :
      (o : IsOrdered W) (x : W) (xs : List W) → IsDescending xs → IsDescending (insert_desc x xs)
  unfolding insert_desc
  insert_desc-IsDescending o x [] h = (tt, tt)
  insert_desc-IsDescending o x (y ∷ ys) h = elim (Bool-cases (f.le y x)) [
    | inl e ↦
        rw e
          ((e, All-imp (λ z. z ≼ y) (λ z. z ≼ x) ys (λ z below. o.le_trans z y x below e) h.0), h)
    | inr e ↦
        let above : x ≼ y = elim (o.le_total x y) [ inl p ↦ p | inr p ↦ absurd (cc) ] in
        rw e (All-insert_desc (λ z. z ≼ y) x ys above h.0, insert_desc-IsDescending o x ys h.1)
  ]

  pub sorted_desc-IsDescending : (o : IsOrdered W) (xs : List W) → IsDescending (sorted_desc xs)
  unfolding sorted_desc
  sorted_desc-IsDescending o [] = tt
  sorted_desc-IsDescending o (x ∷ xs) =
      insert_desc-IsDescending o x (sorted_desc xs) (sorted_desc-IsDescending o xs)

  -- What holds of every threshold holds of the one that fires; it had not fired and is reached.
  pub find_crossed-All :
      (P : W → Type 0) (warned : List W) (util t : W) (ts : List W)
      → All P ts
      → find_crossed warned util ts ≡ some t
      → P t × (mem_float t warned ≡ false) × (t ≼ util)
  unfolding find_crossed
  find_crossed-All P warned util t [] h e = absurd (cc)
  find_crossed-All P warned util t (x ∷ xs) h e = elim (Bool-cases (mem_float x warned)) [
    | inl m ↦ find_crossed-All P warned util t xs h.1 (ground arith)
    | inr m ↦ elim (Bool-cases (f.le x util)) [
      | inl u ↦
          let q : x ≡ t = ground arith in
          (subst P q h.0, subst (λ z. mem_float z warned ≡ false) q m, subst (λ z. z ≼ util) q u)
      | inr u ↦ find_crossed-All P warned util t xs h.1 (ground arith)
    ]
  ]

  -- A threshold that has not fired and is reached.
  abbrev pub IsPending : List W → W → W → Type 0
  IsPending warned util t = (mem_float t warned ≡ false) × (t ≼ util)

  -- In a descending list nothing that is pending lies above the one that fires.
  pub find_crossed_highest :
      (o : IsOrdered W) (warned : List W) (util t : W) (ts : List W)
      → IsDescending ts
      → find_crossed warned util ts ≡ some t
      → All (λ x. IsPending warned util x → x ≼ t) ts
  unfolding find_crossed
  find_crossed_highest o warned util t [] d e = tt
  find_crossed_highest o warned util t (x ∷ xs) d e = elim (Bool-cases (mem_float x warned)) [
    | inl m ↦ (λ p. absurd (cc (p.0)), find_crossed_highest o warned util t xs d.1 (ground arith))
    | inr m ↦ elim (Bool-cases (f.le x util)) [
      | inl u ↦
          let q : x ≡ t = ground arith in
          (
            λ p. subst (λ z. x ≼ z) q (o.le_refl x),
            All-imp (λ z. z ≼ x) (λ z. IsPending warned util z → z ≼ t) xs
                (λ z below p. subst (λ y. z ≼ y) q below) d.0,
          )
      | inr u ↦ (λ p. absurd (cc (p.1)), find_crossed_highest o warned util t xs d.1 (ground arith))
    ]
  ]

  pub find_crossed-none :
      (warned : List W) (util : W) (ts : List W)
      → find_crossed warned util ts ≡ none
      → All (λ x. ¬ IsPending warned util x) ts
  unfolding find_crossed
  find_crossed-none warned util [] e = tt
  find_crossed-none warned util (x ∷ xs) e = elim (Bool-cases (mem_float x warned)) [
    | inl m ↦ (λ p. absurd (cc (p.0)), find_crossed-none warned util xs (ground arith))
    | inr m ↦ elim (Bool-cases (f.le x util)) [
      | inl u ↦ absurd (ground arith)
      | inr u ↦ (λ p. absurd (cc (p.1)), find_crossed-none warned util xs (ground arith))
    ]
  ]
