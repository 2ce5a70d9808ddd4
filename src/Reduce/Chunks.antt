-- ===== src/Reduce/Chunks.antt =====
-- The chunks of a list make it up again.
use exoclaw_plugins.Prelude.{
  ℕ, zero, suc, ◌+◌, ◌-◌, ◌*◌, ◌≤◌, ◌<◌, ◌≡◌, sym, subst, ◌∙◌, ap, List, [], ◌∷◌, ◌++◌, length,
  take, drop, drop-drop, take-append-drop, length-drop, All, arith,
}
use exoclaw_plugins.Conversation.Policy.Tail.{length-take}
use exoclaw_plugins.Conversation.Policy.Boundary.{drop_all}
use exoclaw_plugins.Reduce.{pos, range_count, slices, chunks_of}
use native.Mathlib.Nat.{div-add-mod, mod-lt}

module _ {A : Type 0} where
  unfoldable pub concat : List (List A) → List A
  concat [] = []
  concat (xs ∷ xss) = xs ++ concat xss

  concat-slices :
      (k rounds i : ℕ) (xs : List A)
      → length xs ≤ i + rounds * k
      → concat (slices k rounds i xs) ≡ drop i xs
  unfolding concat slices
  concat-slices k zero i xs h = sym (drop_all i xs (omega arith))
  concat-slices k (suc rounds) i xs h =
      ap (λ t. take k (drop i xs) ++ t)
        (concat-slices k rounds (i + k) xs (omega arith) ∙ sym (drop-drop k i xs))
      ∙ take-append-drop k (drop i xs)

range : (n k : ℕ) → 1 ≤ k → (n ≤ range_count n k * k) × (range_count n k * k < n + k)
unfolding range_count
range n k h = omega (arith, div-add-mod (n + (k - 1)) k, mod-lt (n + (k - 1)) h)

module _ {A : Type 0} where
  abbrev pub Sized : ℕ → List A → Type 0
  Sized k xs = (1 ≤ length xs) × (length xs ≤ k)

  slices-Sized :
      (k rounds i : ℕ) (xs : List A)
      → 1 ≤ k
      → i + rounds * k < length xs + k
      → All (Sized k) (slices k rounds i xs)
  unfolding slices
  slices-Sized k zero i xs h b = tt
  slices-Sized k (suc rounds) i xs h b = (
    omega (arith, length-take k (drop i xs), length-drop i xs, h, b),
    slices-Sized k rounds (i + k) xs h (omega arith),
  )

  length-slices : (k rounds i : ℕ) (xs : List A) → length (slices k rounds i xs) ≡ rounds
  unfolding slices
  length-slices k zero i xs = omega arith
  length-slices k (suc rounds) i xs = omega (arith, length-slices k rounds (i + k) xs)

  -- For a positive size, the chunks of a list make it up in order, none is empty or longer than
  -- the size, and there are no more of them than are needed.
  pub chunks_of_lem :
      (k : ℕ) (xs : List A)
      → 1 ≤ k
      → (concat (chunks_of (pos k) xs) ≡ xs)
        × All (Sized k) (chunks_of (pos k) xs)
        × (length (chunks_of (pos k) xs) * k < length xs + k)
  unfolding chunks_of
  chunks_of_lem k xs h =
      let (lo, hi) = range (length xs) k h in
      let rounds = range_count (length xs) k in
      (
        concat-slices k rounds 0 xs (omega (arith, lo)),
        slices-Sized k rounds 0 xs h (omega (arith, hi)),
        subst (λ n. n * k < length xs + k) (sym (length-slices k rounds 0 xs)) hi,
      )
