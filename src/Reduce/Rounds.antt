-- ===== src/Reduce/Rounds.antt =====
-- How far the rounds of a tree reduction come.
use exoclaw_plugins.Prelude.{
  ℕ, zero, suc, ◌+◌, ◌-◌, ◌*◌, ◌^◌, ◌≤◌, ◌<◌, ◌≡◌, sym, subst, List, [], ◌∷◌, map, Bool-cases, ◌⊎◌,
  inl, inr, if◌then◌else◌, ltb, length, length-append, arith,
}
use exoclaw_plugins.Cron.Codec.{Json}
use exoclaw_plugins.Reduce.{
  ℤ, pos, Answer, chunks_of, answer_items, collect, exceeds, reduce_rounds,
}
use exoclaw_plugins.Reduce.Chunks.{chunks_of_lem}
use native.Mathlib.Nat.{pow-succ'}

module _ (call : ℕ → List Json → Answer) (until : ℕ) (chunk_size : ℤ) where
  abbrev pub outcome : ℕ → ℕ → List Json → List Json × ℕ
  outcome = reduce_rounds call (pos until) chunk_size

  abbrev Stopped : ℕ → List Json × ℕ → Type 0
  Stopped last r = (r.1 ≤ last) × ((length r.0 ≤ until) ⊎ (r.1 ≡ last))

  -- Whatever the tool answers, the loop ends with no more than the wanted number of items or
  -- after the rounds that were left.
  pub reduce_rounds-stops :
      (left round : ℕ) (items : List Json)
      → ((outcome left round items).1 ≤ round + left)
        × ((length (outcome left round items).0 ≤ until)
            ⊎ ((outcome left round items).1 ≡ round + left))
  unfolding reduce_rounds exceeds
  reduce_rounds-stops zero round items = (omega arith, inr (omega arith))
  reduce_rounds-stops (suc left) round items =
      let next = collect (map (call (suc round)) (chunks_of chunk_size items)) in
      let (bound, end) = reduce_rounds-stops left (suc round) next in
      let after : Stopped (round + suc left) (outcome left (suc round) next) =
        (omega (arith, bound), elim end [ inl l ↦ inl l | inr e ↦ inr (omega (arith, e)) ]) in
      elim (Bool-cases (ltb until (length items))) [
        | inl e ↦
            subst
              (λ b.
                Stopped (round + suc left)
                  (if b then outcome left (suc round) next else (items, round)))
              (sym e) after
        | inr e ↦
            subst
              (λ b.
                Stopped (round + suc left)
                  (if b then outcome left (suc round) next else (items, round)))
              (sym e) (omega arith, inl (ground arith))
      ]

halved : (c j n : ℕ) → c * (2 + j) < n + (2 + j) → 2 * c ≤ n + 1
halved zero j n h = omega arith
halved (suc c) j n h = omega arith

module _ (call : ℕ → List Json → Answer)
    (one : (n : ℕ) (chunk : List Json) → length (answer_items (call n chunk)) ≤ 1) where
  length-collect :
      (n : ℕ) (chunks : List (List Json)) → length (collect (map (call n) chunks)) ≤ length chunks
  unfolding collect
  length-collect n [] = omega arith
  length-collect n (c ∷ chunks) = omega (
    arith,
    length-append (answer_items (call n c)) (collect (map (call n) chunks)),
    one n c,
    length-collect n chunks,
  )

  round_halves :
      (n k : ℕ) (items : List Json)
      → 2 ≤ k
      → 2 * length (collect (map (call n) (chunks_of (pos k) items))) ≤ length items + 1
  round_halves n k items h =
      let chunks = chunks_of (pos k) items in
      let (_, _, few) = chunks_of_lem k items (omega arith) in
      let e : k ≡ 2 + (k - 2) = omega arith in
      omega (
        arith,
        length-collect n chunks,
        halved (length chunks) (k - 2) (length items)
            (subst (λ j. length chunks * j < length items + j) e few),
      )

  -- If every answer is at most one item and the chunks have two items at least, then
  -- the loop comes down to the wanted number from as many items as it has rounds left to halve them.
  pub reduce_rounds-converges :
      (until k left round : ℕ) (items : List Json)
      → 1 ≤ until
      → 2 ≤ k
      → length items ≤ until * 2 ^ left
      → length (reduce_rounds call (pos until) (pos k) left round items).0 ≤ until
  unfolding reduce_rounds exceeds
  reduce_rounds-converges until k zero round items u h l = omega arith
  reduce_rounds-converges until k (suc left) round items u h l =
      let next = collect (map (call (suc round)) (chunks_of (pos k) items)) in
      let grows : until * 2 ^ suc left ≡ 2 * (until * 2 ^ left) =
        rw (pow-succ' 2 left) (grind arith) in
      let after : length (reduce_rounds call (pos until) (pos k) left (suc round) next).0 ≤ until =
        reduce_rounds-converges until k left (suc round) next u h
          (omega (arith, round_halves (suc round) k items h, grows, l)) in
      elim (Bool-cases (ltb until (length items))) [
        | inl e ↦
            subst
              (λ b.
                length
                  (if b
                    then reduce_rounds call (pos until) (pos k) left (suc round) next
                    else (items, round)).0
                ≤ until)
              (sym e) after
        | inr e ↦
            subst
              (λ b.
                length
                  (if b
                    then reduce_rounds call (pos until) (pos k) left (suc round) next
                    else (items, round)).0
                ≤ until)
              (sym e) (ground arith)
      ]
