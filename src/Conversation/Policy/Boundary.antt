-- ===== src/Conversation/Policy/Boundary.antt =====
-- Where `_repair_boundary` cuts the log.
use exoclaw_plugins.Prelude.{
  ℕ, zero, suc, ◌+◌, ◌-◌, ◌≤◌, ◌<◌, ◌≡◌, refl, sym, ◌∙◌, ap, subst, String, List, [], ◌∷◌, Option,
  none, some, true, false, Bool-cases, inl, inr, ltb, leb, length, take, drop, drop-drop,
  length-drop, arith,
}
use exoclaw_plugins.Conversation.{Message, is_role}
use exoclaw_plugins.Conversation.Session.{Store, log}
use exoclaw_plugins.Conversation.Session.Files.{stream, load_range, message_at, first}
use exoclaw_plugins.Conversation.Policy.{opens, walk, previous, repair_boundary}

module _ {A : Type 0} where
  pub take_all : (n : ℕ) (xs : List A) → length xs ≤ n → take n xs ≡ xs
  take_all zero [] h = refl
  take_all zero (x ∷ xs) h = absurd (omega arith)
  take_all (suc n) [] h = refl
  take_all (suc n) (x ∷ xs) h = rw (take_all n xs (omega arith))

  pub drop_next : (i : ℕ) (xs ys : List A) (x : A) → drop i xs ≡ x ∷ ys → drop (i + 1) xs ≡ ys
  drop_next i xs ys x e = sym (drop-drop 1 i xs) ∙ ap (drop 1) e

  pub drop_all : (n : ℕ) (xs : List A) → length xs ≤ n → drop n xs ≡ []
  drop_all zero [] h = refl
  drop_all zero (x ∷ xs) h = absurd (omega arith)
  drop_all (suc n) [] h = refl
  drop_all (suc n) (x ∷ xs) h = drop_all n xs (omega arith)

first-drop :
    (i : ℕ) (xs ys : List Message) (x : Message)
    → drop i xs ≡ x ∷ ys
    → first (drop i (take (i + 1) xs)) ≡ some x
unfolding first
first-drop zero (z ∷ xs) ys x e = ap first e
first-drop (suc i) (z ∷ xs) ys x e =
    let p : suc i + 1 ≡ suc (i + 1) = omega arith in rw p (first-drop i xs ys x e)
first-drop zero [] ys x e = absurd (cc)
first-drop (suc i) [] ys x e = absurd (cc)

-- The log may be cut between a message and those after it: there are none, or the first of them is no tool result and
-- the message before it has no calls.
unfoldable pub IsCut : Option Message → List Message → Type 0
IsCut prev [] = Unit
IsCut prev (m ∷ ms) = (is_role "tool" m ≡ false) × (opens prev ≡ false)

module _ (key : String) (s : Store) where
  CutsAt : ℕ → Type 0
  CutsAt i = IsCut (previous key i s) (drop i (log key s))

  abbrev Walked : ℕ → List Message → ℕ → Type 0
  Walked i ms r = (i ≤ r) × (r ≤ i + length ms) × CutsAt r × ((j : ℕ) → i ≤ j → j < r → ¬ CutsAt j)

  later :
      (i r : ℕ)
      → ¬ CutsAt i
      → ((j : ℕ) → i + 1 ≤ j → j < r → ¬ CutsAt j)
      → (j : ℕ) → i ≤ j
      → j < r
      → ¬ CutsAt j
  later i r here after j lo hi = elim (Bool-cases (leb j i)) [
    | inl same ↦ let p : i ≡ j = ground (arith, same, lo) in subst (λ k. ¬ CutsAt k) p here
    | inr more ↦ after j (ground (arith, more)) hi
  ]

  -- The two messages at a place where the log may not be cut.
  not_cut :
      (i : ℕ) (prev : Option Message) (m : Message) (ms : List Message)
      → drop i (log key s) ≡ m ∷ ms
      → prev ≡ previous key i s
      → ¬ ((is_role "tool" m ≡ false) × (opens prev ≡ false))
      → ¬ CutsAt i
  unfolding CutsAt IsCut
  not_cut i prev m ms e p h c =
      let at_message : IsCut (previous key i s) (m ∷ ms) =
        subst (λ l. IsCut (previous key i s) l) e c in
      h (at_message.0, ap opens p ∙ at_message.1)

  previous_next :
      (i : ℕ) (ms : List Message) (m : Message)
      → drop i (log key s) ≡ m ∷ ms
      → previous key (i + 1) s ≡ some m
  unfolding previous message_at stream load_range
  previous_next i ms m e =
      let t : ltb 0 (i + 1) ≡ true = ground arith in
      let p : i + 1 - 1 ≡ i = omega arith in rw (t, p) (first-drop i (log key s) ms m e)

  walk-Walked :
      (ms : List Message) (prev : Option Message) (i : ℕ)
      → drop i (log key s) ≡ ms
      → prev ≡ previous key i s
      → Walked i ms (walk prev ms i)
  unfolding walk IsCut CutsAt
  walk-Walked [] prev i e p = (
    omega arith,
    omega arith,
    subst (λ t. IsCut (previous key i s) t) (sym e) tt,
    λ j lo hi. absurd (omega (arith, lo, hi)),
  )
  walk-Walked (m ∷ ms) prev i e p =
      let (lo, hi, cut, least) =
        walk-Walked ms (some m) (i + 1) (drop_next i (log key s) ms m e)
          (sym (previous_next i ms m e)) in
      let on : ¬ ((is_role "tool" m ≡ false) × (opens prev ≡ false))
          → Walked i (m ∷ ms) (walk (some m) ms (i + 1)) =
        λ h. (
          omega arith,
          omega arith,
          cut,
          later i (walk (some m) ms (i + 1)) (not_cut i prev m ms e p h) least,
        ) in
      elim (Bool-cases (is_role "tool" m)) [
        | inl t ↦ rw t (on (λ c. cc (t, c.0)))
        | inr t ↦ rw t (elim (Bool-cases (opens prev)) [
          | inl o ↦ rw o (on (λ c. cc (o, c.1)))
          | inr o ↦ rw o (
            omega arith,
            omega arith,
            subst (λ l. IsCut (previous key i s) l) (sym e) (t, ap opens (sym p) ∙ o),
            λ j lo hi. absurd (omega (arith, lo, hi)),
          )
        ])
      ]

  -- For a boundary within the log and its exact count, the boundary that _repair_boundary answers is the
  -- first one from the given one on, up to the end of the log, at which the log may be cut: no message
  -- is left after it, or the first message after it is no tool result and the message before
  -- it is no assistant message with calls.
  pub repair_boundary-IsCut :
      (boundary : ℕ)
      → boundary ≤ length (log key s)
      → let r = repair_boundary key boundary (length (log key s)) s in
        (boundary ≤ r)
        × (r ≤ length (log key s))
        × IsCut (previous key r s) (stream key r none s)
        × ((i : ℕ) → boundary ≤ i → i < r → ¬ IsCut (previous key i s) (stream key i none s))
  unfolding repair_boundary stream load_range CutsAt
  repair_boundary-IsCut boundary h = elim (Bool-cases (leb (length (log key s)) boundary)) [
    | inl e ↦ rw e (
      omega arith,
      h,
      subst (λ l. IsCut (previous key boundary s) l)
          (sym (drop_all boundary (log key s) (ground arith))) (unfold IsCut in tt),
      λ i lo hi. absurd (omega (arith, lo, hi)),
    )
    | inr e ↦
        rw (e, take_all (length (log key s)) (log key s) (omega arith))
          (let (lo, hi, cut, least) =
              walk-Walked (drop boundary (log key s)) (previous key boundary s) boundary refl
                refl in
            (lo, omega (arith, hi, h, length-drop boundary (log key s)), cut, least))
  ]
