-- ===== src/LoopDetection/Streak.antt =====
-- The repeat detection of policy.py: when its streak reaches the threshold.
use exoclaw_plugins.Prelude.{
  ℕ, zero, suc, ◌≤◌, ◌<◌, ◌≡◌, refl, sym, ap, ◌∙◌, ◌↔◌, List, [], ◌∷◌, ◌++◌, true, arith, length,
  length-append, replicate, reverse, str_eq_iff, Bool-cases, inl, inr,
}
use mathlib.Core.List.{reverse-append, reverse-cons, reverse-reverse}
use exoclaw_plugins.LoopDetection.{Config, ToolCall, same, streak, has_streak, repeats}

pub same_iff : (a b : ToolCall) → (same a b ≡ true) ↔ (a ≡ b)
same_iff a b = ground (arith, str_eq_iff a.name b.name, str_eq_iff a.args_hash b.args_hash)

-- The streak is the length of the run of `x` at the front.
streak-replicate :
    (x : ToolCall) (n : ℕ) (rest : List ToolCall) → n ≤ streak x (replicate n x ++ rest)
unfolding streak
streak-replicate x zero rest = omega arith
streak-replicate x (suc n) rest = ground (arith, same_iff x x, streak-replicate x n rest)

replicate-streak :
    (x : ToolCall) (n : ℕ) (xs : List ToolCall)
    → n ≤ streak x xs
    → (rest : List ToolCall) × (xs ≡ replicate n x ++ rest)
unfolding streak
replicate-streak x zero xs h = (xs, refl)
replicate-streak x (suc n) [] h = absurd (omega arith)
replicate-streak x (suc n) (y ∷ ys) h = elim (Bool-cases (same y x)) [
  | inl e ↦
      let (rest, q) = replicate-streak x n ys (ground arith) in (rest, cc ((same_iff y x).0 e))
  | inr e ↦ absurd (ground arith)
]

replicate-snoc : (n : ℕ) (x : ToolCall) → replicate n x ++ (x ∷ []) ≡ x ∷ replicate n x
replicate-snoc zero x = refl
replicate-snoc (suc n) x = rw (replicate-snoc n x)

reverse-replicate : (n : ℕ) (x : ToolCall) → reverse (replicate n x) ≡ replicate n x
reverse-replicate zero x = refl
reverse-replicate (suc n) x =
    reverse-cons x (replicate n x)
    ∙ ap (λ (t : List ToolCall). t ++ (x ∷ [])) (reverse-replicate n x)
    ∙ replicate-snoc n x

pub length-replicate : (n : ℕ) (x : ToolCall) → length (replicate n x) ≡ n
length-replicate zero x = refl
length-replicate (suc n) x = ap suc (length-replicate n x)

-- The history ends in `n` calls that are all the same.
abbrev pub EndsInRun : ℕ → List ToolCall → Type 0
EndsInRun n history =
    (x : ToolCall) × (before : List ToolCall) × (history ≡ before ++ replicate n x)

run_of_streak :
    (n : ℕ) (history r : List ToolCall)
    → reverse history ≡ r
    → has_streak n r ≡ true
    → EndsInRun n history
unfolding has_streak
run_of_streak n history [] e h = cc
run_of_streak n history (x ∷ xs) e h =
    let (rest, q) = replicate-streak x n (x ∷ xs) (ground arith) in
    (
      x,
      reverse rest,
      sym (reverse-reverse history)
          ∙ ap reverse (e ∙ q)
          ∙ reverse-append (replicate n x) rest
          ∙ ap (λ (t : List ToolCall). reverse rest ++ t) (reverse-replicate n x),
    )

streak_of_run :
    (n : ℕ) (history : List ToolCall)
    → 0 < n
    → EndsInRun n history
    → (has_streak n (reverse history) ≡ true) × (n ≤ length history)
unfolding has_streak
streak_of_run zero history h run = elim h [ ]
streak_of_run (suc m) history h (x, before, e) = (
  rw (e, reverse-append before (replicate (suc m) x), reverse-replicate (suc m) x)
      (ground (arith, streak-replicate x (suc m) (reverse before))),
  rw (e, length-append before (replicate (suc m) x), length-replicate) (omega arith),
)

-- With a positive threshold the repeat detection stops the loop exactly when it is switched on and
-- the history ends in `critical_threshold` equal calls.
pub repeats_iff :
    (cfg : Config) (history : List ToolCall)
    → 0 < cfg.critical_threshold
    → (repeats cfg history ≡ true)
      ↔ ((cfg.detect_repeat ≡ true) × EndsInRun cfg.critical_threshold history)
unfolding repeats
repeats_iff cfg history h = (
  λ r. (
    ground arith,
    run_of_streak cfg.critical_threshold history (reverse history) refl (ground arith),
  ),
  λ (on, run). let (s, l) = streak_of_run cfg.critical_threshold history h run in ground arith,
)
