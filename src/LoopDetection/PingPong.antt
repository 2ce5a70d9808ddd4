-- ===== src/LoopDetection/PingPong.antt =====
-- The ping-pong detection of policy.py: when its count of alternating calls reaches the threshold.
use exoclaw_plugins.Prelude.{
  ℕ, zero, suc, ◌+◌, ◌-◌, ◌*◌, ◌/◌, ◌≤◌, ◌<◌, ◌≡◌, ◌≢◌, refl, sym, ap, ◌∙◌, ◌↔◌, List, [], ◌∷◌,
  ◌++◌, true, ◌&&◌, Option, none, some, arith, length, length-append, length-reverse, reverse,
  append_assoc, if◌then◌else◌, get_elem?, Bool-cases, inl, inr,
}
use mathlib.Core.List.{reverse-append, reverse-reverse}
use exoclaw_plugins.LoopDetection.{Config, ToolCall, same, cycles, alternates, ping_pongs}
use exoclaw_plugins.LoopDetection.Streak.{same_iff}

-- The pairs `a, b` at the front of a reversed history.
back : ToolCall → ToolCall → List ToolCall → ℕ
back a b [] = 0
back a b (y ∷ []) = 0
back a b (y ∷ x ∷ r) = let more = suc (back a b r) in if same y b && same x a then more else 0

get_elem?-append :
    (xs ys : List ToolCall) (i : ℕ) → i < length xs → get_elem? (xs ++ ys) i ≡ get_elem? xs i
get_elem?-append [] ys i h = elim h [ ]
get_elem?-append (x ∷ xs) ys zero h = refl
get_elem?-append (x ∷ xs) ys (suc i) h = get_elem?-append xs ys i (omega arith)

get_elem?-middle :
    (xs : List ToolCall) (x : ToolCall) (ys : List ToolCall)
    → get_elem? (xs ++ (x ∷ ys)) (length xs) ≡ some x
get_elem?-middle [] x ys = refl
get_elem?-middle (z ∷ xs) x ys = get_elem?-middle xs x ys

-- The loop looks only at indices up to its own.
cycles-append :
    (xs ys : List ToolCall) (a b : ToolCall) (i : ℕ)
    → i < length xs
    → cycles (xs ++ ys) a b i ≡ cycles xs a b i
unfolding cycles
cycles-append xs ys a b zero h = refl
cycles-append xs ys a b (suc zero) h =
    rw (get_elem?-append xs ys 1 h, get_elem?-append xs ys 0 (omega arith))
cycles-append xs ys a b (suc (suc i)) h = rw (
  get_elem?-append xs ys (suc (suc i)) h,
  get_elem?-append xs ys (suc i) (omega arith),
  cycles-append xs ys a b i (omega arith),
)

get_elem?-last :
    (xs : List ToolCall) (x y : ToolCall)
    → get_elem? (xs ++ (x ∷ y ∷ [])) (suc (length xs)) ≡ some y
get_elem?-last [] x y = refl
get_elem?-last (z ∷ xs) x y = get_elem?-last xs x y

-- One round of the loop, on the last two calls.
cycles-pair :
    (xs : List ToolCall) (x y a b : ToolCall)
    → cycles (xs ++ (x ∷ y ∷ [])) a b (suc (length xs))
      ≡ (if same y b && same x a then cycles xs a b (length xs - 1) + 2 else 0)
unfolding cycles
cycles-pair [] x y a b = refl
cycles-pair (z ∷ xs) x y a b =
    rw
      (
        get_elem?-last (z ∷ xs) x y,
        get_elem?-middle (z ∷ xs) x (y ∷ []),
        cycles-append (z ∷ xs) (x ∷ y ∷ []) a b (length xs) (omega arith),
      )
      (ap (λ (k : ℕ). if same y b && same x a then cycles (z ∷ xs) a b k + 2 else 0) (omega arith))

reverse-pair :
    (x y : ToolCall) (r : List ToolCall) → reverse (y ∷ x ∷ r) ≡ reverse r ++ (x ∷ y ∷ [])
reverse-pair x y r = reverse-append (y ∷ x ∷ []) r

cycles-zero : (xs : List ToolCall) (a b : ToolCall) → cycles xs a b 0 ≡ 0
unfolding cycles
cycles-zero xs a b = refl

-- The loop over indices counts two for each pair.
cycles-back :
    (a b : ToolCall) (r : List ToolCall) → cycles (reverse r) a b (length r - 1) ≡ 2 * back a b r
unfolding back
cycles-back a b [] = cycles-zero [] a b
cycles-back a b (y ∷ []) = cycles-zero (y ∷ []) a b
cycles-back a b (y ∷ x ∷ r) =
    ap (λ (t : List ToolCall). cycles t a b (length (y ∷ x ∷ r) - 1)) (reverse-pair x y r)
    ∙ ap (λ (i : ℕ). cycles (reverse r ++ (x ∷ y ∷ [])) a b i) (omega (arith, length-reverse r))
    ∙ cycles-pair (reverse r) x y a b
    ∙ ap (λ (n : ℕ). if same y b && same x a then cycles (reverse r) a b (n - 1) + 2 else 0)
        (length-reverse r)
    ∙ rw (cycles-back a b r) (ground arith)

-- `a, b, a, b, ...`, `n` times.
abbrev pub pairs : ℕ → ToolCall → ToolCall → List ToolCall
pairs zero a b = []
pairs (suc n) a b = a ∷ b ∷ pairs n a b

pairs-snoc : (n : ℕ) (a b : ToolCall) → pairs n a b ++ (a ∷ b ∷ []) ≡ a ∷ b ∷ pairs n a b
pairs-snoc zero a b = refl
pairs-snoc (suc n) a b = rw (pairs-snoc n a b)

reverse-pairs : (n : ℕ) (a b : ToolCall) → reverse (pairs n a b) ≡ pairs n b a
reverse-pairs zero a b = refl
reverse-pairs (suc n) a b =
    reverse-pair b a (pairs n a b)
    ∙ ap (λ (t : List ToolCall). t ++ (b ∷ a ∷ [])) (reverse-pairs n a b)
    ∙ pairs-snoc n b a

back-pairs : (n : ℕ) (a b : ToolCall) (rest : List ToolCall) → n ≤ back a b (pairs n b a ++ rest)
unfolding back
back-pairs zero a b rest = omega arith
back-pairs (suc n) a b rest = ground (arith, same_iff a a, same_iff b b, back-pairs n a b rest)

pairs-back :
    (n : ℕ) (a b : ToolCall) (r : List ToolCall)
    → n ≤ back a b r
    → (rest : List ToolCall) × (r ≡ pairs n b a ++ rest)
unfolding back
pairs-back zero a b r h = (r, refl)
pairs-back (suc n) a b [] h = absurd (omega arith)
pairs-back (suc n) a b (y ∷ []) h = absurd (omega arith)
pairs-back (suc n) a b (y ∷ x ∷ r) h = elim (Bool-cases (same y b && same x a)) [
  | inl e ↦
      let (rest, q) = pairs-back n a b r (ground arith) in
      (rest, ground (arith, same_iff y b, same_iff x a, q))
  | inr e ↦ absurd (ground arith)
]

-- The history ends in `n` rounds of two different calls.
abbrev pub EndsInRounds : ℕ → List ToolCall → Type 0
EndsInRounds n history =
    (a : ToolCall) × (b : ToolCall) × (a ≢ b)
    × (before : List ToolCall) × (history ≡ before ++ pairs n a b)

alternates-inversion :
    (c : ℕ) (history : List ToolCall) (o p : Option ToolCall)
    → alternates c history o p ≡ true
    → (a : ToolCall) × (b : ToolCall) × (o ≡ some a)
      × (p ≡ some b)
      × (a ≢ b)
      × (c ≤ cycles history a b (length history - 1))
unfolding alternates
alternates-inversion c history (some a) (some b) h =
    (a, b, refl, refl, λ e. ground (arith, (same_iff a b).1 e), ground arith)
alternates-inversion c history none p h = cc
alternates-inversion c history (some a) none h = cc

cycles-history :
    (a b : ToolCall) (history : List ToolCall)
    → cycles history a b (length history - 1) ≡ 2 * back a b (reverse history)
cycles-history a b history =
    ap (λ (n : ℕ). cycles history a b (n - 1)) (sym (length-reverse history))
    ∙ ap (λ (t : List ToolCall). cycles t a b (length (reverse history) - 1))
        (sym (reverse-reverse history))
    ∙ cycles-back a b (reverse history)

-- A count of `c` calls needs `(c + 1) / 2` rounds.
rounds_of_alternates :
    (c : ℕ) (history : List ToolCall) (o p : Option ToolCall)
    → alternates c history o p ≡ true
    → EndsInRounds ((c + 1) / 2) history
rounds_of_alternates c history o p h =
    let (a, b, _, _, ne, l) = alternates-inversion c history o p h in
    let n = (c + 1) / 2 in
    let (rest, q) =
      pairs-back n a b (reverse history) (omega (arith, cycles-history a b history)) in
    (
      a,
      b,
      ne,
      reverse rest,
      sym (reverse-reverse history)
          ∙ ap reverse q
          ∙ reverse-append (pairs n b a) rest
          ∙ ap (λ (t : List ToolCall). reverse rest ++ t) (reverse-pairs n b a),
    )

cycles-rounds :
    (n : ℕ) (a b : ToolCall) (before history : List ToolCall)
    → history ≡ before ++ pairs n a b
    → 2 * n ≤ cycles history a b (length history - 1)
cycles-rounds n a b before history e =
    let q : reverse history ≡ pairs n b a ++ reverse before =
      ap reverse e
      ∙ reverse-append before (pairs n a b)
      ∙ ap (λ (t : List ToolCall). t ++ reverse before) (reverse-pairs n a b) in
    rw (cycles-history a b history, q) (omega (arith, back-pairs n a b (reverse before)))

get_elem?-from_end :
    (history xs : List ToolCall) (a b : ToolCall)
    → history ≡ xs ++ (a ∷ b ∷ [])
    → (get_elem? history (length history - 2) ≡ some a)
      × (get_elem? history (length history - 1) ≡ some b)
get_elem?-from_end history xs a b e =
    let l : length history ≡ length xs + 2 =
      ap length e ∙ omega (arith, length-append xs (a ∷ b ∷ [])) in
    let l2 : length history - 2 ≡ length xs = omega arith in
    let l1 : length history - 1 ≡ suc (length xs) = omega arith in
    (rw l2 (rw e (get_elem?-middle xs a (b ∷ []))), rw l1 (rw e (get_elem?-last xs a b)))

pub length-pairs : (n : ℕ) (a b : ToolCall) → length (pairs n a b) ≡ 2 * n
length-pairs zero a b = refl
length-pairs (suc n) a b = omega (arith, length-pairs n a b)

alternates_of_rounds :
    (c n : ℕ) (history : List ToolCall)
    → 0 < n
    → c ≤ 2 * n
    → EndsInRounds n history
    → (alternates c history
          (get_elem? history (length history - 2))
          (get_elem? history (length history - 1))
        ≡ true)
      × (c ≤ length history)
unfolding alternates
alternates_of_rounds c zero history p h rounds = elim p [ ]
alternates_of_rounds c (suc m) history p h (a, b, ne, before, e) =
    let q : history ≡ (before ++ pairs m a b) ++ (a ∷ b ∷ []) =
      e
      ∙ ap (λ (t : List ToolCall). before ++ t) (sym (pairs-snoc m a b))
      ∙ sym (append_assoc before (pairs m a b) (a ∷ b ∷ [])) in
    let (ea, eb) = get_elem?-from_end history (before ++ pairs m a b) a b q in
    (
      rw (ea, eb) (ground (arith, same_iff a b, cycles-rounds (suc m) a b before history e)),
      omega
          (arith, ap length e, length-append before (pairs (suc m) a b), length-pairs (suc m) a b),
    )

-- With a positive threshold the ping-pong detection stops the loop exactly when it is switched on,
-- the history has at least four calls, and it ends in two different calls that alternate for
-- `critical_threshold` calls (rounded up to whole rounds of two).
pub ping_pongs_iff :
    (cfg : Config) (history : List ToolCall)
    → 0 < cfg.critical_threshold
    → (ping_pongs cfg history ≡ true) ↔ (
        (cfg.detect_ping_pong ≡ true)
        × (4 ≤ length history)
        × EndsInRounds ((cfg.critical_threshold + 1) / 2) history)
unfolding ping_pongs
ping_pongs_iff cfg history h =
    let c = cfg.critical_threshold in
    (
      λ r. (
        ground arith,
        ground arith,
        rounds_of_alternates c history (get_elem? history (length history - 2))
            (get_elem? history (length history - 1)) (ground arith),
      ),
      λ (on, l, rounds).
          let (s, k) =
            alternates_of_rounds c ((c + 1) / 2) history (omega arith) (omega arith) rounds in
          ground arith,
    )
