-- ===== src/TurnBudget/Floats.antt =====
-- What tracker.py does with Python's floats, as an interface: `W` is the type of those that occur,
-- none of them a NaN.
use exoclaw_plugins.Prelude.{
  ℕ, ◌*◌, ◌/◌, ◌≡◌, ◌⊎◌, Bool, true, false, arith, leb, List, [], ◌∷◌, if◌then◌else◌, ◌&&◌,
}

pub record Floats (W : Type 0) : Type 0 where
  -- `a <= b`
  pub le : W → W → Bool
  -- `a / b` of two integers, `b` positive
  pub ratio : ℕ → ℕ → W
  -- `int(n * w)`
  pub scale : ℕ → W → ℕ
  -- `int(w * 100)`
  pub percent : W → ℕ
  -- `0.0` and `1.0`
  pub nought : W
  pub unit : W

infix 4 ◌≼◌
abbrev pub ◌≼◌ : {W : Type 0} ⦃f : Floats W⦄ → W → W → Type 0
◌≼◌ ⦃f⦄ x y = f.le x y ≡ true

-- The order of the floats that are no NaN, and that division by the same number keeps it.
pub record IsOrdered (W : Type 0) ⦃f : Floats W⦄ : Type 0 where
  pub le_refl : (x : W) → x ≼ x
  pub le_trans : (x y z : W) → x ≼ y → y ≼ z → x ≼ z
  pub le_total : (x y : W) → (x ≼ y) ⊎ (y ≼ x)

-- The interface can be filled: whole thousandths, rounded down.
abbrev pub thousandths : Floats ℕ
thousandths = record {
  le = leb;
  ratio = λ a b. a * 1000 / b;
  scale = λ n w. n * w / 1000;
  percent = λ w. w / 10;
  nought = 0;
  unit = 1000;
}

pub thousandths-IsOrdered : IsOrdered ℕ ⦃f = thousandths⦄
thousandths-IsOrdered = record {
  le_refl = λ x. ground arith;
  le_trans = λ x y z h k. ground arith;
  le_total = λ x y. ground arith;
}

module _ {W : Type 0} ⦃f : Floats W⦄ where
  -- `t in s`, for a set of floats: equal ones are `<=` both ways.
  unfoldable pub mem_float : W → List W → Bool
  mem_float t [] = false
  mem_float t (x ∷ s) = let rest = mem_float t s in if f.le x t && f.le t x then true else rest

  -- `max` of two ratios: the first unless the second is larger.
  abbrev pub max_float : W → W → W
  max_float a b = if f.le b a then a else b

  -- `sorted(l, reverse=True)`
  unfoldable pub insert_desc : W → List W → List W
  insert_desc x [] = x ∷ []
  insert_desc x (y ∷ ys) = let rest = insert_desc x ys in if f.le y x then x ∷ y ∷ ys else y ∷ rest

  unfoldable pub sorted_desc : List W → List W
  sorted_desc [] = []
  sorted_desc (x ∷ xs) = insert_desc x (sorted_desc xs)
