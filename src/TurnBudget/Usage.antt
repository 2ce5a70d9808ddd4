-- ===== src/TurnBudget/Usage.antt =====
-- `_coerce_total_tokens` and `_disallow_clause` of tracker.py.
use Prim.Native.String.{◌++◌}
use exoclaw_plugins.Prelude.{
  ℕ, suc, ◌+◌, ◌-◌, String, Option, none, some, List, [], ◌∷◌, Dict, lookup, if◌then◌else◌, ◌==◌,
}
use exoclaw_plugins.TurnBudget.Floats.{Floats}

-- `usage.get(a) or usage.get(b) or 0`
abbrev pub or_zero : Option ℕ → Option ℕ → ℕ
or_zero (some (suc n)) other = suc n
or_zero _ none = 0
or_zero _ (some n) = n

-- `raw`: the reported total, or the two parts of it.
unfoldable pub raw_tokens : Dict ℕ → ℕ
raw_tokens usage = elim (lookup "total_tokens" usage) [
  | some total ↦ total
  | none ↦
      or_zero (lookup "prompt_tokens" usage) (lookup "input_tokens" usage)
      + or_zero (lookup "completion_tokens" usage) (lookup "output_tokens" usage)
]

unfoldable pub cached_tokens : Dict ℕ → ℕ
cached_tokens usage =
    or_zero (lookup "cached_tokens" usage) (lookup "cache_read_input_tokens" usage)

module _ {W : Type 0} ⦃f : Floats W⦄ where
  -- `raw - discount`, where `discount` is `cached - int(cached * weight)` and may be negative, and
  -- 0 where that is not positive.
  abbrev pub discounted : ℕ → ℕ → W → ℕ
  discounted raw cached weight = raw + f.scale cached weight - cached

  unfoldable pub coerce_total_tokens : Option (Dict ℕ) → W → ℕ
  coerce_total_tokens none weight = 0
  coerce_total_tokens (some []) weight = 0
  coerce_total_tokens (some (e ∷ usage)) weight =
      let raw = raw_tokens (e ∷ usage) in
      let cached = cached_tokens (e ∷ usage) in
      if cached == 0 then raw else discounted raw cached weight

-- `", ".join(names)`
unfoldable pub join_comma : List String → String
join_comma [] = ""
join_comma (x ∷ []) = x
join_comma (x ∷ y ∷ xs) = x ++ ", " ++ join_comma (y ∷ xs)

-- `disallow[:-1]` and `disallow[-1]`, with the first name apart.
unfoldable pub but_last : String → List String → List String
but_last x [] = []
but_last x (y ∷ ys) = x ∷ but_last y ys

unfoldable pub last : String → List String → String
last x [] = x
last x (y ∷ ys) = last y ys

unfoldable pub disallow_clause : List String → String
disallow_clause [] = "Tools are disabled"
disallow_clause (a ∷ []) = "Tool " ++ a ++ " is disabled"
disallow_clause (a ∷ b ∷ []) = "Tools " ++ (a ++ " and " ++ b) ++ " are disabled"
disallow_clause (a ∷ b ∷ c ∷ rest) =
    let names = b ∷ c ∷ rest in
    "Tools " ++ (join_comma (but_last a names) ++ ", and " ++ last a names) ++ " are disabled"
