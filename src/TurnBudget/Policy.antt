-- ===== src/TurnBudget/Policy.antt =====
-- `TurnBudgetPolicy` of policy.py, on the tracker that it is paired with.
use exoclaw_plugins.Prelude.{
  ℕ, suc, ◌≡◌, ◌↔◌, String, Bool, true, false, ◌&&◌, Option, none, some, List, [], ◌∷◌, Dict, arith,
  if◌then◌else◌, ◌==◌,
}
use exoclaw_plugins.TurnBudget.Floats.{Floats}
use exoclaw_plugins.TurnBudget.Config.{Enforcement, cutoff, FormatArgs}
use exoclaw_plugins.TurnBudget.Turn.{Turn, init, reset, is_at_limit, record_usage, at_limit_message}

abbrev pub is_cutoff : Enforcement → Bool
is_cutoff cutoff = true
is_cutoff _ = false

module _ {W : Type 0} where
  -- `__init__`: the enforcement that is given, or the tracker's.
  unfoldable pub choose_enforcement : Option Enforcement → Turn W → Enforcement
  choose_enforcement none t = t.config.enforcement
  choose_enforcement (some e) t = e

  unfoldable pub should_continue : Enforcement → ℕ → Turn W → Turn W × Bool
  should_continue enforcement iteration t =
      if iteration == 0
      then (reset t, true)
      else if is_cutoff enforcement && is_at_limit t
      then (t, false)
      else (t, true)

  unfoldable pub on_limit_reached : ⦃f : Floats W⦄ → (FormatArgs → String) → Turn W → String
  on_limit_reached format t = at_limit_message format t

  -- Iteration 0 always goes on, with the tracker as it was built; later iterations leave the tracker
  -- alone and stop exactly under `CUTOFF` at the limit.
  pub should_continue_lem :
      (e : Enforcement) (iteration : ℕ) (t : Turn W)
      → (should_continue e 0 t ≡ (init t.config, true))
        × ((should_continue e (suc iteration) t).0 ≡ t)
        × (((should_continue e (suc iteration) t).1 ≡ false)
            ↔ ((e ≡ cutoff) × (is_at_limit t ≡ true)))
  unfolding should_continue reset init
  should_continue_lem cutoff iteration t = ground arith
  should_continue_lem _ iteration t = ground arith

module _ {W : Type 0} ⦃f : Floats W⦄ where
  -- The calls that a turn records.
  unfoldable pub record_all : List (Option (Dict ℕ) × Option String) → Turn W → Turn W
  record_all [] t = t
  record_all (c ∷ calls) t = record_all calls (record_usage c.0 c.1 t)

  record_usage-is_at_limit :
      (usage : Option (Dict ℕ)) (model : Option String) (t : Turn W)
      → is_at_limit t ≡ true
      → is_at_limit (record_usage usage model t) ≡ true
  unfolding is_at_limit record_usage
  record_usage-is_at_limit usage model t h = ground arith

  -- Once a turn is at its limit it stays there until the tracker is reset, whatever is recorded.
  pub record_all-is_at_limit :
      (calls : List (Option (Dict ℕ) × Option String)) (t : Turn W)
      → is_at_limit t ≡ true
      → is_at_limit (record_all calls t) ≡ true
  unfolding record_all
  record_all-is_at_limit [] t h = h
  record_all-is_at_limit (c ∷ calls) t h =
      record_all-is_at_limit calls (record_usage c.0 c.1 t) (record_usage-is_at_limit c.0 c.1 t h)
