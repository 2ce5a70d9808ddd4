-- ===== src/TurnBudget/Turn/Firing.antt =====
-- Which warnings a turn gives, whatever calls are recorded in between.
use exoclaw_plugins.Prelude.{
  ℕ, String, ◌≡◌, refl, Bool, true, false, not, ◌&&◌, Option, none, some, List, [], ◌∷◌, Dict,
  arith, All, All-imp, Bool-cases, Option-cases, inl, inr, ◌⊎◌, subst, sym,
}
use exoclaw_plugins.TurnBudget.Floats.{Floats, IsOrdered, ◌≼◌, mem_float}
use exoclaw_plugins.TurnBudget.Config.{FormatArgs}
use exoclaw_plugins.TurnBudget.Thresholds.{cross}
use exoclaw_plugins.TurnBudget.Thresholds.Fires.{cross-Fires, cross_All}
use exoclaw_plugins.TurnBudget.Turn.{
  Turn, is_at_limit, record_usage, utilization, fire, consume_threshold_warning,
}

-- What the wrapper calls in the course of a turn.
pub data Call : Type 0 where
  recorded : Option (Dict ℕ) → Option String → Call
  consumed : Bool → Call

module _ {W : Type 0} ⦃f : Floats W⦄ (format : FormatArgs → String) where
  -- The threshold that a message is about.
  abbrev pub fired : Option String → Option W → List W
  fired none last = []
  fired (some message) none = []
  fired (some message) (some t) = t ∷ []

  -- The tracker after the calls, and the thresholds that fired.
  unfoldable pub run : List Call → Turn W → Turn W × List W
  run [] t = (t, [])
  run (recorded usage model ∷ calls) t = run calls (record_usage usage model t)
  run (consumed force ∷ calls) t =
      let (t1, message) = consume_threshold_warning format force t in
      let (t2, rest) = run calls t1 in
      elim (fired message t1.last_consumed_threshold) [ [] ↦ (t2, rest) | x ∷ _ ↦ (t2, x ∷ rest) ]

  -- A call gives no warning and changes nothing, or it fires the threshold that `cross` finds.
  pub consume-cases :
      (force : Bool) (t : Turn W)
      → (consume_threshold_warning format force t ≡ (t, none))
        ⊎ ((x : W) × (warned : List W) × (cross t.config.warning_thresholds
                (utilization t)
                t.warned_thresholds
              ≡ some (x, warned))
            × (consume_threshold_warning format force t
                ≡ ((fire format (x, warned) t).0, some (fire format (x, warned) t).1)))
  unfolding consume_threshold_warning
  consume-cases force t = elim (Bool-cases (not force && is_at_limit t)) [
    | inl quiet ↦ inl (rw quiet refl)
    | inr loud ↦
        elim (Option-cases
          (cross t.config.warning_thresholds (utilization t) t.warned_thresholds)) [
            | inl e ↦ inl (rw (loud, e) refl)
            | inr (crossed, e) ↦ inr (crossed.0, crossed.1, e, rw (loud, e) refl)
          ]
  ]

  run-silent :
      (force : Bool) (calls : List Call) (t : Turn W)
      → consume_threshold_warning format force t ≡ (t, none)
      → (run (consumed force ∷ calls) t).1 ≡ (run calls t).1
  unfolding run
  run-silent force calls t e = ground arith

  run-fire :
      (force : Bool) (calls : List Call) (t : Turn W) (x : W) (warned : List W)
      → consume_threshold_warning format force t
        ≡ ((fire format (x, warned) t).0, some (fire format (x, warned) t).1)
      → (run (consumed force ∷ calls) t).1 ≡ x ∷ (run calls (fire format (x, warned) t).0).1
  unfolding run fire
  run-fire force calls t x warned e = ground arith

  fire-fields :
      (x : W) (warned : List W) (t : Turn W)
      → ((fire format (x, warned) t).0.config ≡ t.config)
        × ((fire format (x, warned) t).0.warned_thresholds ≡ warned)
  unfolding fire
  fire-fields x warned t = (refl, refl)

  -- The fired thresholds are among the configured ones.
  run-All :
      (P : W → Type 0) (calls : List Call) (t : Turn W)
      → All P t.config.warning_thresholds
      → All P (run calls t).1
  unfolding run record_usage
  run-All P [] t all = tt
  run-All P (recorded usage model ∷ calls) t all = run-All P calls (record_usage usage model t) all
  run-All P (consumed force ∷ calls) t all = elim (consume-cases force t) [
    | inl e ↦ subst (All P) (sym (run-silent force calls t e)) (run-All P calls t all)
    | inr (x, warned, c, e) ↦
        let t' = (fire format (x, warned) t).0 in
        subst (All P) (sym (run-fire force calls t x warned e)) (
          cross_All P t.config.warning_thresholds (utilization t) t.warned_thresholds x warned all
              c,
          run-All P calls t' (rw (fire-fields x warned t).0 all),
        )
  ]

  -- None of them had fired before.
  run-new :
      (o : IsOrdered W) (calls : List Call) (t : Turn W)
      → All (λ x. mem_float x t.warned_thresholds ≡ false) (run calls t).1
  unfolding run record_usage
  run-new o [] t = tt
  run-new o (recorded usage model ∷ calls) t = run-new o calls (record_usage usage model t)
  run-new o (consumed force ∷ calls) t = elim (consume-cases force t) [
    | inl e ↦
        subst (All (λ x. mem_float x t.warned_thresholds ≡ false))
          (sym (run-silent force calls t e)) (run-new o calls t)
    | inr (x, warned, c, e) ↦
        let t' = (fire format (x, warned) t).0 in
        let fires =
          cross-Fires o t.config.warning_thresholds (utilization t) t.warned_thresholds x warned
            c in
        subst (All (λ y. mem_float y t.warned_thresholds ≡ false))
          (sym (run-fire force calls t x warned e))
          (
            fires.pending.0,
            All-imp (λ y. mem_float y t'.warned_thresholds ≡ false)
                (λ y. mem_float y t.warned_thresholds ≡ false) (run calls t').1
                (λ y new. elim (Bool-cases (mem_float y t.warned_thresholds)) [
                  | inl old ↦ absurd (cc (fires.kept y old, (fire-fields x warned t).1))
                  | inr n ↦ n
                ])
                (run-new o calls t'),
          )
  ]

  -- Each lies strictly above all that fired before it.
  abbrev pub IsAscending : List W → Type 0
  IsAscending [] = Unit
  IsAscending (x ∷ xs) = All (λ y. f.le y x ≡ false) xs × IsAscending xs

  -- However usage is recorded and warnings are consumed, by force or not, the thresholds that fire
  -- in the course of a turn strictly rise: none fires twice, and none fires after a higher one.
  pub run-IsAscending :
      (o : IsOrdered W) (calls : List Call) (t : Turn W) → IsAscending (run calls t).1
  unfolding run record_usage
  run-IsAscending o [] t = tt
  run-IsAscending o (recorded usage model ∷ calls) t =
      run-IsAscending o calls (record_usage usage model t)
  run-IsAscending o (consumed force ∷ calls) t = elim (consume-cases force t) [
    | inl e ↦ subst IsAscending (sym (run-silent force calls t e)) (run-IsAscending o calls t)
    | inr (x, warned, c, e) ↦
        let t' = (fire format (x, warned) t).0 in
        let fires =
          cross-Fires o t.config.warning_thresholds (utilization t) t.warned_thresholds x warned
            c in
        subst IsAscending (sym (run-fire force calls t x warned e)) (
          above x warned t'.warned_thresholds (fire-fields x warned t).1 (run calls t').1
              (run-All (λ y. y ≼ x → mem_float y warned ≡ true) calls t'
                (rw (fire-fields x warned t).0 fires.marked))
              (run-new o calls t'),
          run-IsAscending o calls t',
        )
  ]
    where
      above :
          (x : W) (warned w : List W) (q : w ≡ warned) (ys : List W)
          → All (λ y. y ≼ x → mem_float y warned ≡ true) ys
          → All (λ y. mem_float y w ≡ false) ys
          → All (λ y. f.le y x ≡ false) ys
      above x warned w q [] h n = tt
      above x warned w q (y ∷ ys) h n = (
        elim (Bool-cases (f.le y x)) [ inl e ↦ absurd (cc (h.0 e, n.0, q)) | inr e ↦ e ],
        above x warned w q ys h.1 n.1,
      )
