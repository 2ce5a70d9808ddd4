-- ===== src/TurnBudget/Daily/Restart.antt =====
-- The daily tracker across restarts of the process: what is stored against what is in memory.
use exoclaw_plugins.Prelude.{
  ℕ, ◌≡◌, ◌≢◌, refl, ◌∙◌, sym, ap, ◌⊎◌, inl, inr, String, Bool, true, not, ◌&&◌, Option, none, some,
  List, [], ◌∷◌, Dict, arith, ◌==◌, ==_iff, Bool-cases, Option-cases, subst,
}
use mathlib.Core.Option.{some-injective}
use exoclaw_plugins.TurnBudget.Floats.{Floats, mem_float, sorted_desc}
use exoclaw_plugins.TurnBudget.Config.{DailyConfig, FormatArgs}
use exoclaw_plugins.TurnBudget.Thresholds.{cross}
use exoclaw_plugins.TurnBudget.Daily.{
  Saved, Daily, day_key, restore, init, persist, saved_of, maybe_auto_reset, record_usage,
  is_at_limit, utilization, consume_threshold_warning, consume_at_limit_warning, fire,
  counts_against_budget,
}
use exoclaw_plugins.TurnBudget.Daily.Marks.{mem_float-sorted_desc, mem_float-reverse}

-- The calls that change the tracker.
pub data Call : Type 0 where
  resets : ℕ → Call
  records : Option (Dict ℕ) → Option String → Call
  warns : Bool → Call
  warns_at_limit : Call

module _ {W : Type 0} ⦃f : Floats W⦄ where
  -- The stored state is the one in memory, the thresholds as a set.
  pub record Agrees (s : Saved W) (d : Daily W) : Type 0 where
    pub day : s.day_key ≡ d.day
    pub tokens : s.total_tokens ≡ d.total_tokens
    pub pending : s.at_limit_warning_pending ≡ d.at_limit_warning_pending
    pub warned : (t : W) → mem_float t s.warned_thresholds ≡ mem_float t d.warned_thresholds

  -- Nothing of this day is stored, and the tracker is as it began.
  pub record IsUntouched (d : Daily W) : Type 0 where
    pub tokens : d.total_tokens ≡ 0
    pub warned : d.warned_thresholds ≡ []
    pub pending : d.at_limit_warning_pending ≡ true
    pub stale : (s : Saved W) → d.store ≡ some s → s.day_key ≢ d.day

  abbrev pub IsStored : Daily W → Type 0
  IsStored d = ((s : Saved W) × (d.store ≡ some s) × Agrees s d) ⊎ IsUntouched d

  persist-IsStored : (d : Daily W) → IsStored (persist d)
  unfolding persist
  persist-IsStored d = inl (
    saved_of d,
    refl,
    record {
      day = refl;
      tokens = refl;
      pending = refl;
      warned = λ t.
          mem_float-reverse t (sorted_desc d.warned_thresholds)
          ∙ mem_float-sorted_desc t d.warned_thresholds;
    },
  )

  abbrev resumed : Saved W → Daily W → Daily W
  resumed s d = record d {
    total_tokens = s.total_tokens;
    warned_thresholds = s.warned_thresholds;
    at_limit_warning_pending = s.at_limit_warning_pending;
  }

  restore-none : (d : Daily W) → d.store ≡ none → restore d ≡ d
  unfolding restore
  restore-none d e = ground arith

  restore_same :
      (d : Daily W) (s : Saved W) → d.store ≡ some s → s.day_key ≡ d.day → restore d ≡ resumed s d
  unfolding restore
  restore_same d s e same = ground arith

  restore_stale : (d : Daily W) (s : Saved W) → d.store ≡ some s → s.day_key ≢ d.day → restore d ≡ d
  unfolding restore
  restore_stale d s e other = ground arith

  restore-IsStored :
      (d : Daily W)
      → d.total_tokens ≡ 0
      → d.warned_thresholds ≡ []
      → d.at_limit_warning_pending ≡ true
      → IsStored (restore d)
  restore-IsStored d a b c = elim (Option-cases d.store) [
    | inl e ↦
        subst IsStored (sym (restore-none d e))
          (inr (record { tokens = a; warned = b; pending = c; stale = λ s q. absurd (cc (q, e)) }))
    | inr (s, e) ↦ elim (Bool-cases (s.day_key == d.day)) [
      | inl same ↦
          let q = (==_iff s.day_key d.day).0 same in
          subst IsStored (sym (restore_same d s e q))
            (inl (s, e, record { day = q; tokens = refl; pending = refl; warned = λ t. refl }))
      | inr other ↦
          let q : s.day_key ≢ d.day = λ same. cc ((==_iff s.day_key d.day).1 same, other) in
          subst IsStored (sym (restore_stale d s e q)) (
            inr (record {
              tokens = a;
              warned = b;
              pending = c;
              stale = λ s' k.
                  subst (λ (x : Saved W). x.day_key ≢ d.day) (some-injective _ _ (sym e ∙ k)) q;
            }))
    ]
  ]

  init-IsStored :
      (config : DailyConfig W) (now : ℕ) (store : Option (Saved W))
      → IsStored (init config now store)
  unfolding init
  init-IsStored config now store = restore-IsStored _ refl refl refl

  maybe_auto_reset-IsStored :
      (now : ℕ) (d : Daily W) → IsStored d → IsStored (maybe_auto_reset now d)
  unfolding maybe_auto_reset
  maybe_auto_reset-IsStored now d h =
      elim (Bool-cases (day_key now d.config.reset_hour_utc == d.day)) [
        | inl same ↦ rw same h
        | inr new ↦ rw new (persist-IsStored _)
      ]

  record_usage-IsStored :
      (usage : Option (Dict ℕ)) (model : Option String) (d : Daily W)
      → IsStored d
      → IsStored (record_usage usage model d)
  unfolding record_usage
  record_usage-IsStored usage model d h = elim (Bool-cases (counts_against_budget d.config model)) [
    | inl yes' ↦ rw yes' (persist-IsStored _)
    | inr no' ↦ rw no' h
  ]

  module _ (format : FormatArgs → String) where
    consume_threshold_warning-IsStored :
        (force : Bool) (d : Daily W)
        → IsStored d
        → IsStored (consume_threshold_warning format force d).0
    unfolding consume_threshold_warning fire
    consume_threshold_warning-IsStored force d h = elim (Bool-cases (not force && is_at_limit d)) [
      | inl quiet ↦ rw quiet h
      | inr loud ↦
          elim (Option-cases
            (cross d.config.warning_thresholds (utilization d) d.warned_thresholds)) [
              | inl e ↦ rw (loud, e) h
              | inr (c, e) ↦ rw (loud, e) (persist-IsStored _)
            ]
    ]

    consume_at_limit_warning-IsStored :
        (d : Daily W) → IsStored d → IsStored (consume_at_limit_warning format d).0
    unfolding consume_at_limit_warning
    consume_at_limit_warning-IsStored d h =
        elim (Bool-cases (d.at_limit_warning_pending && is_at_limit d)) [
          | inl yes' ↦ rw yes' (persist-IsStored _)
          | inr no' ↦ rw no' h
        ]

    unfoldable pub step : Call → Daily W → Daily W
    step (resets now) d = maybe_auto_reset now d
    step (records usage model) d = record_usage usage model d
    step (warns force) d = (consume_threshold_warning format force d).0
    step warns_at_limit d = (consume_at_limit_warning format d).0

    unfoldable pub run : List Call → Daily W → Daily W
    run [] d = d
    run (c ∷ calls) d = run calls (step c d)

    run-IsStored : (calls : List Call) (d : Daily W) → IsStored d → IsStored (run calls d)
    unfolding run step
    run-IsStored [] d h = h
    run-IsStored (resets now ∷ calls) d h =
        run-IsStored calls (maybe_auto_reset now d) (maybe_auto_reset-IsStored now d h)
    run-IsStored (records usage model ∷ calls) d h =
        run-IsStored calls (record_usage usage model d) (record_usage-IsStored usage model d h)
    run-IsStored (warns force ∷ calls) d h =
        run-IsStored calls (consume_threshold_warning format force d).0
          (consume_threshold_warning-IsStored force d h)
    run-IsStored (warns_at_limit ∷ calls) d h =
        run-IsStored calls (consume_at_limit_warning format d).0
          (consume_at_limit_warning-IsStored d h)

    -- What a process that starts on the tracker's day reads back.
    pub record Resumes (d d' : Daily W) : Type 0 where
      pub tokens : d'.total_tokens ≡ d.total_tokens
      pub pending : d'.at_limit_warning_pending ≡ d.at_limit_warning_pending
      pub warned : (t : W) → mem_float t d'.warned_thresholds ≡ mem_float t d.warned_thresholds

    begun : DailyConfig W → ℕ → Option (Saved W) → Daily W
    begun config now store = record {
      config = config;
      day = day_key now config.reset_hour_utc;
      total_tokens = 0;
      warned_thresholds = [];
      at_limit_warning_pending = true;
      last_consumed_threshold = none;
      store = store;
    }

    Resumes-untouched :
        (config : DailyConfig W) (now : ℕ) (d : Daily W)
        → IsUntouched d
        → restore (begun config now d.store) ≡ begun config now d.store
        → Resumes d (init config now d.store)
    unfolding init begun
    Resumes-untouched config now d u e = rw e (record {
      tokens = sym u.tokens;
      pending = sym u.pending;
      warned = λ t. ap (mem_float t) (sym u.warned);
    })

    IsStored-restart :
        (config : DailyConfig W) (now : ℕ) (d : Daily W)
        → day_key now config.reset_hour_utc ≡ d.day
        → IsStored d
        → Resumes d (init config now d.store)
    unfolding init begun
    IsStored-restart config now d today (inl (s, e, ag)) =
        rw (restore_same (begun config now d.store) s e (ag.day ∙ sym today))
          (record { tokens = ag.tokens; pending = ag.pending; warned = ag.warned })
    IsStored-restart config now d today (inr u) = elim (Option-cases d.store) [
      | inl e ↦ Resumes-untouched config now d u (restore-none (begun config now d.store) e)
      | inr (s, e) ↦
          Resumes-untouched config now d u
            (restore_stale (begun config now d.store) s e (λ q. u.stale s e (q ∙ today)))
    ]

    -- A restart loses nothing: whatever the tracker did, over whatever store it began, a tracker
    -- that is built on the same day over what it left in the store has the same count, the same
    -- set of fired thresholds and the same pending flag.
    pub run_restart :
        (config : DailyConfig W) (before : ℕ) (store : Option (Saved W)) (calls : List Call)
        (now : ℕ)
        → day_key now config.reset_hour_utc ≡ (run calls (init config before store)).day
        → Resumes
            (run calls (init config before store))
            (init config now (run calls (init config before store)).store)
    run_restart config before store calls now today =
        let d = run calls (init config before store) in
        IsStored-restart config now d today
          (run-IsStored calls (init config before store) (init-IsStored config before store))
