-- ===== src/TurnBudget/Wrapper/Limits/Turns.antt =====
-- `BudgetWrapper` over `TurnBudgetTracker`: how often its limit hook is called, and how far `CUTOFF`
-- lets a turn run.
use exoclaw_plugins.Prelude.{
  ℕ, ◌+◌, ◌≤◌, ◌≡◌, refl, sym, ap, ◌∙◌, String, Bool, true, false, ◌&&◌, Option, some, List, [],
  ◌∷◌, Dict, arith, if◌then◌else◌, Bool-cases, Option-cases, inl, inr, subst,
}
use exoclaw_plugins.TurnBudget.Floats.{Floats}
use exoclaw_plugins.TurnBudget.Config.{TurnConfig, FormatArgs, cutoff}
use exoclaw_plugins.TurnBudget.Turn
use exoclaw_plugins.TurnBudget.Turn.{Turn, is_used_up}
use exoclaw_plugins.TurnBudget.Turn.Firing.{consume-cases}
use exoclaw_plugins.TurnBudget.Wrapper.{
  Request, Response, Wrapper, fire_limit_hook, enter, refuse, prepare, settle, forward, chat,
  model_or_default,
}
use exoclaw_plugins.TurnBudget.Wrapper.Refusal.{
  enter-fields, fire_limit_hook-fields, settle-fields, chat-refuse,
}
use exoclaw_plugins.TurnBudget.Wrapper.Trackers.{turn_tracker}
use exoclaw_plugins.TurnBudget.Wrapper.Limits.{
  limit_count, Exchange, chat_all, IsQuiet, refuse-Calm, prepare-Calm,
}
use exoclaw_plugins.TurnBudget.Wrapper.Limits.Hook.{IsSticky, HookState, chat_all-HookState}

module _ {W : Type 0} ⦃f : Floats W⦄ (format : FormatArgs → String) where
  -- What the limit of a turn depends on.
  abbrev pub counts : Turn W → TurnConfig W × ℕ × ℕ
  counts t = (t.config, t.iterations_seen, t.total_tokens)

  is_at_limit-counts :
      (t u : Turn W) → counts t ≡ counts u → Turn.is_at_limit t ≡ Turn.is_at_limit u
  unfolding Turn.is_at_limit
  is_at_limit-counts t u same =
      ap
        (λ (c : TurnConfig W × ℕ × ℕ).
          if is_used_up c.1 c.0.iteration_budget
          then true
          else if is_used_up c.2 c.0.token_budget
          then true
          else false)
        same

  consume_threshold-counts :
      (force : Bool) (t : Turn W)
      → counts (Turn.consume_threshold_warning format force t).0 ≡ counts t
  unfolding Turn.fire
  consume_threshold-counts force t = elim (consume-cases format force t) [
    | inl e ↦ rw e refl
    | inr (x, warned, _, e) ↦ rw e refl
  ]

  consume_at_limit-counts :
      (t : Turn W) → counts (Turn.consume_at_limit_warning format t).0 ≡ counts t
  unfolding Turn.consume_at_limit_warning
  consume_at_limit-counts t = elim (Bool-cases (t.at_limit_warning_pending && Turn.is_at_limit t)) [
    | inl e ↦ rw e refl
    | inr e ↦ rw e refl
  ]

  record_usage-stays_at_limit :
      (usage : Option (Dict ℕ)) (model : Option String) (t : Turn W)
      → Turn.is_at_limit t ≡ true
      → Turn.is_at_limit (Turn.record_usage usage model t) ≡ true
  unfolding Turn.is_at_limit Turn.record_usage
  record_usage-stays_at_limit usage model t at = ground arith

  turn_tracker-IsSticky : IsSticky {W = W} (turn_tracker format)
  unfolding Turn.maybe_auto_reset
  turn_tracker-IsSticky = record {
    reset = λ now s b e. e;
    quiet = λ b. record {
      threshold = λ force s e. is_at_limit-counts _ _ (consume_threshold-counts force s) ∙ e;
      at_limit = λ s e. is_at_limit-counts _ _ (consume_at_limit-counts s) ∙ e;
    };
    recorded = record_usage-stays_at_limit;
  }

  -- Within one turn, from a wrapper with a limit hook whose tracker is below its limit, and whatever
  -- calls of `chat` follow, the limit hook is called exactly once if the tracker has reached its limit
  -- by then, and not at all otherwise.
  pub chat_all-limit_hook :
      {O : Type 0} (xs : List (Exchange O)) (w : Wrapper W (Turn W))
      → w.on_limit_reached ≡ true
      → w.limit_hook_fired ≡ false
      → w.prev_at_limit ≡ false
      → Turn.is_at_limit w.tracker ≡ false
      → w.events ≡ []
      → let w' = chat_all (turn_tracker format) xs w in
        limit_count w'.events ≡ (if Turn.is_at_limit w'.tracker then 1 else 0)
  chat_all-limit_hook xs w hook fresh prev below none_yet =
      let start : HookState (turn_tracker format) w = record {
        hook = hook;
        fired = fresh ∙ sym below;
        prev = λ p. cc;
        count = ap limit_count none_yet ∙ ap (λ b. if b then 1 else 0) (sym below);
      } in
      (chat_all-HookState (turn_tracker format) turn_tracker-IsSticky xs w start).count

  -- A turn with an iteration budget, of which at least `left` is left.
  abbrev pub HasLeft : ℕ → ℕ → Turn W → Type 0
  HasLeft left budget t =
      (t.config.iteration_budget ≡ some budget) × (left + t.iterations_seen ≤ budget)

  HasLeft-counts :
      (left budget : ℕ) (t u : Turn W)
      → counts t ≡ counts u
      → HasLeft left budget u
      → HasLeft left budget t
  HasLeft-counts left budget t u same p =
      subst
        (λ (c : TurnConfig W × ℕ × ℕ). (c.0.iteration_budget ≡ some budget) × (left + c.1 ≤ budget))
        (sym same) p

  HasLeft-IsQuiet : (left budget : ℕ) → IsQuiet {W = W} (turn_tracker format) (HasLeft left budget)
  HasLeft-IsQuiet left budget = record {
    threshold = λ force s p.
        HasLeft-counts left budget (Turn.consume_threshold_warning format force s).0 s
          (consume_threshold-counts force s) p;
    at_limit = λ s p.
        HasLeft-counts left budget (Turn.consume_at_limit_warning format s).0 s
          (consume_at_limit-counts s) p;
  }

  below-HasLeft :
      (budget : ℕ) (t : Turn W)
      → Turn.is_at_limit t ≡ false
      → HasLeft 0 budget t
      → HasLeft 1 budget t
  unfolding Turn.is_at_limit
  below-HasLeft budget t below (e, le) = (e, ground arith)

  record_usage-HasLeft :
      (usage : Option (Dict ℕ)) (model : Option String) (budget : ℕ) (t : Turn W)
      → HasLeft 1 budget t
      → HasLeft 0 budget (Turn.record_usage usage model t)
  unfolding Turn.record_usage
  record_usage-HasLeft usage model budget t (e, le) = (e, omega arith)

  settle-HasLeft :
      (at_limit : Bool) (model : String) (response : Response) (budget : ℕ) (w : Wrapper W (Turn W))
      → HasLeft 1 budget w.tracker
      → HasLeft 0 budget (settle (turn_tracker format) at_limit model response w).tracker
  settle-HasLeft at_limit model response budget w p =
      rw (settle-fields (turn_tracker format) at_limit model response w).0
        (record_usage-HasLeft _ _ budget w.tracker p)

  -- A wrapper under `CUTOFF` whose turn is within its iteration budget.
  abbrev pub IsBounded : ℕ → Wrapper W (Turn W) → Type 0
  IsBounded budget w = (w.enforcement ≡ cutoff) × HasLeft 0 budget w.tracker

  enter-IsBounded :
      (budget now : ℕ) (w : Wrapper W (Turn W))
      → IsBounded budget w
      → IsBounded budget (enter (turn_tracker format) now w)
  unfolding enter Turn.maybe_auto_reset
  enter-IsBounded budget now w b = b

  refuse-IsBounded :
      (budget : ℕ) (w : Wrapper W (Turn W))
      → IsBounded budget w
      → IsBounded budget (refuse (turn_tracker format) (fire_limit_hook (turn_tracker format) w)).0
  refuse-IsBounded budget w (e, p) =
      let (tracker, enforcement, _) = fire_limit_hook-fields (turn_tracker format) w in
      let w1 = fire_limit_hook (turn_tracker format) w in
      let c = refuse-Calm (turn_tracker format) (HasLeft 0 budget) (HasLeft-IsQuiet 0 budget) w1 in
      (c.enforcement ∙ enforcement ∙ e, c.keeps (subst (HasLeft 0 budget) (sym tracker) p))

  HasLeft-weaken : (budget : ℕ) (t : Turn W) → HasLeft 1 budget t → HasLeft 0 budget t
  HasLeft-weaken budget t (e, le) = (e, omega arith)

  forward-IsBounded :
      {O : Type 0} (inner : Request O → Option Response) (default_model : String) (budget : ℕ)
      (request : Request O) (w : Wrapper W (Turn W))
      → w.enforcement ≡ cutoff
      → HasLeft 1 budget w.tracker
      → IsBounded budget (forward (turn_tracker format) inner default_model false request w).0
  unfolding forward
  forward-IsBounded inner default_model budget request w e p =
      let T = turn_tracker format in
      let (w1, request') = prepare T false request w in
      let c = prepare-Calm T (HasLeft 1 budget) (HasLeft-IsQuiet 1 budget) false request w in
      elim (Option-cases (inner request')) [
        | inl raised ↦
            rw (forward, raised) (c.enforcement ∙ e, HasLeft-weaken budget w1.tracker (c.keeps p))
        | inr (response, answered) ↦
            let model = model_or_default request'.model default_model in
            rw (forward, answered)
              (
                (settle-fields T false model response w1).1 ∙ c.enforcement ∙ e,
                settle-HasLeft false model response budget w1 (c.keeps p),
              )
      ]

  chat-IsBounded :
      {O : Type 0} (x : Exchange O) (budget : ℕ) (w : Wrapper W (Turn W))
      → IsBounded budget w
      → IsBounded budget (chat (turn_tracker format) x.inner x.default_model x.now x.request w).0
  unfolding chat
  chat-IsBounded x budget w b =
      let T = turn_tracker format in
      let w1 = enter T x.now w in
      let b1 = enter-IsBounded budget x.now w b in
      let limit : T.is_at_limit (T.maybe_auto_reset x.now w.tracker) ≡ T.is_at_limit w1.tracker =
        ap T.is_at_limit (sym (enter-fields T x.now w).0) in
      elim (Bool-cases (T.is_at_limit w1.tracker)) [
        | inl at ↦
            subst (λ (r : Wrapper W (Turn W) × Option Response). IsBounded budget r.0)
              (sym (chat-refuse T x.inner x.default_model x.now x.request w b.0 (limit ∙ at)))
              (refuse-IsBounded budget w1 b1)
        | inr below ↦ rw below (
            forward-IsBounded x.inner x.default_model budget x.request w1 b1.0
              (below-HasLeft budget w1.tracker below b1.1))
      ]

  chat_all-IsBounded :
      {O : Type 0} (xs : List (Exchange O)) (budget : ℕ) (w : Wrapper W (Turn W))
      → IsBounded budget w
      → IsBounded budget (chat_all (turn_tracker format) xs w)
  unfolding chat_all
  chat_all-IsBounded [] budget w b = b
  chat_all-IsBounded (x ∷ xs) budget w b =
      chat_all-IsBounded xs budget _ (chat-IsBounded x budget w b)

  -- Under `CUTOFF` no sequence of calls of `chat` takes a turn past its iteration budget, whether the
  -- inner provider answers or raises, if the turn is within it at the start.
  pub chat_all-within_budget :
      {O : Type 0} (xs : List (Exchange O)) (budget : ℕ) (w : Wrapper W (Turn W))
      → w.enforcement ≡ cutoff
      → w.tracker.config.iteration_budget ≡ some budget
      → w.tracker.iterations_seen ≤ budget
      → (chat_all (turn_tracker format) xs w).tracker.iterations_seen ≤ budget
  chat_all-within_budget xs budget w e budgeted within =
      let start : HasLeft 0 budget w.tracker = (budgeted, omega arith) in
      let (_, (_, done)) = chat_all-IsBounded xs budget w (e, start) in omega arith
