-- ===== src/TurnBudget/Wrapper/Limits.antt =====
-- Sequences of calls of `chat` of wrapper.py: how often the limit hook is called, and how far a turn
-- can run.
pub mod Hook
pub mod Turns
pub mod Fallback
use exoclaw_plugins.Prelude.{
  ℕ, zero, suc, ◌+◌, ◌≤◌, ◌≡◌, refl, sym, ap, ◌∙◌, String, Bool, true, false, not, ◌&&◌, Option,
  none, some, List, [], ◌∷◌, Dict, arith, if◌then◌else◌, Bool-cases, inl, inr,
}
use exoclaw_plugins.TurnBudget.Config.{Enforcement}
use exoclaw_plugins.TurnBudget.Wrapper.{
  Tracker, Request, Response, Wrapper, Event, threshold_crossed, limit_reached, is_warn, is_truthy,
  fire_threshold_hook, fire_limit_hook, refuse, warn_at_limit, warn_threshold, prepare, strip_tools,
  chat,
}

-- The calls of the limit hook.
abbrev pub limit_count : {W : Type 0} → List (Event W) → ℕ
limit_count [] = 0
limit_count (threshold_crossed t u axis ∷ events) = limit_count events
limit_count (limit_reached u axis ∷ events) = suc (limit_count events)

-- One call of `chat`.
pub record Exchange (O : Type 0) : Type 0 where
  pub inner : Request O → Option Response
  pub default_model : String
  pub now : ℕ
  pub request : Request O

module _ {W S : Type 0} (T : Tracker W S) where
  -- The calls of one wrapper, each after the other has returned or raised.
  unfoldable pub chat_all : {O : Type 0} → List (Exchange O) → Wrapper W S → Wrapper W S
  chat_all [] w = w
  chat_all (x ∷ xs) w = chat_all xs (chat T x.inner x.default_model x.now x.request w).0

  -- What the warnings of a call keep, for a property `P` of the tracker.
  pub record Calm (P : S → Type 0) (w w' : Wrapper W S) : Type 0 where
    pub keeps : P w.tracker → P w'.tracker
    pub fired : w'.limit_hook_fired ≡ w.limit_hook_fired
    pub prev : w'.prev_at_limit ≡ w.prev_at_limit
    pub hook : w'.on_limit_reached ≡ w.on_limit_reached
    pub enforcement : w'.enforcement ≡ w.enforcement
    pub fallback_model : w'.fallback_model ≡ w.fallback_model
    pub count : limit_count w'.events ≡ limit_count w.events

  -- The warnings keep `P`.
  pub record IsQuiet (P : S → Type 0) : Type 0 where
    pub threshold : (force : Bool) (s : S) → P s → P (T.consume_threshold_warning force s).0
    pub at_limit : (s : S) → P s → P (T.consume_at_limit_warning s).0

  module _ (P : S → Type 0) where
    Calm-refl : (w : Wrapper W S) → Calm P w w
    Calm-refl w = record {
      keeps = λ p. p;
      fired = refl;
      prev = refl;
      hook = refl;
      enforcement = refl;
      fallback_model = refl;
      count = refl;
    }

    pub Calm-trans : {u v w : Wrapper W S} → Calm P u v → Calm P v w → Calm P u w
    Calm-trans a b = record {
      keeps = λ p. b.keeps (a.keeps p);
      fired = b.fired ∙ a.fired;
      prev = b.prev ∙ a.prev;
      hook = b.hook ∙ a.hook;
      enforcement = b.enforcement ∙ a.enforcement;
      fallback_model = b.fallback_model ∙ a.fallback_model;
      count = b.count ∙ a.count;
    }

    fire_threshold_hook-Calm : (w : Wrapper W S) → Calm P w (fire_threshold_hook T w)
    unfolding fire_threshold_hook
    fire_threshold_hook-Calm w = elim (Bool-cases w.on_threshold_crossed) [
      | inl e ↦ rw e (record {
        keeps = λ p. p;
        fired = refl;
        prev = refl;
        hook = refl;
        enforcement = refl;
        fallback_model = refl;
        count = refl;
      })
      | inr e ↦ rw e (record {
        keeps = λ p. p;
        fired = refl;
        prev = refl;
        hook = refl;
        enforcement = refl;
        fallback_model = refl;
        count = refl;
      })
    ]

    fire_if-Calm :
        (b : Bool) (w : Wrapper W S) → Calm P w (if b then fire_threshold_hook T w else w)
    fire_if-Calm true w = fire_threshold_hook-Calm w
    fire_if-Calm false w = Calm-refl w

    module _ (q : IsQuiet P) where
      with_tracker-Calm :
          (w : Wrapper W S) (s : S) → (P w.tracker → P s) → Calm P w (record w { tracker = s })
      with_tracker-Calm w s k = record {
        keeps = k;
        fired = refl;
        prev = refl;
        hook = refl;
        enforcement = refl;
        fallback_model = refl;
        count = refl;
      }

      pub refuse-Calm : (w : Wrapper W S) → Calm P w (refuse T w).0
      unfolding refuse
      refuse-Calm w =
          let (s, stranded) = T.consume_threshold_warning true w.tracker in
          Calm-trans (with_tracker-Calm w s (q.threshold true w.tracker))
            (fire_if-Calm (is_truthy stranded) (record w { tracker = s }))

      pub warn_threshold-Calm : (w : Wrapper W S) → Calm P w (warn_threshold T w).0
      unfolding warn_threshold
      warn_threshold-Calm w =
          let (s, text) = T.consume_threshold_warning false w.tracker in
          Calm-trans (with_tracker-Calm w s (q.threshold false w.tracker))
            (fire_if-Calm (is_truthy text) (record w { tracker = s }))

      pub warn_at_limit-Calm : (b : Bool) (w : Wrapper W S) → Calm P w (warn_at_limit T b w).0
      unfolding warn_at_limit
      warn_at_limit-Calm b w = elim (Bool-cases (b && is_warn w.enforcement)) [
        | inl e ↦
            rw e
              (with_tracker-Calm w (T.consume_at_limit_warning w.tracker).0 (q.at_limit w.tracker))
        | inr e ↦ rw e (Calm-refl w)
      ]

      pub prepare-Calm :
          {O : Type 0} (b : Bool) (request : Request O) (w : Wrapper W S)
          → Calm P w (prepare T b request w).0
      unfolding prepare
      prepare-Calm b request w =
          Calm-trans (warn_at_limit-Calm b w) (warn_threshold-Calm (warn_at_limit T b w).0)
