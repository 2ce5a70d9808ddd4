-- ===== src/TurnBudget/Wrapper/Limits/Hook.antt =====
-- `on_limit_reached` of wrapper.py is called once for each crossing of the limit.
use exoclaw_plugins.Prelude.{
  ℕ, suc, ◌≡◌, refl, sym, ap, ◌∙◌, String, Bool, true, false, Option, some, List, [], ◌∷◌, Dict,
  arith, if◌then◌else◌, Bool-cases, Option-cases, inl, inr, subst,
}
use exoclaw_plugins.TurnBudget.Wrapper.{
  Tracker, Request, Response, Wrapper, limit_reached, fire_limit_hook, enter, is_cutoff, refuse,
  prepare, settle, forward, chat, some_usage, model_or_default,
}
use exoclaw_plugins.TurnBudget.Wrapper.Limits.{
  limit_count, Exchange, chat_all, Calm, IsQuiet, refuse-Calm, prepare-Calm,
}

module _ {W S : Type 0} (T : Tracker W S) where
  abbrev pub IsAt : Bool → S → Type 0
  IsAt b s = T.is_at_limit s ≡ b

  -- A tracker that no call takes back from its limit.
  pub record IsSticky : Type 0 where
    pub reset : (now : ℕ) (s : S) (b : Bool) → IsAt b s → IsAt b (T.maybe_auto_reset now s)
    pub quiet : (b : Bool) → IsQuiet T (IsAt b)
    pub recorded :
        (usage : Option (Dict ℕ)) (model : Option String) (s : S)
        → IsAt true s
        → IsAt true (T.record_usage usage model s)

  abbrev pub one_if : Bool → ℕ
  one_if b = if b then 1 else 0

  -- The hook was called, once, exactly if the limit is reached.
  pub record HookState (w : Wrapper W S) : Type 0 where
    pub hook : w.on_limit_reached ≡ true
    pub fired : w.limit_hook_fired ≡ T.is_at_limit w.tracker
    pub prev : w.prev_at_limit ≡ true → T.is_at_limit w.tracker ≡ true
    pub count : limit_count w.events ≡ one_if (T.is_at_limit w.tracker)

  module _ (sticky : IsSticky) where
    Calm-HookState :
        (w w' : Wrapper W S)
        → Calm T (IsAt (T.is_at_limit w.tracker)) w w'
        → HookState w
        → HookState w'
    Calm-HookState w w' c h =
        let same : T.is_at_limit w'.tracker ≡ T.is_at_limit w.tracker = c.keeps refl in
        record {
          hook = c.hook ∙ h.hook;
          fired = c.fired ∙ h.fired ∙ sym same;
          prev = λ p. same ∙ h.prev (sym c.prev ∙ p);
          count = c.count ∙ h.count ∙ ap one_if (sym same);
        }

    enter-HookState : (now : ℕ) (w : Wrapper W S) → HookState w → HookState (enter T now w)
    unfolding enter
    enter-HookState now w h =
        let same = sticky.reset now w.tracker (T.is_at_limit w.tracker) refl in
        record {
          hook = h.hook;
          fired = ground (arith, h.prev, h.fired, same);
          prev = λ p. p;
          count = h.count ∙ ap one_if (sym same);
        }

    -- At the limit the hook has been called already.
    fire_limit_hook_done :
        (w : Wrapper W S) → HookState w → T.is_at_limit w.tracker ≡ true → fire_limit_hook T w ≡ w
    unfolding fire_limit_hook
    fire_limit_hook_done w h limit =
        let done : w.limit_hook_fired ≡ true = h.fired ∙ limit in ground arith

    settled : String → Response → Wrapper W S → S
    settled tracked_model response w =
        T.record_usage (some_usage response.usage) (some tracked_model) w.tracker

    settle-quiet :
        (tracked_model : String) (response : Response) (w : Wrapper W S)
        → T.is_at_limit (settled tracked_model response w) ≡ T.is_at_limit w.tracker
        → settle T (T.is_at_limit w.tracker) tracked_model response w
          ≡ record w { tracker = settled tracked_model response w }
    unfolding settle settled
    settle-quiet tracked_model response w same = elim (Bool-cases (T.is_at_limit w.tracker)) [
      | inl e ↦ rw (settle, e) refl
      | inr e ↦ rw (settle, settled, e, same ∙ e) refl
    ]

    settle-crossing :
        (tracked_model : String) (response : Response) (w : Wrapper W S)
        → HookState w
        → T.is_at_limit w.tracker ≡ false
        → T.is_at_limit (settled tracked_model response w) ≡ true
        → settle T (T.is_at_limit w.tracker) tracked_model response w ≡ record w {
          tracker = settled tracked_model response w;
          limit_hook_fired = true;
          events =
              limit_reached
                (T.utilization (settled tracked_model response w))
                (T.dominant_axis (settled tracked_model response w))
              ∷ w.events;
        }
    unfolding settle settled fire_limit_hook
    settle-crossing tracked_model response w h below above =
        let fresh : w.limit_hook_fired ≡ false = h.fired ∙ below in
        rw (settle, settled, below, above, h.hook, fresh) refl

    settled-sticky :
        (tracked_model : String) (response : Response) (w : Wrapper W S)
        → IsAt true w.tracker
        → IsAt true (settled tracked_model response w)
    unfolding settled
    settled-sticky tracked_model response w at =
        sticky.recorded (some_usage response.usage) (some tracked_model) w.tracker at

    settle-HookState :
        (tracked_model : String) (response : Response) (w : Wrapper W S)
        → HookState w
        → HookState (settle T (T.is_at_limit w.tracker) tracked_model response w)
    settle-HookState tracked_model response w h =
        let after = T.is_at_limit (settled tracked_model response w) in
        let quiet : after ≡ T.is_at_limit w.tracker
            → HookState (settle T (T.is_at_limit w.tracker) tracked_model response w) =
          λ same. subst HookState (sym (settle-quiet tracked_model response w same)) (record {
            hook = h.hook;
            fired = h.fired ∙ sym same;
            prev = λ p. same ∙ h.prev p;
            count = h.count ∙ ap one_if (sym same);
          }) in
        elim (Bool-cases (T.is_at_limit w.tracker)) [
          | inl at ↦ quiet (settled-sticky tracked_model response w at ∙ sym at)
          | inr below ↦ elim (Bool-cases after) [
            | inl above ↦
                subst HookState (sym (settle-crossing tracked_model response w h below above))
                  (record {
                    hook = h.hook;
                    fired = sym above;
                    prev = λ p. above;
                    count = ap suc (h.count ∙ ap one_if below) ∙ ap one_if (sym above);
                  })
            | inr still ↦ quiet (still ∙ sym below)
          ]
        ]

    forward-HookState :
        {O : Type 0} (inner : Request O → Option Response) (default_model : String)
        (request : Request O) (w : Wrapper W S)
        → HookState w
        → HookState (forward T inner default_model (T.is_at_limit w.tracker) request w).0
    unfolding forward
    forward-HookState inner default_model request w h =
        let b = T.is_at_limit w.tracker in
        let c = prepare-Calm T (IsAt b) (sticky.quiet b) b request w in
        let h1 = Calm-HookState w (prepare T b request w).0 c h in
        elim (Option-cases (inner (prepare T b request w).1)) [
          | inl e ↦ rw (forward, e) h1
          | inr (response, e) ↦
              let (w1, request') = prepare T b request w in
              let model = model_or_default request'.model default_model in
              rw (forward, e)
                (subst (λ limit. HookState (settle T limit model response w1)) (c.keeps refl)
                  (settle-HookState model response w1 h1))
        ]

    pub chat-HookState :
        {O : Type 0} (x : Exchange O) (w : Wrapper W S)
        → HookState w
        → HookState (chat T x.inner x.default_model x.now x.request w).0
    unfolding chat
    chat-HookState x w h =
        let w1 = enter T x.now w in
        let h1 = enter-HookState x.now w h in
        elim (Bool-cases (T.is_at_limit w1.tracker)) [
          | inl at ↦
              rw (at, fire_limit_hook_done w1 h1 at)
                (elim (Bool-cases (is_cutoff w1.enforcement)) [
                  | inl cut ↦ rw cut (
                      Calm-HookState w1 (refuse T w1).0
                        (refuse-Calm T (IsAt (T.is_at_limit w1.tracker)) (sticky.quiet _) w1) h1)
                  | inr e ↦ rw e (
                      subst (λ b. HookState (forward T x.inner x.default_model b x.request w1).0) at
                        (forward-HookState x.inner x.default_model x.request w1 h1))
                ])
          | inr below ↦ rw below (
              subst (λ b. HookState (forward T x.inner x.default_model b x.request w1).0) below
                (forward-HookState x.inner x.default_model x.request w1 h1))
        ]

    pub chat_all-HookState :
        {O : Type 0} (xs : List (Exchange O)) (w : Wrapper W S)
        → HookState w
        → HookState (chat_all T xs w)
    unfolding chat_all
    chat_all-HookState [] w h = h
    chat_all-HookState (x ∷ xs) w h = chat_all-HookState xs _ (chat-HookState x w h)
