-- ===== src/TurnBudget/Wrapper/Refusal.antt =====
-- What `chat` of wrapper.py does at the limit, for any tracker.
use exoclaw_plugins.Prelude.{
  ℕ, ◌≡◌, refl, sym, ap, ◌∙◌, String, Bool, true, not, ◌&&◌, Option, some, [], Bool-cases, inl, inr,
}
use exoclaw_plugins.TurnBudget.Config.{cutoff}
use exoclaw_plugins.TurnBudget.Wrapper.{
  Tracker, Request, Response, Wrapper, fire_limit_hook, enter, refuse, settle, chat, some_usage,
}

module _ {W S : Type 0} (T : Tracker W S) where
  pub enter-fields :
      (now : ℕ) (w : Wrapper W S)
      → ((enter T now w).tracker ≡ T.maybe_auto_reset now w.tracker)
        × ((enter T now w).enforcement ≡ w.enforcement)
        × ((enter T now w).fallback_model ≡ w.fallback_model)
  unfolding enter
  enter-fields now w = (refl, refl, refl)

  pub fire_limit_hook-fields :
      (w : Wrapper W S)
      → ((fire_limit_hook T w).tracker ≡ w.tracker)
        × ((fire_limit_hook T w).enforcement ≡ w.enforcement)
        × ((fire_limit_hook T w).fallback_model ≡ w.fallback_model)
  unfolding fire_limit_hook
  fire_limit_hook-fields w = elim (Bool-cases (w.on_limit_reached && not w.limit_hook_fired)) [
    | inl e ↦ rw e (refl, refl, refl)
    | inr e ↦ rw e (refl, refl, refl)
  ]

  pub settle-fields :
      (at_limit : Bool) (model : String) (response : Response) (w : Wrapper W S)
      → ((settle T at_limit model response w).tracker
          ≡ T.record_usage (some_usage response.usage) (some model) w.tracker)
        × ((settle T at_limit model response w).enforcement ≡ w.enforcement)
        × ((settle T at_limit model response w).fallback_model ≡ w.fallback_model)
  unfolding settle
  settle-fields at_limit model response w =
      let w1 = record w {
        tracker = T.record_usage (some_usage response.usage) (some model) w.tracker;
      } in
      elim (Bool-cases (not at_limit && T.is_at_limit w1.tracker)) [
        | inl e ↦ rw e (fire_limit_hook-fields w1)
        | inr e ↦ rw e (refl, refl, refl)
      ]

  -- A call that finds the tracker at its limit under `CUTOFF` is refused.
  pub chat-refuse :
      {O : Type 0} (inner : Request O → Option Response) (default_model : String) (now : ℕ)
      (request : Request O) (w : Wrapper W S)
      → w.enforcement ≡ cutoff
      → T.is_at_limit (T.maybe_auto_reset now w.tracker) ≡ true
      → let (w', response) = refuse T (fire_limit_hook T (enter T now w)) in
        chat T inner default_model now request w ≡ (w', some response)
  unfolding chat
  chat-refuse inner default_model now request w e limit =
      let w1 = enter T now w in
      let limit' : T.is_at_limit w1.tracker ≡ true =
        ap T.is_at_limit (enter-fields now w).0 ∙ limit in
      let e' : (fire_limit_hook T w1).enforcement ≡ cutoff =
        (fire_limit_hook-fields w1).1 ∙ (enter-fields now w).1 ∙ e in
      rw limit' (rw e' refl)

  -- Under `CUTOFF` a call that finds the tracker at its limit never reaches the inner provider: the
  -- outcome is the same for any two providers, default models and requests. It is a response that
  -- ends the turn, with no usage.
  pub chat_cutoff :
      {O : Type 0} (inner inner' : Request O → Option Response)
      (default_model default_model' : String) (now : ℕ) (request request' : Request O)
      (w : Wrapper W S)
      → w.enforcement ≡ cutoff
      → T.is_at_limit (T.maybe_auto_reset now w.tracker) ≡ true
      → (chat T inner default_model now request w ≡ chat T inner' default_model' now request' w)
        × ((r : Response) × ((chat T inner default_model now request w).1 ≡ some r)
            × (r.finish_reason ≡ "stop")
            × (r.usage ≡ []))
  unfolding refuse
  chat_cutoff inner inner' default_model default_model' now request request' w e limit =
      let q = chat-refuse inner default_model now request w e limit in
      (
        q ∙ sym (chat-refuse inner' default_model' now request' w e limit),
        (
          (refuse T (fire_limit_hook T (enter T now w))).1,
          ap (λ (x : Wrapper W S × Option Response). x.1) q,
          refl,
          refl,
        ),
      )
