-- ===== src/TurnBudget/Wrapper.antt =====
-- `BudgetWrapper` of wrapper.py, over the interface that both trackers fill (`Tracker`), and an
-- inner provider that is a parameter: it answers a request, or raises (`none`).
pub mod Trackers
pub mod Refusal
pub mod Limits
use Prim.Native.String.{◌++◌ as append}
use exoclaw_plugins.Prelude.{
  ℕ, String, Bool, true, false, not, ◌&&◌, Option, none, some, List, [], ◌∷◌, ◌++◌, Dict, contains,
  if◌then◌else◌, str_eq, select,
}
use exoclaw_plugins.TurnBudget.Config.{Enforcement, observe, warn, cutoff, fallback}

-- What the wrapper asks of a tracker. `strip` is `should_strip_tools` with the message and the
-- `tool_strip_disallow` that go with it; a tracker without it answers `none`.
pub record Tracker (W S : Type 0) : Type 0 where
  pub maybe_auto_reset : ℕ → S → S
  pub is_at_limit : S → Bool
  pub at_limit_warning_pending : S → Bool
  pub record_usage : Option (Dict ℕ) → Option String → S → S
  pub consume_threshold_warning : Bool → S → S × Option String
  pub consume_at_limit_warning : S → S × Option String
  pub at_limit_message : S → String
  pub last_consumed_threshold : S → Option W
  pub utilization : S → W
  pub dominant_axis : S → ℕ × Option ℕ × String
  pub strip : S → Option (String × List String)

pub record Message : Type 0 where
  pub role : String
  pub content : String

-- What `_tool_name` finds in a tool: the name under `function`, and the one at the top level.
pub record Tool : Type 0 where
  pub function_name : Option String
  pub flat_name : Option String

unfoldable pub tool_name : Tool → Option String
tool_name t = elim t.function_name [ some name ↦ some name | none ↦ t.flat_name ]

-- `O` holds the options that are passed on as they are (`max_tokens` to `response_format`).
pub record Request (O : Type 0) : Type 0 where
  pub messages : List Message
  pub tools : Option (List Tool)
  pub model : Option String
  pub options : O

pub record Response : Type 0 where
  pub content : String
  pub finish_reason : String
  pub usage : Dict ℕ

-- The arguments of the two hooks.
pub data Event (W : Type 0) : Type 0 where
  threshold_crossed : Option W → W → ℕ × Option ℕ × String → Event W
  limit_reached : W → ℕ × Option ℕ × String → Event W

pub record Wrapper (W S : Type 0) : Type 0 where
  pub tracker : S
  pub enforcement : Enforcement
  pub fallback_model : Option String
  pub on_threshold_crossed : Bool
  pub on_limit_reached : Bool
  pub limit_hook_fired : Bool
  pub prev_at_limit : Bool
  -- The hook calls so far, the latest first; what a hook raises is dropped.
  pub events : List (Event W)

abbrev pub is_cutoff : Enforcement → Bool
is_cutoff cutoff = true
is_cutoff _ = false

abbrev pub is_fallback : Enforcement → Bool
is_fallback fallback = true
is_fallback _ = false

abbrev pub is_warn : Enforcement → Bool
is_warn warn = true
is_warn _ = false

-- `if text:`
abbrev pub is_truthy : Option String → Bool
is_truthy none = false
is_truthy (some text) = not (str_eq text "")

-- `list(messages) + [{"role": "user", "content": text}]`, if there is a text.
unfoldable pub notify : Option String → List Message → List Message
notify none messages = messages
notify (some text) messages =
    if str_eq text "" then messages else messages ++ (record { role = "user"; content = text } ∷ [])

-- `_tool_name(t) not in disallow`
abbrev pub is_kept : List String → Tool → Bool
is_kept disallow t = elim (tool_name t) [ none ↦ true | some name ↦ not (contains name disallow) ]

abbrev pub some_tools : List Tool → Option (List Tool)
some_tools [] = none
some_tools (t ∷ ts) = some (t ∷ ts)

-- `list(messages) + [{"role": "user", "content": strip_message()}]`, whatever the text.
abbrev pub notify_strip : Option String → List Message → List Message
notify_strip none messages = messages
notify_strip (some text) messages = messages ++ (record { role = "user"; content = text } ∷ [])

-- `response.usage if response.usage else None`
abbrev pub some_usage : Dict ℕ → Option (Dict ℕ)
some_usage [] = none
some_usage (e ∷ usage) = some (e ∷ usage)

abbrev pub model_or_default : Option String → String → String
model_or_default none default_model = default_model
model_or_default (some model) default_model = model

module _ {W S : Type 0} (T : Tracker W S) where
  -- `__init__`, with the enforcement and the fallback model that it settles on; `none` is the
  -- `ValueError`. The flags say whether a hook was given.
  unfoldable pub init : S → Enforcement → Option String → Bool → Bool → Option (Wrapper W S)
  init tracker enforcement fallback_model on_threshold on_limit =
      if is_fallback enforcement && not (is_truthy fallback_model)
      then none
      else some (record {
        tracker = tracker;
        enforcement = enforcement;
        fallback_model = fallback_model;
        on_threshold_crossed = on_threshold;
        on_limit_reached = on_limit;
        limit_hook_fired = T.is_at_limit tracker && not (T.at_limit_warning_pending tracker);
        prev_at_limit = T.is_at_limit tracker;
        events = [];
      })

  -- `_fire_threshold_hook`
  unfoldable pub fire_threshold_hook : Wrapper W S → Wrapper W S
  fire_threshold_hook w =
      if w.on_threshold_crossed
      then record w {
        events =
            threshold_crossed (T.last_consumed_threshold w.tracker) (T.utilization w.tracker)
              (T.dominant_axis w.tracker)
            ∷ w.events;
      }
      else w

  -- `_fire_limit_hook`
  unfoldable pub fire_limit_hook : Wrapper W S → Wrapper W S
  fire_limit_hook w =
      if w.on_limit_reached && not w.limit_hook_fired
      then record w {
        limit_hook_fired = true;
        events = limit_reached (T.utilization w.tracker) (T.dominant_axis w.tracker) ∷ w.events;
      }
      else w

  -- The first lines of `chat`: the reset of the tracker, and the flag that a rolled boundary clears.
  unfoldable pub enter : ℕ → Wrapper W S → Wrapper W S
  enter now w =
      let tracker = T.maybe_auto_reset now w.tracker in
      let at_limit = T.is_at_limit tracker in
      record w {
        tracker = tracker;
        limit_hook_fired = (if w.prev_at_limit && not at_limit then false else w.limit_hook_fired);
        prev_at_limit = at_limit;
      }

  -- The synthetic response under `CUTOFF`.
  unfoldable pub refuse : Wrapper W S → Wrapper W S × Response
  refuse w =
      let (tracker, stranded) = T.consume_threshold_warning true w.tracker in
      let w1 = record w { tracker = tracker } in
      let w2 = if is_truthy stranded then fire_threshold_hook w1 else w1 in
      let message = T.at_limit_message w2.tracker in
      let content : String = elim stranded [
        | none ↦ message
        | some text ↦ if str_eq text "" then message else append text (append "\n\n" message)
      ] in
      (w2, record { content = content; finish_reason = "stop"; usage = [] })

  -- The notice of `WARN` at the limit.
  unfoldable pub warn_at_limit : Bool → Wrapper W S → Wrapper W S × Option String
  warn_at_limit at_limit w =
      if at_limit && is_warn w.enforcement
      then (let (tracker, text) = T.consume_at_limit_warning w.tracker in
          (record w { tracker = tracker }, text))
      else (w, none)

  -- The threshold warning of a call that is forwarded.
  unfoldable pub warn_threshold : Wrapper W S → Wrapper W S × Option String
  warn_threshold w =
      let (tracker, text) = T.consume_threshold_warning false w.tracker in
      let w1 = record w { tracker = tracker } in
      (if is_truthy text then fire_threshold_hook w1 else w1, text)

  -- The tools that are forwarded, and the notice that goes with a strip.
  unfoldable pub strip_tools : Option (List Tool) → S → Option (List Tool) × Option String
  strip_tools none s = (none, none)
  strip_tools (some tools) s = elim (T.strip s) [
    | none ↦ (some tools, none)
    | some (message, disallow) ↦ elim disallow [
      | [] ↦ (none, some message)
      | d ∷ ds ↦ (some_tools (select (is_kept (d ∷ ds)) tools), some message)
    ]
  ]

  -- What follows the inner call.
  unfoldable pub settle : Bool → String → Response → Wrapper W S → Wrapper W S
  settle at_limit tracked_model response w =
      let w1 = record w {
        tracker = T.record_usage (some_usage response.usage) (some tracked_model) w.tracker;
      } in
      if not at_limit && T.is_at_limit w1.tracker then fire_limit_hook w1 else w1

  -- The request that is forwarded, and the wrapper just before.
  unfoldable pub prepare : {O : Type 0} → Bool → Request O → Wrapper W S → Wrapper W S × Request O
  prepare at_limit request w =
      let used_model =
        if at_limit && is_fallback w.enforcement then w.fallback_model else request.model in
      let (w1, limit_text) = warn_at_limit at_limit w in
      let (w2, threshold_text) = warn_threshold w1 in
      let (tools, strip_text) = strip_tools request.tools w2.tracker in
      (
        w2,
        record request {
          messages =
              notify_strip strip_text (notify threshold_text (notify limit_text request.messages));
          tools = tools;
          model = used_model;
        },
      )

  unfoldable pub forward :
      {O : Type 0}
      → (Request O → Option Response)
      → String
      → Bool
      → Request O
      → Wrapper W S
      → Wrapper W S × Option Response
  forward inner default_model at_limit request w =
      let (w1, request') = prepare at_limit request w in
      elim (inner request') [
        | none ↦ (w1, none)
        | some response ↦ (
          settle at_limit (model_or_default request'.model default_model) response w1,
          some response,
        )
      ]

  -- `chat` at the time `now`: the wrapper, and the response unless the inner provider raised.
  unfoldable pub chat :
      {O : Type 0}
      → (Request O → Option Response)
      → String
      → ℕ
      → Request O
      → Wrapper W S
      → Wrapper W S × Option Response
  chat inner default_model now request w =
      let w1 = enter now w in
      let at_limit = T.is_at_limit w1.tracker in
      let w2 = if at_limit then fire_limit_hook w1 else w1 in
      if at_limit && is_cutoff w2.enforcement
      then (let (w3, response) = refuse w2 in (w3, some response))
      else forward inner default_model at_limit request w2
