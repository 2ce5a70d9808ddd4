-- ===== src/LoopDetection.antt =====
-- packages/exoclaw-loop-detection: `LoopDetectionConfig` of config.py, and `LoopDetectionPolicy` of
-- policy.py with its bounded history of tool calls.
pub mod Window
pub mod Streak
pub mod PingPong
pub mod Verdict
use exoclaw_plugins.Prelude.{
  ℕ, zero, suc, ◌+◌, ◌-◌, String, ◌≡◌, Bool, true, false, not, ◌&&◌, ◌||◌, Option, none, some, List,
  [], ◌∷◌, ◌++◌, reverse, leb, ltb, ◌==◌, if◌then◌else◌, length, get_elem?, last_slice, str_eq,
}

pub record Config : Type 0 where
  pub history_size : ℕ
  pub warning_threshold : ℕ
  pub critical_threshold : ℕ
  pub global_circuit_breaker : ℕ
  pub detect_repeat : Bool
  pub detect_ping_pong : Bool

-- The defaults of the dataclass.
abbrev pub default_config : Config
default_config = record {
  history_size = 30;
  warning_threshold = 10;
  critical_threshold = 20;
  global_circuit_breaker = 200;
  detect_repeat = true;
  detect_ping_pong = true;
}

-- `_ToolCall`
pub record ToolCall : Type 0 where
  pub name : String
  pub args_hash : String

-- The two comparisons that the loops make of an entry with another.
abbrev pub same : ToolCall → ToolCall → Bool
same a b = str_eq a.name b.name && str_eq a.args_hash b.args_hash

pub record Policy : Type 0 where
  pub config : Config
  pub history : List ToolCall

-- `__init__`
unfoldable pub init : Option Config → Policy
init none = record { config = default_config; history = [] }
init (some config) = record { config = config; history = [] }

module _ {ℓ} {Args : Type ℓ} (dumps : String → Args → String) where
  -- `record`: `dumps` is the `json.dumps` of `_fingerprint`, whose text is only ever compared.
  unfoldable pub record_call : String → Args → Policy → Policy
  record_call name args p =
      let history = p.history ++ (record { name = name; args_hash = dumps name args } ∷ []) in
      let size = p.config.history_size in
      record p { history = if ltb size (length history) then last_slice size history else history }

unfoldable pub reset : Policy → Policy
reset p = record p { history = [] }

-- The loop of the repeat detection over the reversed history.
unfoldable pub streak : ToolCall → List ToolCall → ℕ
streak last [] = 0
streak last (entry ∷ rest) =
    let longer = suc (streak last rest) in if same entry last then longer else 0

-- The test inside the ping-pong loop, on `history[i]` and `history[i - 1]`. The loop keeps both
-- indices in range, so `none` is not met.
abbrev pub is_entry : Option ToolCall → ToolCall → Bool
is_entry none b = false
is_entry (some x) b = same x b

-- `for i in range(len(history) - 1, 0, -2)`: `i` is the current index, and the loop ends at 0.
unfoldable pub cycles : List ToolCall → ToolCall → ToolCall → ℕ → ℕ
cycles history a b zero = 0
cycles history a b (suc zero) =
    if is_entry (get_elem? history 1) b && is_entry (get_elem? history 0) a then 2 else 0
cycles history a b (suc (suc i)) =
    let more = cycles history a b i + 2 in
    if is_entry (get_elem? history (suc (suc i))) b && is_entry (get_elem? history (suc i)) a
    then more
    else 0

-- What the repeat detection does with the reversed history.
unfoldable pub has_streak : ℕ → List ToolCall → Bool
has_streak threshold [] = false
has_streak threshold (last ∷ rest) = leb threshold (streak last (last ∷ rest))

-- The repeat detection: whether it stops the loop.
unfoldable pub repeats : Config → List ToolCall → Bool
repeats cfg history =
    cfg.detect_repeat
    && (leb cfg.critical_threshold (length history)
        && has_streak cfg.critical_threshold (reverse history))

-- What the ping-pong detection does with `history[-2]` and `history[-1]`.
unfoldable pub alternates : ℕ → List ToolCall → Option ToolCall → Option ToolCall → Bool
alternates threshold history (some a) (some b) =
    not (same a b) && leb threshold (cycles history a b (length history - 1))
alternates threshold history _ _ = false

-- The ping-pong detection: whether it stops the loop.
unfoldable pub ping_pongs : Config → List ToolCall → Bool
ping_pongs cfg history =
    cfg.detect_ping_pong
    && (leb cfg.critical_threshold (length history)
        && (leb 4 (length history)
            && alternates cfg.critical_threshold history (get_elem? history (length history - 2))
                (get_elem? history (length history - 1))))

-- `should_continue` after the circuit breaker, on the history that it looks at.
unfoldable pub verdict : Config → List ToolCall → Bool
verdict cfg [] = true
verdict cfg (x ∷ xs) =
    if repeats cfg (x ∷ xs) then false else if ping_pongs cfg (x ∷ xs) then false else true

unfoldable pub should_continue : Policy → ℕ → Bool
should_continue p iteration =
    if leb p.config.global_circuit_breaker iteration
    then false
    else verdict p.config (last_slice p.config.history_size p.history)

-- The texts of `on_limit_reached`, by what they interpolate.
pub data Diagnosis : Type 0 where
  runaway : ℕ → Diagnosis
  stuck : String → ℕ → Diagnosis
  no_progress : Diagnosis

-- `Counter(...)`: the entries in the order of their first occurrence, with their counts.
unfoldable pub count_into : ToolCall → List (ToolCall × ℕ) → List (ToolCall × ℕ)
count_into x [] = (x, 1) ∷ []
count_into x (e ∷ counts) = if same e.0 x then (e.0, e.1 + 1) ∷ counts else e ∷ count_into x counts

unfoldable pub counter : List ToolCall → List (ToolCall × ℕ) → List (ToolCall × ℕ)
counter [] counts = counts
counter (x ∷ xs) counts = counter xs (count_into x counts)

-- `most_common(1)[0]`: the first entry of the largest count.
unfoldable pub most_common : ToolCall × ℕ → List (ToolCall × ℕ) → ToolCall × ℕ
most_common best [] = best
most_common best (e ∷ counts) = most_common (if ltb best.1 e.1 then e else best) counts

abbrev pub diagnose : List (ToolCall × ℕ) → Diagnosis
diagnose [] = no_progress
diagnose (e ∷ counts) = let top = most_common e counts in stuck (top.0).name top.1

unfoldable pub on_limit_reached : Policy → ℕ → Diagnosis
on_limit_reached p iteration =
    if leb p.config.global_circuit_breaker iteration
    then runaway iteration
    else diagnose (counter (last_slice p.config.history_size p.history) [])
