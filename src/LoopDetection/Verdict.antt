-- ===== src/LoopDetection/Verdict.antt =====
-- `should_continue` of policy.py, against what its detectors look for.
use exoclaw_plugins.Prelude.{
  ℕ, ◌+◌, ◌/◌, ◌≤◌, ◌<◌, ◌≡◌, ◌⊎◌, ◌↔◌, List, [], ◌∷◌, true, false, arith, leb, leb→le, not, ap,
  refl, length, length-append, replicate, last_slice, Bool-cases, inl, inr,
}
use exoclaw_plugins.LoopDetection.{
  Config, ToolCall, Policy, repeats, ping_pongs, verdict, should_continue,
}
use exoclaw_plugins.LoopDetection.Streak.{EndsInRun, length-replicate, repeats_iff}
use exoclaw_plugins.LoopDetection.Window.{length-last_slice-le}
use exoclaw_plugins.LoopDetection.PingPong.{EndsInRounds, ping_pongs_iff}

-- A pattern that the configured detectors look for.
abbrev pub IsDegenerate : Config → List ToolCall → Type 0
IsDegenerate cfg history =
    ((cfg.detect_repeat ≡ true) × EndsInRun cfg.critical_threshold history)
    ⊎ ((cfg.detect_ping_pong ≡ true)
        × (4 ≤ length history)
        × EndsInRounds ((cfg.critical_threshold + 1) / 2) history)

verdict_stops :
    (cfg : Config) (history : List ToolCall)
    → 0 < cfg.critical_threshold
    → verdict cfg history ≡ false
    → IsDegenerate cfg history
unfolding verdict
verdict_stops cfg [] p h = cc
verdict_stops cfg (x ∷ xs) p h = elim (Bool-cases (repeats cfg (x ∷ xs))) [
  | inl r ↦ inl ((repeats_iff cfg (x ∷ xs) p).0 r)
  | inr r ↦ inr ((ping_pongs_iff cfg (x ∷ xs) p).0 (ground arith))
]

degenerate_stops :
    (cfg : Config) (history : List ToolCall)
    → 0 < cfg.critical_threshold
    → IsDegenerate cfg history
    → verdict cfg history ≡ false
unfolding verdict
degenerate_stops cfg [] p (inl (on, (x, before, e))) = absurd (
    omega (
      arith,
      ap length e,
      length-append before (replicate cfg.critical_threshold x),
      length-replicate cfg.critical_threshold x,
    ))
degenerate_stops cfg [] p (inr (on, l, rounds)) = absurd (omega arith)
degenerate_stops cfg (x ∷ xs) p (inl d) = let r = (repeats_iff cfg (x ∷ xs) p).1 d in ground arith
degenerate_stops cfg (x ∷ xs) p (inr d) =
    let r = (ping_pongs_iff cfg (x ∷ xs) p).1 d in ground arith

-- Fewer calls than the threshold are no pattern.
verdict_short :
    (cfg : Config) (history : List ToolCall)
    → length history < cfg.critical_threshold
    → verdict cfg history ≡ true
unfolding verdict repeats ping_pongs
verdict_short cfg [] h = refl
verdict_short cfg (x ∷ xs) h = ground arith

-- With a positive threshold the loop is stopped exactly when the circuit breaker is reached or the
-- last `history_size` calls end in a pattern that is looked for: `critical_threshold` equal calls,
-- or as many alternating ones. Any other turn goes on.
pub should_continue_iff :
    (p : Policy) (iteration : ℕ)
    → 0 < p.config.critical_threshold
    → (should_continue p iteration ≡ false) ↔ (
        (p.config.global_circuit_breaker ≤ iteration)
        ⊎ IsDegenerate p.config (last_slice p.config.history_size p.history))
unfolding should_continue
should_continue_iff p iteration h =
    let history = last_slice p.config.history_size p.history in
    (
      λ stop. elim (Bool-cases (leb p.config.global_circuit_breaker iteration)) [
        | inl e ↦ inl (leb→le _ _ e)
        | inr e ↦ inr (verdict_stops p.config history h (ground arith))
      ],
      λ d. elim d [
        | inl e ↦ ground arith
        | inr e ↦ let v = degenerate_stops p.config history h e in ground arith
      ],
    )

-- A window smaller than the threshold switches both detectors off: with a positive `history_size` below `critical_threshold` only the circuit breaker stops a
-- loop, whatever was recorded.
pub should_continue_of_small_window :
    (p : Policy) (iteration : ℕ)
    → 0 < p.config.history_size
    → p.config.history_size < p.config.critical_threshold
    → should_continue p iteration ≡ not (leb p.config.global_circuit_breaker iteration)
unfolding should_continue
should_continue_of_small_window p iteration h small = ground (
  arith,
  length-last_slice-le p.config.history_size p.history h,
  verdict_short p.config (last_slice p.config.history_size p.history),
)
