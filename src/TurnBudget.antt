-- ===== src/TurnBudget.antt =====
-- packages/exoclaw-turn-budget: budgets per turn and per day. `Config` is enforcement.py and
-- config.py, `Usage`, `Thresholds`, `Turn` and `Daily` are tracker.py, `Policy` is policy.py, and
-- `Wrapper` is wrapper.py over an interface that both trackers fill.
pub mod Floats
pub mod Config
pub mod Usage
pub mod Thresholds
pub mod Turn
pub mod Policy
pub mod Daily
pub mod Wrapper
