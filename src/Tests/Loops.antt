-- ===== src/Tests/Loops.antt =====
-- Loop detection at concrete histories.
use exoclaw_plugins.Prelude.{
  ◌≤◌, String, ◌≡◌, refl, ◌↔◌, ◌⊎◌, List, [], ◌∷◌, some, true, false, arith,
}
use exoclaw_plugins.LoopDetection.{
  Config, default_config, ToolCall, Policy, init, streak, has_streak, repeats, cycles, alternates,
  ping_pongs, verdict, should_continue, runaway, stuck, count_into, counter, most_common,
  on_limit_reached,
}
use exoclaw_plugins.LoopDetection.Window.{record_all, record_all-history}
use exoclaw_plugins.LoopDetection.Verdict.{IsDegenerate, should_continue_iff}

abbrev config : Config
config = record default_config {
  history_size = 4;
  critical_threshold = 4;
  global_circuit_breaker = 9;
}

abbrev read : ToolCall
read = record { name = "read"; args_hash = "a" }

abbrev write : ToolCall
write = record { name = "write"; args_hash = "b" }

abbrev stuck_policy : Policy
stuck_policy = record { config = config; history = read ∷ read ∷ read ∷ read ∷ [] }

abbrev swinging : Policy
swinging = record { config = config; history = read ∷ write ∷ read ∷ write ∷ [] }

abbrev busy : Policy
busy = record { config = config; history = read ∷ read ∷ write ∷ read ∷ [] }

program : Unit {0}
unfolding streak has_streak repeats cycles alternates ping_pongs verdict should_continue count_into
    counter most_common on_limit_reached
program = tt

stuck_stops : should_continue stuck_policy 3 ≡ false
unfolding program
stuck_stops = refl

swinging_stops : should_continue swinging 3 ≡ false
unfolding program
swinging_stops = refl

busy_continues : should_continue busy 3 ≡ true
unfolding program
busy_continues = refl

breaker : on_limit_reached busy 9 ≡ runaway 9
unfolding program
breaker = refl

busy_diagnosis : on_limit_reached busy 3 ≡ stuck "read" 3
unfolding program
busy_diagnosis = refl

abbrev calls : List (String × String)
calls = ("read", "a") ∷ ("write", "b") ∷ ("read", "a") ∷ ("write", "b") ∷ ("read", "a") ∷ []

-- `json.dumps` of the arguments, for this run the text itself.
abbrev dumps : String → String → String
dumps name args = args

record_all-history_example :
    (record_all dumps calls (init (some config))).history ≡ write ∷ read ∷ write ∷ read ∷ []
record_all-history_example = record_all-history dumps calls config

should_continue_iff_example :
    (should_continue swinging 3 ≡ false) ↔ ((9 ≤ 3) ⊎ IsDegenerate config swinging.history)
should_continue_iff_example = should_continue_iff swinging 3 (omega arith)
