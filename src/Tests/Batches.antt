-- ===== src/Tests/Batches.antt =====
-- The batch store at a small run.
use exoclaw_plugins.Prelude.{
  String, ◌≡◌, refl, List, [], ◌∷◌, some, none, true, false, arith, contains, add, discard, lookup,
  insert, erase, select,
}
use exoclaw_plugins.BatchStore.{
  Snapshot, Store, Origin, Completion, init, drop_stale, new_snapshot, enroll, register,
  path_or_placeholder, complete_snapshot, complete, should_announce, begin_completion,
  mark_announced, record_completion, list_active,
}
use exoclaw_plugins.BatchStore.View.{view, register-view, enrolled, renew}
use exoclaw_plugins.BatchStore.Invariant.{IsValid, init-IsValid, register-IsValid}
use exoclaw_plugins.BatchStore.Announce.{
  complete_all, finished, complete_all_announces_once, record_completion_idem,
}
use exoclaw_plugins.BatchStore.Schedule.{
  World, decided, start, registers, completes, publishes, Reach, here, next, IsSafe, Reach-IsSafe,
  late_registration_not_announced,
}

abbrev origin : Origin
origin = record { session_key = none; origin_channel = "cli"; origin_chat_id = "direct" }

abbrev finish : Completion
finish = record { status = "ok"; label = "job"; result_path = some "" }

program : Unit {0}
unfolding contains add discard lookup insert erase select view drop_stale new_snapshot enroll
    register path_or_placeholder complete_snapshot complete should_announce begin_completion
    mark_announced record_completion list_active complete_all
program = tt

-- Two tasks of one batch.
abbrev two_tasks : Store
two_tasks = register "b" "t2" origin (register "b" "t1" origin init)

abbrev snapshot : Snapshot
snapshot = record {
  batch_id = "b";
  total = 2;
  completed = 0;
  results = [];
  origin_channel = "cli";
  origin_chat_id = "direct";
  session_key = none;
}

two_tasks_active : list_active two_tasks ≡ snapshot ∷ []
unfolding program
two_tasks_active = refl

abbrev both : List (String × Completion)
both = ("t2", finish) ∷ ("t1", finish) ∷ []

complete_all_announces_once_example :
    (s : Store) × (complete_all "b" both two_tasks ≡ some (s, finished both snapshot ∷ []))
    × ((view "b" s).announced ≡ true)
unfolding program
complete_all_announces_once_example =
    complete_all_announces_once "b" both two_tasks snapshot refl refl (refl, (refl, tt))
      (omega arith) refl

register-view_example :
    view "b" (register "b" "t2" origin two_tasks)
    ≡ enrolled "b" "t2" origin (renew (view "b" two_tasks))
register-view_example = register-view "b" "t2" "b" origin two_tasks

abbrev one_done : Store
one_done = (complete "b" "t1" finish snapshot two_tasks).0

record_completion_idem_example :
    record_completion true "b" "t1" finish one_done
    ≡ some (one_done, complete_snapshot finish snapshot, false)
unfolding program
record_completion_idem_example =
    record_completion_idem "b" "t1" finish finish two_tasks one_done
      (complete_snapshot finish snapshot) false refl

-- One task registers, completes, and is announced.
abbrev single : Snapshot
single = record snapshot { total = 1 }

abbrev world1 : World
world1 = record start { store = register "b" "t1" origin init }

abbrev world2 : World
world2 = record world1 {
  store = (complete "b" "t1" finish single world1.store).0;
  awaiting =
      decided "b" (complete_snapshot finish single) (complete "b" "t1" finish single world1.store).0
      ∷ [];
}

abbrev world3 : World
world3 = record world2 { awaiting = []; delivered = world2.awaiting; published = world2.awaiting }

run : Reach start world3
unfolding program
run =
    next
      (next (next here (registers "b" "t1" origin refl))
        (completes "b" "t1" finish world2.store (complete_snapshot finish single) true refl refl))
      (publishes [] [] (decided "b" (complete_snapshot finish single) world2.store) refl refl)

Reach-IsSafe_example : IsSafe world3
Reach-IsSafe_example = Reach-IsSafe run

register-IsValid_example : IsValid two_tasks
register-IsValid_example =
    register-IsValid "b" "t2" origin (register-IsValid "b" "t1" origin init-IsValid)

late_registration_not_announced_example :
    (s' : Store) × (after : Snapshot) × (begin_completion "b" "t2" finish
        (mark_announced "b" (register "b" "t2" origin world2.store))
      ≡ some (s', after, false))
    × (after.completed ≡ after.total)
unfolding program
late_registration_not_announced_example =
    late_registration_not_announced "b" "t2" origin finish world2.store
      (complete_snapshot finish single) refl refl refl refl refl

-- An id that was not registered counts: with it and one of two tasks the batch is announced.
counts_stranger :
    begin_completion "b" "t1" finish (complete "b" "x" finish snapshot two_tasks).0
    ≡ some (
      (complete "b" "t1" finish
          (complete_snapshot finish snapshot)
          (complete "b" "x" finish snapshot two_tasks).0).0,
      complete_snapshot finish (complete_snapshot finish snapshot),
      true,
    )
unfolding program
counts_stranger = refl
