-- ===== src/BatchStore/Invariant.antt =====
-- The counters of a snapshot against the rosters that the store keeps beside it.
use exoclaw_plugins.Prelude.{
  ◌+◌, ◌<◌, String, ◌≡◌, refl, Bool, true, false, Option, none, some, List, [], ◌∷◌, ◌++◌, arith,
  if◌then◌else◌, str_eq, str_eq_iff, contains, lookup, length, length-append, Bool-cases, inl, inr,
  subst,
}
use exoclaw_plugins.BatchStore.{
  Snapshot, Store, Origin, Completion, entry, init, new_snapshot, snapshot_or_new, register,
  complete_snapshot, complete, mark_announced,
}
use exoclaw_plugins.BatchStore.Rosters.{IsDistinct, IsDistinct-snoc}
use exoclaw_plugins.BatchStore.View.{
  Batch, view, renew, enrolled, progressed, register-view, complete-view, mark_announced-view,
}

-- The rosters have no repetitions. `total` counts the registered tasks, of which there is one; `completed` counts
-- the ids that completed, each of which has its entry in `results`.
pub record IsCounted (snap : Snapshot) (roster finished : List String) : Type 0 where
  pub roster_distinct : IsDistinct roster
  pub finished_distinct : IsDistinct finished
  pub total : snap.total ≡ length roster
  pub positive : 0 < snap.total
  pub completed : snap.completed ≡ length finished
  pub results : length snap.results ≡ snap.completed

-- A batch is unknown and has no rosters, or its snapshot counts them.
abbrev pub Counts : Option Snapshot → List String → List String → Type 0
Counts none registered completed = (registered ≡ []) × (completed ≡ [])
Counts (some snap) registered completed = IsCounted snap registered completed

abbrev pub IsCoherent : Batch → Type 0
IsCoherent v = Counts v.snapshot v.registered v.completed

pub record IsValid (s : Store) : Type 0 where
  pub coherent : (b : String) → IsCoherent (view b s)

enrolled-Counts :
    (b t : String) (o : Origin) (snapshot : Option Snapshot) (registered completed : List String)
    → Counts snapshot registered completed
    → contains t registered ≡ false
    → let snap = snapshot_or_new b o snapshot in
      IsCounted (record snap { total = snap.total + 1 }) (registered ++ (t ∷ [])) completed
unfolding new_snapshot contains
enrolled-Counts b t o none registered completed (r, c) new = record {
  roster_distinct = rw r (refl, tt);
  finished_distinct = rw c tt;
  total = rw r refl;
  positive = omega arith;
  completed = rw c refl;
  results = refl;
}
enrolled-Counts b t o (some snap) registered completed h new =
    let l = length-append registered (t ∷ []) in
    record {
      roster_distinct = IsDistinct-snoc registered t h.roster_distinct new;
      finished_distinct = h.finished_distinct;
      total = omega arith;
      positive = omega arith;
      completed = h.completed;
      results = h.results;
    }

enrolled-IsCoherent :
    (b t : String) (o : Origin) (v : Batch) → IsCoherent v → IsCoherent (enrolled b t o v)
enrolled-IsCoherent b t o v h = elim (Bool-cases (contains t v.registered)) [
  | inl old ↦ rw old h
  | inr new ↦ rw new (enrolled-Counts b t o v.snapshot v.registered v.completed h new)
]

renew-IsCoherent : (v : Batch) → IsCoherent v → IsCoherent (renew v)
renew-IsCoherent v h = elim (Bool-cases v.announced) [
  | inl old ↦ rw old (refl, refl)
  | inr new ↦ rw new h
]

progressed-IsCoherent :
    (t : String) (c : Completion) (snap : Snapshot) (v : Batch)
    → v.snapshot ≡ some snap
    → IsCoherent v
    → IsCoherent (progressed t c snap v)
unfolding complete_snapshot
progressed-IsCoherent t c snap v e h = elim (Bool-cases (contains t v.completed)) [
  | inl old ↦ rw old h
  | inr new ↦
      let k : IsCounted snap v.registered v.completed =
        subst (λ (o : Option Snapshot). Counts o v.registered v.completed) e h in
      rw new (record {
        roster_distinct = k.roster_distinct;
        finished_distinct = IsDistinct-snoc v.completed t k.finished_distinct new;
        total = k.total;
        positive = k.positive;
        completed = omega (arith, length-append v.completed (t ∷ []), k.completed);
        results = omega (arith, length-append snap.results (entry c ∷ []), k.results);
      })
]

-- The empty store is valid.
pub init-IsValid : IsValid init
unfolding view lookup
init-IsValid = record { coherent = λ b. (refl, refl) }

-- `register` keeps every batch's counters right, whatever batch it is called for, also when it
-- drops a batch that was announced.
pub register-IsValid :
    (b t : String) (o : Origin) {s : Store} → IsValid s → IsValid (register b t o s)
register-IsValid b t o {s} h = record {
  coherent = λ j.
      rw (register-view b t j o s)
        (elim (str_eq b j)
          as (λ (q : Bool).
            IsCoherent (if q then enrolled b t o (renew (view j s)) else view j s)) [
              | true ↦
                  enrolled-IsCoherent b t o (renew (view j s))
                    (renew-IsCoherent (view j s) (h.coherent j))
              | false ↦ h.coherent j
            ]);
}

-- So does a completion.
pub complete-IsValid :
    (b t : String) (c : Completion) (snap : Snapshot) {s : Store}
    → (view b s).snapshot ≡ some snap
    → IsValid s
    → IsValid (complete b t c snap s).0
complete-IsValid b t c snap {s} e h = record {
  coherent = λ j. rw (complete-view b t j c snap s) (elim (Bool-cases (str_eq b j)) [
    | inl here ↦
        let same : b ≡ j = (str_eq_iff b j).0 here in
        rw here (
          progressed-IsCoherent t c snap (view j s)
            (subst (λ (i : String). (view i s).snapshot ≡ some snap) same e) (h.coherent j))
    | inr other ↦ rw other (h.coherent j)
  ]);
}

-- And the mark of an announced batch.
pub mark_announced-IsValid : (b : String) {s : Store} → IsValid s → IsValid (mark_announced b s)
mark_announced-IsValid b {s} h = record {
  coherent = λ j. rw (mark_announced-view b j s) (elim (Bool-cases (str_eq b j)) [
    | inl here ↦ rw here (h.coherent j)
    | inr other ↦ rw other (h.coherent j)
  ]);
}
