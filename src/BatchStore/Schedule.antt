-- ===== src/BatchStore/Schedule.antt =====
-- Calls of the store that interleave: other tasks run while `announce` is awaited, and again before
-- the second locked section.
use exoclaw_plugins.Prelude.{
  ◌+◌, ◌≤◌, String, ◌≡◌, ◌∙◌, Bool, true, false, Option, some, List, [], ◌∷◌, ◌++◌, arith, leb,
  leb→le, Bool-cases, sym, if◌then◌else◌, str_eq_iff, contains, All, inl, inr, subst, ◌⊎◌,
}
use exoclaw_plugins.BatchStore.{
  Snapshot, Store, Origin, Completion, init, register, complete, complete_snapshot,
  begin_completion, mark_announced,
}
use exoclaw_plugins.BatchStore.Rosters.{all_in, all_in-back}
use exoclaw_plugins.BatchStore.View.{
  view, snapshot_after, register-view, mark_announced-view, begin_completion-view,
  snapshot-complete, begin_completion-inversion,
}
use exoclaw_plugins.BatchStore.Invariant.{
  IsValid, IsCounted, Counts, init-IsValid, register-IsValid, complete-IsValid,
  mark_announced-IsValid,
}

-- An announcement: the snapshot with the rosters of its batch at the time of the decision.
pub record Announcement : Type 0 where
  pub batch : String
  pub snapshot : Snapshot
  pub registered : List String
  pub completed : List String

abbrev pub decided : String → Snapshot → Store → Announcement
decided b snap s = record {
  batch = b;
  snapshot = snap;
  registered = (view b s).registered;
  completed = (view b s).completed;
}

-- The store, the calls that await `announce`, those that wait for the second locked section, and
-- what was published so far.
pub record World : Type 0 where
  pub store : Store
  pub awaiting : List Announcement
  pub delivered : List Announcement
  pub published : List Announcement

abbrev pub start : World
start = record { store = init; awaiting = []; delivered = []; published = [] }

-- One step of some task between two awaits.
pub data Step (w u : World) : Type 0 where
  registers :
      (b t : String) (o : Origin) → u ≡ record w { store = register b t o w.store } → Step w u
  completes :
      (b t : String) (c : Completion) (s : Store) (snap : Snapshot) (due : Bool)
      → begin_completion b t c w.store ≡ some (s, snap, due)
      → u ≡ record w {
        store = s;
        awaiting = (if due then decided b snap s ∷ w.awaiting else w.awaiting);
      }
      → Step w u
  publishes :
      (before after : List Announcement) (a : Announcement)
      → w.awaiting ≡ before ++ (a ∷ after)
      → u ≡ record w {
        awaiting = before ++ after;
        delivered = a ∷ w.delivered;
        published = a ∷ w.published;
      }
      → Step w u
  fails :
      (before after : List Announcement) (a : Announcement)
      → w.awaiting ≡ before ++ (a ∷ after)
      → u ≡ record w { awaiting = before ++ after }
      → Step w u
  marks :
      (before after : List Announcement) (a : Announcement)
      → w.delivered ≡ before ++ (a ∷ after)
      → u ≡ record w { store = mark_announced a.batch w.store; delivered = before ++ after }
      → Step w u

pub data Reach (w : World) : World → Type 0 where
  here : Reach w w
  next : {u v : World} → Reach w u → Step u v → Reach w v

-- The snapshot counts the rosters, and as many ids have completed as tasks were registered: all registered tasks, or
-- one of the ids was not registered.
pub record IsDone (a : Announcement) : Type 0 where
  pub counted : IsCounted a.snapshot a.registered a.completed
  pub enough : a.snapshot.total ≤ a.snapshot.completed
  pub all_tasks :
      (all_in a.registered a.completed ≡ true) ⊎ (all_in a.completed a.registered ≡ false)

pub record IsSafe (w : World) : Type 0 where
  pub valid : IsValid w.store
  pub awaiting : All IsDone w.awaiting
  pub published : All IsDone w.published

All-middle :
    (before after : List Announcement) (a : Announcement)
    → All IsDone (before ++ (a ∷ after))
    → IsDone a × All IsDone (before ++ after)
All-middle [] after a h = h
All-middle (x ∷ before) after a h =
    let (first, rest) = All-middle before after a h.1 in (first, (h.0, rest))

IsDone-of_IsCounted :
    (a : Announcement)
    → IsCounted a.snapshot a.registered a.completed
    → leb a.snapshot.total a.snapshot.completed ≡ true
    → IsDone a
IsDone-of_IsCounted a h e = record {
  counted = h;
  enough = leb→le _ _ e;
  all_tasks = elim (Bool-cases (all_in a.completed a.registered)) [
    | inl within ↦ inl (
        all_in-back a.completed a.registered h.finished_distinct
          (omega (arith, leb→le _ _ e, h.total, h.completed)) within)
    | inr outside ↦ inr outside
  ];
}

-- A completion keeps the store valid, and what is due is done.
begin_completion-IsDone :
    (b t : String) (c : Completion) (s s' : Store) (snap : Snapshot) (due : Bool)
    → IsValid s
    → begin_completion b t c s ≡ some (s', snap, due)
    → IsValid s' × (due ≡ true → IsDone (decided b snap s'))
begin_completion-IsDone b t c s s' snap due valid h =
    let (old, e, es, esnap, edue) = begin_completion-inversion b t c s s' snap due h in
    let valid1 = complete-IsValid b t c old e valid in
    let there = snapshot-complete b t c s old e in
    let v = view b (complete b t c old s).0 in
    let counted : IsCounted (snapshot_after t c old (view b s)) v.registered v.completed =
      subst (λ (o : Option Snapshot). Counts o v.registered v.completed) there
        (valid1.coherent b) in
    (
      rw es valid1,
      λ d. rw es (
          IsDone-of_IsCounted (decided b snap (complete b t c old s).0)
            (subst (λ (x : Snapshot). IsCounted x v.registered v.completed) (sym esnap) counted)
            (ground arith)),
    )

Step-IsSafe : {w u : World} → Step w u → IsSafe w → IsSafe u
Step-IsSafe {w} (registers b t o e) h = rw e (record {
  valid = register-IsValid b t o h.valid;
  awaiting = h.awaiting;
  published = h.published;
})
Step-IsSafe {w} (completes b t c s snap due k e) h =
    let (valid, done) = begin_completion-IsDone b t c w.store s snap due h.valid k in
    rw e (record {
      valid = valid;
      awaiting = elim (Bool-cases due) [
        | inl yes' ↦ rw yes' (done yes', h.awaiting)
        | inr no' ↦ rw no' h.awaiting
      ];
      published = h.published;
    })
Step-IsSafe {w} (publishes before after a k e) h =
    let (done, rest) =
      All-middle before after a (subst (λ (l : List Announcement). All IsDone l) k h.awaiting) in
    rw e (record { valid = h.valid; awaiting = rest; published = (done, h.published) })
Step-IsSafe {w} (fails before after a k e) h =
    let (done, rest) =
      All-middle before after a (subst (λ (l : List Announcement). All IsDone l) k h.awaiting) in
    rw e (record { valid = h.valid; awaiting = rest; published = h.published })
Step-IsSafe {w} (marks before after a k e) h = rw e (record {
  valid = mark_announced-IsValid a.batch h.valid;
  awaiting = h.awaiting;
  published = h.published;
})

-- However registrations, completions, announcements (returning or failing) and marks of any batches
-- interleave, every snapshot that is announced counts the rosters of its batch at the time of the
-- decision, which have no repetitions: at least one registered task, as many completed ids as
-- registered tasks or more, and one entry for each of these ids. All registered tasks have
-- completed then, unless some completed id was not registered. And the counters of every batch in
-- the store agree with its rosters.
pub Reach-IsSafe : {w : World} → Reach start w → IsSafe w
Reach-IsSafe here = record { valid = init-IsValid; awaiting = tt; published = tt }
Reach-IsSafe (next r s) = Step-IsSafe s (Reach-IsSafe r)

-- If a new task registers for a batch whose completed count is its total, between its announcement and the
-- mark, and has not completed, then after the mark its completion brings the completed count to the
-- total again and is not due for an announcement.
pub late_registration_not_announced :
    (b t : String) (o : Origin) (c : Completion) (s : Store) (snap : Snapshot)
    → (view b s).snapshot ≡ some snap
    → (view b s).announced ≡ false
    → contains t (view b s).registered ≡ false
    → contains t (view b s).completed ≡ false
    → snap.completed ≡ snap.total
    → (s' : Store) × (after : Snapshot) × (begin_completion b t c
          (mark_announced b (register b t o s))
        ≡ some (s', after, false))
      × (after.completed ≡ after.total)
unfolding complete_snapshot
late_registration_not_announced b t o c s snap e live new open' full =
    let s1 = register b t o s in
    let s2 = mark_announced b s1 in
    let v1 = register-view b t b o s in
    let v2 = mark_announced-view b b s1 in
    let b' = str_eq_iff b b in
    let snap1 : Snapshot = record snap { total = snap.total + 1 } in
    let e2 : (view b s2).snapshot ≡ some snap1 = ground (arith, v1, v2, b') in
    let new2 : contains t (view b s2).completed ≡ false = ground (arith, v1, v2, b') in
    let marked : (view b s2).announced ≡ true = ground (arith, v1, v2, b') in
    (
      (complete b t c snap1 s2).0,
      complete_snapshot c snap1,
      begin_completion-view b t c s2 snap1 e2 ∙ ground (arith, new2, marked),
      omega arith,
    )
