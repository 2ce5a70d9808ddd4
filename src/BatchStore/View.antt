-- ===== src/BatchStore/View.antt =====
-- One batch at a time: what each operation of the store does to each batch.
use exoclaw_plugins.Prelude.{
  ◌+◌, String, ◌≡◌, sym, ap, inl, inr, Option-cases, ◌∙◌, Bool, true, false, not, ◌&&◌, Option,
  none, some, List, [], ◌∷◌, ◌++◌, arith, leb, if◌then◌else◌, str_eq, str_eq_iff, contains, lookup,
  lookup-insert, lookup-erase, contains-add, contains-discard,
}
use mathlib.Core.Option.{some-injective}
use exoclaw_plugins.BatchStore.{
  Snapshot, Store, Origin, Completion, set_at, drop_stale, snapshot_or_new, enroll, register,
  complete_snapshot, complete, should_announce, begin_completion, mark_announced,
}

-- What the store knows of one batch.
pub record Batch : Type 0 where
  pub snapshot : Option Snapshot
  pub registered : List String
  pub completed : List String
  pub announced : Bool

unfoldable pub view : String → Store → Batch
view b s = record {
  snapshot = lookup b s.batches;
  registered = set_at b s.registered;
  completed = set_at b s.completed;
  announced = contains b s.announced;
}

abbrev pub fresh : Batch
fresh = record { snapshot = none; registered = []; completed = []; announced = false }

-- `register`, as it acts on its batch.
abbrev pub renew : Batch → Batch
renew v = if v.announced then fresh else v

abbrev pub enrolled : String → String → Origin → Batch → Batch
enrolled b t o v =
    let snap = snapshot_or_new b o v.snapshot in
    if contains t v.registered then v else record v {
      snapshot = some (record snap { total = snap.total + 1 });
      registered = v.registered ++ (t ∷ []);
    }

drop_stale-view :
    (b j : String) (s : Store)
    → view j (drop_stale b s) ≡ (if str_eq b j then renew (view j s) else view j s)
unfolding view drop_stale
drop_stale-view b j s = ground (
  arith,
  str_eq_iff b j,
  lookup-erase b j s.batches,
  lookup-erase b j s.registered,
  lookup-erase b j s.completed,
  contains-discard b j s.announced,
)

enroll-view :
    (b t j : String) (o : Origin) (s : Store)
    → view j (enroll b t o s) ≡ (if str_eq b j then enrolled b t o (view j s) else view j s)
unfolding view enroll
enroll-view b t j o s =
    let snap = snapshot_or_new b o (lookup b s.batches) in
    ground (
      arith,
      str_eq_iff b j,
      lookup-insert b j (record snap { total = snap.total + 1 }) s.batches,
      lookup-insert b j (set_at b s.registered ++ (t ∷ [])) s.registered,
    )

-- `register` of one batch leaves every other alone.
pub register-view :
    (b t j : String) (o : Origin) (s : Store)
    → view j (register b t o s)
      ≡ (if str_eq b j then enrolled b t o (renew (view j s)) else view j s)
unfolding register
register-view b t j o s =
    enroll-view b t j o (drop_stale b s) ∙ ground (arith, drop_stale-view b j s)

-- The first locked section on its batch.
abbrev pub progressed : String → Completion → Snapshot → Batch → Batch
progressed t c snap v = if contains t v.completed then v else record v {
  snapshot = some (complete_snapshot c snap);
  completed = v.completed ++ (t ∷ []);
}

abbrev pub snapshot_after : String → Completion → Snapshot → Batch → Snapshot
snapshot_after t c snap v = if contains t v.completed then snap else complete_snapshot c snap

abbrev pub is_due : Snapshot → Batch → Bool
is_due snap v = leb snap.total snap.completed && not v.announced

pub complete-view :
    (b t j : String) (c : Completion) (snap : Snapshot) (s : Store)
    → view j (complete b t c snap s).0
      ≡ (if str_eq b j then progressed t c snap (view j s) else view j s)
unfolding view complete
complete-view b t j c snap s = ground (
  arith,
  str_eq_iff b j,
  lookup-insert b j (complete_snapshot c snap) s.batches,
  lookup-insert b j (set_at b s.completed ++ (t ∷ [])) s.completed,
)

pub mark_announced-view :
    (b j : String) (s : Store)
    → view j (mark_announced b s)
      ≡ (if str_eq b j then record (view j s) { announced = true } else view j s)
unfolding view mark_announced
mark_announced-view b j s = ground (arith, str_eq_iff b j, contains-add b j s.announced)

-- What `begin_completion` answers, from the view of its batch alone.
pub begin_completion-view :
    (b t : String) (c : Completion) (s : Store) (snap : Snapshot)
    → (view b s).snapshot ≡ some snap
    → begin_completion b t c s ≡ (
        let after = snapshot_after t c snap (view b s) in
        some ((complete b t c snap s).0, after, is_due after (view b s)))
unfolding begin_completion complete should_announce view
begin_completion-view b t c s snap h = ground arith

-- The store holds the snapshot that is returned.
pub snapshot-complete :
    (b t : String) (c : Completion) (s : Store) (snap : Snapshot)
    → (view b s).snapshot ≡ some snap
    → (view b (complete b t c snap s).0).snapshot ≡ some (snapshot_after t c snap (view b s))
snapshot-complete b t c s snap h = ground (arith, complete-view b t b c snap s, str_eq_iff b b)

begin_completion-none :
    (b t : String) (c : Completion) (s : Store)
    → (view b s).snapshot ≡ none
    → begin_completion b t c s ≡ none
unfolding begin_completion view
begin_completion-none b t c s h = ground arith

-- The call that a result comes from.
pub begin_completion-inversion :
    (b t : String) (c : Completion) (s s' : Store) (snap : Snapshot) (due : Bool)
    → begin_completion b t c s ≡ some (s', snap, due)
    → (old : Snapshot) × ((view b s).snapshot ≡ some old)
      × (s' ≡ (complete b t c old s).0)
      × (snap ≡ snapshot_after t c old (view b s))
      × (due ≡ is_due snap (view b s))
begin_completion-inversion b t c s s' snap due h = elim (Option-cases (view b s).snapshot) [
  | inl e ↦ absurd (ground (arith, begin_completion-none b t c s e))
  | inr (old, e) ↦
      let q = some-injective _ _ (sym (begin_completion-view b t c s old e) ∙ h) in
      let p = ap (λ (x : Store × Snapshot × Bool). x.1) q in
      (
        old,
        e,
        sym (ap (λ (x : Store × Snapshot × Bool). x.0) q),
        sym p,
        sym (ap (λ (x : Store × Snapshot × Bool). x.2) q)
            ∙ ap (λ (x : Snapshot). is_due x (view b s)) p,
      )
]
