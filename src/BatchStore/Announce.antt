-- ===== src/BatchStore/Announce.antt =====
-- Calls of the store that nothing interrupts: replays, and when the announcement is made.
use exoclaw_plugins.Prelude.{
  ℕ, suc, ◌+◌, ◌<◌, String, ◌≡◌, refl, ◌∙◌, sym, ap, Bool, true, false, Option, none, some, List,
  [], ◌∷◌, ◌++◌, map, arith, leb, if◌then◌else◌, str_eq_iff, contains, length, Option-cases, inl,
  inr, append_assoc, append-nil, subst, contains-snoc,
}
use mathlib.Core.Option.{some-injective}
use exoclaw_plugins.BatchStore.{
  Snapshot, Store, Origin, Completion, entry, enroll, drop_stale, register, complete_snapshot,
  complete, begin_completion, mark_announced, record_completion,
}
use exoclaw_plugins.BatchStore.View.{
  Batch, view, renew, snapshot_after, is_due, register-view, complete-view, mark_announced-view,
  begin_completion-view,
}

-- A completion of a known batch by its view: the snapshot it returns and whether it announces.
record_completion-view :
    (b t : String) (c : Completion) (s : Store) (snap : Snapshot)
    → (view b s).snapshot ≡ some snap
    → let after = snapshot_after t c snap (view b s) in
      let s' = (complete b t c snap s).0 in
      let due = is_due after (view b s) in
      record_completion true b t c s ≡ some ((if due then mark_announced b s' else s'), after, due)
unfolding record_completion
record_completion-view b t c s snap h =
    rw (begin_completion-view b t c s snap h, record_completion) (ground arith)

-- Completions of one batch, each call returning before the next; the snapshots that were announced.
unfoldable pub complete_all :
    String → List (String × Completion) → Store → Option (Store × List Snapshot)
complete_all b [] s = some (s, [])
complete_all b (e ∷ es) s = elim (record_completion true b e.0 e.1 s) [
  | none ↦ none
  | some (s', snap, announce) ↦ elim (complete_all b es s') [
    | none ↦ none
    | some (s'', snaps) ↦ some (s'', (if announce then snap ∷ snaps else snaps))
  ]
]

-- The tasks are distinct and none of them has completed.
abbrev pub AreNew : List (String × Completion) → List String → Type 0
AreNew [] done = Unit
AreNew (e ∷ es) done = (contains e.0 done ≡ false) × AreNew es (done ++ (e.0 ∷ []))

-- The snapshot after those completions.
abbrev pub finished : List (String × Completion) → Snapshot → Snapshot
finished es snap = record snap {
  completed = snap.completed + length es;
  results = snap.results ++ map (λ e. entry e.1) es;
}

finished-cons :
    (e : String × Completion) (es : List (String × Completion)) (snap : Snapshot)
    → finished es (complete_snapshot e.1 snap) ≡ finished (e ∷ es) snap
unfolding complete_snapshot
finished-cons e es snap =
    let rs = map (λ (x : String × Completion). entry x.1) es in
    ground (arith, append_assoc snap.results (entry e.1 ∷ []) rs)

finished-nil : (snap : Snapshot) → finished [] snap ≡ snap
finished-nil snap = ground (arith, append-nil snap.results)

complete_snapshot_left :
    (c : Completion) (snap : Snapshot) (n : ℕ)
    → snap.completed + suc n ≡ snap.total
    → (complete_snapshot c snap).completed + n ≡ (complete_snapshot c snap).total
unfolding complete_snapshot
complete_snapshot_left c snap n h = omega arith

-- A new completion, on the view of its batch.
complete-view_self :
    (b : String) (e : String × Completion) (s : Store) (snap : Snapshot)
    → contains e.0 (view b s).completed ≡ false
    → view b (complete b e.0 e.1 snap s).0 ≡ record (view b s) {
      snapshot = some (complete_snapshot e.1 snap);
      completed = (view b s).completed ++ (e.0 ∷ []);
    }
complete-view_self b e s snap new =
    complete-view b e.0 b e.1 snap s ∙ ground (arith, str_eq_iff b b)

record_completion_new :
    (b : String) (e : String × Completion) (s : Store) (snap : Snapshot)
    → (view b s).snapshot ≡ some snap
    → (view b s).announced ≡ false
    → contains e.0 (view b s).completed ≡ false
    → let s' = (complete b e.0 e.1 snap s).0 in
      let due = leb snap.total (snap.completed + 1) in
      record_completion true b e.0 e.1 s
      ≡ some ((if due then mark_announced b s' else s'), complete_snapshot e.1 snap, due)
unfolding complete_snapshot
record_completion_new b e s snap h a new = record_completion-view b e.0 e.1 s snap h ∙ ground arith

complete_all-cons :
    (b : String) (e : String × Completion) (es : List (String × Completion)) (s s' s'' : Store)
    (snap : Snapshot) (snaps : List Snapshot) (due : Bool)
    → record_completion true b e.0 e.1 s ≡ some (s', snap, due)
    → complete_all b es s' ≡ some (s'', snaps)
    → complete_all b (e ∷ es) s ≡ some (s'', (if due then snap ∷ snaps else snaps))
unfolding complete_all
complete_all-cons b e es s s' s'' snap snaps due h k = ground arith

complete_all-nil : (b : String) (s : Store) → complete_all b [] s ≡ some (s, [])
unfolding complete_all
complete_all-nil b s = refl

-- Let a batch that was not announced have exactly as many tasks left as the completions that come
-- in, one at least, of tasks that are distinct and new. Then, in whatever order they come, exactly
-- one announcement is made; it carries every result, the earlier ones first and these in the order
-- of completion, and the batch is marked as announced.
pub complete_all_announces_once :
    (b : String) (es : List (String × Completion)) (s : Store) (snap : Snapshot)
    → (view b s).snapshot ≡ some snap
    → (view b s).announced ≡ false
    → AreNew es (view b s).completed
    → 0 < length es
    → snap.completed + length es ≡ snap.total
    → (s' : Store) × (complete_all b es s ≡ some (s', finished es snap ∷ []))
      × ((view b s').announced ≡ true)
complete_all_announces_once b [] s snap h a new p n = absurd (omega arith)
complete_all_announces_once b (e ∷ []) s snap h a new p n =
    let s1 = (complete b e.0 e.1 snap s).0 in
    let s2 = mark_announced b s1 in
    let due : leb snap.total (snap.completed + 1) ≡ true = ground arith in
    let first : record_completion true b e.0 e.1 s ≡ some (s2, complete_snapshot e.1 snap, true) =
      record_completion_new b e s snap h a new.0 ∙ ground (arith, due) in
    (
      s2,
      complete_all-cons b e [] s s2 s2 (complete_snapshot e.1 snap) [] true first
            (complete_all-nil b s2)
          ∙ ground (arith, finished-cons e [] snap, finished-nil (complete_snapshot e.1 snap)),
      ground (arith, mark_announced-view b b s1, str_eq_iff b b),
    )
complete_all_announces_once b (e ∷ e' ∷ es) s snap h a new p n =
    let s1 = (complete b e.0 e.1 snap s).0 in
    let snap1 = complete_snapshot e.1 snap in
    let v1 = complete-view_self b e s snap new.0 in
    let due : leb snap.total (snap.completed + 1) ≡ false = ground arith in
    let first : record_completion true b e.0 e.1 s ≡ some (s1, snap1, false) =
      record_completion_new b e s snap h a new.0 ∙ ground (arith, due) in
    let (s2, rest, marked) =
      complete_all_announces_once b (e' ∷ es) s1 snap1 (ground (arith, v1)) (ground (arith, v1))
        (subst (λ (v : Batch). AreNew (e' ∷ es) v.completed) (sym v1) new.1) (omega arith)
        (complete_snapshot_left e.1 snap (length (e' ∷ es)) (omega arith)) in
    (
      s2,
      complete_all-cons b e (e' ∷ es) s s1 s2 snap1 (finished (e' ∷ es) snap1 ∷ []) false first rest
          ∙ ground (arith, finished-cons e (e' ∷ es) snap),
      marked,
    )

complete_again :
    (b t : String) (c : Completion) (snap : Snapshot) (s : Store)
    → contains t (view b s).completed ≡ true
    → complete b t c snap s ≡ (s, snap)
unfolding complete view
complete_again b t c snap s h = ground arith

begin_completion_unknown :
    (b t : String) (c : Completion) (s : Store)
    → (view b s).snapshot ≡ none
    → record_completion true b t c s ≡ none
unfolding begin_completion record_completion view
begin_completion_unknown b t c s h = ground arith

-- What is known of the batch after a completion that returned.
after_completion :
    (b t : String) (c : Completion) (s : Store) (snap : Snapshot)
    → (view b s).snapshot ≡ some snap
    → let after = snapshot_after t c snap (view b s) in
      let due = is_due after (view b s) in
      let s' =
        (if due then mark_announced b (complete b t c snap s).0 else (complete b t c snap s).0) in
      ((view b s').snapshot ≡ some after)
      × (contains t (view b s').completed ≡ true)
      × (is_due after (view b s') ≡ false)
after_completion b t c s snap h =
    let s1 = (complete b t c snap s).0 in
    let v = complete-view b t b c snap s in
    let m = mark_announced-view b b s1 in
    let b' = str_eq_iff b b in
    let k = contains-snoc t t (view b s).completed in
    let t' = str_eq_iff t t in
    (ground (arith, v, m, b'), ground (arith, v, m, b', k, t'), ground (arith, v, m, b'))

-- A completion is idempotent on its batch and task: when a call has returned a snapshot, a replay of
-- it, whatever status it carries, returns the same snapshot, changes nothing in the store and
-- announces nothing.
pub record_completion_idem :
    (b t : String) (c c' : Completion) (s s' : Store) (snap : Snapshot) (due : Bool)
    → record_completion true b t c s ≡ some (s', snap, due)
    → record_completion true b t c' s' ≡ some (s', snap, false)
record_completion_idem b t c c' s s' snap due h = elim (Option-cases (view b s).snapshot) [
  | inl e ↦ absurd (ground (arith, begin_completion_unknown b t c s e))
  | inr (snap0, e) ↦
      let after = snapshot_after t c snap0 (view b s) in
      let s1 = (complete b t c snap0 s).0 in
      let due0 = is_due after (view b s) in
      let s2 = (if due0 then mark_announced b s1 else s1) in
      let r = record_completion-view b t c s snap0 e in
      let (e2, done, idle) = after_completion b t c s snap0 e in
      let again : record_completion true b t c' s2 ≡ some (s2, after, false) =
        record_completion-view b t c' s2 after e2
        ∙ ground (arith, done, idle, complete_again b t c' after s2 done) in
      let q = some-injective _ _ (sym r ∙ h) in
      rw
        (
          ← ap (λ (x : Store × Snapshot × Bool). x.0) q,
          ← ap (λ (x : Store × Snapshot × Bool). x.1) q,
        )
        again
]

drop_stale_live : (b : String) (s : Store) → (view b s).announced ≡ false → drop_stale b s ≡ s
unfolding drop_stale view
drop_stale_live b s h = ground arith

enroll_again :
    (b t : String) (o : Origin) (s : Store)
    → contains t (view b s).registered ≡ true
    → enroll b t o s ≡ s
unfolding enroll view
enroll_again b t o s h = ground arith

-- `register` is idempotent on its batch and task.
pub register_idem :
    (b t : String) (o o' : Origin) (s : Store)
    → register b t o' (register b t o s) ≡ register b t o s
unfolding register
register_idem b t o o' s =
    let s1 = register b t o s in
    let v = register-view b t b o s in
    let live : (view b s1).announced ≡ false = ground (arith, v, str_eq_iff b b) in
    let there : contains t (view b s1).registered ≡ true =
      ground (
        arith,
        v,
        str_eq_iff b b,
        contains-snoc t t (renew (view b s)).registered,
        str_eq_iff t t,
      ) in
    ap (enroll b t o') (drop_stale_live b s1 live) ∙ enroll_again b t o' s1 there
