-- ===== src/Cron/Run/Affects.antt =====
-- What one job's run in service.py may change: the job itself and its place in the store.
use exoclaw_plugins.Prelude.{
  ℕ, ◌≤◌, ◌≡◌, ◌≢◌, refl, sym, ap, ◌∙◌, String, Bool, true, false, not, ◌&&◌, ◌||◌, List, [], ◌∷◌,
  arith, select, str_eq, str_eq_iff, ◌==◌, ==_iff, Bool-cases, Option-cases, inl, inr, subst,
}
use exoclaw_plugins.Cron.{CronJob}
use exoclaw_plugins.Cron.Service.{Service, jobs_of, write, now_ms}
use exoclaw_plugins.Cron.Run.{drop_id}

unfoldable pub mem : ℕ → List ℕ → Bool
mem r [] = false
mem r (x ∷ xs) = (x == r) || mem r xs

pub mem-select : (p : ℕ → Bool) (r : ℕ) (xs : List ℕ) → mem r (select p xs) ≡ (p r && mem r xs)
unfolding mem select
mem-select p r [] = ground arith
mem-select p r (x ∷ xs) = elim (Bool-cases (x == r)) [
  | inl e ↦
      subst (λ y. mem r (select p (y ∷ xs)) ≡ (p r && mem r (y ∷ xs))) (sym ((==_iff x r).0 e))
        (ground (arith, mem-select p r xs))
  | inr e ↦ ground (arith, mem-select p r xs)
]

abbrev pub IsMonotone : (ℕ → ℕ) → Type 0
IsMonotone clock = (m n : ℕ) → m ≤ n → clock m ≤ clock n

-- What a job's run may change: the job itself and its place in the store.
pub record Affects (ref : ℕ) (s s' : Service) : Type 0 where
  pub others : (r : ℕ) → r ≢ ref → s'.heap r ≡ s.heap r
  pub store : (r : ℕ) → mem r (jobs_of s'.store) ≡ true → mem r (jobs_of s.store) ≡ true
  pub readings : s.readings ≤ s'.readings

pub Affects-trans :
    {ref : ℕ} {s t u : Service} → Affects ref s t → Affects ref t u → Affects ref s u
Affects-trans a b = record {
  others = λ r n. b.others r n ∙ a.others r n;
  store = λ r m. a.store r (b.store r m);
  readings = omega (arith, a.readings, b.readings);
}

pub write-Affects : (ref : ℕ) (job : CronJob) (s : Service) → Affects ref s (write ref job s)
unfolding write
write-Affects ref job s = record {
  others = λ r n. ground (arith, n);
  store = λ r m. m;
  readings = omega arith;
}

pub write-heap : (ref : ℕ) (job : CronJob) (s : Service) → (write ref job s).heap ref ≡ job
unfolding write
write-heap ref job s = ground arith

pub now_ms-Affects : (clock : ℕ → ℕ) (ref : ℕ) (s : Service) → Affects ref s (now_ms clock s).0
unfolding now_ms
now_ms-Affects clock ref s = record {
  others = λ r n. refl;
  store = λ r m. m;
  readings = omega arith;
}

pub drop_id-fields :
    (id : String) (s : Service)
    → ((drop_id id s).heap ≡ s.heap) × ((drop_id id s).readings ≡ s.readings)
unfolding drop_id
drop_id-fields id s = elim (Option-cases s.store) [
  | inl e ↦ rw (drop_id, e) (refl, refl)
  | inr (refs, e) ↦ rw (drop_id, e) (refl, refl)
]

pub mem-drop_id :
    (id : String) (r : ℕ) (s : Service)
    → mem r (jobs_of (drop_id id s).store)
      ≡ (not (str_eq (s.heap r).id id) && mem r (jobs_of s.store))
unfolding drop_id mem
mem-drop_id id r s = elim (Option-cases s.store) [
  | inl e ↦
      let nowhere : mem r (jobs_of s.store) ≡ false = rw e refl in
      let dropped : drop_id id s ≡ s = ground arith in rw dropped (ground arith)
  | inr (refs, e) ↦ rw (drop_id, e) (mem-select (λ x. not (str_eq (s.heap x).id id)) r refs)
]

pub drop_id-Affects : (ref : ℕ) (id : String) (s : Service) → Affects ref s (drop_id id s)
drop_id-Affects ref id s =
    let (heap, readings) = drop_id-fields id s in
    record {
      others = λ r n. ap (λ (h : ℕ → CronJob). h r) heap;
      store = λ r m. ground (arith, mem-drop_id id r s);
      readings = omega arith;
    }

-- A job whose id is dropped is in the store no longer.
pub drop_id-gone :
    (ref : ℕ) (s : Service) → mem ref (jobs_of (drop_id (s.heap ref).id s).store) ≡ false
drop_id-gone ref s =
    let same : str_eq (s.heap ref).id (s.heap ref).id ≡ true =
      (str_eq_iff (s.heap ref).id (s.heap ref).id).1 refl in
    mem-drop_id (s.heap ref).id ref s ∙ rw same refl
