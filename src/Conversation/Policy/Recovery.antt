-- ===== src/Conversation/Policy/Recovery.antt =====
-- What repeated calls of `recover_from_overflow` reach.
use exoclaw_plugins.Prelude.{
  ℕ, zero, suc, ◌+◌, ◌*◌, ◌≤◌, min, ◌≡◌, refl, sym, ◌∙◌, ap, subst, String, List, Option, none,
  some, Bool, true, false, not, ◌||◌, inl, inr, if◌then◌else◌, ltb, length, str_eq_iff, ◌⊎◌, lookup,
  insert, lookup-insert, arith,
}
use exoclaw_plugins.Conversation.{Text, Message}
use exoclaw_plugins.Conversation.Session.{path_of, log}
use exoclaw_plugins.Conversation.Session.Files.{count}
use exoclaw_plugins.Conversation.Policy.{
  State, World, Sidecar, saved, unreadable, save_state, migrate, loaded, load_state,
  read_legacy_boundary, is_empty, summarize_one_chunk, recover_from_overflow, new_state,
}
use exoclaw_plugins.Conversation.Policy.Tail.{chunk_cases, extended, new_boundary_bounds}

pub load-save :
    (key : String) (state : State) (w : World)
    → load_state key (save_state key state w) ≡ (state, save_state key state w)
unfolding load_state save_state loaded
load-save key state w =
    let path = path_of key in
    let found : lookup path (insert path (saved state) w.sidecars) ≡ some (saved state) =
      ground (arith, lookup-insert path path (saved state) w.sidecars, str_eq_iff path path) in
    ap (loaded key (record w { sidecars = insert path (saved state) w.sidecars })) found

-- A load leaves all as it is or saves what it loaded.
Loads : String → World → State × World → Type 0
Loads key w r = (r.1 ≡ w) ⊎ (r.1 ≡ save_state key r.0 w)

migrate-Loads : (key : String) (w : World) → Loads key w (migrate key w)
unfolding Loads migrate
migrate-Loads key w =
    let state : State = record new_state {
      summarized_through = (read_legacy_boundary key w).0;
      summary = (read_legacy_boundary key w).1;
    } in
    elim (ltb 0 state.summarized_through || not (is_empty state.summary))
      as (λ b. Loads key w (if b then (state, save_state key state w) else (state, w))) [
        | true ↦ inr refl
        | false ↦ inl refl
      ]

loaded-Loads : (key : String) (w : World) (o : Option Sidecar) → Loads key w (loaded key w o)
unfolding Loads loaded
loaded-Loads key w none = unfold Loads in migrate-Loads key w
loaded-Loads key w (some (saved state)) = inl refl
loaded-Loads key w (some unreadable) = inl refl

load_cases :
    (key : String) (w : World)
    → let r = load_state key w in (r.1 ≡ w) ⊎ (r.1 ≡ save_state key r.0 w)
unfolding load_state Loads
load_cases key w = loaded-Loads key w (lookup (path_of key) w.sidecars)

-- What a second load gives is what the first one gave.
load_state_idem :
    (key : String) (w : World) → load_state key (load_state key w).1 ≡ load_state key w
load_state_idem key w = elim (load_cases key w) [
  | inl e ↦ ap (load_state key) e
  | inr e ↦
      ap (load_state key) e
      ∙ load-save key (load_state key w).0 w
      ∙ ap (λ t. ((load_state key w).0, t)) (sym e)
]

load_state-store : (key : String) (w : World) → (load_state key w).1.store ≡ w.store
load_state-store key w = elim (load_cases key w) [
  | inl e ↦ ap (λ (t : World). t.store) e
  | inr e ↦ ap (λ (t : World). t.store) e ∙ (unfold save_state in refl)
]

abbrev pub pointer : String → World → ℕ
pointer key w = (load_state key w).0.summarized_through

module _ (memory_window : ℕ) (summarize : List Message → Text) (key : String) where
  abbrev pub recover : World → Bool × World
  recover w = recover_from_overflow memory_window (λ chunk. some (summarize chunk)) key w

  -- The count of the reader is exact, and what was summarized lies within the log.
  abbrev pub IsReady : ℕ → World → Type 0
  IsReady total w =
      (length (log key w.store) ≡ total) × (count key w.store ≡ total) × (pointer key w ≤ total)

  abbrev Recovers : ℕ → World → Bool × World → Type 0
  Recovers total w r =
      (r.1.store ≡ w.store)
      × (pointer key r.1 ≤ total)
      × (min total (pointer key w + memory_window) ≤ pointer key r.1)
      × (total ≤ pointer key w → r.0 ≡ false)

  abbrev decided : State × World → Option State → Bool × World
  decided l none = (false, l.1)
  decided l (some next) = (true, save_state key next l.1)

  recover-decided :
      (w : World)
      → let l = load_state key w in
        recover w
        ≡ decided l (
            summarize_one_chunk memory_window
              (λ chunk. some (summarize chunk))
              key
              l.0
              (count key l.1.store)
              l.1.store)
  unfolding recover_from_overflow
  recover-decided w =
      let l = load_state key w in
      elim (summarize_one_chunk memory_window (λ chunk. some (summarize chunk)) key l.0
          (count key l.1.store) l.1.store)
        as (λ o.
          (elim o [ none ↦ (false, l.1) | some next ↦ (true, save_state key next l.1) ])
          ≡ decided l o) [ none ↦ refl | some next ↦ refl ]

  module _ (total : ℕ) (w : World) (ready : IsReady total w) where
    abbrev state : State
    state = (load_state key w).0

    abbrev after : World
    after = (load_state key w).1

    length-log : length (log key after.store) ≡ total
    length-log = ap (λ s. length (log key s)) (load_state-store key w) ∙ ready.0

    exact : count key after.store ≡ length (log key after.store)
    exact = ap (count key) (load_state-store key w) ∙ ready.1 ∙ sym length-log

    same_pointer : pointer key after ≡ pointer key w
    same_pointer = ap (λ (r : State × World). r.0.summarized_through) (load_state_idem key w)

    saved_pointer :
        (next : State) → pointer key (save_state key next after) ≡ next.summarized_through
    saved_pointer next =
        ap (λ (r : State × World). r.0.summarized_through) (load-save key next after)

    saved_store : (next : State) → (save_state key next after).store ≡ w.store
    unfolding save_state
    saved_store next = load_state-store key w

    recover_by :
        (o : Option State)
        → summarize_one_chunk memory_window
            (λ chunk. some (summarize chunk))
            key
            state
            (length (log key after.store))
            after.store
          ≡ o
        → recover w ≡ decided (load_state key w) o
    recover_by o e =
        recover-decided w
        ∙ ap (decided (load_state key w)) (
            ap
              (λ n.
                summarize_one_chunk memory_window (λ chunk. some (summarize chunk)) key state n
                  after.store)
              exact
            ∙ e)

    recover-Recovers : Recovers total w (recover w)
    recover-Recovers =
        elim (chunk_cases memory_window key state after.store (λ chunk. some (summarize chunk))) [
          | inl (n, why) ↦ subst (Recovers total w) (sym (recover_by none n)) (
            load_state-store key w,
            rw same_pointer ready.2,
            elim why [
              | inl done ↦ rw same_pointer (omega (arith, done, length-log))
              | inr fails ↦ absurd (cc (fails))
            ],
            λ _. refl,
          )
          | inr (h, k, _, x) ↦
              let next =
                extended memory_window key state after.store (λ chunk. some (summarize chunk)) h in
              let (lo, hi) =
                new_boundary_bounds memory_window key state after.store
                  (λ chunk. some (summarize chunk)) k in
              subst (Recovers total w) (sym (recover_by (some next) x)) (
                saved_store next,
                rw (saved_pointer next) (omega (arith, hi, length-log)),
                rw (saved_pointer next) (omega (arith, lo, length-log)),
                λ d. absurd (omega (arith, k, d, length-log)),
              )
        ]

  -- So many recoveries, one after the other.
  unfoldable pub recover_times : ℕ → World → World
  recover_times zero w = w
  recover_times (suc n) w = recover_times n (recover w).1

  recover-IsReady : (total : ℕ) (w : World) → IsReady total w → IsReady total (recover w).1
  recover-IsReady total w ready =
      let (same, hi, _, _) = recover-Recovers total w ready in
      (ap (λ s. length (log key s)) same ∙ ready.0, ap (count key) same ∙ ready.1, hi)

  recover_times-pointer :
      (n total : ℕ) (w : World)
      → IsReady total w
      → IsReady total (recover_times n w)
        × (min total (pointer key w + n * memory_window) ≤ pointer key (recover_times n w))
  unfolding recover_times
  recover_times-pointer zero total w ready = (ready, omega arith)
  recover_times-pointer (suc n) total w ready =
      let (_, _, lo, _) = recover-Recovers total w ready in
      let (r, h) = recover_times-pointer n total (recover w).1 (recover-IsReady total w ready) in
      (r, omega (arith, lo, h))

  -- If the reader counts exactly, the boundary lies within the log and the summarizer always answers,
  -- then after as many recoveries as it takes windows to cover the tail the stored boundary is the end of the
  -- log, and one more recovery answers False.
  pub recover_times-exhausts :
      (n total : ℕ) (w : World)
      → IsReady total w
      → total ≤ pointer key w + n * memory_window
      → (pointer key (recover_times n w) ≡ total) × ((recover (recover_times n w)).0 ≡ false)
  recover_times-exhausts n total w ready h =
      let (r, lo) = recover_times-pointer n total w ready in
      let (_, _, _, stops) = recover-Recovers total (recover_times n w) r in
      (omega (arith, lo, h, r.2), stops (omega (arith, lo, h)))
