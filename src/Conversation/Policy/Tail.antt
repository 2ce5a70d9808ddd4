-- ===== src/Conversation/Policy/Tail.antt =====
-- What becomes of the tail of the log when a chunk of it is summarized.
use exoclaw_plugins.Prelude.{
  ℕ, zero, suc, ◌+◌, ◌-◌, ◌≤◌, ◌<◌, min, ◌≡◌, refl, sym, ◌∙◌, ap, subst, String, List, [], ◌∷◌,
  ◌++◌, Option, none, some, Option-cases, Bool-cases, inl, inr, if◌then◌else◌, leb, length, ◌⊎◌,
  take, drop, length-drop, arith,
}
use exoclaw_plugins.Conversation.{Text, Message}
use exoclaw_plugins.Conversation.Session.{Store, log}
use exoclaw_plugins.Conversation.Session.Files.{stream, load_range}
use exoclaw_plugins.Conversation.Policy.{
  State, Pending, begin_chunk, finish_chunk, summarize_one_chunk, merge_summary, repair_boundary,
}
use exoclaw_plugins.Conversation.Policy.Boundary.{repair_boundary-IsCut}
use mathlib.Core.Option.{some-injective}

module _ {A : Type 0} where
  pub length-take : (n : ℕ) (xs : List A) → length (take n xs) ≡ min n (length xs)
  length-take zero xs = omega arith
  length-take (suc n) [] = omega arith
  length-take (suc n) (x ∷ xs) = omega (arith, length-take n xs)

  pub drop-take : (m n : ℕ) (xs : List A) → m ≤ n → drop m xs ≡ drop m (take n xs) ++ drop n xs
  drop-take zero zero xs h = refl
  drop-take zero (suc n) [] h = refl
  drop-take zero (suc n) (x ∷ xs) h = rw (sym (drop-take zero n xs (omega arith)))
  drop-take (suc m) (suc n) [] h = refl
  drop-take (suc m) (suc n) (x ∷ xs) h = drop-take m n xs (omega arith)
  drop-take (suc m) zero xs h = absurd (omega arith)

module _ (memory_window : ℕ) (key : String) (state : State) (s : Store) where
  abbrev total : ℕ
  total = length (log key s)

  abbrev pub chunk_end : ℕ
  chunk_end = min total (state.summarized_through + memory_window)

  abbrev pub pending : Pending
  pending = record {
    state = state;
    total = total;
    end = chunk_end;
    chunk = stream key state.summarized_through (some chunk_end) s;
  }

  length-chunk : length pending.chunk ≡ chunk_end - state.summarized_through
  unfolding stream load_range
  length-chunk = omega (
    arith,
    length-drop state.summarized_through (take chunk_end (log key s)),
    length-take chunk_end (log key s),
  )

  begun :
      (c : List Message)
      → 1 ≤ length c
      → (elim c [
        | [] ↦ none
        | m ∷ ms ↦ some (record { state = state; total = total; end = chunk_end; chunk = m ∷ ms })
      ])
        ≡ some (record pending { chunk = c })
  begun [] h = absurd (omega arith)
  begun (m ∷ ms) h = refl

  -- A pass begins unless the window or the tail is empty.
  pub begin_chunk_lem :
      begin_chunk memory_window key state total s
      ≡ (if leb chunk_end state.summarized_through then none else some pending)
  unfolding begin_chunk
  begin_chunk_lem = elim (Bool-cases (leb chunk_end state.summarized_through)) [
    | inl e ↦ rw e
    | inr e ↦ rw e (begun pending.chunk (ground (arith, length-chunk)))
  ]

  module _ (summarize : List Message → Option Text) where
    abbrev pub new_boundary : ℕ
    new_boundary = repair_boundary key chunk_end total s

    abbrev pub extended : Text → State
    extended history_entry = record state {
      summarized_through = new_boundary;
      summary = merge_summary state.summary history_entry;
    }

    abbrev finished : Option Pending → Option State
    finished none = none
    finished (some p) = finish_chunk key p (summarize p.chunk) s

    finished-pending :
        (o : Option Text)
        → finish_chunk key pending o s ≡ (elim o [ none ↦ none | some h ↦ some (extended h) ])
    unfolding finish_chunk
    finished-pending none = refl
    finished-pending (some h) = refl

    one_chunk :
        summarize_one_chunk memory_window summarize key state total s
        ≡ finished (begin_chunk memory_window key state total s)
    unfolding summarize_one_chunk
    one_chunk =
        elim (begin_chunk memory_window key state total s)
          as (λ o.
            (elim o [ none ↦ none | some p ↦ finish_chunk key p (summarize p.chunk) s ])
            ≡ finished o) [ none ↦ refl | some p ↦ refl ]

    -- Either nothing is left or the summarizer fails, or the state is extended.
    pub chunk_cases :
        ((summarize_one_chunk memory_window summarize key state total s ≡ none)
          × ((chunk_end ≤ state.summarized_through) ⊎ (summarize pending.chunk ≡ none)))
        ⊎ ((history_entry : Text) × (state.summarized_through < chunk_end)
            × (summarize pending.chunk ≡ some history_entry)
            × (summarize_one_chunk memory_window summarize key state total s
                ≡ some (extended history_entry)))
    chunk_cases = elim (Bool-cases (leb chunk_end state.summarized_through)) [
      | inl b ↦
          let nothing : begin_chunk memory_window key state total s ≡ none =
            begin_chunk_lem ∙ rw b in
          inl (one_chunk ∙ ap finished nothing, inl (ground arith))
      | inr b ↦
          let begins : begin_chunk memory_window key state total s ≡ some pending =
            begin_chunk_lem ∙ rw b in
          let at_end =
            one_chunk ∙ ap finished begins ∙ finished-pending (summarize pending.chunk) in
          elim (Option-cases (summarize pending.chunk)) [
            | inl n ↦ inl (at_end ∙ rw n, inr n)
            | inr (h, n) ↦ inr (h, ground arith, n, at_end ∙ rw n)
          ]
    ]

    pub new_boundary_bounds :
        state.summarized_through < chunk_end → (chunk_end ≤ new_boundary) × (new_boundary ≤ total)
    new_boundary_bounds k =
        let (lo, hi, _, _) = repair_boundary-IsCut key s chunk_end (omega arith) in (lo, hi)

    -- When a chunk is summarized, with the exact count of the log, the old tail is the chunk, then
    -- the messages that the repair of the boundary passes over, then the new tail. The summary is extended
    -- by what the summarizer made of the chunk alone, so what was passed over is in neither.
    pub summarize_one_chunk-splits :
        (next : State)
        → summarize_one_chunk memory_window summarize key state total s ≡ some next
        → (passed : List Message) × (history_entry : Text) × (summarize
              (stream key state.summarized_through (some chunk_end) s)
            ≡ some history_entry)
          × (next.summary ≡ merge_summary state.summary history_entry)
          × (next.summarized_through ≡ chunk_end + length passed)
          × (stream key state.summarized_through none s
              ≡ stream key state.summarized_through (some chunk_end) s
                ++ (passed ++ stream key next.summarized_through none s))
    summarize_one_chunk-splits next e = elim chunk_cases [
      | inl (n, _) ↦ absurd (cc (n, e))
      | inr (h, k, n, x) ↦
          let p : extended h ≡ next = some-injective _ _ (sym x ∙ e) in
          let (lo, hi) = new_boundary_bounds k in
          (
            drop chunk_end (take new_boundary (log key s)),
            h,
            n,
            ap (λ (t : State). t.summary) (sym p),
            ap (λ (t : State). t.summarized_through) (sym p)
                ∙ omega (
                  arith,
                  lo,
                  hi,
                  length-drop chunk_end (take new_boundary (log key s)),
                  length-take new_boundary (log key s),
                ),
            subst
                (λ (t : State).
                  stream key state.summarized_through none s
                  ≡ pending.chunk
                    ++ (drop chunk_end (take new_boundary (log key s))
                        ++ stream key t.summarized_through none s))
                p (whole (omega arith) lo),
          )
    ]
      where
        whole :
            state.summarized_through ≤ chunk_end
            → chunk_end ≤ new_boundary
            → stream key state.summarized_through none s
              ≡ pending.chunk
                ++ (drop chunk_end (take new_boundary (log key s))
                    ++ stream key new_boundary none s)
        whole k lo =
            unfold stream load_range in
            (drop-take state.summarized_through chunk_end (log key s) k
              ∙ ap (λ t. drop state.summarized_through (take chunk_end (log key s)) ++ t)
                  (drop-take chunk_end new_boundary (log key s) lo))
