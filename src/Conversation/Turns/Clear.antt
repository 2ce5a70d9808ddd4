-- ===== src/Conversation/Turns/Clear.antt =====
-- A session that is cleared, alone and while a summarizing pass awaits its answer.
use exoclaw_plugins.Prelude.{
  ℕ, ◌+◌, ◌≤◌, ◌≡◌, refl, sym, ◌∙◌, ap, subst, String, List, [], ◌∷◌, map, Option, none, some, true,
  false, ◌&&◌, Bool-cases, inl, inr, if◌then◌else◌, leb, length, str_eq_iff, lookup, erase,
  lookup-erase, arith,
}
use exoclaw_plugins.Conversation.{Text, Message, is_role}
use exoclaw_plugins.Conversation.Session.{
  Session, Store, header, entry, entries, log, total_messages, clear_session, hold,
}
use exoclaw_plugins.Conversation.Session.Files.{
  stream, count, get_or_create, write, save, load_range, evict,
}
use exoclaw_plugins.Conversation.Policy.{
  World, State, Pending, opens, walk, repair_boundary, finish_chunk, finish_pass, or_same,
  save_state, delete_state,
}
use exoclaw_plugins.Conversation.Policy.Boundary.{drop_all}
use exoclaw_plugins.Conversation.Policy.Recovery.{pointer, load-save}
use exoclaw_plugins.Conversation.Turns.{append, record_messages, clear_log, clear}
use exoclaw_plugins.Conversation.Turns.Parts.{AgreesIf, IsCounted, get_or_create-Got, log-write}
use exoclaw_plugins.Conversation.Turns.Counted.{log_of_files, append-Grown, record_messages-Grown}

log-clear_session :
    (session : Session) (s : Store) → log session.key (save (clear_session session) s) ≡ []
unfolding save clear_session total_messages
log-clear_session session s =
    elim s.streaming_history
      as (λ b.
        log session.key (
          write session.key
            (header session.metadata 0
              ∷ map entry (if b && false then load_range session.key 0 0 s else []))
            s)
        ≡ []) [
          | true ↦ unfold entries in log-write session.key (header session.metadata 0 ∷ []) s
          | false ↦ unfold entries in log-write session.key (header session.metadata 0 ∷ []) s
        ]

evict-IsCounted : (key : String) (s : Store) → IsCounted key (evict key s)
unfolding evict AgreesIf
evict-IsCounted key s =
    let gone : lookup key (erase key s.cache) ≡ none =
      ground (arith, lookup-erase key key s.cache, str_eq_iff key key) in
    subst (AgreesIf key (log key (evict key s))) (sym gone) tt

-- Clearing a counted session leaves its log empty.
log-clear_log : (key : String) (s : Store) → IsCounted key s → log key (clear_log key s) ≡ []
unfolding clear_log evict hold
log-clear_log key s agrees =
    let (session, s1) = get_or_create key s in
    let ((k, _), _, _) = get_or_create-Got key s agrees in
    let cleared = save (clear_session session) (hold (clear_session session) s1) in
    log_of_files key _ cleared refl
    ∙ subst (λ j. log j cleared ≡ []) k
        (log-clear_session session (hold (clear_session session) s1))

-- What is done to one session; the cache may lose it between any two calls.
pub data Op : Type 0 where
  appends : Message → Op
  records : List Message → Op
  clears : Op
  evicts : Op

module _ (clock : ℕ → Text) (key : String) where
  unfoldable pub perform : Op → Store → Store
  perform (appends m) s = append clock key m s
  perform (records ms) s = record_messages clock key ms s
  perform clears s = clear_log key s
  perform evicts s = evict key s

  unfoldable pub perform_all : List Op → Store → Store
  perform_all [] s = s
  perform_all (op ∷ ops) s = perform_all ops (perform op s)

  perform-IsCounted : (op : Op) (s : Store) → IsCounted key s → IsCounted key (perform op s)
  unfolding perform
  perform-IsCounted (appends m) s agrees = (append-Grown clock key m s agrees).1
  perform-IsCounted (records ms) s agrees = (record_messages-Grown clock key ms s agrees).1
  perform-IsCounted clears s agrees = unfold clear_log in evict-IsCounted key _
  perform-IsCounted evicts s agrees = evict-IsCounted key s

  perform_all-IsCounted :
      (ops : List Op) (s : Store) → IsCounted key s → IsCounted key (perform_all ops s)
  unfolding perform_all
  perform_all-IsCounted [] s agrees = agrees
  perform_all-IsCounted (op ∷ ops) s agrees =
      perform_all-IsCounted ops (perform op s) (perform-IsCounted op s agrees)

  counts : (s : Store) → IsCounted key s → count key s ≡ length (log key s)
  unfolding count AgreesIf
  counts s =
      elim (lookup key s.cache)
        as (λ o.
          AgreesIf key (log key s) o
          → (elim o [ some session ↦ total_messages session | none ↦ length (log key s) ])
            ≡ length (log key s)) [ none ↦ λ _. refl | some session ↦ λ h. h.1 ]

  -- If a session's count agrees with its log, it still does after any appends, records, clears and
  -- losses from the cache: what the reader counts is the length of the log.
  pub perform_all-count :
      (ops : List Op) (s : Store)
      → IsCounted key s
      → count key (perform_all ops s) ≡ length (log key (perform_all ops s))
  perform_all-count ops s agrees = counts (perform_all ops s) (perform_all-IsCounted ops s agrees)

walk_ge : (prev : Option Message) (ms : List Message) (i : ℕ) → i ≤ walk prev ms i
unfolding walk
walk_ge prev [] i = omega arith
walk_ge prev (m ∷ ms) i =
    let h = walk_ge (some m) ms (i + 1) in
    elim (is_role "tool" m)
      as (λ b. i ≤ (
        if b
        then walk (some m) ms (i + 1)
        else if opens prev
        then walk (some m) ms (i + 1)
        else i)) [
          | true ↦ omega (arith, h)
          | false ↦ elim (opens prev) as (λ b. i ≤ (if b then walk (some m) ms (i + 1) else i)) [
            | true ↦ omega (arith, h)
            | false ↦ omega arith
          ]
        ]

repair_boundary_ge :
    (key : String) (boundary total : ℕ) (s : Store)
    → boundary ≤ repair_boundary key boundary total s
unfolding repair_boundary
repair_boundary_ge key boundary total s = elim (Bool-cases (leb total boundary)) [
  | inl e ↦ rw e (omega arith)
  | inr e ↦ rw e (walk_ge _ _ boundary)
]

finished_pointer :
    (key : String) (p : Pending) (answer : Text) (w : World)
    → pointer key (finish_pass key p (some answer) w) ≡ repair_boundary key p.end p.total w.store
unfolding finish_pass finish_chunk or_same
finished_pointer key p answer w =
    ap (λ (r : State × World). r.0.summarized_through) (load-save key _ w)

-- If a session is cleared while a pass awaits the summarizer, the pass still stores its
-- boundary: the log is empty, and as long as the messages that are written to it afterwards are no more
-- than the pass has summarized, none of them is in the tail that the model sees.
pub finish_pass-clear :
    (key : String) (p : Pending) (answer : Text) (w : World) (later : Store)
    → IsCounted key w.store
    → length (log key later) ≤ p.end
    → let w1 = finish_pass key p (some answer) (clear key w) in
      (log key w1.store ≡ []) × (stream key (pointer key w1) none later ≡ [])
unfolding finish_pass clear delete_state save_state stream
finish_pass-clear key p answer w later agrees h = (
  log-clear_log key w.store agrees,
  drop_all (pointer key (finish_pass key p (some answer) (clear key w))) (log key later) (
      omega (
        arith,
        h,
        finished_pointer key p answer (clear key w),
        repair_boundary_ge key p.end p.total (clear key w).store,
      )),
)
