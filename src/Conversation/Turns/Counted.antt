-- ===== src/Conversation/Turns/Counted.antt =====
-- The cached count of a session is the length of its log, whatever is done with the session.
use exoclaw_plugins.Prelude.{
  ℕ, suc, ◌+◌, ◌≡◌, refl, sym, ◌∙◌, ap, subst, String, List, [], ◌∷◌, ◌++◌, append-nil,
  append_assoc, none, some, length, length-append, lookup, arith,
}
use exoclaw_plugins.Conversation.{Text, Message}
use exoclaw_plugins.Conversation.Session.{Session, Store, log, path_of, total_messages, hold}
use exoclaw_plugins.Conversation.Session.Files.{get_or_create, save_append}
use exoclaw_plugins.Conversation.Session.Prepare.{prepare_message, prepare_turn}
use exoclaw_plugins.Conversation.Turns.Parts.{
  AgreesIf, IsCounted, get_or_create-Got, prepare_from, prepare_turn_lem, log-save_append,
  cache-save_append, lookup-hold, lines_of, log-lines_of,
}
use exoclaw_plugins.Conversation.Turns.{prepare_in, append, record_messages}

-- The log is read from the file alone.
pub log_of_files : (key : String) (s t : Store) → s.files ≡ t.files → log key s ≡ log key t
log_of_files key s t e =
    log-lines_of key s ∙ ap (λ d. lines_of (lookup (path_of key) d)) e ∙ sym (log-lines_of key t)

-- A store in which so much was added to the log of a counted session.
abbrev pub Grown : String → Store → List Message → Store → Type 0
Grown key s new t = (log key t ≡ log key s ++ new) × IsCounted key t

held :
    (session : Session) (s s1 : Store)
    → s1.files ≡ s.files
    → total_messages session ≡ length (log session.key s)
    → Grown session.key s [] (hold session s1)
unfolding hold AgreesIf
held session s s1 e t =
    let l : log session.key (hold session s1) ≡ log session.key s =
      log_of_files session.key (hold session s1) s e in
    (
      l ∙ sym (append-nil (log session.key s)),
      subst (AgreesIf session.key (log session.key (hold session s1)))
          (sym (lookup-hold session s1)) (refl, t ∙ ap (λ (ms : List Message). length ms) (sym l)),
    )

stored :
    (session : Session) (s s1 : Store) (new : List Message)
    → s1.files ≡ s.files
    → total_messages session ≡ length (log session.key s) + length new
    → Grown session.key s new (save_append session new (hold session s1))
unfolding hold AgreesIf
stored session s s1 new e t =
    let s2 = save_append session new (hold session s1) in
    let l : log session.key s2 ≡ log session.key s ++ new =
      log-save_append session new (hold session s1)
      ∙ ap (λ x. x ++ new) (log_of_files session.key (hold session s1) s e) in
    (
      l,
      subst (AgreesIf session.key (log session.key s2))
          (sym (
            ap (lookup session.key) (cache-save_append session new (hold session s1))
            ∙ lookup-hold session s1))
          (
            refl,
            t
                ∙ sym (length-append (log session.key s) new)
                ∙ ap (λ (ms : List Message). length ms) (sym l),
          ),
    )

module _ (clock : ℕ → Text) (key : String) where
  module _ (ms : List Message) (s : Store) (agrees : IsCounted key s) where
    abbrev got : Session × Store
    got = get_or_create key s

    abbrev made : List Message × Session
    made = prepare_turn clock s.streaming_history ms got.0

    abbrev new_entries : List Message
    new_entries = prepare_from clock (length (log key s)) ms

    made_lem :
        (made.0 ≡ new_entries)
        × (made.1.key ≡ key)
        × (total_messages made.1 ≡ length (log key s) + length made.0)
    made_lem =
        let ((k, t), _, _) = get_or_create-Got key s agrees in
        let (e, l, u) = prepare_turn_lem clock s.streaming_history ms got.0 in
        let p : made.0 ≡ new_entries = e ∙ ap (λ n. prepare_from clock n ms) t in
        (p, l ∙ k, omega (arith, t, u))

    -- Saved or not, what was made of the messages is counted.
    saved_made : Grown key s new_entries (save_append made.1 made.0 (hold made.1 got.1))
    saved_made =
        let (p, k, t) = made_lem in
        let (_, files, _) = get_or_create-Got key s agrees in
        subst (λ n. Grown key s n (save_append made.1 made.0 (hold made.1 got.1))) p
          (subst
            (λ k.
              total_messages made.1 ≡ length (log k s) + length made.0
              → Grown k s made.0 (save_append made.1 made.0 (hold made.1 got.1)))
            k (stored made.1 s got.1 made.0 files) t)

    held_made : made.0 ≡ [] → Grown key s new_entries (hold made.1 got.1)
    held_made none_made =
        let (p, k, t) = made_lem in
        let (_, files, _) = get_or_create-Got key s agrees in
        subst (λ n. Grown key s n (hold made.1 got.1)) (sym none_made ∙ p)
          (subst (λ k. total_messages made.1 ≡ length (log k s) → Grown k s [] (hold made.1 got.1))
            k (held made.1 s got.1 files)
            (t ∙ omega (arith, ap (λ (xs : List Message). length xs) none_made)))

    pub record_messages-Grown : Grown key s new_entries (record_messages clock key ms s)
    unfolding record_messages prepare_in
    record_messages-Grown = saved_made

    append_by :
        (prepared : List Message)
        → made.0 ≡ prepared
        → Grown key s new_entries (elim prepared [
          | [] ↦ hold made.1 got.1
          | p ∷ ps ↦ save_append made.1 (p ∷ ps) (hold made.1 got.1)
        ])
    append_by [] e = held_made e
    append_by (p ∷ ps) e =
        subst (λ n. Grown key s new_entries (save_append made.1 n (hold made.1 got.1))) e saved_made

  pub append-Grown :
      (m : Message) (s : Store)
      → IsCounted key s
      → Grown key s (prepare_from clock (length (log key s)) (m ∷ [])) (append clock key m s)
  unfolding append prepare_in
  append-Grown m s agrees = append_by (m ∷ []) s agrees (made (m ∷ []) s agrees).0 refl

  unfoldable pub append_each : List Message → Store → Store
  append_each [] s = s
  append_each (m ∷ ms) s = append_each ms (append clock key m s)

  prepare_from-cons :
      (n : ℕ) (m : Message) (ms : List Message)
      → prepare_from clock n (m ∷ ms)
        ≡ prepare_from clock n (m ∷ [])
          ++ prepare_from clock (n + length (prepare_from clock n (m ∷ []))) ms
  unfolding prepare_from
  prepare_from-cons n m ms =
      elim (prepare_message (clock n) m)
        as (λ o.
          (elim o [ none ↦ prepare_from clock n ms | some p ↦ p ∷ prepare_from clock (suc n) ms ])
          ≡ (let first : List Message = elim o [ none ↦ [] | some p ↦ p ∷ [] ] in
              first ++ prepare_from clock (n + length first) ms)) [
                | none ↦ ap (λ k. prepare_from clock k ms) (omega arith)
                | some p ↦ ap (λ k. p ∷ prepare_from clock k ms) (omega arith)
              ]

  append_each-Grown :
      (ms : List Message) (s : Store)
      → IsCounted key s
      → Grown key s (prepare_from clock (length (log key s)) ms) (append_each ms s)
  unfolding append_each
  append_each-Grown [] s agrees =
      (sym (append-nil (log key s)) ∙ (unfold prepare_from in refl), agrees)
  append_each-Grown (m ∷ ms) s agrees =
      let first = prepare_from clock (length (log key s)) (m ∷ []) in
      let (l1, agrees1) = append-Grown m s agrees in
      let (l2, agrees2) = append_each-Grown ms (append clock key m s) agrees1 in
      (
        l2
            ∙ ap (λ (xs : List Message). xs ++ prepare_from clock (length xs) ms) l1
            ∙ append_assoc (log key s) first _
            ∙ ap (λ k. log key s ++ (first ++ prepare_from clock k ms))
                (length-append (log key s) first)
            ∙ ap (λ t. log key s ++ t) (sym (prepare_from-cons (length (log key s)) m ms)),
        agrees2,
      )

  -- On a session whose count agrees with its log, appending the messages of a turn one by one
  -- and recording them at once, each stamped with the same time in both, give the same log, the old one
  -- with the prepared messages after it, and both leave a count that agrees with it.
  pub append_each-record_messages :
      (ms : List Message) (s : Store)
      → IsCounted key s
      → (log key (append_each ms s) ≡ log key s ++ prepare_from clock (length (log key s)) ms)
        × (log key (append_each ms s) ≡ log key (record_messages clock key ms s))
        × IsCounted key (append_each ms s)
        × IsCounted key (record_messages clock key ms s)
  append_each-record_messages ms s agrees =
      let (l1, a1) = append_each-Grown ms s agrees in
      let (l2, a2) = record_messages-Grown ms s agrees in (l1, l1 ∙ sym l2, a1, a2)
