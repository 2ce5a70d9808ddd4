-- ===== src/Conversation/Turns/Parts.antt =====
-- What the parts of a turn do to a session and its file.
use exoclaw_plugins.Prelude.{
  ℕ, suc, ◌+◌, ◌≡◌, refl, sym, ◌∙◌, ap, String, List, [], ◌∷◌, ◌++◌, map, Option, none, some, Bool,
  Bool-cases, inl, inr, if◌then◌else◌, ltb, length, str_eq_iff, lookup, insert, lookup-insert,
  arith,
}
use exoclaw_plugins.Conversation.{Text, Message}
use exoclaw_plugins.Conversation.Session.{
  Metadata, Session, Store, Line, header, entry, entries, log, path_of, new_session, total_messages,
  hold, load_lines,
}
use exoclaw_plugins.Conversation.Session.Files.{
  load, loaded_or_new, get_or_create, write, save_append,
}
use exoclaw_plugins.Conversation.Session.Prepare.{
  prepare_message, count_message, onto, counted, prepare_turn,
}

-- A session that its file agrees with.
abbrev pub Agrees : String → List Message → Session → Type 0
Agrees key ms session = (session.key ≡ key) × (total_messages session ≡ length ms)

unfoldable pub AgreesIf : String → List Message → Option Session → Type 0
AgreesIf key ms none = Unit
AgreesIf key ms (some session) = Agrees key ms session

-- The cached session of the key, if there is one, agrees with the log.
abbrev pub IsCounted : String → Store → Type 0
IsCounted key s = AgreesIf key (log key s) (lookup key s.cache)

total-load_lines :
    (b : Bool) (lines : List Line) (s : Session)
    → ((load_lines b lines s).key ≡ s.key)
      × ((load_lines b lines s).stored_total ≡ s.stored_total + length (entries lines))
unfolding load_lines entries
total-load_lines b [] s = (refl, omega arith)
total-load_lines b (header m n ∷ lines) s = total-load_lines b lines (record s { metadata = m })
total-load_lines b (entry m ∷ lines) s =
    let (k, t) = total-load_lines b lines (record s {
      messages = if b then s.messages else s.messages ++ (m ∷ []);
      stored_total = suc s.stored_total;
    }) in
    (k, omega (arith, t))

no_entries-load_lines :
    (b : Bool) (lines : List Line) (s : Session)
    → length (entries lines) ≡ 0
    → (load_lines b lines s).messages ≡ s.messages
unfolding load_lines entries
no_entries-load_lines b [] s h = refl
no_entries-load_lines b (header m n ∷ lines) s h =
    no_entries-load_lines b lines (record s { metadata = m }) h
no_entries-load_lines b (entry m ∷ lines) s h = absurd (omega arith)

load_lines-Agrees :
    (b : Bool) (key : String) (lines : List Line)
    → Agrees key (entries lines) (load_lines b lines (new_session key))
unfolding total_messages new_session
load_lines-Agrees b key lines =
    let new = new_session key in
    let (k, t) = total-load_lines b lines new in
    elim (Bool-cases (ltb 0 (load_lines b lines new).stored_total)) [
      | inl e ↦ (k, rw e (omega (arith, t)))
      | inr e ↦ (
        k,
        rw e (
            ap (λ (ms : List Message). length ms)
              (no_entries-load_lines b lines new (ground (arith, t)))
            ∙ ground (arith, t, e)),
      )
    ]

pub load-Agrees :
    (key : String) (s : Store) → Agrees key (log key s) (loaded_or_new key (load key s))
unfolding log load loaded_or_new new_session total_messages
load-Agrees key s =
    elim (lookup (path_of key) s.files)
      as (λ o.
        Agrees key (elim o [ none ↦ [] | some lines ↦ entries lines ])
          (loaded_or_new key (elim o [
            | none ↦ none
            | some lines ↦ some (load_lines s.streaming_history lines (new_session key))
          ]))) [
            | none ↦ (refl, refl)
            | some lines ↦ load_lines-Agrees s.streaming_history key lines
          ]

-- What get_or_create answers.
abbrev pub Got : String → Store → Session × Store → Type 0
Got key s r =
    Agrees key (log key s) r.0
    × (r.1.files ≡ s.files)
    × (r.1.streaming_history ≡ s.streaming_history)

pub get_or_create-Got :
    (key : String) (s : Store) → IsCounted key s → Got key s (get_or_create key s)
unfolding get_or_create AgreesIf
get_or_create-Got key s =
    elim (lookup key s.cache)
      as (λ o.
        AgreesIf key (log key s) o
        → Got key s (elim o [
          | some session ↦ (session, s)
          | none ↦
              let session = loaded_or_new key (load key s) in
              (session, record s { cache = insert key session s.cache })
        ])) [ none ↦ λ _. (load-Agrees key s, refl, refl) | some session ↦ λ h. (h, refl, refl) ]

-- The entries that are made of messages from that index on.
unfoldable pub prepare_from : (ℕ → Text) → ℕ → List Message → List Message
prepare_from clock n [] = []
prepare_from clock n (m ∷ ms) = elim (prepare_message (clock n) m) [
  | none ↦ prepare_from clock n ms
  | some p ↦ p ∷ prepare_from clock (suc n) ms
]

pub total-count_message :
    (b : Bool) (m : Message) (s : Session)
    → total_messages (count_message b m s) ≡ suc (total_messages s)
unfolding total_messages count_message
total-count_message b m s = ground arith

key-count_message : (b : Bool) (m : Message) (s : Session) → (count_message b m s).key ≡ s.key
unfolding count_message
key-count_message b m s = refl

-- What prepare_turn does with a session of that count.
pub prepare_turn_lem :
    (clock : ℕ → Text) (b : Bool) (ms : List Message) (s : Session)
    → let r = prepare_turn clock b ms s in
      (r.0 ≡ prepare_from clock (total_messages s) ms)
      × (r.1.key ≡ s.key)
      × (total_messages r.1 ≡ total_messages s + length r.0)
unfolding prepare_turn prepare_from onto counted
prepare_turn_lem clock b [] s = (refl, refl, omega arith)
prepare_turn_lem clock b (m ∷ ms) s =
    elim (prepare_message (clock (total_messages s)) m)
      as (λ o.
        ((onto o (prepare_turn clock b ms (counted b o s)).0 ≡ (elim o [
          | none ↦ prepare_from clock (total_messages s) ms
          | some p ↦ p ∷ prepare_from clock (suc (total_messages s)) ms
        ]))
          × ((prepare_turn clock b ms (counted b o s)).1.key ≡ s.key)
          × (total_messages (prepare_turn clock b ms (counted b o s)).1
              ≡ total_messages s + length (onto o (prepare_turn clock b ms (counted b o s)).0)))) [
                | none ↦ prepare_turn_lem clock b ms s
                | some p ↦
                    let (e, k, t) = prepare_turn_lem clock b ms (count_message b p s) in
                    let n = total-count_message b p s in
                    (
                      ap (λ ps. p ∷ ps) (e ∙ ap (λ i. prepare_from clock i ms) n),
                      k ∙ key-count_message b p s,
                      omega (arith, t, n),
                    )
              ]

entries-append : (xs ys : List Line) → entries (xs ++ ys) ≡ entries xs ++ entries ys
unfolding entries
entries-append [] ys = refl
entries-append (header m n ∷ xs) ys = entries-append xs ys
entries-append (entry m ∷ xs) ys = rw (entries-append xs ys)

entries-map : (ms : List Message) → entries (map entry ms) ≡ ms
unfolding entries
entries-map [] = refl
entries-map (m ∷ ms) = rw (entries-map ms)

pub log-write :
    (key : String) (lines : List Line) (s : Store) → log key (write key lines s) ≡ entries lines
unfolding log write
log-write key lines s =
    let path = path_of key in
    let found : lookup path (insert path lines s.files) ≡ some lines =
      ground (arith, lookup-insert path path lines s.files, str_eq_iff path path) in
    ap (λ o. elim o [ none ↦ [] | some ls ↦ entries ls ]) found

append_to : Session → List Message → Store → Option (List Line) → Store
append_to session new s none = write session.key (header session.metadata 0 ∷ map entry new) s
append_to session new s (some lines) = write session.key (lines ++ map entry new) s

save_append-append_to :
    (session : Session) (new : List Message) (s : Store)
    → save_append session new s ≡ append_to session new s (lookup (path_of session.key) s.files)
unfolding save_append append_to
save_append-append_to session new s =
    elim (lookup (path_of session.key) s.files)
      as (λ o.
        (elim o [
          | none ↦ write session.key (header session.metadata 0 ∷ map entry new) s
          | some lines ↦ write session.key (lines ++ map entry new) s
        ])
        ≡ append_to session new s o) [ none ↦ refl | some lines ↦ refl ]

unfoldable pub lines_of : Option (List Line) → List Message
lines_of none = []
lines_of (some lines) = entries lines

pub log-lines_of : (key : String) (s : Store) → log key s ≡ lines_of (lookup (path_of key) s.files)
unfolding log lines_of
log-lines_of key s =
    elim (lookup (path_of key) s.files)
      as (λ o. (elim o [ none ↦ [] | some lines ↦ entries lines ]) ≡ lines_of o) [
        | none ↦ refl
        | some lines ↦ refl
      ]

log-append_to :
    (session : Session) (new : List Message) (s : Store) (o : Option (List Line))
    → log session.key (append_to session new s o) ≡ lines_of o ++ new
unfolding append_to lines_of
log-append_to session new s none =
    log-write session.key (header session.metadata 0 ∷ map entry new) s ∙ (headed session.metadata)
  where
    headed : (m : Metadata) → entries (header m 0 ∷ map entry new) ≡ new
    headed m = unfold entries in entries-map new
log-append_to session new s (some lines) =
    log-write session.key (lines ++ map entry new) s
    ∙ entries-append lines (map entry new)
    ∙ ap (λ t. entries lines ++ t) (entries-map new)

-- save_append adds to the log of its session.
pub log-save_append :
    (session : Session) (new : List Message) (s : Store)
    → log session.key (save_append session new s) ≡ log session.key s ++ new
log-save_append session new s =
    ap (log session.key) (save_append-append_to session new s)
    ∙ log-append_to session new s (lookup (path_of session.key) s.files)
    ∙ ap (λ t. t ++ new) (sym (log-lines_of session.key s))

cache-append_to :
    (session : Session) (new : List Message) (s : Store) (o : Option (List Line))
    → (append_to session new s o).cache ≡ s.cache
unfolding append_to write
cache-append_to session new s none = refl
cache-append_to session new s (some lines) = refl

pub cache-save_append :
    (session : Session) (new : List Message) (s : Store)
    → (save_append session new s).cache ≡ s.cache
cache-save_append session new s =
    ap (λ (t : Store). t.cache) (save_append-append_to session new s)
    ∙ cache-append_to session new s (lookup (path_of session.key) s.files)

pub lookup-hold :
    (session : Session) (s : Store) → lookup session.key (hold session s).cache ≡ some session
unfolding hold
lookup-hold session s = ground (
  arith,
  lookup-insert session.key session.key session s.cache,
  str_eq_iff session.key session.key,
)
