-- ===== src/Conversation/Repair/Pairs.antt =====
-- What `_repair_and_project` answers has no orphans, so a second repair changes nothing.
use exoclaw_plugins.Prelude.{
  String, ◌≡◌, refl, subst, sym, ◌∙◌, ap, List, [], ◌∷◌, map, Option, none, some, Bool, true, false,
  not, ◌&&◌, ◌||◌, str_eq, str_eq_iff, if◌then◌else◌, contains, any, arith,
}
use exoclaw_plugins.Conversation.{
  absent, null, value, ToolCall, Message, is_role, calls_of, has_calls,
}
use exoclaw_plugins.Conversation.Repair.Ids.{
  mentions, declares, responds, contains-declared, contains-responded, contains-common,
  is_valid-key_is, mentions-keep_calls, same_set_intro, same_set→eq,
}
use exoclaw_plugins.Conversation.Repair.{
  declared, responded, common, same_set, keep_calls, strip_calls, push, repair_message, repair,
  project, repaired, repair_and_project,
}

abbrev holds : (Message → Bool) → Option Message → Bool
holds p none = false
holds p (some m) = p m

any-push :
    (p : Message → Bool) (o : Option Message) (ms : List Message)
    → any p (push o ms) ≡ (holds p o || any p ms)
any-push p none ms = refl
any-push p (some m) ms = refl

declares-strip_calls :
    (k : String) (m : Message) (kept : List ToolCall)
    → is_role "assistant" m ≡ true
    → holds (declares k) (strip_calls m kept) ≡ mentions k kept
unfolding declares strip_calls calls_of mentions
declares-strip_calls k m [] h = ground arith
declares-strip_calls k m (c ∷ kept) h = ground arith

responds-strip_calls :
    (k : String) (m : Message) (kept : List ToolCall)
    → is_role "assistant" m ≡ true
    → holds (responds k) (strip_calls m kept) ≡ false
unfolding responds strip_calls
responds-strip_calls k m [] h = ground arith
responds-strip_calls k m (c ∷ kept) h = ground arith

not_assistant : (m : Message) → is_role "tool" m ≡ true → is_role "assistant" m ≡ false
not_assistant m h =
    let e : m.role ≡ "tool" = ground (arith, str_eq_iff m.role "tool") in
    subst (λ r. str_eq r "assistant" ≡ false) (sym e) refl

no_mentions : (k : String) (m : Message) → has_calls m ≡ false → mentions k (calls_of m) ≡ false
unfolding has_calls mentions
no_mentions k m h = ground arith

declares-repair_message :
    (k : String) (valid : List String) (m : Message)
    → holds (declares k) (repair_message valid m) ≡ (declares k m && contains k valid)
unfolding repair_message declares
declares-repair_message k valid m = ground (
  arith,
  not_assistant m,
  no_mentions k m,
  declares-strip_calls k m (keep_calls valid (calls_of m)),
  mentions-keep_calls k valid (calls_of m),
)

responds-repair_message :
    (k : String) (valid : List String) (m : Message)
    → holds (responds k) (repair_message valid m) ≡ (responds k m && contains k valid)
unfolding repair_message responds
responds-repair_message k valid m = ground (
  arith,
  not_assistant m,
  responds-strip_calls k m (keep_calls valid (calls_of m)),
  is_valid-key_is k valid m.tool_call_id,
)

declares-repair :
    (k : String) (valid : List String) (ms : List Message)
    → any (declares k) (repair valid ms) ≡ (any (declares k) ms && contains k valid)
unfolding repair
declares-repair k valid [] = refl
declares-repair k valid (m ∷ ms) = ground (
  arith,
  any-push (declares k) (repair_message valid m) (repair valid ms),
  declares-repair_message k valid m,
  declares-repair k valid ms,
)

responds-repair :
    (k : String) (valid : List String) (ms : List Message)
    → any (responds k) (repair valid ms) ≡ (any (responds k) ms && contains k valid)
unfolding repair
responds-repair k valid [] = refl
responds-repair k valid (m ∷ ms) = ground (
  arith,
  any-push (responds k) (repair_message valid m) (repair valid ms),
  responds-repair_message k valid m,
  responds-repair k valid ms,
)

-- Either way, the ids that are left are those that were declared and responded to.
any-repaired :
    (p : Message → Bool) (k : String) (ms : List Message)
    → any p (repaired ms) ≡ (
        let d = declared ms [] in
        let r = responded ms [] in
        if same_set d (common d r) && same_set r (common d r)
        then any p ms
        else any p (repair (common d r) ms))
unfolding repaired
any-repaired p k ms =
    let d = declared ms [] in
    let r = responded ms [] in
    elim (same_set d (common d r))
      as (λ b.
        any p (if not b || not (same_set r (common d r)) then repair (common d r) ms else ms)
        ≡ (if b && same_set r (common d r) then any p ms else any p (repair (common d r) ms))) [
          | true ↦
              elim (same_set r (common d r))
                as (λ c.
                  any p (if not c then repair (common d r) ms else ms)
                  ≡ (if c then any p ms else any p (repair (common d r) ms))) [
                    | true ↦ refl
                    | false ↦ refl
                  ]
          | false ↦ refl
        ]

declares-repaired :
    (k : String) (ms : List Message)
    → any (declares k) (repaired ms) ≡ (any (declares k) ms && any (responds k) ms)
unfolding contains
declares-repaired k ms =
    let d = declared ms [] in
    let r = responded ms [] in
    ground (
      arith,
      any-repaired (declares k) k ms,
      same_set→eq d (common d r) k,
      contains-common k d r,
      contains-declared k ms [],
      contains-responded k ms [],
      declares-repair k (common d r) ms,
    )

responds-repaired :
    (k : String) (ms : List Message)
    → any (responds k) (repaired ms) ≡ (any (declares k) ms && any (responds k) ms)
unfolding contains
responds-repaired k ms =
    let d = declared ms [] in
    let r = responded ms [] in
    ground (
      arith,
      any-repaired (responds k) k ms,
      same_set→eq r (common d r) k,
      contains-common k d r,
      contains-declared k ms [],
      contains-responded k ms [],
      responds-repair k (common d r) ms,
    )

any-project :
    (p : Message → Bool) (ms : List Message)
    → ((m : Message) → p (project m) ≡ p m)
    → any p (map project ms) ≡ any p ms
any-project p [] h = refl
any-project p (m ∷ ms) h = rw (h m, any-project p ms h)

declares-project : (k : String) (m : Message) → declares k (project m) ≡ declares k m
unfolding declares project calls_of
declares-project k m = refl

responds-project : (k : String) (m : Message) → responds k (project m) ≡ responds k m
unfolding responds project
responds-project k m = refl

-- In what _repair_and_project answers, the ids that assistant messages declare are those that
-- tool messages respond to, and they are the ids that the given messages both declare and respond to.
pub repair_and_project-balanced :
    (ms : List Message) (k : String)
    → (contains k (declared (repair_and_project ms) [])
        ≡ contains k (responded (repair_and_project ms) []))
      × (contains k (declared (repair_and_project ms) [])
          ≡ (contains k (declared ms []) && contains k (responded ms [])))
unfolding repair_and_project contains
repair_and_project-balanced ms k = ground (
  arith,
  contains-declared k (map project (repaired ms)) [],
  contains-responded k (map project (repaired ms)) [],
  any-project (declares k) (repaired ms) (declares-project k),
  any-project (responds k) (repaired ms) (responds-project k),
  declares-repaired k ms,
  responds-repaired k ms,
  contains-declared k ms [],
  contains-responded k ms [],
)

repaired_of_balanced :
    (ms : List Message)
    → ((k : String) → contains k (declared ms []) ≡ contains k (responded ms []))
    → repaired ms ≡ ms
unfolding repaired
repaired_of_balanced ms h =
    let d = declared ms [] in
    let r = responded ms [] in
    rw (
      same_set_intro d (common d r) (λ k. ground (arith, h k, contains-common k d r)),
      same_set_intro r (common d r) (λ k. ground (arith, h k, contains-common k d r)),
    )

project_idem : (ms : List Message) → map project (map project ms) ≡ map project ms
unfolding project
project_idem [] = refl
project_idem (m ∷ ms) = rw (once m, project_idem ms)
  where
    once : (m : Message) → project (project m) ≡ project m
    once m =
        elim m.content
          as (λ c. let n : Message = record m { content = c } in project (project n) ≡ project n) [
            | absent ↦ refl
            | null ↦ refl
            | value c ↦ refl
          ]

-- Repairing what was repaired changes nothing.
pub repair_and_project_idem :
    (ms : List Message) → repair_and_project (repair_and_project ms) ≡ repair_and_project ms
unfolding repair_and_project
repair_and_project_idem ms =
    ap (map project)
      (repaired_of_balanced (repair_and_project ms) (λ k. (repair_and_project-balanced ms k).0))
    ∙ project_idem (repaired ms)
