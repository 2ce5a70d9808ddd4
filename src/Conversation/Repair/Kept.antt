-- ===== src/Conversation/Repair/Kept.antt =====
-- What `_repair_and_project` and `_normalize_history` keep of a conversation.
use exoclaw_plugins.Prelude.{
  ℕ, String, ◌≡◌, refl, subst, sym, ◌∙◌, ap, List, [], ◌∷◌, map, Option, none, some, Bool, true,
  false, not, ◌&&◌, ◌||◌, Bool-cases, inl, inr, str_eq, str_eq_iff, if◌then◌else◌, select, any,
  arith,
}
use exoclaw_plugins.Conversation.{
  Key, absent, null, value, Content, ToolCall, Message, is_role, calls_of, has_calls, has_content,
}
use exoclaw_plugins.Conversation.Repair.{
  is_valid, keep_calls, strip_calls, push, repair_message, repair, project, repaired,
  repair_and_project, declared, responded, common, same_set, drop_to_user, slice, normalize_history,
}

-- A message of the user or the system, or an assistant's with a content.
unfoldable pub speaks : Message → Bool
speaks m = not (is_role "tool" m) && (not (is_role "assistant" m) || has_content m)

-- Who says what.
abbrev pub utterance : Message → String × Key Content
utterance m = (m.role, (project m).content)

abbrev pub transcript : List Message → List (String × Key Content)
transcript ms = map utterance (select speaks ms)

kept_by : Option Message → List (String × Key Content) → List (String × Key Content)
kept_by none us = us
kept_by (some m) us = if speaks m then utterance m ∷ us else us

transcript-push :
    (o : Option Message) (ms : List Message) → transcript (push o ms) ≡ kept_by o (transcript ms)
unfolding select kept_by
transcript-push none ms = refl
transcript-push (some m) ms =
    elim (speaks m)
      as (λ b. map utterance (if b then m ∷ select speaks ms else select speaks ms) ≡ (
        if b
        then utterance m ∷ map utterance (select speaks ms)
        else map utterance (select speaks ms))) [ true ↦ refl | false ↦ refl ]

silent : (m : Message) → is_role "assistant" m ≡ true → has_content m ≡ false → speaks m ≡ false
unfolding speaks
silent m h e = ground arith

tool_silent : (m : Message) → is_role "tool" m ≡ true → speaks m ≡ false
unfolding speaks
tool_silent m h = ground arith

without_calls :
    (m : Message) (calls : Key (List ToolCall)) (us : List (String × Key Content))
    → kept_by (some (record m { tool_calls = calls })) us ≡ kept_by (some m) us
unfolding kept_by speaks has_content project
without_calls m calls us = refl

kept_by-strip_calls :
    (m : Message) (kept : List ToolCall) (us : List (String × Key Content))
    → is_role "assistant" m ≡ true
    → kept_by (strip_calls m kept) us ≡ kept_by (some m) us
unfolding strip_calls
kept_by-strip_calls m [] us h = elim (Bool-cases (has_content m)) [
  | inl e ↦ rw e (without_calls m absent us)
  | inr e ↦ rw e (unfold kept_by in rw (silent m h e))
]
kept_by-strip_calls m (c ∷ kept) us h = without_calls m (value (c ∷ kept)) us

kept_by-repair_message :
    (valid : List String) (m : Message) (us : List (String × Key Content))
    → kept_by (repair_message valid m) us ≡ kept_by (some m) us
unfolding repair_message
kept_by-repair_message valid m us = elim (Bool-cases (is_role "tool" m)) [
  | inl e ↦
      rw e
        (elim (is_valid valid m.tool_call_id)
          as (λ b. kept_by (if b then some m else none) us ≡ kept_by (some m) us) [
            | true ↦ refl
            | false ↦ unfold kept_by in rw (tool_silent m e)
          ])
  | inr e ↦ rw e (elim (Bool-cases (is_role "assistant" m)) [
    | inl a ↦
        rw a
          (elim (has_calls m)
            as (λ b.
              kept_by (if b then strip_calls m (keep_calls valid (calls_of m)) else some m) us
              ≡ kept_by (some m) us) [
                | true ↦ kept_by-strip_calls m (keep_calls valid (calls_of m)) us a
                | false ↦ refl
              ])
    | inr a ↦ rw a
  ])
]

transcript-repair :
    (valid : List String) (ms : List Message) → transcript (repair valid ms) ≡ transcript ms
unfolding repair
transcript-repair valid [] = refl
transcript-repair valid (m ∷ ms) =
    transcript-push (repair_message valid m) (repair valid ms)
    ∙ kept_by-repair_message valid m (transcript (repair valid ms))
    ∙ ap (kept_by (some m)) (transcript-repair valid ms)
    ∙ sym (transcript-push (some m) ms)

transcript-repaired : (ms : List Message) → transcript (repaired ms) ≡ transcript ms
unfolding repaired
transcript-repaired ms =
    let d = declared ms [] in
    let valid = common d (responded ms []) in
    elim (not (same_set d valid) || not (same_set (responded ms []) valid))
      as (λ b. transcript (if b then repair valid ms else ms) ≡ transcript ms) [
        | true ↦ transcript-repair valid ms
        | false ↦ refl
      ]

transcript-project : (ms : List Message) → transcript (map project ms) ≡ transcript ms
unfolding project kept_by speaks has_content
transcript-project [] = refl
transcript-project (m ∷ ms) =
    transcript-push (some (project m)) (map project ms)
    ∙ once m (transcript (map project ms))
    ∙ ap (kept_by (some m)) (transcript-project ms)
    ∙ sym (transcript-push (some m) ms)
  where
    once :
        (m : Message) (us : List (String × Key Content))
        → kept_by (some (project m)) us ≡ kept_by (some m) us
    once m us =
        elim m.content
          as (λ c.
            let n : Message = record m { content = c } in
            kept_by (some (project n)) us ≡ kept_by (some n) us) [
              | absent ↦ refl
              | null ↦ refl
              | value c ↦ refl
            ]

-- _repair_and_project keeps every message of the user and the system, and every assistant message
-- that has a content, with its role and content and in order, though its calls may go.
pub transcript-repair_and_project :
    (ms : List Message) → transcript (repair_and_project ms) ≡ transcript ms
unfolding repair_and_project
transcript-repair_and_project ms = transcript-project (repaired ms) ∙ transcript-repaired ms

unfoldable pub StartsWithUser : List Message → Type 0
StartsWithUser ms =
    (m : Message) × (rest : List Message) × (ms ≡ m ∷ rest) × (is_role "user" m ≡ true)

drop_to_user-StartsWithUser :
    (whole ms : List Message)
    → any (is_role "user") ms ≡ true
    → StartsWithUser (drop_to_user whole ms)
unfolding drop_to_user StartsWithUser
drop_to_user-StartsWithUser whole [] h = absurd (cc)
drop_to_user-StartsWithUser whole (m ∷ ms) h = elim (Bool-cases (is_role "user" m)) [
  | inl e ↦ (m, ms, rw e, e)
  | inr e ↦
      let (n, rest, p, u) = drop_to_user-StartsWithUser whole ms (ground arith) in
      (n, rest, rw e p, u)
]

user_kept :
    (valid : List String) (m : Message) → is_role "user" m ≡ true → repair_message valid m ≡ some m
unfolding repair_message
user_kept valid m h =
    let e : m.role ≡ "user" = ground (arith, str_eq_iff m.role "user") in
    let t : is_role "tool" m ≡ false = subst (λ r. str_eq r "tool" ≡ false) (sym e) refl in
    let a : is_role "assistant" m ≡ false =
      subst (λ r. str_eq r "assistant" ≡ false) (sym e) refl in
    rw (t, a)

repair_user :
    (valid : List String) (m : Message) (ms : List Message)
    → is_role "user" m ≡ true
    → repair valid (m ∷ ms) ≡ m ∷ repair valid ms
unfolding repair
repair_user valid m ms h = rw (user_kept valid m h)

repaired-StartsWithUser :
    (ms : List Message) → StartsWithUser ms → StartsWithUser (map project (repaired ms))
unfolding StartsWithUser repaired project
repaired-StartsWithUser ms (m, rest, e, u) =
    let d = declared ms [] in
    let valid = common d (responded ms []) in
    elim (not (same_set d valid) || not (same_set (responded ms []) valid))
      as (λ b. StartsWithUser (map project (if b then repair valid ms else ms))) [
        | true ↦ (
          project m,
          map project (repair valid rest),
          ap (λ t. map project (repair valid t)) e ∙ ap (map project) (repair_user valid m rest u),
          u,
        )
        | false ↦ (project m, map project rest, rw e, u)
      ]

-- If a message of the slice is the user's, _normalize_history answers a list that starts with a
-- user's message.
pub normalize_history-StartsWithUser :
    (ms : List Message) (limit : Option ℕ)
    → any (is_role "user") (slice ms limit) ≡ true
    → StartsWithUser (normalize_history ms limit)
unfolding normalize_history repair_and_project
normalize_history-StartsWithUser ms limit h =
    let sliced = slice ms limit in
    repaired-StartsWithUser (drop_to_user sliced sliced)
      (drop_to_user-StartsWithUser sliced sliced h)
