-- ===== src/Conversation/Session/Persisted.antt =====
-- What `_prepare_turn` lets into the log.
use exoclaw_plugins.Prelude.{
  ℕ, ◌+◌, ◌≤◌, Bool-cases, inl, inr, str_eq, str_eq_iff, ◌≡◌, refl, sym, subst, List, [], ◌∷◌, ◌++◌,
  Option, none, some, Bool, true, false, not, ◌&&◌, any, if◌then◌else◌, ltb, leb, le→leb, length,
  length-append, take, codes, arith,
}
use exoclaw_plugins.Conversation.{
  Text, absent, null, value, Part, text_part, image_url, other, Content, text, parts, Message,
  is_role, has_calls, has_content,
}
use exoclaw_plugins.Conversation.Policy.Tail.{length-take}
use exoclaw_plugins.Conversation.Session.Prepare.{
  runtime_context_tag, tool_result_max_chars, starts_with, truncate, filter_parts, user_text,
  with_content, set_content, user_content, tool_content, prepare_content, stamp, stamped,
  prepare_message,
}

-- A part with the runtime context, or with the data of an image.
unfoldable pub is_transient : Part → Bool
is_transient (text_part t) = starts_with runtime_context_tag t
is_transient (image_url u) = starts_with (codes "data:image/") u
is_transient (other o) = false

unfoldable pub fits : Message → Content → Bool
fits m (text t) = if is_role "tool" m then leb (length t) 516 else true
fits m (parts ps) = if is_role "user" m then not (any is_transient ps) else true

-- A tool result is short, and a user's parts are free of what is not to be stored.
unfoldable pub is_slim : Message → Bool
is_slim m = elim m.content [ absent ↦ true | null ↦ true | value c ↦ fits m c ]

shortened :
    (n : ℕ) (t mark : Text)
    → length (if ltb n (length t) then take n t ++ mark else t) ≤ n + length mark
shortened n t mark = ground (arith, length-append (take n t) mark, length-take n t)

transient_text : (t : Text) → is_transient (text_part t) ≡ starts_with runtime_context_tag t
unfolding is_transient
transient_text t = refl

transient_image : (u : Text) → is_transient (image_url u) ≡ starts_with (codes "data:image/") u
unfolding is_transient
transient_image u = refl

other_kept :
    (o : Text) (ps : List Part)
    → any is_transient ps ≡ false
    → any is_transient (other o ∷ ps) ≡ false
unfolding is_transient
other_kept o ps e = e

length-truncate : (t : Text) → length (truncate t) ≤ 516
unfolding truncate
length-truncate t = shortened tool_result_max_chars t (codes "\n... (truncated)")

module _ (f : Part → Bool) (rest : List Part) (clean : any f rest ≡ false) where
  skipped : (b : Bool) (p : Part) → f p ≡ b → any f (if b then rest else p ∷ rest) ≡ false
  skipped true p e = clean
  skipped false p e = ground (arith, e, clean)

  replaced :
      (b : Bool) (p q : Part)
      → f p ≡ b
      → f q ≡ false
      → any f (if b then q ∷ rest else p ∷ rest) ≡ false
  replaced true p q e d = ground (arith, d, clean)
  replaced false p q e d = ground (arith, e, clean)

image_text : is_transient (text_part (codes "[image]")) ≡ false
unfolding is_transient starts_with
image_text = refl

filter_parts_lem : (ps : List Part) → any is_transient (filter_parts ps) ≡ false
unfolding filter_parts
filter_parts_lem [] = refl
filter_parts_lem (text_part t ∷ ps) =
    skipped is_transient (filter_parts ps) (filter_parts_lem ps) (starts_with runtime_context_tag t)
      (text_part t) (transient_text t)
filter_parts_lem (image_url u ∷ ps) =
    replaced is_transient (filter_parts ps) (filter_parts_lem ps)
      (starts_with (codes "data:image/") u) (image_url u) (text_part (codes "[image]"))
      (transient_image u) image_text
filter_parts_lem (other o ∷ ps) = other_kept o (filter_parts ps) (filter_parts_lem ps)

fits-tool_content :
    (m : Message) (c : Content)
    → is_role "tool" m ≡ true
    → is_role "user" m ≡ false
    → fits m (tool_content c) ≡ true
unfolding fits tool_content
fits-tool_content m (text t) h u = rw h (le→leb (length (truncate t)) 516 (length-truncate t))
fits-tool_content m (parts ps) h u = rw u

SlimIf : Option Message → Type 0
SlimIf none = Unit
SlimIf (some m) = is_slim m ≡ true

fits-user_content :
    (m : Message) (c : Content) → is_role "tool" m ≡ false → SlimIf (set_content (user_content c) m)
unfolding SlimIf is_slim fits set_content user_content with_content
fits-user_content m (text t) h =
    elim (user_text t)
      as (λ o. SlimIf (set_content (elim o [ none ↦ none | some rest ↦ some (text rest) ]) m)) [
        | none ↦ tt
        | some rest ↦ rw h
      ]
fits-user_content m (parts ps) h = go (filter_parts ps) (filter_parts_lem ps)
  where
    go :
        (qs : List Part)
        → any is_transient qs ≡ false
        → SlimIf (set_content (elim qs [ [] ↦ none | p ∷ rest ↦ some (parts (p ∷ rest)) ]) m)
    go [] e = tt
    go (q ∷ qs) e = rw e (elim (is_role "user" m) as (λ b. (if b then true else true) ≡ true) [
      | true ↦ refl
      | false ↦ refl
    ])

not_user : (m : Message) → is_role "tool" m ≡ true → is_role "user" m ≡ false
not_user m h =
    let e : m.role ≡ "tool" = ground (arith, str_eq_iff m.role "tool") in
    subst (λ r. str_eq r "user" ≡ false) (sym e) refl

fits_other :
    (m : Message) (c : Content)
    → is_role "tool" m ≡ false
    → is_role "user" m ≡ false
    → fits m c ≡ true
unfolding fits
fits_other m (text t) h u = rw h
fits_other m (parts ps) h u = rw u

-- The content of a message that has one.
slim_value : (m : Message) (c : Content) → SlimIf (prepare_content (record m { content = value c }))
unfolding prepare_content SlimIf is_slim with_content
slim_value m c = elim (Bool-cases (is_role "tool" m)) [
  | inl h ↦ rw h (on_tool h)
  | inr h ↦ rw h (elim (Bool-cases (is_role "user" m)) [
    | inl u ↦ rw u (fits-user_content (record m { content = value c }) c h)
    | inr u ↦ rw u (on_other h u)
  ])
]
  where
    on_tool :
        is_role "tool" m ≡ true
        → fits (record m { content = value (tool_content c) }) (tool_content c) ≡ true
    on_tool h = fits-tool_content (record m { content = value (tool_content c) }) c h (not_user m h)

    on_other :
        is_role "tool" m ≡ false
        → is_role "user" m ≡ false
        → fits (record m { content = value c }) c ≡ true
    on_other h u = fits_other (record m { content = value c }) c h u

prepare_content-SlimIf : (m : Message) → SlimIf (prepare_content m)
unfolding prepare_content SlimIf is_slim
prepare_content-SlimIf m =
    elim m.content as (λ c. SlimIf (prepare_content (record m { content = c }))) [
      | absent ↦ refl
      | null ↦ refl
      | value c ↦ slim_value m c
    ]

stamped-SlimIf : (now : Text) (o : Option Message) → SlimIf o → SlimIf (stamped now o)
unfolding SlimIf stamped stamp is_slim fits
stamped-SlimIf now none h = tt
stamped-SlimIf now (some m) h = h

prepare_message-SlimIf : (now : Text) (m : Message) → SlimIf (prepare_message now m)
unfolding prepare_message
prepare_message-SlimIf now m =
    elim (is_role "assistant" m && not (has_content m) && not (has_calls m))
      as (λ b. SlimIf (if b then none else stamped now (prepare_content m))) [
        | true ↦ unfold SlimIf in tt
        | false ↦ stamped-SlimIf now (prepare_content m) (prepare_content-SlimIf m)
      ]

-- What _prepare_turn makes of a message has no tool result with a text of more than 516
-- characters, and no user's content of parts with the runtime context or the data of an image.
pub prepare_message-is_slim :
    (now : Text) (m p : Message) → prepare_message now m ≡ some p → is_slim p ≡ true
unfolding SlimIf
prepare_message-is_slim now m p e = subst SlimIf e (prepare_message-SlimIf now m)
