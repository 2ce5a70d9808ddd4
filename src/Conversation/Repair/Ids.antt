-- ===== src/Conversation/Repair/Ids.antt =====
-- The ids that `_repair_and_project` collects, and its sets of them.
use exoclaw_plugins.Prelude.{
  String, ◌≡◌, refl, List, [], ◌∷◌, Bool, true, false, ◌&&◌, ◌||◌, str_eq, str_eq_iff,
  if◌then◌else◌, contains, contains-add, select, any, arith,
}
use exoclaw_plugins.Conversation.{Key, absent, null, value, ToolCall, Message, is_role, calls_of}
use exoclaw_plugins.Conversation.Repair.{
  add_id, add_calls, declare, respond, declared, responded, common, within, same_set, is_valid,
  keep_calls,
}

unfoldable pub key_is : String → Key String → Bool
key_is k absent = false
key_is k null = false
key_is k (value t) = if str_eq t "" then false else str_eq t k

unfoldable pub mentions : String → List ToolCall → Bool
mentions k = any (λ (c : ToolCall). key_is k c.id)

unfoldable pub declares : String → Message → Bool
declares k m = if is_role "assistant" m then mentions k (calls_of m) else false

unfoldable pub responds : String → Message → Bool
responds k m =
    if is_role "assistant" m
    then false
    else if is_role "tool" m
    then key_is k m.tool_call_id
    else false

pub contains-add_id :
    (k : String) (key : Key String) (ids : List String)
    → contains k (add_id key ids) ≡ (key_is k key || contains k ids)
unfolding add_id key_is
contains-add_id k absent ids = refl
contains-add_id k null ids = refl
contains-add_id k (value t) ids = ground (arith, contains-add t k ids)

pub contains-add_calls :
    (k : String) (calls : List ToolCall) (ids : List String)
    → contains k (add_calls calls ids) ≡ (mentions k calls || contains k ids)
unfolding add_calls mentions
contains-add_calls k [] ids = refl
contains-add_calls k (c ∷ calls) ids =
    ground (arith, contains-add_calls k calls (add_id c.id ids), contains-add_id k c.id ids)

pub contains-declared :
    (k : String) (ms : List Message) (ids : List String)
    → contains k (declared ms ids) ≡ (any (declares k) ms || contains k ids)
unfolding declared declare declares
contains-declared k [] ids = refl
contains-declared k (m ∷ ms) ids =
    ground (arith, contains-declared k ms (declare m ids), contains-add_calls k (calls_of m) ids)

pub contains-responded :
    (k : String) (ms : List Message) (ids : List String)
    → contains k (responded ms ids) ≡ (any (responds k) ms || contains k ids)
unfolding responded respond responds
contains-responded k [] ids = refl
contains-responded k (m ∷ ms) ids =
    ground (arith, contains-responded k ms (respond m ids), contains-add_id k m.tool_call_id ids)

pub contains-common :
    (k : String) (s t : List String) → contains k (common s t) ≡ (contains k s && contains k t)
unfolding common select contains
contains-common k [] t = refl
contains-common k (x ∷ s) t = ground (arith, contains-common k s t, str_eq_iff x k)

pub is_valid-key_is :
    (k : String) (valid : List String) (key : Key String)
    → (key_is k key && is_valid valid key) ≡ (key_is k key && contains k valid)
unfolding key_is is_valid
is_valid-key_is k valid absent = refl
is_valid-key_is k valid null = refl
is_valid-key_is k valid (value t) = ground (arith, str_eq_iff t k)

pub mentions-keep_calls :
    (k : String) (valid : List String) (calls : List ToolCall)
    → mentions k (keep_calls valid calls) ≡ (mentions k calls && contains k valid)
unfolding mentions keep_calls select
mentions-keep_calls k valid [] = refl
mentions-keep_calls k valid (c ∷ calls) =
    ground (arith, mentions-keep_calls k valid calls, is_valid-key_is k valid c.id)

within→contains :
    (s t : List String) (k : String) → within s t ≡ true → contains k s ≡ true → contains k t ≡ true
unfolding within contains
within→contains (x ∷ s) t k h e = ground (arith, within→contains s t k, str_eq_iff x k)
within→contains [] t k h e = absurd (cc)

within_intro :
    (s t : List String)
    → ((k : String) → contains k s ≡ true → contains k t ≡ true)
    → within s t ≡ true
unfolding within contains
within_intro [] t h = refl
within_intro (x ∷ s) t h =
    ground (arith, h x, str_eq_iff x x, within_intro s t (λ k e. ground (arith, h k)))

-- A set that agrees with another one is not told from it.
pub same_set_intro :
    (s t : List String) → ((k : String) → contains k s ≡ contains k t) → same_set s t ≡ true
unfolding same_set
same_set_intro s t h = ground (
  arith,
  within_intro s t (λ k e. ground (arith, h k)),
  within_intro t s (λ k e. ground (arith, h k)),
)

pub same_set→eq :
    (s t : List String) (k : String) → same_set s t ≡ true → contains k s ≡ contains k t
unfolding same_set
same_set→eq s t k h = ground (arith, within→contains s t k, within→contains t s k)
