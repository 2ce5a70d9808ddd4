-- ===== src/Reduce/Dedup.antt =====
-- What `_dedup` keeps.
use exoclaw_plugins.Prelude.{
  ℕ, ◌≡◌, refl, sym, subst, String, List, [], ◌∷◌, Option, none, some, Bool, true, false, not, ◌&&◌,
  Bool-cases, inl, inr, if◌then◌else◌, str_eq_iff, arith,
}
use exoclaw_plugins.Cron.Codec.{Json}
use exoclaw_plugins.Reduce.{
  Key, no_key, number_key, text_key, unhashable, key_of, same_key, seen_before, dedup_from, dedup,
  ◌>>=◌,
}

-- Whether an item is there that has the key.
unfoldable pub has_key : String → Key → List Json → Bool
has_key name k [] = false
has_key name k (j ∷ items) = if same_key (key_of name j) k then true else has_key name k items

-- No two items have one key.
unfoldable pub all_distinct : String → List Json → Bool
all_distinct name [] = true
all_distinct name (j ∷ items) = not (has_key name (key_of name j) items) && all_distinct name items

same_key_trans : (k l m : Key) → same_key k l ≡ true → same_key k m ≡ same_key l m
unfolding same_key
same_key_trans (number_key a) (number_key b) (number_key c) h = ground arith
same_key_trans (number_key a) (number_key b) (text_key c) h = refl
same_key_trans (number_key a) (number_key b) no_key h = refl
same_key_trans (number_key a) (number_key b) unhashable h = refl
same_key_trans (text_key a) (text_key b) (text_key c) h =
    ground (arith, str_eq_iff a b, str_eq_iff a c, str_eq_iff b c)
same_key_trans (text_key a) (text_key b) (number_key c) h = refl
same_key_trans (text_key a) (text_key b) no_key h = refl
same_key_trans (text_key a) (text_key b) unhashable h = refl
same_key_trans _ _ m h = absurd (cc)

same_key_right : (l k m : Key) → same_key k m ≡ true → same_key l k ≡ same_key l m
unfolding same_key
same_key_right (number_key c) (number_key a) (number_key b) h = ground arith
same_key_right (text_key c) (number_key a) (number_key b) h = refl
same_key_right no_key (number_key a) (number_key b) h = refl
same_key_right unhashable (number_key a) (number_key b) h = refl
same_key_right (text_key c) (text_key a) (text_key b) h =
    ground (arith, str_eq_iff a b, str_eq_iff c a, str_eq_iff c b)
same_key_right (number_key c) (text_key a) (text_key b) h = refl
same_key_right no_key (text_key a) (text_key b) h = refl
same_key_right unhashable (text_key a) (text_key b) h = refl
same_key_right l _ _ h = absurd (cc)

seen_same :
    (k m : Key) (seen : List Key) → same_key k m ≡ true → seen_before k seen ≡ seen_before m seen
unfolding seen_before
seen_same k m [] h = refl
seen_same k m (l ∷ seen) h = ground (arith, seen_same k m seen h, same_key_right l k m h)

no_key_left : (m : Key) → same_key no_key m ≡ false
unfolding same_key
no_key_left m = refl

no_key_right : (l : Key) → same_key l no_key ≡ false
unfolding same_key
no_key_right no_key = refl
no_key_right unhashable = refl
no_key_right (number_key n) = refl
no_key_right (text_key t) = refl

has_no_key : (name : String) (rest : List Json) → has_key name no_key rest ≡ false
unfolding has_key
has_no_key name [] = refl
has_no_key name (j ∷ rest) = ground (arith, no_key_right (key_of name j), has_no_key name rest)

same_number : (n : ℕ) → same_key (number_key n) (number_key n) ≡ true
unfolding same_key
same_number n = ground arith

same_text : (t : String) → same_key (text_key t) (text_key t) ≡ true
unfolding same_key
same_text t = ground (arith, str_eq_iff t t)

unseen : (k : Key) → seen_before k [] ≡ false
unfolding seen_before
unseen k = refl

module _ (name : String) where
  -- Apart from the keys that were seen before, the kept items have the same keys as all of them, each once.
  abbrev Kept : List Key → List Json → Option (List Json) → Type 0
  Kept seen items none = Unit
  Kept seen items (some kept) =
      (all_distinct name kept ≡ true)
      × ((k : Key) → has_key name k kept ≡ (has_key name k items && not (seen_before k seen)))

  abbrev after : Json → Option (List Json) → Option (List Json)
  after j o = do rest ← o; some (j ∷ rest)

  module _ (j : Json) (items : List Json) (seen : List Key) where
    -- A key that is new.
    keep_new :
        (o : Option (List Json))
        → same_key (key_of name j) (key_of name j) ≡ true
        → seen_before (key_of name j) seen ≡ false
        → Kept (key_of name j ∷ seen) items o
        → Kept seen (j ∷ items) (after j o)
    unfolding all_distinct has_key seen_before
    keep_new none e n h = tt
    keep_new (some kept) e n (d, h) = (
      ground (arith, h (key_of name j)),
      λ k. ground (arith, h k, seen_same (key_of name j) k seen),
    )

    drop_old :
        (o : Option (List Json))
        → seen_before (key_of name j) seen ≡ true
        → Kept seen items o
        → Kept seen (j ∷ items) o
    unfolding has_key
    drop_old none n h = tt
    drop_old (some kept) n (d, h) = (d, λ k. ground (arith, h k, seen_same (key_of name j) k seen))

    keep_keyless :
        (o : Option (List Json))
        → ((k : Key) → same_key (key_of name j) k ≡ false)
        → ((rest : List Json) → has_key name (key_of name j) rest ≡ false)
        → Kept seen items o
        → Kept seen (j ∷ items) (after j o)
    unfolding all_distinct has_key
    keep_keyless none e n h = tt
    keep_keyless (some kept) e n (d, h) = (ground (arith, n kept), λ k. ground (arith, h k, e k))

    known :
        (keyless keep : Option (List Json))
        → same_key (key_of name j) (key_of name j) ≡ true
        → Kept seen items keyless
        → Kept (key_of name j ∷ seen) items keep
        → Kept seen (j ∷ items) (if seen_before (key_of name j) seen then keyless else after j keep)
    known keyless keep e h k = elim (Bool-cases (seen_before (key_of name j) seen)) [
      | inl n ↦
          subst (λ b. Kept seen (j ∷ items) (if b then keyless else after j keep)) (sym n)
            (drop_old keyless n h)
      | inr n ↦
          subst (λ b. Kept seen (j ∷ items) (if b then keyless else after j keep)) (sym n)
            (keep_new keep e n k)
    ]

    step :
        (k0 : Key) (keyless keep : Option (List Json))
        → key_of name j ≡ k0
        → Kept seen items keyless
        → Kept (k0 ∷ seen) items keep
        → Kept seen (j ∷ items) (elim k0 [
          | no_key ↦ after j keyless
          | unhashable ↦ none
          | number_key n ↦ if seen_before (number_key n) seen then keyless else after j keep
          | text_key t ↦ if seen_before (text_key t) seen then keyless else after j keep
        ])
    step no_key keyless keep e h k =
        keep_keyless keyless (λ m. subst (λ l. same_key l m ≡ false) (sym e) (no_key_left m))
          (λ rest. subst (λ l. has_key name l rest ≡ false) (sym e) (has_no_key name rest)) h
    step unhashable keyless keep e h k = tt
    step (number_key n) keyless keep e h k =
        subst (λ l. Kept seen (j ∷ items) (if seen_before l seen then keyless else after j keep)) e
          (known keyless keep (subst (λ l. same_key l l ≡ true) (sym e) (same_number n)) h
            (subst (λ l. Kept (l ∷ seen) items keep) (sym e) k))
    step (text_key t) keyless keep e h k =
        subst (λ l. Kept seen (j ∷ items) (if seen_before l seen then keyless else after j keep)) e
          (known keyless keep (subst (λ l. same_key l l ≡ true) (sym e) (same_text t)) h
            (subst (λ l. Kept (l ∷ seen) items keep) (sym e) k))

  dedup_from-Kept :
      (items : List Json) (seen : List Key) → Kept seen items (dedup_from name seen items)
  unfolding dedup_from
  dedup_from-Kept [] seen = unfold all_distinct has_key in (refl, λ k. refl)
  dedup_from-Kept (j ∷ items) seen =
      let k0 = key_of name j in
      step j items seen k0 (dedup_from name seen items) (dedup_from name (k0 ∷ seen) items) refl
        (dedup_from-Kept items seen) (dedup_from-Kept items (k0 ∷ seen))

  -- What _dedup keeps has no two items with one key, and it has an item with a key exactly if the
  -- given items have one.
  pub dedup_lem :
      (items kept : List Json)
      → dedup items name ≡ some kept
      → (all_distinct name kept ≡ true) × ((k : Key) → has_key name k kept ≡ has_key name k items)
  unfolding dedup
  dedup_lem items kept e =
      let kept_all : Kept [] items (some kept) =
        subst (Kept [] items) e (dedup_from-Kept items []) in
      (kept_all.0, λ k. ground (arith, kept_all.1 k, unseen k))
