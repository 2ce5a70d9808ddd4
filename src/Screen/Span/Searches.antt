-- ===== src/Screen/Span/Searches.antt =====
-- What the searches of `_parse_inline` leave is no longer than what they read.
use exoclaw_plugins.Prelude.{
  ℕ, suc, ◌+◌, ◌-◌, ◌≤◌, ◌≡◌, refl, sym, subst, [], ◌∷◌, ◌++◌, Option, none, some, Bool, true,
  false, if◌then◌else◌, ◌==◌, length, length-drop, drop, codes, arith,
}
use exoclaw_plugins.Screen.{Text, Attrs, starts_with, find}
use exoclaw_plugins.Screen.Ial.{parse_ial}
use exoclaw_plugins.Screen.Span.{match_forward, paren_of, bracketed, image_attrs}

unfoldable pub Found : ℕ → Option (Text × Text) → Type 0
Found n none = Unit
Found n (some r) = (length r.0 ≤ n) × (length r.1 ≤ n)

Found-mono : (m n : ℕ) (o : Option (Text × Text)) → m ≤ n → Found m o → Found n o
unfolding Found
Found-mono m n none h f = tt
Found-mono m n (some r) h (a, b) = (omega (arith, a, h), omega (arith, b, h))

Found-later :
    (c : ℕ) (n : ℕ) (o : Option (Text × Text))
    → Found n o
    → Found (suc n) (elim o [ none ↦ none | some r ↦ some (c ∷ r.0, r.1) ])
unfolding Found
Found-later c n none f = tt
Found-later c n (some r) (a, b) = (omega (arith, a), omega (arith, b))

pub find-Found : (p t : Text) → Found (length t) (find p t)
unfolding find Found
find-Found p [] = tt
find-Found p (c ∷ t) =
    let later = Found-later c (length t) (find p t) (find-Found p t) in
    elim (starts_with p (c ∷ t))
      as (λ b. Found (suc (length t)) (
        if b
        then some ([], c ∷ t)
        else elim (find p t) [ none ↦ none | some r ↦ some (c ∷ r.0, r.1) ])) [
          | true ↦ (omega arith, omega arith)
          | false ↦ later
        ]

pub drop_less : (k n : ℕ) (t : Text) → length t ≤ n → length (drop k t) ≤ n
drop_less k n t h = omega (arith, h, length-drop k t)

Matched : ℕ → Option (Text × Text) → Type 0
Matched n none = Unit
Matched n (some r) = length r.1 ≤ n

Matched-mono : (n : ℕ) (o : Option (Text × Text)) → Matched n o → Matched (suc n) o
unfolding Matched
Matched-mono n none m = tt
Matched-mono n (some r) m = omega (arith, m)

match_forward-Matched :
    (t : Text) (depth : ℕ) (inner : Text) → Matched (length t) (match_forward t depth inner)
unfolding match_forward Matched
match_forward-Matched [] depth inner = tt
match_forward-Matched (c ∷ t) depth inner =
    let longer = inner ++ (c ∷ []) in
    let deeper = Matched-mono (length t) _ (match_forward-Matched t (depth + 1) longer) in
    let outer = Matched-mono (length t) _ (match_forward-Matched t (depth - 1) longer) in
    let on = Matched-mono (length t) _ (match_forward-Matched t depth longer) in
    pick (suc (length t)) (c == b'{') _ _ deeper (
      pick (suc (length t)) (c == b'}') _ _
        (pick (suc (length t)) (depth == 1) _ _ (omega arith) outer) on)
  where
    pick :
        (n : ℕ) (b : Bool) (x y : Option (Text × Text))
        → Matched n x
        → Matched n y
        → Matched n (if b then x else y)
    pick n true x y h k = h
    pick n false x y h k = k

-- The attributes a match gives, and what follows them.
attrs_of : Text → Option (Text × Text) → Attrs × Text
attrs_of t none = ([], t)
attrs_of t (some r) = (parse_ial r.0, r.1)

attrs_of-length :
    (c : ℕ) (t : Text) (o : Option (Text × Text))
    → Matched (length t) o
    → length (attrs_of (c ∷ t) o).1 ≤ suc (length t)
unfolding attrs_of Matched
attrs_of-length c t none m = omega arith
attrs_of-length c t (some r) m = omega (arith, m)

image_attrs-cons :
    (c : ℕ) (t : Text)
    → image_attrs (c ∷ t)
      ≡ (if c == b'{' then attrs_of (c ∷ t) (match_forward t 1 []) else ([], c ∷ t))
unfolding image_attrs attrs_of
image_attrs-cons c t =
    elim (match_forward t 1 [])
      as (λ o.
        let p : Attrs × Text = elim o [ none ↦ ([], c ∷ t) | some r ↦ (parse_ial r.0, r.1) ] in
        let q : Attrs × Text = if c == b'{' then p else ([], c ∷ t) in
        let w : Attrs × Text = if c == b'{' then attrs_of (c ∷ t) o else ([], c ∷ t) in q ≡ w) [
          | none ↦ refl
          | some r ↦ refl
        ]

pub image_attrs-length : (t : Text) → length (image_attrs t).1 ≤ length t
unfolding image_attrs
image_attrs-length [] = omega arith
image_attrs-length (c ∷ t) =
    let matched = attrs_of-length c t (match_forward t 1 []) (match_forward-Matched t 1 []) in
    subst (λ p. length p.1 ≤ suc (length t)) (sym (image_attrs-cons c t))
      (pick (c == b'{') _ matched)
  where
    pick :
        (b : Bool) (p : Attrs × Text)
        → length p.1 ≤ suc (length t)
        → length (if b then p else ([], c ∷ t)).1 ≤ suc (length t)
    pick true p h = h
    pick false p h = omega arith

-- The text and what follows of `[text](paren)`.
unfoldable pub Linked : ℕ → Option (Text × Text × Text) → Type 0
Linked n none = Unit
Linked n (some r) = (length r.0 ≤ n) × (length r.2 ≤ n)

paren_of-Linked :
    (n : ℕ) (label t : Text) → length label ≤ n → length t ≤ n → Linked n (paren_of label t)
unfolding paren_of Linked Found
paren_of-Linked n label t h k =
    let closed : Linked n (elim (find (codes ")") (drop 2 t)) [
      | none ↦ none
      | some r ↦ some (label, r.0, drop 1 r.1)
    ]) =
      elim (find (codes ")") (drop 2 t))
          as (λ o.
            let p : Option (Text × Text × Text) = elim o [
              | none ↦ none
              | some r ↦ some (label, r.0, drop 1 r.1)
            ] in
            Found (length (drop 2 t)) o → Linked n p) [
              | none ↦ λ _. tt
              | some r ↦ λ f. (h, drop_less 1 n r.1 (omega (arith, f.1, drop_less 2 n t k)))
            ]
        (find-Found (codes ")") (drop 2 t)) in
    pick (starts_with (codes "](") t) _ closed
  where
    pick :
        (b : Bool) (o : Option (Text × Text × Text)) → Linked n o → Linked n (if b then o else none)
    pick true o h = h
    pick false o h = tt

pub bracketed-Linked : (n : ℕ) (t : Text) → length t ≤ n → Linked n (bracketed t)
unfolding bracketed Linked Found
bracketed-Linked n t h =
    elim (find (codes "]") t)
        as (λ o.
          let p : Option (Text × Text × Text) = elim o [
            | none ↦ none
            | some r ↦ paren_of r.0 r.1
          ] in
          Found (length t) o → Linked n p) [
            | none ↦ λ _. tt
            | some r ↦
                λ f. paren_of-Linked n r.0 r.1 (omega (arith, f.0, h)) (omega (arith, f.1, h))
          ]
      (find-Found (codes "]") t)
