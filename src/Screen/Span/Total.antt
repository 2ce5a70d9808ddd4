-- ===== src/Screen/Span/Total.antt =====
-- The loop of `_parse_inline` ends: each round leaves less to read.
use exoclaw_plugins.Prelude.{
  ℕ, zero, suc, ◌≤◌, ◌<◌, ◌≡◌, refl, sym, subst, [], ◌∷◌, ◌++◌, Option, none, some, Bool, true,
  false, not, ◌&&◌, ◌||◌, if◌then◌else◌, ◌==◌, length, length-drop, drop, replicate, codes, arith,
}
use exoclaw_plugins.Screen.{
  Text, Inlines, bold, italic, inline_code, link, image, nil, cons, starts_with, is_empty, find,
}
use exoclaw_plugins.Screen.Span.{
  Move, verbatim, emit, nested, split_url_title, backticks, bracketed, image_attrs, code_move,
  bold_move, underscore_move, star_move, image_move, link_move, escaped, move, flush, parse_inline,
  ◌>>=◌,
}
use exoclaw_plugins.Screen.Span.Searches.{
  Found, find-Found, drop_less, image_attrs-length, Linked, bracketed-Linked,
}

-- What a round leaves to read.
Leaves : ℕ → Move → Type 0
Leaves n (verbatim chars rest) = length rest ≤ n
Leaves n (emit x rest) = length rest ≤ n
Leaves n (nested wrap inner rest) = (length inner ≤ n) × (length rest ≤ n)

choose : (n : ℕ) (b : Bool) (x y : Move) → Leaves n x → Leaves n y → Leaves n (if b then x else y)
choose n true x y h k = h
choose n false x y h k = k

bold-Leaves : (n : ℕ) (t : Text) → length t ≤ n → Leaves n (bold_move t)
unfolding bold_move Leaves Found
bold-Leaves n t h =
    elim (find (codes "**") t)
        as (λ o.
          Found (length t) o
          → Leaves n
              (elim o [ none ↦ verbatim (codes "**") t | some r ↦ nested bold r.0 (drop 2 r.1) ])) [
                | none ↦ λ _. h
                | some r ↦ λ f. (omega (arith, f.0, h), drop_less 2 n r.1 (omega (arith, f.1, h)))
              ]
      (find-Found (codes "**") t)

underscore-Leaves : (n : ℕ) (t : Text) → length t ≤ n → Leaves n (underscore_move t)
unfolding underscore_move Leaves Found
underscore-Leaves n t h =
    elim (find (codes "_") t)
        as (λ o.
          Found (length t) o
          → Leaves n (elim o [
            | none ↦ verbatim (codes "_") t
            | some r ↦
                if is_empty r.0 then verbatim (codes "_") t else nested italic r.0 (drop 1 r.1)
          ])) [
            | none ↦ λ _. h
            | some r ↦ λ f.
                choose n (is_empty r.0) _ _ h
                  (omega (arith, f.0, h), drop_less 1 n r.1 (omega (arith, f.1, h)))
          ]
      (find-Found (codes "_") t)

star-Leaves : (n : ℕ) (t : Text) → length t ≤ n → Leaves n (star_move t)
unfolding star_move Leaves Found
star-Leaves n t h =
    elim (find (codes "*") t)
        as (λ o.
          Found (length t) o
          → Leaves n (elim o [
            | none ↦ verbatim (codes "*") t
            | some r ↦
                if is_empty r.0 || starts_with (codes "*") (drop 1 r.1)
                then verbatim (codes "*") t
                else nested italic r.0 (drop 1 r.1)
          ])) [
            | none ↦ λ _. h
            | some r ↦ λ f.
                choose n (is_empty r.0 || starts_with (codes "*") (drop 1 r.1)) _ _ h
                  (omega (arith, f.0, h), drop_less 1 n r.1 (omega (arith, f.1, h)))
          ]
      (find-Found (codes "*") t)

choose_if :
    (n : ℕ) (b : Bool) (x y : Move)
    → (b ≡ true → Leaves n x)
    → Leaves n y
    → Leaves n (if b then x else y)
choose_if n true x y h k = h refl
choose_if n false x y h k = k

code-Leaves :
    (n : ℕ) (src : Text) → length (drop (backticks src) src) ≤ n → Leaves n (code_move src)
unfolding code_move Leaves Found
code-Leaves n src h =
    let run = backticks src in
    let literal = verbatim (replicate run b'`') (drop run src) in
    elim (find (replicate run b'`') (drop run src))
        as (λ o.
          Found (length (drop run src)) o
          → Leaves n (elim o [
            | none ↦ literal
            | some r ↦
                let rest = drop run r.1 in
                if is_empty r.0 || starts_with (codes "`") rest
                then literal
                else emit (inline_code r.0) rest
          ])) [
            | none ↦ λ _. h
            | some r ↦ λ f.
                choose n (is_empty r.0 || starts_with (codes "`") (drop run r.1)) _ _ h
                  (drop_less run n r.1 (omega (arith, f.1, h)))
          ]
      (find-Found (replicate run b'`') (drop run src))

backticks-cons : (c : ℕ) (t : Text) → (c == b'`') ≡ true → backticks (c ∷ t) ≡ suc (backticks t)
unfolding backticks
backticks-cons c t h = rw h

after_backticks :
    (c : ℕ) (t : Text) → (c == b'`') ≡ true → length (drop (backticks (c ∷ t)) (c ∷ t)) ≤ length t
after_backticks c t h = omega (arith, length-drop (backticks (c ∷ t)) (c ∷ t), backticks-cons c t h)

image-Leaves : (n : ℕ) (t : Text) → length t ≤ n → Leaves n (image_move t)
unfolding image_move Leaves Linked
image-Leaves n t h =
    elim (bracketed (drop 1 t))
        as (λ o.
          let p : Move = elim o [
            | none ↦ verbatim (codes "!") t
            | some r ↦
                let after = image_attrs r.2 in
                emit (image (split_url_title r.1).0 r.0 after.0) after.1
          ] in
          Linked n o → Leaves n p) [
            | none ↦ λ _. h
            | some r ↦ λ l. omega (arith, image_attrs-length r.2, l.1)
          ]
      (bracketed-Linked n (drop 1 t) (drop_less 1 n t h))

link-Leaves : (n : ℕ) (t : Text) → length t ≤ n → Leaves n (link_move t)
unfolding link_move Leaves Linked
link-Leaves n t h =
    elim (bracketed t)
        as (λ o.
          let p : Move = elim o [
            | none ↦ verbatim (codes "[") t
            | some r ↦
                nested (λ xs. link xs (split_url_title r.1).0 (split_url_title r.1).1) r.0 r.2
          ] in
          Linked n o → Leaves n p) [ none ↦ λ _. h | some r ↦ λ l. l ]
      (bracketed-Linked n t h)

escaped-Leaves : (n : ℕ) (t : Text) → length t ≤ n → Leaves n (escaped t)
unfolding escaped Leaves
escaped-Leaves n [] h = h
escaped-Leaves n (d ∷ t) h = omega (arith, h)

move-Leaves : (c : ℕ) (t : Text) → Leaves (length t) (move c t)
unfolding move Leaves
move-Leaves c t =
    let n = length t in
    let whole : length t ≤ n = omega arith in
    choose n ((c == b' ') && starts_with (codes " \n") t) _ _ (drop_less 2 n t whole) (
      choose n ((c == b'\\') && not (is_empty t)) _ _ (escaped-Leaves n t whole) (
        choose_if n (c == b'`') _ _ (λ h. code-Leaves n (c ∷ t) (after_backticks c t h))
          (choose n ((c == b'*') && starts_with (codes "*") t) _ _
            (bold-Leaves n (drop 1 t) (drop_less 1 n t whole))
            (choose n (c == b'_') _ _ (underscore-Leaves n t whole) (
              choose n (c == b'*') _ _ (star-Leaves n t whole) (
                choose n ((c == b'!') && starts_with (codes "[") t) _ _ (image-Leaves n t whole)
                  (choose n (c == b'[') _ _ (link-Leaves n t whole) whole)))))))

Answers : {A : Type 0} → Option A → Type 0
Answers {A} o = (a : A) × (o ≡ some a)

Answers-bind :
    {A B : Type 0} (o : Option A) (g : A → Option B)
    → Answers o
    → ((a : A) → Answers (g a))
    → Answers (o >>= g)
unfolding Answers
Answers-bind o g (a, e) k = subst (λ o. Answers (o >>= g)) (sym e) (k a)

-- If the fuel is more than the length of the text, _parse_inline answers.
pub parse_inline-total :
    (f : ℕ) (buf src : Text) → length src < f → (xs : Inlines) × (parse_inline f buf src ≡ some xs)
unfolding parse_inline Leaves Answers
parse_inline-total zero buf src h = absurd (omega (arith, h))
parse_inline-total (suc f) buf [] h = (flush buf nil, refl)
parse_inline-total (suc f) buf (c ∷ t) h =
    elim (move c t)
        as (λ m.
          let o : Option Inlines = elim m [
            | verbatim chars rest ↦ parse_inline f (buf ++ chars) rest
            | emit x rest ↦ do xs ← parse_inline f [] rest; some (flush buf (cons x xs))
            | nested wrap inner rest ↦ do
              inside ← parse_inline f [] inner
              xs ← parse_inline f [] rest
              some (flush buf (cons (wrap inside) xs))
          ] in
          Leaves (length t) m → Answers o) [
            | verbatim chars rest ↦
                λ l. parse_inline-total f (buf ++ chars) rest (omega (arith, l, h))
            | emit x rest ↦ λ l.
                Answers-bind (parse_inline f [] rest) _
                  (parse_inline-total f [] rest (omega (arith, l, h)))
                  (λ xs. (flush buf (cons x xs), refl))
            | nested wrap inner rest ↦ λ l.
                Answers-bind (parse_inline f [] inner) _
                  (parse_inline-total f [] inner (omega (arith, l.0, h)))
                  (λ inside.
                    Answers-bind (parse_inline f [] rest) _
                      (parse_inline-total f [] rest (omega (arith, l.1, h)))
                      (λ xs. (flush buf (cons (wrap inside) xs), refl)))
          ]
      (move-Leaves c t)
