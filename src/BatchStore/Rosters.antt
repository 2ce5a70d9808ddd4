-- ===== src/BatchStore/Rosters.antt =====
-- Rosters of tasks as lists without repetitions, and when one holds all of another.
use exoclaw_plugins.Prelude.{
  ◌≤◌, ◌<◌, String, ◌≡◌, refl, Bool, true, false, ◌&&◌, List, [], ◌∷◌, ◌++◌, arith, str_eq_iff,
  contains, contains-discard, contains-snoc, discard, length, Bool-cases, inl, inr,
}

abbrev pub IsDistinct : List String → Type 0
IsDistinct [] = Unit
IsDistinct (t ∷ ts) = (contains t ts ≡ false) × IsDistinct ts

-- Every id of the first list is in the second.
unfoldable pub all_in : List String → List String → Bool
all_in [] us = true
all_in (t ∷ ts) us = contains t us && all_in ts us

pub IsDistinct-snoc :
    (ts : List String) (t : String)
    → IsDistinct ts
    → contains t ts ≡ false
    → IsDistinct (ts ++ (t ∷ []))
unfolding contains
IsDistinct-snoc [] t h new = (refl, tt)
IsDistinct-snoc (u ∷ ts) t (fresh, h) new = (
  ground (arith, contains-snoc t u ts, str_eq_iff t u, str_eq_iff u t),
  IsDistinct-snoc ts t h (ground (arith, new)),
)

all_in-cons :
    (t : String) (ts us : List String)
    → all_in (t ∷ ts) us ≡ true
    → (contains t us ≡ true) × (all_in ts us ≡ true)
unfolding all_in
all_in-cons t ts us h = (ground (arith, h), ground (arith, h))

all_in-pointwise :
    (ts us : List String)
    → ((t : String) → contains t ts ≡ true → contains t us ≡ true)
    → all_in ts us ≡ true
unfolding all_in contains
all_in-pointwise [] us h = refl
all_in-pointwise (t ∷ ts) us h =
    let first : contains t us ≡ true = h t (ground (arith, str_eq_iff t t)) in
    let rest : all_in ts us ≡ true = all_in-pointwise ts us (λ u e. h u (ground (arith, e))) in
    rw (first, rest) refl

all_in-discard :
    (x : String) (ts us : List String)
    → contains x ts ≡ false
    → all_in ts us ≡ true
    → all_in ts (discard x us) ≡ true
unfolding all_in contains
all_in-discard x [] us new h = refl
all_in-discard x (t ∷ ts) us new h =
    ground (arith, all_in-discard x ts us, contains-discard x t us, str_eq_iff x t, str_eq_iff t x)

length-discard_le : (x : String) (us : List String) → length (discard x us) ≤ length us
unfolding discard
length-discard_le x [] = omega arith
length-discard_le x (u ∷ us) = ground (arith, length-discard_le x us)

length-discard_lt :
    (x : String) (us : List String) → contains x us ≡ true → length (discard x us) < length us
unfolding discard contains
length-discard_lt x [] h = absurd (cc)
length-discard_lt x (u ∷ us) h = ground (arith, length-discard_lt x us, length-discard_le x us)

length-all_in : (ts us : List String) → IsDistinct ts → all_in ts us ≡ true → length ts ≤ length us
length-all_in [] us d h = omega arith
length-all_in (t ∷ ts) us (new, d) h =
    let (there, rest) = all_in-cons t ts us h in
    omega (
      arith,
      length-all_in ts (discard t us) d (all_in-discard t ts us new rest),
      length-discard_lt t us there,
    )

-- A list without repetitions that is within another one, and no shorter, holds all of it.
pub all_in-back :
    (ts us : List String)
    → IsDistinct ts
    → length us ≤ length ts
    → all_in ts us ≡ true
    → all_in us ts ≡ true
all_in-back ts us d short h = all_in-pointwise us ts (λ u there. elim (Bool-cases (contains u ts)) [
  | inl e ↦ e
  | inr e ↦ absurd (
      omega (
        arith,
        short,
        length-discard_lt u us there,
        length-all_in ts (discard u us) d (all_in-discard u ts us e h),
      ))
])
