-- ===== src/Prelude/Text.antt =====
-- Equality of texts, and sets and dictionaries with texts as keys.
use Prim.Native.Char.{code}
use Prim.Native.Nat.{ℕ}
use Prim.Native.String.{String}
use mathlib.Core.Path.{◌≡◌, refl}
use mathlib.Core.Logic.{◌↔◌}
use mathlib.Core.Bool.{Bool, true, false, ◌||◌}
use mathlib.Core.Option.{Option, none, some}
use mathlib.Core.List.{List, [], ◌∷◌, ◌++◌}
use native.Mathlib.Omega.{arith}
use text.Mathlib.Text.{◌==◌}
use text.Mathlib.TextEquality.{eq_iff}
use exoclaw_plugins.Prelude.Tests.{if◌then◌else◌}

abbrev pub str_eq : String → String → Bool
str_eq a b = a == b

pub str_eq_iff : (a b : String) → (str_eq a b ≡ true) ↔ (a ≡ b)
str_eq_iff a b = eq_iff a b

-- A text as the list of its code points; the bytes of an ASCII text.
abbrev pub codes : String → List ℕ
codes String.[] = []
codes (String.◌∷◌ c s) = code c ∷ codes s

-- `k in s`, for a set or a list of texts.
unfoldable pub contains : String → List String → Bool
contains k [] = false
contains k (x ∷ s) = str_eq x k || contains k s

-- `s.add(k)`
unfoldable pub add : String → List String → List String
add k s = if contains k s then s else s ++ (k ∷ [])

-- `s.discard(k)`
unfoldable pub discard : String → List String → List String
discard k [] = []
discard k (x ∷ s) = let rest = discard k s in if str_eq x k then rest else x ∷ rest

abbrev pub Dict {ℓ} : Type ℓ → Type ℓ
Dict V = List (String × V)

module _ {ℓ} {V : Type ℓ} where
  -- `d.get(k)`
  unfoldable pub lookup : String → Dict V → Option V
  lookup k [] = none
  lookup k (e ∷ d) = if str_eq e.0 k then some e.1 else lookup k d

  -- `d[k] = v`
  unfoldable pub insert : String → V → Dict V → Dict V
  insert k v [] = (k, v) ∷ []
  insert k v (e ∷ d) = if str_eq e.0 k then (k, v) ∷ d else e ∷ insert k v d

  -- `d.pop(k, None)`
  unfoldable pub erase : String → Dict V → Dict V
  erase k [] = []
  erase k (e ∷ d) = let rest = erase k d in if str_eq e.0 k then rest else e ∷ rest

  pub lookup-insert :
      (k j : String) (v : V) (d : Dict V)
      → lookup j (insert k v d) ≡ (if str_eq k j then some v else lookup j d)
  unfolding lookup insert
  lookup-insert k j v [] = refl
  lookup-insert k j v (e ∷ d) =
      ground (arith, eq_iff k j, eq_iff e.0 k, eq_iff e.0 j, lookup-insert k j v d)

  pub lookup-erase :
      (k j : String) (d : Dict V) → lookup j (erase k d) ≡ (if str_eq k j then none else lookup j d)
  unfolding lookup erase
  lookup-erase k j [] = ground arith
  lookup-erase k j (e ∷ d) =
      ground (arith, eq_iff k j, eq_iff e.0 k, eq_iff e.0 j, lookup-erase k j d)

contains-append :
    (k : String) (s t : List String) → contains k (s ++ t) ≡ (contains k s || contains k t)
unfolding contains
contains-append k [] t = refl
contains-append k (x ∷ s) t = ground (arith, contains-append k s t)

pub contains-snoc :
    (k j : String) (s : List String) → contains j (s ++ (k ∷ [])) ≡ (str_eq k j || contains j s)
unfolding contains
contains-snoc k j s = ground (arith, contains-append j s (k ∷ []), eq_iff k j)

pub contains-add :
    (k j : String) (s : List String) → contains j (add k s) ≡ (str_eq k j || contains j s)
unfolding add contains
contains-add k j s = ground (arith, contains-append j s (k ∷ []), eq_iff k j)

pub contains-discard :
    (k j : String) (s : List String)
    → contains j (discard k s) ≡ (if str_eq k j then false else contains j s)
unfolding contains discard
contains-discard k j [] = ground arith
contains-discard k j (x ∷ s) =
    ground (arith, eq_iff k j, eq_iff x k, eq_iff x j, contains-discard k j s)
