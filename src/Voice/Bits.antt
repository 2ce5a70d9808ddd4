-- ===== src/Voice/Bits.antt =====
-- The shifts and masks of b64.py as arithmetic: each is a table that evaluation checks.
use Prim.Native.Nat.{bit_and, bit_or}
use exoclaw_plugins.Prelude.{
  ℕ, zero, suc, ◌+◌, ◌*◌, ◌/◌, ◌%◌, ◌<◌, ◌≡◌, refl, Bool, true, arith, ◌==◌, ◌&&◌,
}

module _ (f g : ℕ → ℕ) where
  agree_below : ℕ → Bool
  agree_below zero = true
  agree_below (suc n) = (f n == g n) && agree_below n

  agree_below→eq : (n : ℕ) → agree_below n ≡ true → (i : ℕ) → i < n → f i ≡ g i
  unfolding agree_below
  agree_below→eq zero e i h = absurd (omega arith)
  agree_below→eq (suc n) e i h = ground (arith, agree_below→eq n (ground arith) i)

pub low_two : (b : ℕ) → b < 256 → bit_and b 3 ≡ b % 4
unfolding agree_below
low_two = agree_below→eq _ _ 256 refl

pub low_four : (b : ℕ) → b < 256 → bit_and b 15 ≡ b % 16
unfolding agree_below
low_four = agree_below→eq _ _ 256 refl

pub low_six : (b : ℕ) → b < 256 → bit_and b 63 ≡ b % 64
unfolding agree_below
low_six = agree_below→eq _ _ 256 refl

or_four : (i : ℕ) → i < 64 → bit_or (i / 16 * 16) (i % 16) ≡ i
unfolding agree_below
or_four = agree_below→eq (λ i. bit_or (i / 16 * 16) (i % 16)) (λ i. i) 64 refl

or_two : (i : ℕ) → i < 64 → bit_or (i / 4 * 4) (i % 4) ≡ i
unfolding agree_below
or_two = agree_below→eq (λ i. bit_or (i / 4 * 4) (i % 4)) (λ i. i) 64 refl

-- Bits that do not overlap are added.
pub join_four : (x y : ℕ) → x < 4 → y < 16 → bit_or (x * 16) y ≡ x * 16 + y
join_four x y hx hy =
    let q : (x * 16 + y) / 16 ≡ x = omega arith in
    let r : (x * 16 + y) % 16 ≡ y = omega arith in rw (q, r) at (or_four (x * 16 + y) (omega arith))

pub join_two : (x y : ℕ) → x < 16 → y < 4 → bit_or (x * 4) y ≡ x * 4 + y
join_two x y hx hy =
    let q : (x * 4 + y) / 4 ≡ x = omega arith in
    let r : (x * 4 + y) % 4 ≡ y = omega arith in rw (q, r) at (or_two (x * 4 + y) (omega arith))
