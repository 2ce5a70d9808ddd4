-- ===== src/Voice/Base64/Decode.antt =====
-- The encoding is read back by a decoder that knows nothing of the encoder.
use exoclaw_plugins.Prelude.{
  ℕ, zero, suc, ◌+◌, ◌*◌, ◌/◌, ◌%◌, ◌^◌, ◌<◌, ◌≡◌, refl, List, [], ◌∷◌, Option, none, some, Bool,
  true, false, ◌&&◌, arith, All, ◌==◌, ltb, if◌then◌else◌,
}
use exoclaw_plugins.Voice.Base64.{
  Bytes, IsByte, IsBytes, alphabet, symbol, pad, init, encode_chunks,
}
use exoclaw_plugins.Voice.Base64.Chunks.{base64, concat, All-append, encode_chunks-base64}

position : ℕ → Bytes → ℕ
position c [] = 0
position c (x ∷ xs) = let rest = position c xs in if x == c then 0 else suc rest

-- The number that a character stands for; 64 for any other character.
digit : ℕ → ℕ
digit c = position c alphabet

infixl 3 ◌>>=◌
abbrev ◌>>=◌ : {A B : Type 0} → Option A → (A → Option B) → Option B
none >>= f = none
some a >>= f = f a

is_digit : ℕ → Bool
is_digit c = ltb (digit c) 64

-- The last group, if it is padded; `=` is the end of the text.
padded : ℕ → ℕ → ℕ → Bytes → Option Bytes
padded c0 c1 c2 (_ ∷ _) = none
padded c0 c1 c2 [] =
    let n = digit c0 * 2 ^ 18 + digit c1 * 2 ^ 12 in
    let m = n + digit c2 * 2 ^ 6 in
    if is_digit c0 && is_digit c1
    then (if c2 == pad
        then some (n / 2 ^ 16 ∷ [])
        else if is_digit c2
        then some (m / 2 ^ 16 ∷ m / 2 ^ 8 % 256 ∷ [])
        else none)
    else none

-- A number of 24 bits is three bytes.
three : ℕ → Bytes → Bytes
three n bs = n / 2 ^ 16 ∷ n / 2 ^ 8 % 256 ∷ n % 256 ∷ bs

three-bytes :
    (b0 b1 b2 : ℕ) (rest : Bytes)
    → IsByte b0
    → IsByte b1
    → IsByte b2
    → some (three (b0 * 2 ^ 16 + b1 * 2 ^ 8 + b2) rest) ≡ some (b0 ∷ b1 ∷ b2 ∷ rest)
unfolding three
three-bytes b0 b1 b2 rest h0 h1 h2 =
    let n = b0 * 2 ^ 16 + b1 * 2 ^ 8 + b2 in
    let e0 : n / 2 ^ 16 ≡ b0 = omega arith in
    let e1 : n / 2 ^ 8 % 256 ≡ b1 = omega arith in
    let e2 : n % 256 ≡ b2 = omega arith in rw (e0, e1, e2)

full : ℕ → ℕ → ℕ → ℕ → Option Bytes → Option Bytes
full c0 c1 c2 c3 more =
    if is_digit c0 && is_digit c1 && is_digit c2 && is_digit c3
    then (do
      bs ← more
      some (three (digit c0 * 2 ^ 18 + digit c1 * 2 ^ 12 + digit c2 * 2 ^ 6 + digit c3) bs))
    else none

pub decode : Bytes → Option Bytes
decode [] = some []
decode (c0 ∷ c1 ∷ c2 ∷ c3 ∷ rest) =
    let more = decode rest in if c3 == pad then padded c0 c1 c2 rest else full c0 c1 c2 c3 more
decode _ = none

reads_below : ℕ → Bool
reads_below zero = true
reads_below (suc i) = (digit (symbol i) == i) && (if symbol i == pad then false else reads_below i)

reads :
    (n : ℕ)
    → reads_below n ≡ true
    → (i : ℕ) → i < n
    → (digit (symbol i) ≡ i) × ((symbol i == pad) ≡ false)
unfolding reads_below
reads zero e i h = absurd (omega arith)
reads (suc n) e i h = ground (arith, reads n (ground arith) i)

digit-symbol : (i : ℕ) → i < 64 → (digit (symbol i) ≡ i) × ((symbol i == pad) ≡ false)
unfolding reads_below digit position symbol
digit-symbol = reads 64 refl

is_digit-symbol : (i : ℕ) → i < 64 → is_digit (symbol i) ≡ true
unfolding is_digit
is_digit-symbol i h = ground (arith, digit-symbol i)

is_digit-pad : is_digit pad ≡ false
unfolding is_digit digit position
is_digit-pad = refl

full-symbols :
    (i0 i1 i2 i3 : ℕ) (bs : Bytes)
    → i0 < 64
    → i1 < 64
    → i2 < 64
    → i3 < 64
    → full (symbol i0) (symbol i1) (symbol i2) (symbol i3) (some bs)
      ≡ some (three (i0 * 2 ^ 18 + i1 * 2 ^ 12 + i2 * 2 ^ 6 + i3) bs)
unfolding full
full-symbols i0 i1 i2 i3 bs h0 h1 h2 h3 = rw (
  is_digit-symbol i0 h0,
  is_digit-symbol i1 h1,
  is_digit-symbol i2 h2,
  is_digit-symbol i3 h3,
  (digit-symbol i0 h0).0,
  (digit-symbol i1 h1).0,
  (digit-symbol i2 h2).0,
  (digit-symbol i3 h3).0,
)

one_byte : (b0 : ℕ) → IsByte b0 → decode (base64 (b0 ∷ [])) ≡ some (b0 ∷ [])
unfolding decode padded base64
one_byte b0 h0 =
    let i0 = b0 * 2 ^ 16 / 2 ^ 18 in
    let i1 = b0 * 2 ^ 16 / 2 ^ 12 % 64 in
    let h : i0 < 64 = omega arith in
    let k : i1 < 64 = omega arith in
    let e : (i0 * 2 ^ 18 + i1 * 2 ^ 12) / 2 ^ 16 ≡ b0 = omega arith in
    rw (is_digit-symbol i0 h, is_digit-symbol i1 k, (digit-symbol i0 h).0, (digit-symbol i1 k).0, e)

two_bytes :
    (b0 b1 : ℕ) → IsByte b0 → IsByte b1 → decode (base64 (b0 ∷ b1 ∷ [])) ≡ some (b0 ∷ b1 ∷ [])
unfolding decode padded base64
two_bytes b0 b1 h0 h1 =
    let n = b0 * 2 ^ 16 + b1 * 2 ^ 8 in
    let i0 = n / 2 ^ 18 in
    let i1 = n / 2 ^ 12 % 64 in
    let i2 = n / 2 ^ 6 % 64 in
    let h : i0 < 64 = omega arith in
    let k : i1 < 64 = omega arith in
    let l : i2 < 64 = omega arith in
    let m = i0 * 2 ^ 18 + i1 * 2 ^ 12 + i2 * 2 ^ 6 in
    let e0 : m / 2 ^ 16 ≡ b0 = omega arith in
    let e1 : m / 2 ^ 8 % 256 ≡ b1 = omega arith in
    rw (
      is_digit-symbol i0 h,
      is_digit-symbol i1 k,
      is_digit-symbol i2 l,
      (digit-symbol i0 h).0,
      (digit-symbol i1 k).0,
      (digit-symbol i2 l).0,
      (digit-symbol i2 l).1,
      e0,
      e1,
    )

three_bytes :
    (b0 b1 b2 : ℕ) (rest : Bytes)
    → IsByte b0
    → IsByte b1
    → IsByte b2
    → decode (base64 rest) ≡ some rest
    → decode (base64 (b0 ∷ b1 ∷ b2 ∷ rest)) ≡ some (b0 ∷ b1 ∷ b2 ∷ rest)
unfolding decode base64
three_bytes b0 b1 b2 rest h0 h1 h2 e =
    let n = b0 * 2 ^ 16 + b1 * 2 ^ 8 + b2 in
    let i0 = n / 2 ^ 18 in
    let i1 = n / 2 ^ 12 % 64 in
    let i2 = n / 2 ^ 6 % 64 in
    let i3 = n % 64 in
    let k : i3 < 64 = omega arith in
    let m : i0 * 2 ^ 18 + i1 * 2 ^ 12 + i2 * 2 ^ 6 + i3 ≡ n = omega arith in
    rw
      (
        (digit-symbol i3 k).1,
        e,
        full-symbols i0 i1 i2 i3 rest (omega arith) (omega arith) (omega arith) k,
        m,
      )
      (three-bytes b0 b1 b2 rest h0 h1 h2)

concat-IsBytes : (chunks : List Bytes) → All IsBytes chunks → IsBytes (concat chunks)
unfolding concat
concat-IsBytes [] h = tt
concat-IsBytes (xs ∷ xss) (h, hs) = All-append xs (concat xss) h (concat-IsBytes xss hs)

decode-base64 : (xs : Bytes) → IsBytes xs → decode (base64 xs) ≡ some xs
decode-base64 [] h = unfold base64 decode in refl
decode-base64 (b0 ∷ []) (h0, _) = one_byte b0 h0
decode-base64 (b0 ∷ b1 ∷ []) (h0, (h1, _)) = two_bytes b0 b1 h0 h1
decode-base64 (b0 ∷ b1 ∷ b2 ∷ rest) (h0, (h1, (h2, h))) =
    three_bytes b0 b1 b2 rest h0 h1 h2 (decode-base64 rest h)

-- A sequence of bytes that goes through the encoder in any chunks is what a base64 decoder reads from the text.
pub decode-encode_chunks :
    (chunks : List Bytes)
    → All IsBytes chunks
    → decode (encode_chunks init chunks) ≡ some (concat chunks)
decode-encode_chunks chunks h =
    rw (encode_chunks-base64 chunks h) (decode-base64 (concat chunks) (concat-IsBytes chunks h))
