-- ===== src/Voice/Base64/Chunks.antt =====
-- What the encoder writes for a sequence of chunks is the encoding of the bytes that they make together.
use Prim.Native.Nat.{bit_and, bit_or}
use exoclaw_plugins.Prelude.{
  ℕ, zero, suc, ◌+◌, ◌*◌, ◌/◌, ◌%◌, ◌^◌, ◌<◌, ◌≡◌, refl, ◌∙◌, List, [], ◌∷◌, ◌++◌, append-nil,
  append_assoc, arith, length, take, drop, All, length-drop,
}
use exoclaw_plugins.Voice.Bits.{low_two, low_four, low_six, join_four, join_two}
use exoclaw_plugins.Voice.Base64.{
  Bytes, IsByte, IsBytes, symbol, encode_full, encode, pad, flush, encode_chunks, init,
}

-- RFC 4648: three bytes are a number of 24 bits, in four digits to the base 64; a last group of one or
-- two bytes is completed by zero bits, and the digits without any bit of it are `=`.
unfoldable pub base64 : Bytes → Bytes
base64 [] = []
base64 (b0 ∷ []) =
    let n = b0 * 2 ^ 16 in symbol (n / 2 ^ 18) ∷ symbol (n / 2 ^ 12 % 64) ∷ pad ∷ pad ∷ []
base64 (b0 ∷ b1 ∷ []) =
    let n = b0 * 2 ^ 16 + b1 * 2 ^ 8 in
    symbol (n / 2 ^ 18) ∷ symbol (n / 2 ^ 12 % 64) ∷ symbol (n / 2 ^ 6 % 64) ∷ pad ∷ []
base64 (b0 ∷ b1 ∷ b2 ∷ rest) =
    let n = b0 * 2 ^ 16 + b1 * 2 ^ 8 + b2 in
    symbol (n / 2 ^ 18)
    ∷ symbol (n / 2 ^ 12 % 64)
    ∷ symbol (n / 2 ^ 6 % 64)
    ∷ symbol (n % 64)
    ∷ base64 rest

second :
    (b0 b1 : ℕ)
    → IsByte b0
    → IsByte b1
    → bit_or (bit_and b0 3 * 16) (b1 / 16) ≡ b0 % 4 * 16 + b1 / 16
second b0 b1 h0 h1 = rw (low_two b0 h0) (join_four (b0 % 4) (b1 / 16) (omega arith) (omega arith))

third :
    (b1 b2 : ℕ)
    → IsByte b1
    → IsByte b2
    → bit_or (bit_and b1 15 * 4) (b2 / 64) ≡ b1 % 16 * 4 + b2 / 64
third b1 b2 h1 h2 = rw (low_four b1 h1) (join_two (b1 % 16) (b2 / 64) (omega arith) (omega arith))

-- The four digits of three bytes.
group :
    (b0 b1 b2 : ℕ)
    → IsByte b0
    → IsByte b1
    → IsByte b2
    → let n = b0 * 2 ^ 16 + b1 * 2 ^ 8 + b2 in
      (b0 / 4 ≡ n / 2 ^ 18)
      × (bit_or (bit_and b0 3 * 16) (b1 / 16) ≡ n / 2 ^ 12 % 64)
      × (bit_or (bit_and b1 15 * 4) (b2 / 64) ≡ n / 2 ^ 6 % 64)
      × (bit_and b2 63 ≡ n % 64)
group b0 b1 b2 h0 h1 h2 = (
  omega arith,
  second b0 b1 h0 h1 ∙ (omega arith),
  third b1 b2 h1 h2 ∙ (omega arith),
  low_six b2 h2 ∙ (omega arith),
)

base64-group :
    (b0 b1 b2 : ℕ) (rest : Bytes)
    → IsByte b0
    → IsByte b1
    → IsByte b2
    → encode_full (b0 ∷ b1 ∷ b2 ∷ []) ++ base64 rest ≡ base64 (b0 ∷ b1 ∷ b2 ∷ rest)
unfolding base64 encode_full
base64-group b0 b1 b2 rest h0 h1 h2 =
    let (d0, d1, d2, d3) = group b0 b1 b2 h0 h1 h2 in rw (d0, d1, d2, d3)

abbrev whole : Bytes → ℕ
whole xs = length xs / 3 * 3

whole_three :
    (b0 b1 b2 : ℕ) (rest : Bytes) → whole (b0 ∷ b1 ∷ b2 ∷ rest) ≡ suc (suc (suc (whole rest)))
whole_three b0 b1 b2 rest = omega arith

-- The whole groups can be encoded ahead of the rest.
base64-split :
    (xs ys : Bytes)
    → IsBytes xs
    → encode_full (take (whole xs) xs) ++ base64 (drop (whole xs) xs ++ ys) ≡ base64 (xs ++ ys)
unfolding encode_full
base64-split [] ys h = refl
base64-split (b0 ∷ []) ys h = refl
base64-split (b0 ∷ b1 ∷ []) ys h = refl
base64-split (b0 ∷ b1 ∷ b2 ∷ rest) ys (h0, (h1, (h2, hs))) =
    rw (whole_three b0 b1 b2 rest, base64-split rest ys hs)
      (base64-group b0 b1 b2 (rest ++ ys) h0 h1 h2)

flush-base64 : (carry : Bytes) → IsBytes carry → length carry < 3 → flush carry ≡ base64 carry
unfolding flush base64
flush-base64 [] h l = refl
flush-base64 (b0 ∷ []) (h0, _) l =
    let d0 : b0 / 4 ≡ b0 * 2 ^ 16 / 2 ^ 18 = omega arith in
    let d1 : b0 % 4 * 16 ≡ b0 * 2 ^ 16 / 2 ^ 12 % 64 = omega arith in rw (low_two b0 h0, d0, d1)
flush-base64 (b0 ∷ b1 ∷ []) (h0, (h1, _)) l =
    let n = b0 * 2 ^ 16 + b1 * 2 ^ 8 in
    let d0 : b0 / 4 ≡ n / 2 ^ 18 = omega arith in
    let d1 : b0 % 4 * 16 + b1 / 16 ≡ n / 2 ^ 12 % 64 = omega arith in
    let d2 : b1 % 16 * 4 ≡ n / 2 ^ 6 % 64 = omega arith in
    rw (second b0 b1 h0 h1, low_four b1 h1, d0, d1, d2)
flush-base64 (b0 ∷ b1 ∷ b2 ∷ rest) h l = absurd (omega arith)

unfoldable pub concat : List Bytes → Bytes
concat [] = []
concat (xs ∷ xss) = xs ++ concat xss

-- What a carry may be.
abbrev pub IsCarry : Bytes → Type 0
IsCarry carry = IsBytes carry × (length carry < 3)

pub All-append : (xs ys : Bytes) → IsBytes xs → IsBytes ys → IsBytes (xs ++ ys)
All-append [] ys hx hy = hy
All-append (x ∷ xs) ys (px, hx) hy = (px, All-append xs ys hx hy)

All-drop : (n : ℕ) (xs : Bytes) → IsBytes xs → IsBytes (drop n xs)
All-drop zero xs h = h
All-drop (suc n) [] h = tt
All-drop (suc n) (x ∷ xs) (_, h) = All-drop n xs h

-- The carry stays below three bytes.
pub encode-IsCarry :
    (carry chunk : Bytes) → IsCarry carry → IsBytes chunk → IsCarry (encode carry chunk).1
unfolding encode
encode-IsCarry carry [] h hs = h
encode-IsCarry carry (b ∷ chunk) (h, l) hs =
    let xs = carry ++ b ∷ chunk in
    (
      All-drop (whole xs) xs (All-append carry (b ∷ chunk) h hs),
      omega (arith, length-drop (whole xs) xs),
    )

encode-base64 :
    (carry chunk ys : Bytes)
    → IsCarry carry
    → IsBytes chunk
    → (encode carry chunk).0 ++ base64 ((encode carry chunk).1 ++ ys)
      ≡ base64 (carry ++ (chunk ++ ys))
unfolding encode
encode-base64 carry [] ys h hs = refl
encode-base64 carry (b ∷ chunk) ys (h, l) hs =
    base64-split (carry ++ b ∷ chunk) ys (All-append carry (b ∷ chunk) h hs)
    ∙ rw (append_assoc carry (b ∷ chunk) ys)

chunks-base64 :
    (carry : Bytes) (chunks : List Bytes)
    → IsCarry carry
    → All IsBytes chunks
    → encode_chunks carry chunks ≡ base64 (carry ++ concat chunks)
unfolding encode_chunks concat
chunks-base64 carry [] (h, l) hs = rw (append-nil, flush-base64 carry h l)
chunks-base64 carry (chunk ∷ chunks) h (hc, hs) = rw (
  chunks-base64 (encode carry chunk).1 chunks (encode-IsCarry carry chunk h hc) hs,
  encode-base64 carry chunk (concat chunks) h hc,
)

-- However a sequence of bytes is cut into chunks, empty ones included, what encode answers for them in turn and flush at
-- the end make together is the base64 encoding of the sequence.
pub encode_chunks-base64 :
    (chunks : List Bytes) → All IsBytes chunks → encode_chunks init chunks ≡ base64 (concat chunks)
encode_chunks-base64 chunks h = chunks-base64 [] chunks (tt, omega arith) h
