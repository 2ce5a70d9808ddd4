-- ===== src/Voice/Base64.antt =====
-- `B64StreamEncoder` of b64.py. The state is the carry alone; `encode` and `flush` answer the text and
-- the carry that they leave.
pub mod Chunks
pub mod Decode
use Prim.Native.Nat.{bit_and, bit_or}
use exoclaw_plugins.Prelude.{
  ℕ, zero, suc, ◌+◌, ◌*◌, ◌/◌, ◌<◌, List, [], ◌∷◌, ◌++◌, Option, none, some, length, codes, take,
  drop, get_elem?, All,
}

abbrev pub Bytes : Type 0
Bytes = List ℕ

abbrev pub IsByte : ℕ → Type 0
IsByte b = b < 256

abbrev pub IsBytes : Bytes → Type 0
IsBytes = All IsByte

abbrev pub alphabet : Bytes
alphabet = codes "ABCDEFGHIJKLMNOPQRSTUVWXYZabcdefghijklmnopqrstuvwxyz0123456789+/"

-- `_ALPHABET[i]`; no byte makes an index past the end, where the code would raise.
unfoldable pub symbol : ℕ → ℕ
symbol i = elim (get_elem? alphabet i) [ none ↦ 0 | some c ↦ c ]

unfoldable pub encode_full : Bytes → Bytes
encode_full (b0 ∷ b1 ∷ b2 ∷ rest) =
    symbol (b0 / 4)
    ∷ symbol (bit_or (bit_and b0 3 * 16) (b1 / 16))
    ∷ symbol (bit_or (bit_and b1 15 * 4) (b2 / 64))
    ∷ symbol (bit_and b2 63)
    ∷ encode_full rest
encode_full _ = []

abbrev pub init : Bytes
init = []

unfoldable pub encode : Bytes → Bytes → Bytes × Bytes
encode carry [] = ([], carry)
encode carry (b ∷ chunk) =
    let buffer = carry ++ (b ∷ chunk) in
    let full = length buffer / 3 * 3 in (encode_full (take full buffer), drop full buffer)

abbrev pub pad : ℕ
pad = b'='

-- After it the carry is empty. The third case is a carry of two bytes.
unfoldable pub flush : Bytes → Bytes
flush [] = []
flush (b0 ∷ []) = symbol (b0 / 4) ∷ symbol (bit_and b0 3 * 16) ∷ pad ∷ pad ∷ []
flush (b0 ∷ b1 ∷ _) =
    symbol (b0 / 4)
    ∷ symbol (bit_or (bit_and b0 3 * 16) (b1 / 16))
    ∷ symbol (bit_and b1 15 * 4)
    ∷ pad
    ∷ []

-- `encode` on each chunk, then `flush`, as the class says that it is used.
unfoldable pub encode_chunks : Bytes → List Bytes → Bytes
encode_chunks carry [] = flush carry
encode_chunks carry (chunk ∷ chunks) =
    let (out, rest) = encode carry chunk in out ++ encode_chunks rest chunks
