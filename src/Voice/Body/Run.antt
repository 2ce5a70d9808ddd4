-- ===== src/Voice/Body/Run.antt =====
-- What a caller of the body gets that iterates it to its end.
use exoclaw_plugins.Prelude.{
  ℕ, zero, suc, ◌+◌, ◌≤◌, ◌≡◌, refl, sym, ◌∙◌, ap, List, [], ◌∷◌, ◌++◌, append_assoc, Option, none,
  some, inl, inr, true, Bool-cases, if◌then◌else◌, arith, length, All,
}
use exoclaw_plugins.Cron.Codec.{Json}
use exoclaw_plugins.Voice.Base64.{Bytes, IsBytes, init, encode, flush, encode_chunks}
use exoclaw_plugins.Voice.Base64.Chunks.{base64, concat, encode_chunks-base64}
use exoclaw_plugins.Voice.Body.{
  Request, Body, s_prefix, s_audio, s_tail, start, tail, is_empty, next_tail, next_flush,
  next_audio, head_part, prefix_part, anext,
}

abbrev cons : Bytes → Option (List Bytes) → Option (List Bytes)
cons x none = none
cons x (some xs) = some (x ∷ xs)

-- `async for`, with at most so many calls of `__anext__`; none if the iterator has not stopped by then.
unfoldable pub collect : (Json → Bytes) → ℕ → Body → Option (List Bytes)
collect dumps zero b = none
collect dumps (suc f) b =
    let more = collect dumps f (anext dumps b).1 in
    elim (anext dumps b).0 [ none ↦ some [] | some x ↦ cons x more ]

module _ (dumps : Json → Bytes) (request : Request) where
  abbrev recording : List Bytes → Bytes → Body
  recording audio carry = record {
    request = request;
    audio = audio;
    encoder = carry;
    stage = s_audio;
  }

  abbrev Yields : ℕ → Body → Bytes → Type 0
  Yields f b out = (parts : List Bytes) × (collect dumps f b ≡ some parts) × (concat parts ≡ out)

  abbrev finishing : Body
  finishing = record { request = request; audio = []; encoder = []; stage = s_tail }

  tail-Yields : (f : ℕ) → Yields (suc (suc f)) finishing tail
  unfolding collect anext next_tail concat
  tail-Yields f = (tail ∷ [], refl, refl)

  abbrev after : ℕ → Option Bytes × Body → Option (List Bytes)
  after f r = elim r.0 [ none ↦ some [] | some x ↦ cons x (collect dumps f r.1) ]

  collect_same :
      (f : ℕ) (b c : Body)
      → anext dumps b ≡ anext dumps c
      → collect dumps (suc f) b ≡ collect dumps (suc f) c
  unfolding collect
  collect_same f b c e = ap (after f) e

  collect_part :
      (f : ℕ) (b c : Body) (x : Bytes)
      → anext dumps b ≡ (some x, c)
      → collect dumps (suc f) b ≡ cons x (collect dumps f c)
  unfolding collect
  collect_part f b c x e = ap (after f) e

  part-Yields :
      (f : ℕ) (b c : Body) (x out : Bytes)
      → anext dumps b ≡ (some x, c)
      → Yields f c out
      → Yields (suc f) b (x ++ out)
  unfolding concat
  part-Yields f b c x out e (parts, y, h) =
      (x ∷ parts, collect_part f b c x e ∙ ap (cons x) y, ap (λ t. x ++ t) h)

  audio_step :
      (pcm carry : Bytes) (audio : List Bytes)
      → let out = (encode carry pcm).0 in
        let rest = recording audio (encode carry pcm).1 in
        anext dumps (recording (pcm ∷ audio) carry)
        ≡ (if is_empty out then anext dumps rest else (some out, rest))
  unfolding anext next_audio
  audio_step pcm carry audio = refl

  flush_step :
      (carry : Bytes)
      → anext dumps (recording [] carry) ≡ (
          if is_empty (flush carry) then anext dumps finishing else (some (flush carry), finishing))
  unfolding anext next_audio next_flush
  flush_step carry = refl

  empty-nil : (xs : Bytes) → is_empty xs ≡ true → xs ≡ []
  unfolding is_empty
  empty-nil [] e = refl
  empty-nil (x ∷ xs) e = absurd (cc)

  flush-Yields :
      (f : ℕ) (carry : Bytes)
      → Yields (suc (suc (suc f))) (recording [] carry) (flush carry ++ tail)
  flush-Yields f carry = elim (Bool-cases (is_empty (flush carry))) [
    | inl e ↦
        let (parts, y, h) = tail-Yields (suc f) in
        (
          parts,
          collect_same (suc (suc f)) (recording [] carry) finishing (flush_step carry ∙ rw e) ∙ y,
          rw (empty-nil (flush carry) e) h,
        )
    | inr e ↦
        part-Yields (suc (suc f)) _ finishing (flush carry) tail (flush_step carry ∙ rw e)
          (tail-Yields f)
  ]

  -- The audio stage, which may skip chunks, stops before its calls run out.
  audio-Yields :
      (audio : List Bytes) (carry : Bytes) (f : ℕ)
      → length audio + 3 ≤ f
      → Yields f (recording audio carry) (encode_chunks carry audio ++ tail)
  unfolding encode_chunks
  audio-Yields [] carry (suc (suc (suc f))) h = flush-Yields f carry
  audio-Yields (pcm ∷ audio) carry (suc f) h = elim (Bool-cases (is_empty (encode carry pcm).0)) [
    | inl e ↦
        let (parts, y, k) = audio-Yields audio (encode carry pcm).1 (suc f) (omega arith) in
        (
          parts,
          collect_same f (recording (pcm ∷ audio) carry) (recording audio (encode carry pcm).1)
                (audio_step pcm carry audio ∙ rw e)
              ∙ y,
          k ∙ rw (empty-nil (encode carry pcm).0 e),
        )
    | inr e ↦ rw (append_assoc (encode carry pcm).0) (
        part-Yields f _ (recording audio (encode carry pcm).1) (encode carry pcm).0 _
          (audio_step pcm carry audio ∙ rw e)
          (audio-Yields audio (encode carry pcm).1 f (omega arith)))
  ]
  audio-Yields audio carry f h = absurd (omega arith)

  head_step :
      (chunks : List Bytes)
      → anext dumps (start request chunks)
        ≡ (some (head_part dumps request), record (recording chunks init) { stage = s_prefix })
  unfolding anext start
  head_step chunks = refl

  prefix_step :
      (chunks : List Bytes)
      → anext dumps (record (recording chunks init) { stage = s_prefix })
        ≡ (some (prefix_part dumps request), recording chunks init)
  unfolding anext
  prefix_step chunks = refl

  -- A body over a recorder that stops gives, within as many calls as it has chunks and five more, parts
  -- that together are the head, the prefix, the base64 encoding of all recorded bytes and the tail, and
  -- then it has stopped.
  pub collect-start :
      (chunks : List Bytes) (f : ℕ)
      → All IsBytes chunks
      → length chunks + 5 ≤ f
      → (parts : List Bytes) × (collect dumps f (start request chunks) ≡ some parts)
        × (concat parts
            ≡ head_part dumps request
              ++ (prefix_part dumps request ++ (base64 (concat chunks) ++ tail)))
  collect-start chunks (suc (suc f)) h k = rw (sym (encode_chunks-base64 chunks h)) (
      part-Yields (suc f) _ _ (head_part dumps request) _ (head_step chunks) (
        part-Yields f _ _ (prefix_part dumps request) _ (prefix_step chunks)
          (audio-Yields chunks init f (omega arith))))
  collect-start chunks f h k = absurd (omega arith)
