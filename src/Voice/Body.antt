-- ===== src/Voice/Body.antt =====
-- `_AudioBodyIter` of streaming.py, which `stream_audio_request_body` builds. `dumps` is json.dumps, whose texts
-- are ASCII; the recorder's iterator is the list of the chunks that it yields until it stops.
pub mod Run
use exoclaw_plugins.Prelude.{
  codes, ℕ, zero, suc, ◌-◌, max, String, List, [], ◌∷◌, ◌++◌, Option, none, some, Bool, true, false,
  length, take, if◌then◌else◌,
}
use exoclaw_plugins.Cron.Codec.{Json, boolean, number, text, object, nil, field}
use exoclaw_plugins.Voice.Base64.{Bytes, init, encode, flush}

-- The arguments of `__init__`. The temperature is whatever number json.dumps is given.
pub record Request : Type 0 where
  pub model : String
  pub user_text : String
  pub audio_format : String
  pub max_tokens : ℕ
  pub temperature : Json

pub data Stage : Type 0 where
  s_head : Stage
  s_prefix : Stage
  s_audio : Stage
  s_flush : Stage
  s_tail : Stage
  s_done : Stage

pub record Body : Type 0 where
  pub request : Request
  pub audio : List Bytes
  pub encoder : Bytes
  pub stage : Stage

unfoldable pub start : Request → List Bytes → Body
start request chunks = record { request = request; audio = chunks; encoder = init; stage = s_head }

unfoldable pub head_of : Request → Json
head_of r = object (
    field "model" (text r.model) (
      field "stream" (boolean true)
        (field "max_tokens" (number (max 1 r.max_tokens)) (field "temperature" r.temperature nil))))

abbrev pub tail : Bytes
tail = codes "\"}}]}]}"

unfoldable pub is_empty : Bytes → Bool
is_empty [] = true
is_empty (_ ∷ _) = false

unfoldable pub next_tail : Body → Option Bytes × Body
next_tail b = (some tail, record b { stage = s_done })

unfoldable pub next_flush : Body → Option Bytes × Body
next_flush b =
    let out = flush b.encoder in
    let rest = record b { encoder = []; stage = s_tail } in
    let last = next_tail rest in if is_empty out then last else (some out, rest)

-- The loop over the recorder, which goes on while a chunk gives no text.
unfoldable pub next_audio : List Bytes → Body → Option Bytes × Body
next_audio [] b = next_flush (record b { audio = []; stage = s_flush })
next_audio (pcm ∷ audio) b =
    let out = (encode b.encoder pcm).0 in
    let rest = record b { audio = audio; encoder = (encode b.encoder pcm).1 } in
    let more = next_audio audio rest in if is_empty out then more else (some out, rest)

module _ (dumps : Json → Bytes) where
  -- `head_json[:-1]` and the splice.
  unfoldable pub head_part : Request → Bytes
  head_part r =
      let head = dumps (head_of r) in take (length head - 1) head ++ codes ",\"messages\":["

  unfoldable pub prefix_part : Request → Bytes
  prefix_part r =
      codes "{\"role\":\"user\",\"content\":["
      ++ (dumps (object (field "type" (text "text") (field "text" (text r.user_text) nil)))
          ++ (codes ",{\"type\":\"input_audio\",\"input_audio\":{\"format\":"
              ++ (dumps (text r.audio_format) ++ codes ",\"data\":\"")))

  -- `__anext__`; none is StopAsyncIteration.
  unfoldable pub anext : Body → Option Bytes × Body
  anext b = elim b.stage [
    | s_head ↦ (some (head_part b.request), record b { stage = s_prefix })
    | s_prefix ↦ (some (prefix_part b.request), record b { stage = s_audio })
    | s_audio ↦ next_audio b.audio b
    | s_flush ↦ next_flush b
    | s_tail ↦ next_tail b
    | s_done ↦ (none, b)
  ]
