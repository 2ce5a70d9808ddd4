-- ===== src/Tests/Voices.antt =====
-- The voice encoder and the request body at small recordings.
use exoclaw_plugins.Prelude.{codes, ◌≡◌, refl, ◌++◌, List, [], ◌∷◌, some, arith, All}
use exoclaw_plugins.Cron.Codec.{Json, text, number}
use exoclaw_plugins.Voice.Base64.{
  Bytes, IsBytes, symbol, init, encode_full, encode, flush, encode_chunks,
}
use exoclaw_plugins.Voice.Base64.Chunks.{base64, concat}
use exoclaw_plugins.Voice.Base64.Decode.{decode, decode-encode_chunks}
use exoclaw_plugins.Voice.Body.{
  Request, head_of, is_empty, next_tail, next_flush, next_audio, head_part, prefix_part, anext,
  start, tail,
}
use exoclaw_plugins.Voice.Body.Run.{collect, collect-start}

-- "Man", cut between its second and its third byte, then "y" after an empty chunk.
abbrev chunks : List Bytes
chunks = codes "Ma" ∷ codes "n" ∷ [] ∷ codes "y" ∷ []

bytes : All IsBytes chunks
bytes = omega arith

man_y : encode_chunks init chunks ≡ codes "TWFueQ=="
unfolding encode_chunks encode encode_full flush symbol
man_y = refl

decode-encode_chunks_example : decode (encode_chunks init chunks) ≡ some (concat chunks)
decode-encode_chunks_example = decode-encode_chunks chunks bytes

-- A printer of texts, and of nothing else.
abbrev dumps : Json → Bytes
dumps (text s) = codes "\"" ++ (codes s ++ codes "\"")
dumps _ = codes "{}"

abbrev request : Request
request = record {
  model = "gpt-audio";
  user_text = "hi";
  audio_format = "wav";
  max_tokens = 0;
  temperature = number 1;
}

-- The first chunk makes no text, so the third part is that of the second one.
parts : List Bytes
parts =
    codes "{,\"messages\":["
    ∷ codes
        "{\"role\":\"user\",\"content\":[{},{\"type\":\"input_audio\",\"input_audio\":{\"format\":\"wav\",\"data\":\""
    ∷ codes "TWFu"
    ∷ codes "eQ=="
    ∷ codes "\"}}]}]}"
    ∷ []

run : collect dumps 6 (start request chunks) ≡ some parts
unfolding collect anext next_audio next_flush next_tail is_empty start head_of head_part prefix_part
    encode encode_full flush symbol parts
run = refl

collect-start_example :
    (ps : List Bytes) × (collect dumps 9 (start request chunks) ≡ some ps)
    × (concat ps
        ≡ head_part dumps request
          ++ (prefix_part dumps request ++ (base64 (concat chunks) ++ tail)))
collect-start_example = collect-start dumps request chunks 9 bytes (omega arith)
