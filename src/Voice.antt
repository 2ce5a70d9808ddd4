-- ===== src/Voice.antt =====
-- packages/exoclaw-tools-voice, exoclaw_tools_voice/: the encoder of b64.py and the request body of streaming.py. A byte is a
-- number, and a text of ASCII characters is the list of their codes.
pub mod Bits
pub mod Base64
pub mod Body
