-- ===== src/Tests.antt =====
-- The theorems at concrete inputs, and small runs of the definitions.
mod Loops
mod Voices
mod Reductions
mod Conversations
mod Sessions
mod Batches
mod Budgets
mod Crons
mod Documents
mod Screens
