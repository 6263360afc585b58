-- ===== src/Tests.antt =====
-- The properties at concrete inputs.
mod Storage
mod Receive
mod Send
mod Link
mod Coding
mod Node
