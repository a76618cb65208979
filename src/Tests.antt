-- ===== src/Tests.antt =====
-- The theorems at concrete inputs, and runs of the definitions.
mod Scene
mod Model
mod Client
mod Requests
mod Stream
mod Async
mod Pk
