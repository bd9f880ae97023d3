-- ===== src/Tests.antt =====
-- Concrete parameters, small runs, and the theorems at concrete inputs.
mod Codec
mod Frames
mod State
mod Store
mod Log
mod Crash
mod Damage
