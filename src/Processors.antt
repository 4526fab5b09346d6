-- ===== src/Processors.antt =====
-- src/processors: what an instruction of either program does to the shared state. The pipeline
-- hands instructions to the processors one at a time, so each is a function on that state.
pub mod World
pub mod Pumpfun
pub mod PumpSwap
pub mod Typed
