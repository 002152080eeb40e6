-- ===== src/Kernel.antt =====
-- packages/shared-kernel: the result type and the gate against repeated guessing.
pub mod Result
pub mod BruteForce
