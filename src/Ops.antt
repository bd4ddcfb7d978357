-- ===== src/Ops.antt =====
-- src/lib/ops: the operations, their life cycle and their undo stack.
pub mod Operation
pub mod Undo
pub mod Runner
pub mod Preflight
pub mod Observed
pub mod Relink
pub mod Move
pub mod Trim
pub mod Compact
pub mod Usage
