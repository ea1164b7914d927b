-- ===== src/Diloco.antt =====
-- diloco: distributed training. `Outer` is the outer step, `Barrier` the round that the workers meet in, `Worker` a worker.
pub mod Barrier
pub mod Outer
pub mod Worker
