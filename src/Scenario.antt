-- ===== src/Scenario.antt =====
-- The scenario threads of src/task_switching: programs of calls, run by a kernel and a scheduler that
-- are left open.
pub mod Kernel
pub mod Doc
pub mod Program
pub mod Run
pub mod Refine
pub mod Tally
pub mod Rounds
pub mod Whole
pub mod Complete
pub mod Sweep
pub mod Measured
pub mod Guarded
pub mod GuardedWhole
pub mod TwoStops
