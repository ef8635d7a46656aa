-- ===== src/TaskChange.antt =====
-- src/task_switching/task_change/time_task_switch.c: threads of one priority that pass the processor on by
-- k_yield().
pub mod Ready
pub mod Tasks
pub mod Refine
pub mod States
pub mod Pool
pub mod Turns
pub mod Counts
pub mod Loops
pub mod Whole
pub mod Reversed
