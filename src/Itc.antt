-- ===== src/Itc.antt =====
-- The inter-thread communication benchmarks, src/itc.
pub mod Kernel
pub mod Handover
pub mod Fifo
pub mod Lifo
pub mod Stack
pub mod Msgq
pub mod Outliers
pub mod Self
pub mod Async
pub mod PipeAsync
pub mod Sync
pub mod PipeSync
pub mod MailboxSync
pub mod MailboxAsync
