-- ===== src/Examples/Sync.antt =====
-- The theorems on the synchronous tests of src/itc/pipe and src/itc/mailbox at a concrete state.
use zephyr_kernel_bm_tuc_hms.Prelude.{ℕ, ◌+◌, ◌*◌, suc, refl, arith, []}
use zephyr_kernel_bm_tuc_hms.Itc.Handover.States.{Then}
use zephyr_kernel_bm_tuc_hms.Scenario.Kernel.{View, documented}
use zephyr_kernel_bm_tuc_hms.Scenario.Program.{Program, System, tasks}
use zephyr_kernel_bm_tuc_hms.Scenario.Run.{steps}
use zephyr_kernel_bm_tuc_hms.Itc.Sync.{sync_priority}
use zephyr_kernel_bm_tuc_hms.Itc.Sync.Course.{launch, Launched, SyncCompleted}
use zephyr_kernel_bm_tuc_hms.Itc.PipeSync as PipeSync
use zephyr_kernel_bm_tuc_hms.Itc.PipeSync.Whole.{pipe_sync-SyncCompleted}
use zephyr_kernel_bm_tuc_hms.Itc.MailboxSync as MailboxSync
use zephyr_kernel_bm_tuc_hms.Itc.MailboxSync.Whole.{mailbox_sync-SyncCompleted}
use zephyr_kernel_bm_tuc_hms.Examples.Counts.{highest, highest-SchedulerDoc}
use zephyr_kernel_bm_tuc_hms.Examples.Desk.{itself, documented-KernelDoc, desk, unseen}

abbrev pub at_launch : Program → (ℕ → Program) → System View
at_launch p functions = launch p functions 0 unseen

pub at_launch-Launched :
    (p : Program) (functions : ℕ → Program) → Launched itself p functions (at_launch p functions)
at_launch-Launched p functions = record {
  nobody_waits = refl;
  none_1 = refl;
  none_2 = refl;
  none_3 = refl;
  none_4 = refl;
  idle_ready = refl;
  of_programs = refl;
  of_functions = refl;
  no_signal = refl;
}

pipe_sync-SyncCompleted_example :
    Then
      (λ y'. SyncCompleted desk [] y'.signalled y'.trace)
      (steps
        (λ y'. highest (tasks desk (documented 1) sync_priority y'))
        (13 + (9 * (1 + 50000 * 18) + suc (16 + (9 * (1 + 50000 * 18) + suc (42 + 5)))))
        (at_launch PipeSync.i_task PipeSync.functions))
pipe_sync-SyncCompleted_example =
    pipe_sync-SyncCompleted desk 1 (documented 1) itself (documented-KernelDoc 1) highest
      highest-SchedulerDoc (λ s ms. omega arith) (at_launch PipeSync.i_task PipeSync.functions)
      (at_launch-Launched PipeSync.i_task PipeSync.functions) 5

mailbox_sync-SyncCompleted_example :
    Then
      (λ y'. SyncCompleted desk [] y'.signalled y'.trace)
      (steps
        (λ y'. highest (tasks desk (documented 1) sync_priority y'))
        (15 + (9 * (1 + 50000 * 18) + suc (17 + (9 * (1 + 50000 * 18) + suc (42 + 5)))))
        (at_launch MailboxSync.i_task MailboxSync.functions))
mailbox_sync-SyncCompleted_example =
    mailbox_sync-SyncCompleted desk 1 (documented 1) itself (documented-KernelDoc 1) highest
      highest-SchedulerDoc (λ s ms. omega arith)
      (at_launch MailboxSync.i_task MailboxSync.functions)
      (at_launch-Launched MailboxSync.i_task MailboxSync.functions) 5
