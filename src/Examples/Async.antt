-- ===== src/Examples/Async.antt =====
-- The theorems on the asynchronous tests of src/itc/pipe and src/itc/mailbox at a concrete state.
use zephyr_kernel_bm_tuc_hms.Prelude.{◌+◌, ◌*◌, suc, []}
use zephyr_kernel_bm_tuc_hms.Itc.Handover.States.{Then}
use zephyr_kernel_bm_tuc_hms.Scenario.Kernel.{documented}
use zephyr_kernel_bm_tuc_hms.Scenario.Program.{tasks}
use zephyr_kernel_bm_tuc_hms.Scenario.Run.{steps}
use zephyr_kernel_bm_tuc_hms.Itc.Sync.{sync_priority}
use zephyr_kernel_bm_tuc_hms.Itc.Async.Outcome.{AsyncCompleted}
use zephyr_kernel_bm_tuc_hms.Itc.PipeAsync.Start as PipeAsync
use zephyr_kernel_bm_tuc_hms.Itc.PipeAsync.Whole.{pipe_async-AsyncCompleted}
use zephyr_kernel_bm_tuc_hms.Itc.MailboxAsync.Start as MailboxAsync
use zephyr_kernel_bm_tuc_hms.Itc.MailboxAsync.Whole.{mailbox_async-AsyncCompleted}
use zephyr_kernel_bm_tuc_hms.Examples.Counts.{highest, highest-SchedulerDoc}
use zephyr_kernel_bm_tuc_hms.Examples.Desk.{itself, documented-KernelDoc, desk}
use zephyr_kernel_bm_tuc_hms.Examples.Sync.{at_launch, at_launch-Launched}

pipe_async-AsyncCompleted_example :
    Then
      (λ y'. AsyncCompleted desk [] y'.signalled y'.trace)
      (steps
        (λ y'. highest (tasks desk (documented 1) sync_priority y'))
        (10
          + (9 * (1 + 50000 * 8)
              + suc
                  (11 + (9 * (1 + 50000 * 13) + suc (15 + (9 * (1 + 50000 * 13) + suc (33 + 5)))))))
        (at_launch PipeAsync.i_task_from_start PipeAsync.functions))
pipe_async-AsyncCompleted_example =
    pipe_async-AsyncCompleted desk 1 (documented 1) itself (documented-KernelDoc 1) highest
      highest-SchedulerDoc (at_launch PipeAsync.i_task_from_start PipeAsync.functions)
      (at_launch-Launched PipeAsync.i_task_from_start PipeAsync.functions) 5

mailbox_async-AsyncCompleted_example :
    Then
      (λ y'. AsyncCompleted desk [] y'.signalled y'.trace)
      (steps
        (λ y'. highest (tasks desk (documented 1) sync_priority y'))
        (11
          + (9 * (1 + 50000 * 9)
              + suc
                  (13 + (9 * (1 + 50000 * 13) + suc (17 + (9 * (1 + 50000 * 13) + suc (34 + 5)))))))
        (at_launch MailboxAsync.i_task_from_start MailboxAsync.functions))
mailbox_async-AsyncCompleted_example =
    mailbox_async-AsyncCompleted desk 1 (documented 1) itself (documented-KernelDoc 1) highest
      highest-SchedulerDoc (at_launch MailboxAsync.i_task_from_start MailboxAsync.functions)
      (at_launch-Launched MailboxAsync.i_task_from_start MailboxAsync.functions) 5
