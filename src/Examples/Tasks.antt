-- ===== src/Examples/Tasks.antt =====
-- The theorems on the threads of src/task_switching at a concrete kernel, scheduler and harness.
use zephyr_kernel_bm_tuc_hms.Prelude.{◌+◌, ◌*◌, true, false, arith}
use zephyr_kernel_bm_tuc_hms.Itc.Handover.States.{Then}
use zephyr_kernel_bm_tuc_hms.Scenario.Kernel.{documented}
use zephyr_kernel_bm_tuc_hms.Scenario.Program.{tasks}
use zephyr_kernel_bm_tuc_hms.Scenario.Run.{steps}
use zephyr_kernel_bm_tuc_hms.Scenario.Whole.{Completed}
use zephyr_kernel_bm_tuc_hms.EventBlock.Threads.{event_block-Completed}
use zephyr_kernel_bm_tuc_hms.SemBlock.Threads.{sem_block-Completed}
use zephyr_kernel_bm_tuc_hms.EventPreempt.Threads.{event_preempt-Completed}
use zephyr_kernel_bm_tuc_hms.SemPreempt.Threads.{sem_preempt-Completed}
use zephyr_kernel_bm_tuc_hms.EventBlock.Tasks as EventBlockTasks
use zephyr_kernel_bm_tuc_hms.SemBlock.Tasks as SemBlockTasks
use zephyr_kernel_bm_tuc_hms.EventPreempt.Tasks as EventPreemptTasks
use zephyr_kernel_bm_tuc_hms.SemPreempt.Tasks as SemPreemptTasks
use zephyr_kernel_bm_tuc_hms.Examples.Counts.{highest, highest-SchedulerDoc}
use zephyr_kernel_bm_tuc_hms.Examples.Desk.{itself, documented-KernelDoc, desk, dawn, dawn-Booted}

event_block-Completed_example :
    Then
      (λ y'. Completed desk 1 y'.signalled y'.trace)
      (steps
        (λ y'. highest (tasks desk (documented 9) EventBlockTasks.priority y'))
        (13 + (50000 * 12 + (15 + (49999 * 11 + (1 + 6)))))
        (dawn EventBlockTasks.threads))
event_block-Completed_example =
    event_block-Completed desk 9 (documented 9) itself (documented-KernelDoc 9) highest
      highest-SchedulerDoc (dawn EventBlockTasks.threads) (dawn-Booted EventBlockTasks.threads) 6

sem_block-Completed_example :
    Then
      (λ y'. Completed desk 1 y'.signalled y'.trace)
      (steps
        (λ y'. highest (tasks desk (documented 4294967295) SemBlockTasks.priority y'))
        (14 + (50000 * 12 + (15 + (49999 * 12 + (1 + 6)))))
        (dawn SemBlockTasks.threads))
sem_block-Completed_example =
    sem_block-Completed 4294967295 (omega arith) desk (documented 4294967295) itself
      (documented-KernelDoc 4294967295) highest highest-SchedulerDoc (dawn SemBlockTasks.threads)
      (dawn-Booted SemBlockTasks.threads) 6

event_preempt-Completed_example :
    Then
      (λ y'. Completed desk 0 y'.signalled y'.trace)
      (steps
        (λ y'. highest (tasks desk (documented 9) EventPreemptTasks.priority y'))
        (15 + (49999 * 12 + (22 + (49999 * 13 + (3 + 6)))))
        (dawn (EventPreemptTasks.threads false)))
event_preempt-Completed_example =
    event_preempt-Completed false desk 9 (documented 9) itself (documented-KernelDoc 9) highest
      highest-SchedulerDoc (dawn (EventPreemptTasks.threads false))
      (dawn-Booted (EventPreemptTasks.threads false)) 6

sem_preempt-Completed_example :
    Then
      (λ y'. Completed desk 0 y'.signalled y'.trace)
      (steps
        (λ y'. highest (tasks desk (documented 4294967295) SemPreemptTasks.priority y'))
        (16 + (49999 * 12 + (9 + (50000 * 12 + (3 + 6)))))
        (dawn (SemPreemptTasks.threads true)))
sem_preempt-Completed_example =
    sem_preempt-Completed 4294967295 (omega arith) true desk (documented 4294967295) itself
      (documented-KernelDoc 4294967295) highest highest-SchedulerDoc
      (dawn (SemPreemptTasks.threads true)) (dawn-Booted (SemPreemptTasks.threads true)) 6
