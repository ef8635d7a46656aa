-- ===== src/Examples/Main.antt =====
-- The theorems on main() at concrete states.
use zephyr_kernel_bm_tuc_hms.Prelude.{refl}
use zephyr_kernel_bm_tuc_hms.Sim.Machine.{Ensures}
use zephyr_kernel_bm_tuc_hms.Sim.Main.{Prepared, fed_by_probes}
use zephyr_kernel_bm_tuc_hms.EventBlock
use zephyr_kernel_bm_tuc_hms.EventBlock.Main.{event_block_main-Prepared}
use zephyr_kernel_bm_tuc_hms.SemBlock
use zephyr_kernel_bm_tuc_hms.SemBlock.Main.{sem_block_main-Prepared}
use zephyr_kernel_bm_tuc_hms.EventPreempt
use zephyr_kernel_bm_tuc_hms.EventPreempt.Main.{event_preempt_main-Prepared}
use zephyr_kernel_bm_tuc_hms.SemPreempt
use zephyr_kernel_bm_tuc_hms.SemPreempt.Main.{sem_preempt_main-Prepared}
use zephyr_kernel_bm_tuc_hms.TaskPreempt
use zephyr_kernel_bm_tuc_hms.TaskPreempt.Main.{task_preempt_main-Prepared}
use zephyr_kernel_bm_tuc_hms.Examples.Board.{
  board, board-KernelDoc, boot, event_file, sem_file, task_file, null-current,
}

event_block_main-Prepared_example :
    Ensures
      (λ _ w'. Prepared (fed_by_probes 2 3 4 50000) w')
      (EventBlock.Main.main board (boot event_file))
event_block_main-Prepared_example =
    event_block_main-Prepared board board-KernelDoc (λ _. refl) (boot event_file) refl null-current

sem_block_main-Prepared_example :
    Ensures
      (λ _ w'. Prepared (fed_by_probes 2 3 4 50000) w')
      (SemBlock.Main.main board (boot sem_file))
sem_block_main-Prepared_example =
    sem_block_main-Prepared board board-KernelDoc (λ _. refl) (boot sem_file) refl refl null-current

event_preempt_main-Prepared_example :
    Ensures
      (λ _ w'. Prepared (fed_by_probes 2 3 4 50000) w')
      (EventPreempt.Main.main board (boot event_file))
event_preempt_main-Prepared_example =
    event_preempt_main-Prepared board board-KernelDoc (boot event_file) refl

sem_preempt_main-Prepared_example :
    Ensures
      (λ _ w'. Prepared (fed_by_probes 4 3 2 50000) w')
      (SemPreempt.Main.main board 1 (boot sem_file))
sem_preempt_main-Prepared_example =
    sem_preempt_main-Prepared board board-KernelDoc 1 (boot sem_file) refl

task_preempt_main-Prepared_example :
    Ensures
      (λ _ w'. Prepared (fed_by_probes 2 3 4 50000) w')
      (TaskPreempt.Main.main board (boot task_file))
task_preempt_main-Prepared_example = task_preempt_main-Prepared board (boot task_file) refl
