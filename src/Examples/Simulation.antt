-- ===== src/Examples/Simulation.antt =====
-- Each theorem of the simulated kernel at a concrete state.
use zephyr_kernel_bm_tuc_hms.Prelude.{◌≡◌, refl, arith, true, false, pos, neg, to_u32}
use zephyr_kernel_bm_tuc_hms.Sim.Machine.{sched_spinlock, event_lock, Ensures}
use zephyr_kernel_bm_tuc_hms.Sim.Probe.{after, Measured}
use zephyr_kernel_bm_tuc_hms.Sim.Event.{
  sim_guard, wait_tail, sim_k_event_wait_internal, sim_k_event_wait_internal_tail,
}
use zephyr_kernel_bm_tuc_hms.Sim.Event.Laws.{waited}
use zephyr_kernel_bm_tuc_hms.Sim.Event.Halves.{answer, or_else, request, wait_halves}
use zephyr_kernel_bm_tuc_hms.Sim.Kernel.{event_queue, sim_z_pend_curr_prologue}
use zephyr_kernel_bm_tuc_hms.Sim.Kernel.Locks.{held, pend_curr-held}
use zephyr_kernel_bm_tuc_hms.EventBlock
use zephyr_kernel_bm_tuc_hms.TaskPreempt.{
  measure_thread_resume_tail, measure_thread_suspend_tail, measure_swap_prologue_overhead,
}
use zephyr_kernel_bm_tuc_hms.TaskPreempt.Laws.{task_preempt_series}
use zephyr_kernel_bm_tuc_hms.SemPreempt.Laws.{give_tail-waiter}
use zephyr_kernel_bm_tuc_hms.EventBlock.Laws.{measure_post_tail_overhead_lem}
use zephyr_kernel_bm_tuc_hms.Sim.Machine.{waiter_thread}
use zephyr_kernel_bm_tuc_hms.Examples.Board.{first_of, contended, task_file, waiter-current}
use zephyr_kernel_bm_tuc_hms.EventBlock.Laws.{measure_wait_overhead_lem}
use zephyr_kernel_bm_tuc_hms.SemBlock
use zephyr_kernel_bm_tuc_hms.SemBlock.Laws.{measure_take_tail_no_wait_overhead_lem}
use zephyr_kernel_bm_tuc_hms.SemPreempt
use zephyr_kernel_bm_tuc_hms.SemPreempt.Laws.{give_tail-no_waiter}
use zephyr_kernel_bm_tuc_hms.Examples.Board.{
  board, board-KernelDoc, boot, running, event_file, sem_file, boot-IsSampled, apart, bits_apart,
  event-sched,
}

measure_wait_overhead_lem_example :
    Ensures
      (λ _ w'. Measured 1 0 2 7 0 w' × (w'.file.sim_wait_sink ≡ after 2 0 (waited wait_tail)))
      (EventBlock.measure_wait_overhead board 1 2 wait_tail (boot event_file))
measure_wait_overhead_lem_example =
    measure_wait_overhead_lem board board-KernelDoc 1 0 7 0 apart wait_tail 2 (boot event_file)
      (boot-IsSampled 1 event_file) (boot-IsSampled 7 event_file) bits_apart

measure_take_tail_no_wait_overhead_lem_example :
    Ensures
      (λ _ w'.
        Measured 1 0 2 7 0 w'
        × ((w'.file.tail_sem.count ≡ 0) × (w'.file.sim_take_sink ≡ after 2 0 (to_u32 (neg 16)))))
      (SemBlock.measure_take_tail_no_wait_overhead board 1 2 (boot sem_file))
measure_take_tail_no_wait_overhead_lem_example =
    measure_take_tail_no_wait_overhead_lem board board-KernelDoc 1 0 7 0 apart 2 (boot sem_file)
      refl (boot-IsSampled 1 sem_file) (boot-IsSampled 7 sem_file)

-- Five gives to a semaphore whose limit is 3.
give_tail-no_waiter_example :
    Ensures
      (λ _ w'. Measured 1 0 5 7 0 w' × (w'.file.tail_sem.count ≡ 3))
      (SemPreempt.measure_give_tail_no_swap_overhead board 1 5 0 (boot sem_file))
give_tail-no_waiter_example =
    give_tail-no_waiter board board-KernelDoc 1 0 7 0 apart 5 (boot sem_file)
      (boot-IsSampled 1 sem_file) (boot-IsSampled 7 sem_file)

pend_curr-held_example :
    Ensures
      (λ rv w'.
        (rv ≡ neg 11)
        × (w'.sim_current_thread.basepri ≡ 4)
        × (held sched_spinlock w'.trace ≡ true)
        × (held event_lock w'.trace ≡ false))
      (sim_z_pend_curr_prologue board event_lock 4 event_queue (neg 1) (running event_file))
pend_curr-held_example =
    pend_curr-held board event_lock 4 event_queue (neg 1) (running event_file) refl event-sched

-- A thread asks for all of bits 0 and 5, of which the event holds bit 5, and so it pends.
wait_halves_example :
    Ensures
      (λ rv w'.
        (rv ≡ or_else (answer 0x21 5 (neg 1) sim_guard) 0x21)
        × (w'.sim_current_thread.events ≡ request (answer 0x21 5 (neg 1) sim_guard) 0x21 0))
      (sim_k_event_wait_internal_tail board 0x21 5 (neg 1) (running event_file))
    × Ensures
        (λ rv w'.
          (rv ≡ or_else (answer 0x21 5 (neg 1) sim_guard) 0)
          × (w'.sim_current_thread.events ≡ request (answer 0x21 5 (neg 1) sim_guard) 0x21 0))
        (sim_k_event_wait_internal board 0x21 5 (neg 1) (running event_file))
wait_halves_example =
    wait_halves board board-KernelDoc 0x21 5 (neg 1) (running event_file) refl refl refl

give_tail-waiter_example :
    Ensures
      (λ _ w'.
        Measured 1 0 5 7 0 w'
        × ((w'.file.tail_sem.count ≡ 0)
            × (first_of w'.file.tail_sem.wait_q ≡ waiter_thread)
            × (w'.sim_waiter_thread.swap_return_value ≡ pos 0)))
      (SemPreempt.measure_give_tail_no_swap_overhead board 1 5 1 (boot sem_file))
give_tail-waiter_example =
    give_tail-waiter board board-KernelDoc 1 0 7 0 apart 5 1 (boot sem_file) (omega arith)
      (boot-IsSampled 1 sem_file) (boot-IsSampled 7 sem_file)

measure_post_tail_overhead_lem_example :
    Ensures
      (λ _ w'.
        Measured 1 0 2 7 0 w'
        × ((w'.sim_sink ≡ after 2 0 sim_guard)
            × (w'.file.tail_event ≡ after 2 sim_guard sim_guard)))
      (EventBlock.measure_post_tail_overhead board 1 2 (contended event_file))
measure_post_tail_overhead_lem_example =
    measure_post_tail_overhead_lem board board-KernelDoc 1 0 7 0 apart (λ _. refl) 2
      (contended event_file) waiter-current (boot-IsSampled 1 event_file)
      (boot-IsSampled 7 event_file)

task_preempt_series_example :
    Ensures
      (λ _ w'. Measured 1 0 2 7 0 w' × (w'.sim_sink ≡ after 2 0 0))
      (measure_thread_resume_tail board 1 2 (boot task_file))
    × Ensures
        (λ _ w'. Measured 1 0 2 7 0 w' × (w'.sim_sink ≡ after 2 0 0))
        (measure_thread_suspend_tail board 1 2 (boot task_file))
    × Ensures
        (λ _ w'. Measured 1 0 2 7 0 w' × (w'.sim_sink ≡ after 2 0 (to_u32 (neg 11))))
        (measure_swap_prologue_overhead board 1 2 (boot task_file))
task_preempt_series_example =
    task_preempt_series board 1 0 7 0 apart 2 (boot task_file) (boot-IsSampled 1 task_file)
      (boot-IsSampled 7 task_file)
