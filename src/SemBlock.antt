-- ===== src/SemBlock.antt =====
-- src/task_switching/sem_block/zephyr_sim.c: the K_NO_WAIT tail of k_sem_take(), the tail of
-- k_sem_give() with a switch, and the swap chain.
pub mod Laws
pub mod Main
pub mod Tasks
pub mod Threads
use zephyr_kernel_bm_tuc_hms.Prelude.{
  ℕ, not, ◌&&◌, ◌-◌, ◌==◌, if◌then◌else◌, ℤ, pos, neg, int_eq, to_u32, ltb,
}
use zephyr_kernel_bm_tuc_hms.Window.{Series}
use zephyr_kernel_bm_tuc_hms.Sim.Machine.{
  same_thread, sem_lock, cross_functions_file_scope_vars, inside_function_file_scope_vars, Sem, Env,
  M, ◌>>=◌, ◌>>◌, pure, gets,
}
use zephyr_kernel_bm_tuc_hms.Sim.Calls.{
  mwindow_open, reset_cntr, mseries_initialize, spin_lock, spin_unlock, irq_unlock, get_start_cnt,
  get_stop_cnt, get_ipsr,
}
use zephyr_kernel_bm_tuc_hms.Sim.Kernel.{
  sem_queue, sim_kernel_init, sim_z_pend_curr_prologue, sim_z_swap_irqlock_tail,
}
use zephyr_kernel_bm_tuc_hms.Sim.Probe.{feed_and_close, repeat}
use zephyr_kernel_bm_tuc_hms.Sim.Swap.{SwapPart, measure_z_swap_overhead}
use zephyr_kernel_bm_tuc_hms.Sim.Sem.{SemFile, set_sem, set_take_sink}

-- `static volatile uint32_t sim_give_key`, never assigned
abbrev pub sim_give_key : ℕ
sim_give_key = 0

module _ (env : Env) where
  unfoldable pub measure_sem_z_swap_overhead : Series → ℕ → SwapPart → M SemFile (Unit {0})
  unfolding measure_z_swap_overhead
  measure_sem_z_swap_overhead = measure_z_swap_overhead env cross_functions_file_scope_vars

  -- The semaphore is `tail_sem`.
  unfoldable pub sim_z_impl_k_sem_take_tail : ℤ → M SemFile ℤ
  unfolding sim_z_pend_curr_prologue
  sim_z_impl_k_sem_take_tail timeout = do
    key ← spin_lock env sem_lock
    sem ← gets (λ w. w.file.tail_sem)
    if ltb 0 sem.count
        then (do
          set_sem (record sem { count = sem.count - 1 })
          spin_unlock sem_lock key
          pure (pos 0))
        else if int_eq timeout env.ticks_no_wait
        then (do reset_cntr; get_start_cnt env; spin_unlock sem_lock key; pure (neg env.ebusy))
        else sim_z_pend_curr_prologue env sem_lock key sem_queue timeout

  unfoldable pub measure_take_tail : Series → M SemFile (Unit {0})
  unfolding sim_z_impl_k_sem_take_tail
  measure_take_tail mseries = do
    timeout ← gets (λ w. w.file.sim_take_ticks)
    mwindow_open mseries
    reset_cntr
    rv ← sim_z_impl_k_sem_take_tail timeout
    get_stop_cnt env
    set_take_sink (to_u32 rv)
    feed_and_close env mseries

  unfoldable pub measure_take_tail_no_wait_overhead : Series → ℕ → M SemFile (Unit {0})
  unfolding sim_kernel_init measure_take_tail repeat
  measure_take_tail_no_wait_overhead mseries loop_count = do
    sim_kernel_init
    sem ← gets (λ w. w.file.tail_sem)
    set_sem (env.sem_init sem 0 env.sem_max_limit)
    mseries_initialize mseries inside_function_file_scope_vars
    repeat loop_count (measure_take_tail mseries)

  sim_reschedule_swap_tail : ℕ → M SemFile (Unit {0})
  unfolding sim_z_swap_irqlock_tail
  sim_reschedule_swap_tail key = do
    ipsr ← get_ipsr env
    cache ← gets (λ w. w.ready_cache)
    current ← gets (λ w. w.cpu_current)
    if (key == 0) && (ipsr == 0) && not (same_thread cache current)
        then (do _ ← sim_z_swap_irqlock_tail env key; pure tt)
        else irq_unlock key

  sim_z_reschedule_swap_tail : ℕ → M SemFile (Unit {0})
  unfolding sim_reschedule_swap_tail
  sim_z_reschedule_swap_tail key = sim_reschedule_swap_tail key

  -- The semaphore is not used.
  unfoldable pub sim_z_impl_k_sem_give_tail : M SemFile (Unit {0})
  unfolding sim_z_reschedule_swap_tail
  sim_z_impl_k_sem_give_tail = sim_z_reschedule_swap_tail sim_give_key

  unfoldable pub measure_give_tail : Series → M SemFile (Unit {0})
  unfolding sim_z_impl_k_sem_give_tail
  measure_give_tail mseries = do
    mwindow_open mseries
    reset_cntr
    sim_z_impl_k_sem_give_tail
    get_stop_cnt env
    feed_and_close env mseries

  unfoldable pub measure_give_tail_overhead : Series → ℕ → M SemFile (Unit {0})
  unfolding sim_kernel_init measure_give_tail repeat
  measure_give_tail_overhead mseries loop_count = do
    sim_kernel_init
    mseries_initialize mseries inside_function_file_scope_vars
    repeat loop_count (measure_give_tail mseries)
