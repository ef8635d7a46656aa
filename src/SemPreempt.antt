-- ===== src/SemPreempt.antt =====
-- src/task_switching/sem_preempt/zephyr_sim.c: the tail of a blocking k_sem_take(), the tail of
-- k_sem_give() without a switch, and the swap chain.
pub mod Laws
pub mod Main
pub mod Tasks
pub mod Threads
use zephyr_kernel_bm_tuc_hms.Prelude.{
  ℕ, Bool, true, false, not, ◌&&◌, ◌+◌, ◌-◌, ◌%◌, ◌^◌, ◌==◌, if◌then◌else◌, ℤ, pos, neg, int_eq,
  to_u32, ltb,
}
use zephyr_kernel_bm_tuc_hms.Window.{Series}
use zephyr_kernel_bm_tuc_hms.Sim.Machine.{
  null, waiter_thread, same_thread, sem_lock, cross_functions_file_scope_vars,
  inside_function_file_scope_vars, Sem, Env, M, ◌>>=◌, ◌>>◌, pure, gets, modify, store_thread,
}
use zephyr_kernel_bm_tuc_hms.Sim.Calls.{
  mwindow_open, reset_cntr, mseries_initialize, spin_lock, spin_unlock, irq_unlock, get_start_cnt,
  get_stop_cnt, get_ipsr,
}
use zephyr_kernel_bm_tuc_hms.Sim.Kernel.{sim_kernel_init, sim_z_swap_irqlock_tail}
use zephyr_kernel_bm_tuc_hms.Sim.Probe.{feed_and_close, repeat}
use zephyr_kernel_bm_tuc_hms.Sim.Swap.{SwapPart, measure_z_swap_overhead}
use zephyr_kernel_bm_tuc_hms.Sim.Sem.{SemFile, set_sem, set_take_sink, set_take_ticks}

module _ (env : Env) where
  unfoldable pub measure_sem_z_swap_overhead : Series → ℕ → SwapPart → M SemFile (Unit {0})
  unfolding measure_z_swap_overhead
  measure_sem_z_swap_overhead = measure_z_swap_overhead env cross_functions_file_scope_vars

  -- The lock, the queue and the timeout are not used.
  sim_z_pend_curr_swap_tail : ℕ → M SemFile ℤ
  unfolding sim_z_swap_irqlock_tail
  sim_z_pend_curr_swap_tail key = sim_z_swap_irqlock_tail env key

  -- The semaphore is `tail_sem`.
  unfoldable pub sim_z_impl_k_sem_take_swap_tail : ℤ → M SemFile ℤ
  unfolding sim_z_pend_curr_swap_tail
  sim_z_impl_k_sem_take_swap_tail timeout = do
    key ← spin_lock env sem_lock
    sem ← gets (λ w. w.file.tail_sem)
    if ltb 0 sem.count
        then (do
          set_sem (record sem { count = sem.count - 1 })
          spin_unlock sem_lock key
          pure (pos 0))
        else if int_eq timeout env.ticks_no_wait
        then (do spin_unlock sem_lock key; pure (neg env.ebusy))
        else sim_z_pend_curr_swap_tail key

  unfoldable pub measure_take_tail : Series → M SemFile (Unit {0})
  unfolding sim_z_impl_k_sem_take_swap_tail
  measure_take_tail mseries = do
    timeout ← gets (λ w. w.file.sim_take_ticks)
    mwindow_open mseries
    reset_cntr
    rv ← sim_z_impl_k_sem_take_swap_tail timeout
    get_stop_cnt env
    set_take_sink (to_u32 rv)
    feed_and_close env mseries

  unfoldable pub measure_take_tail_overhead : Series → ℕ → M SemFile (Unit {0})
  unfolding sim_kernel_init measure_take_tail repeat
  measure_take_tail_overhead mseries loop_count = do
    sim_kernel_init
    sem ← gets (λ w. w.file.tail_sem)
    set_sem (env.sem_init sem 0 env.sem_max_limit)
    set_take_ticks env.ticks_forever
    mseries_initialize mseries inside_function_file_scope_vars
    repeat loop_count (measure_take_tail mseries)

  sim_reschedule_no_swap_tail : ℕ → M SemFile (Unit {0})
  unfolding sim_z_swap_irqlock_tail
  sim_reschedule_no_swap_tail key = do
    ipsr ← get_ipsr env
    cache ← gets (λ w. w.ready_cache)
    current ← gets (λ w. w.cpu_current)
    if (key == 0) && (ipsr == 0) && not (same_thread cache current)
        then (do _ ← sim_z_swap_irqlock_tail env key; pure tt)
        else do reset_cntr; get_start_cnt env; irq_unlock key

  sim_z_reschedule_no_swap_tail : ℕ → M SemFile (Unit {0})
  unfolding sim_reschedule_no_swap_tail
  sim_z_reschedule_no_swap_tail key = sim_reschedule_no_swap_tail key

  -- The semaphore is `tail_sem`; its count is an `unsigned int`.
  unfoldable pub sim_z_impl_k_sem_give_tail : M SemFile (Unit {0})
  unfolding sim_z_reschedule_no_swap_tail
  sim_z_impl_k_sem_give_tail = do
    key ← spin_lock env sem_lock
    sem ← gets (λ w. w.file.tail_sem)
    let thread = env.dlist_peek_head sem.wait_q
    resched ←
        if not (same_thread thread null)
        then (do store_thread thread (λ t. record t { swap_return_value = pos 0 }); pure true)
        else do
          let more : ℕ = if not (sem.count == sem.limit) then 1 else 0
          set_sem (record sem { count = (sem.count + more) % 2 ^ 32 })
          pure false
    if resched
        then sim_z_reschedule_no_swap_tail key
        else do reset_cntr; get_start_cnt env; spin_unlock sem_lock key

  unfoldable pub measure_give_tail : Series → M SemFile (Unit {0})
  unfolding sim_z_impl_k_sem_give_tail
  measure_give_tail mseries = do
    mwindow_open mseries
    reset_cntr
    sim_z_impl_k_sem_give_tail
    get_stop_cnt env
    feed_and_close env mseries

  unfoldable pub measure_give_tail_no_swap_overhead : Series → ℕ → ℕ → M SemFile (Unit {0})
  unfolding sim_kernel_init measure_give_tail repeat
  measure_give_tail_no_swap_overhead mseries loop_count has_waiter = do
    sim_kernel_init
    modify (λ w. record w { ready_cache = w.cpu_current })
    old ← gets (λ w. w.file.tail_sem)
    set_sem (env.sem_init old 0 env.sem_max_limit)
    sem ← gets (λ w. w.file.tail_sem)
    if not (has_waiter == 0)
        then set_sem (record sem { wait_q = env.dlist_append sem.wait_q waiter_thread })
        else pure tt
    mseries_initialize mseries inside_function_file_scope_vars
    repeat loop_count (measure_give_tail mseries)
