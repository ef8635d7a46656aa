-- ===== src/Sim/Kernel.antt =====
-- The simulated kernel: sim_init.c, sim_kswap.h and sim_sched.c of src/zephyr_api_simulation. The
-- configuration is the one its BUILD_ASSERTs fix, on an ARMv8-M mainline core (`__set_BASEPRI`).
pub mod Laws
pub mod Locks
use zephyr_kernel_bm_tuc_hms.Prelude.{
  ℕ, Bool, true, false, ◌||◌, ◌==◌, if◌then◌else◌, ℤ, pos, neg, int_eq, some,
}
use zephyr_kernel_bm_tuc_hms.Sim.Machine.{
  ThreadPtr, null, current_thread, Lock, sched_spinlock, Env, M, ◌>>=◌, ◌>>◌, pure, gets,
  load_thread, store_thread,
}
use zephyr_kernel_bm_tuc_hms.Sim.Calls.{
  reset_cntr, spin_release, irq_unlock, set_basepri, instruction_flush, get_start_cnt, get_stop_cnt,
  spin_lock, rewrite_icsr,
}

-- `_wait_q_t *`
pub data QueuePtr : Type 0 where
  null_queue : QueuePtr
  sem_queue : QueuePtr
  event_queue : QueuePtr

abbrev is_null : ThreadPtr → Bool
is_null null = true
is_null _ = false

abbrev is_null_queue : QueuePtr → Bool
is_null_queue null_queue = true
is_null_queue _ = false

module _ {F : Type 0} where
  -- sim_kernel_init()
  unfoldable pub sim_kernel_init : M F (Unit {0})
  sim_kernel_init w = some (
    tt,
    record w {
      cpu_current = current_thread;
      sim_current_thread = record (w.sim_current_thread) { swap_return_value = pos 0; events = 1 };
    },
  )

  sim_unreached_int : M F (Unit {0})
  sim_unreached_int = pure tt

  sim_add_to_waitq_locked : ThreadPtr → QueuePtr → M F (Unit {0})
  unfolding sim_unreached_int
  sim_add_to_waitq_locked thread wait_q =
      if is_null thread || is_null_queue wait_q then sim_unreached_int else pure tt

  sim_add_thread_timeout : ThreadPtr → ℤ → M F (Unit {0})
  unfolding sim_unreached_int
  sim_add_thread_timeout thread ticks =
      if is_null thread || int_eq ticks (pos 0) then sim_unreached_int else pure tt

  sim_pend_locked : ThreadPtr → QueuePtr → ℤ → M F (Unit {0})
  unfolding sim_add_to_waitq_locked sim_add_thread_timeout
  sim_pend_locked thread wait_q ticks = do
    sim_add_to_waitq_locked thread wait_q
    sim_add_thread_timeout thread ticks

module _ (env : Env) {F : Type 0} where
  sim_arch_swap_prologue : ℕ → M F ℤ
  sim_arch_swap_prologue sim_key = do
    current ← gets (λ w. w.cpu_current)
    store_thread current (λ t. record t { basepri = sim_key })
    store_thread current (λ t. record t { swap_return_value = neg env.eagain })
    rewrite_icsr env
    set_basepri 0
    get_stop_cnt env
    t ← load_thread current
    pure t.swap_return_value

  sim_z_swap_irqlock_prologue : ℕ → M F ℤ
  unfolding sim_arch_swap_prologue
  sim_z_swap_irqlock_prologue sim_key = sim_arch_swap_prologue sim_key

  unfoldable pub sim_z_swap_prologue : Lock → ℕ → M F ℤ
  unfolding sim_z_swap_irqlock_prologue
  sim_z_swap_prologue lock key = do spin_release lock; sim_z_swap_irqlock_prologue key

  sim_arch_swap_tail : ℕ → M F ℤ
  sim_arch_swap_tail sim_key = do
    store_thread current_thread (λ t. record t { basepri = sim_key })
    reset_cntr
    get_start_cnt env
    instruction_flush
    current ← gets (λ w. w.cpu_current)
    t ← load_thread current
    pure t.swap_return_value

  unfoldable pub sim_z_swap_irqlock_tail : ℕ → M F ℤ
  unfolding sim_arch_swap_tail
  sim_z_swap_irqlock_tail sim_key = sim_arch_swap_tail sim_key

  -- The lock is not used.
  unfoldable pub sim_z_swap_tail : ℕ → M F ℤ
  unfolding sim_z_swap_irqlock_tail
  sim_z_swap_tail sim_key = sim_z_swap_irqlock_tail sim_key

  unfoldable pub sim_z_pend_curr_prologue : Lock → ℕ → QueuePtr → ℤ → M F ℤ
  unfolding sim_pend_locked sim_z_swap_prologue
  sim_z_pend_curr_prologue lock sim_key wait_q ticks = do
    _ ← spin_lock env sched_spinlock
    sim_pend_locked current_thread wait_q ticks
    spin_release lock
    sim_z_swap_prologue lock sim_key

  -- The kernel pointer and the third argument are not used; the queue is NULL, the timeout K_NO_WAIT.
  unfoldable pub sim_z_pend_curr_tail : ℕ → M F ℤ
  unfolding sim_pend_locked sim_z_swap_tail
  sim_z_pend_curr_tail sim_key = do
    sim_pend_locked current_thread QueuePtr.null_queue env.ticks_no_wait
    sim_z_swap_tail sim_key

  sim_reschedule_prologue : ℕ → M F (Unit {0})
  unfolding sim_z_swap_prologue
  sim_reschedule_prologue swap =
      if swap == 0 then irq_unlock swap else do _ ← sim_z_swap_prologue sched_spinlock swap; pure tt

  unfoldable pub sim_z_reschedule_prologue : ℕ → M F (Unit {0})
  unfolding sim_reschedule_prologue
  sim_z_reschedule_prologue swap = sim_reschedule_prologue swap

  unfoldable pub sim_reschedule_tail : ℕ → M F (Unit {0})
  unfolding sim_z_swap_tail
  sim_reschedule_tail swap =
      if swap == 0
      then (do reset_cntr; get_start_cnt env; irq_unlock swap)
      else do _ ← sim_z_swap_tail swap; pure tt

  unfoldable pub sim_z_reschedule_tail : ℕ → M F (Unit {0})
  unfolding sim_reschedule_tail
  sim_z_reschedule_tail swap = sim_reschedule_tail swap
