-- ===== src/TaskPreempt.antt =====
-- src/task_switching/task_preempt/zephyr_sim.c: the tails of k_thread_resume() and of a thread that
-- suspends itself, and the swap prologue.
pub mod Laws
pub mod Main
pub mod Tasks
pub mod Threads
use zephyr_kernel_bm_tuc_hms.Prelude.{ℕ, ◌==◌, if◌then◌else◌, to_u32}
use zephyr_kernel_bm_tuc_hms.Window.{Series}
use zephyr_kernel_bm_tuc_hms.Sim.Machine.{
  sched_spinlock, cross_functions_file_scope_vars, inside_function_file_scope_vars, Env, M, ◌>>=◌,
  ◌>>◌, pure, modify,
}
use zephyr_kernel_bm_tuc_hms.Sim.Calls.{
  mwindow_open, reset_cntr, mseries_initialize, irq_unlock, get_start_cnt, get_stop_cnt,
}
use zephyr_kernel_bm_tuc_hms.Sim.Kernel.{
  sim_kernel_init, sim_z_swap_prologue, sim_z_swap_tail, sim_reschedule_tail,
}
use zephyr_kernel_bm_tuc_hms.Sim.Probe.{feed_and_close, repeat}

-- The file has no statics but `sim_sink`.
abbrev pub TaskFile : Type 0
TaskFile = Unit {0}

module _ (env : Env) where
  -- The thread is not used.
  unfoldable pub sim_z_impl_k_thread_resume_tail : M TaskFile (Unit {0})
  unfolding sim_reschedule_tail
  sim_z_impl_k_thread_resume_tail = sim_reschedule_tail env 0

  sim_resume_thread_tail : M TaskFile (Unit {0})
  unfolding sim_z_impl_k_thread_resume_tail
  sim_resume_thread_tail = sim_z_impl_k_thread_resume_tail

  unfoldable pub measure_resume_tail : Series → M TaskFile (Unit {0})
  unfolding sim_resume_thread_tail
  measure_resume_tail mseries = do
    mwindow_open mseries
    reset_cntr
    sim_resume_thread_tail
    let rv : ℕ = 0
    get_stop_cnt env
    modify (λ w. record w { sim_sink = rv })
    feed_and_close env mseries

  unfoldable pub measure_swap_prologue : Series → M TaskFile (Unit {0})
  unfolding sim_z_swap_prologue
  measure_swap_prologue mseries = do
    mwindow_open mseries
    reset_cntr
    get_start_cnt env
    rv ← sim_z_swap_prologue env sched_spinlock 0
    modify (λ w. record w { sim_sink = to_u32 rv })
    feed_and_close env mseries

  -- The options are not used, here and below.
  unfoldable pub measure_swap_prologue_overhead : Series → ℕ → M TaskFile (Unit {0})
  unfolding sim_kernel_init measure_swap_prologue repeat
  measure_swap_prologue_overhead mseries loop_count = do
    sim_kernel_init
    mseries_initialize mseries cross_functions_file_scope_vars
    repeat loop_count (measure_swap_prologue mseries)

  unfoldable pub sim_z_impl_k_thread_suspend_tail : ℕ → M TaskFile (Unit {0})
  unfolding sim_z_swap_tail
  sim_z_impl_k_thread_suspend_tail swap =
      if swap == 0 then (do _ ← sim_z_swap_tail env swap; pure tt) else irq_unlock 0

  sim_suspend_thread_tail : M TaskFile (Unit {0})
  unfolding sim_z_impl_k_thread_suspend_tail
  sim_suspend_thread_tail = sim_z_impl_k_thread_suspend_tail 0

  unfoldable pub measure_suspend_tail : Series → M TaskFile (Unit {0})
  unfolding sim_suspend_thread_tail
  measure_suspend_tail mseries = do
    mwindow_open mseries
    reset_cntr
    sim_suspend_thread_tail
    let rv : ℕ = 0
    get_stop_cnt env
    modify (λ w. record w { sim_sink = rv })
    feed_and_close env mseries

  unfoldable pub measure_thread_suspend_tail : Series → ℕ → M TaskFile (Unit {0})
  unfolding sim_kernel_init measure_suspend_tail repeat
  measure_thread_suspend_tail mseries loop_count = do
    sim_kernel_init
    mseries_initialize mseries inside_function_file_scope_vars
    repeat loop_count (measure_suspend_tail mseries)

  unfoldable pub measure_thread_resume_tail : Series → ℕ → M TaskFile (Unit {0})
  unfolding sim_kernel_init measure_resume_tail repeat
  measure_thread_resume_tail mseries loop_count = do
    sim_kernel_init
    mseries_initialize mseries inside_function_file_scope_vars
    repeat loop_count (measure_resume_tail mseries)
