-- ===== src/EventBlock.antt =====
-- src/task_switching/event_block/zephyr_sim.c: the simulated halves of k_event_wait_safe(), the
-- k_event_post() tail with a switch, and the swap chain. The wait chain itself is in Sim/Event.antt
-- and the probe of the swap chain in Sim/Swap.antt.
pub mod Laws
pub mod Main
pub mod Tasks
pub mod Threads
use zephyr_kernel_bm_tuc_hms.Prelude.{ℕ, not, ◌&&◌, ◌-◌, ◌^◌, ◌==◌, if◌then◌else◌, bit_and}
use zephyr_kernel_bm_tuc_hms.Window.{Series}
use zephyr_kernel_bm_tuc_hms.Sim.Machine.{
  ThreadPtr, same_thread, ReadWindow, cross_functions_file_scope_vars,
  inside_function_file_scope_vars, Env, M, ◌>>=◌, ◌>>◌, pure, gets, modify,
}
use zephyr_kernel_bm_tuc_hms.Sim.Calls.{
  mwindow_open, reset_cntr, mseries_initialize, irq_unlock, get_stop_cnt, get_ipsr,
}
use zephyr_kernel_bm_tuc_hms.Sim.Kernel.{sim_kernel_init, sim_z_swap_irqlock_tail}
use zephyr_kernel_bm_tuc_hms.Sim.Probe.{feed_and_close, repeat}
use zephyr_kernel_bm_tuc_hms.Sim.Swap.{SwapPart, measure_z_swap_overhead}
use zephyr_kernel_bm_tuc_hms.Sim.Event.{
  EventFile, sim_guard, WaitPart, wait_tail, wait_prologue, measure_wait_tail,
  measure_wait_prologue,
}

-- `static volatile uint32_t sim_post_key`, never assigned
abbrev pub sim_post_key : ℕ
sim_post_key = 0

module _ (env : Env) where
  unfoldable pub measure_event_z_swap_overhead : Series → ℕ → SwapPart → M EventFile (Unit {0})
  unfolding measure_z_swap_overhead
  measure_event_z_swap_overhead = measure_z_swap_overhead env cross_functions_file_scope_vars

  unfoldable pub measure_wait_overhead : Series → ℕ → WaitPart → M EventFile (Unit {0})
  unfolding sim_kernel_init measure_wait_tail measure_wait_prologue repeat
  measure_wait_overhead mseries loop_count wait_tail = do
    sim_kernel_init
    mseries_initialize mseries inside_function_file_scope_vars
    repeat loop_count (measure_wait_tail env mseries env.ticks_forever)
  measure_wait_overhead mseries loop_count wait_prologue = do
    sim_kernel_init
    mseries_initialize mseries inside_function_file_scope_vars
    repeat loop_count (measure_wait_prologue env mseries env.ticks_forever)

  unfoldable pub measure_wait_tail_no_wait_overhead : Series → ℕ → M EventFile (Unit {0})
  unfolding sim_kernel_init measure_wait_tail repeat
  measure_wait_tail_no_wait_overhead mseries loop_count = do
    sim_kernel_init
    mseries_initialize mseries inside_function_file_scope_vars
    repeat loop_count (measure_wait_tail env mseries env.ticks_no_wait)

  sim_reschedule_swap_tail : ℕ → M EventFile (Unit {0})
  unfolding sim_z_swap_irqlock_tail
  sim_reschedule_swap_tail key = do
    ipsr ← get_ipsr env
    cache ← gets (λ w. w.ready_cache)
    current ← gets (λ w. w.cpu_current)
    if (key == 0) && (ipsr == 0) && not (same_thread cache current)
        then (do _ ← sim_z_swap_irqlock_tail env key; pure tt)
        else irq_unlock key

  sim_z_reschedule_swap_tail : ℕ → M EventFile (Unit {0})
  unfolding sim_reschedule_swap_tail
  sim_z_reschedule_swap_tail key = sim_reschedule_swap_tail key

  -- The event is `tail_event`; `events` and `events_mask` are not used.
  unfoldable pub sim_k_event_post_internal_swap_tail : M EventFile ℕ
  unfolding sim_z_reschedule_swap_tail
  sim_k_event_post_internal_swap_tail = do
    let data0 : ℕ = sim_guard
    let data1 : ℕ = 0
    modify (λ w. record w {
      file = record (w.file) { tail_event = bit_and data0 (2 ^ 32 - 1 - data1) };
    })
    sim_z_reschedule_swap_tail sim_post_key
    pure data0

  sim_z_impl_k_event_post_swap_tail : M EventFile ℕ
  unfolding sim_k_event_post_internal_swap_tail
  sim_z_impl_k_event_post_swap_tail = sim_k_event_post_internal_swap_tail

  unfoldable pub measure_post_tail : Series → M EventFile (Unit {0})
  unfolding sim_z_impl_k_event_post_swap_tail
  measure_post_tail mseries = do
    mwindow_open mseries
    reset_cntr
    rv ← sim_z_impl_k_event_post_swap_tail
    get_stop_cnt env
    modify (λ w. record w { sim_sink = rv })
    feed_and_close env mseries

  unfoldable pub measure_post_tail_overhead : Series → ℕ → M EventFile (Unit {0})
  unfolding sim_kernel_init measure_post_tail repeat
  measure_post_tail_overhead mseries loop_count = do
    sim_kernel_init
    mseries_initialize mseries inside_function_file_scope_vars
    repeat loop_count (measure_post_tail mseries)
