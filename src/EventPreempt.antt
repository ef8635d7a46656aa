-- ===== src/EventPreempt.antt =====
-- src/task_switching/event_preempt/zephyr_sim.c: the k_event_post() tail without a switch, the
-- halves of k_event_wait_safe() and the swap chain. The wait chain itself is in Sim/Event.antt and
-- the probe of the swap chain in Sim/Swap.antt.
pub mod Laws
pub mod Main
pub mod Tasks
pub mod Threads
use zephyr_kernel_bm_tuc_hms.Prelude.{ℕ, ◌-◌, ◌^◌, bit_and}
use zephyr_kernel_bm_tuc_hms.Window.{Series}
use zephyr_kernel_bm_tuc_hms.Sim.Machine.{
  ReadWindow, cross_functions_file_scope_vars, inside_function_file_scope_vars, Env, M, ◌>>=◌, ◌>>◌,
  pure, modify,
}
use zephyr_kernel_bm_tuc_hms.Sim.Calls.{mwindow_open, reset_cntr, mseries_initialize, get_stop_cnt}
use zephyr_kernel_bm_tuc_hms.Sim.Kernel.{sim_kernel_init, sim_z_reschedule_tail}
use zephyr_kernel_bm_tuc_hms.Sim.Probe.{feed_and_close, repeat}
use zephyr_kernel_bm_tuc_hms.Sim.Swap.{SwapPart, swap_prologue, swap_tail, measure_z_swap_overhead}
use zephyr_kernel_bm_tuc_hms.Sim.Event.{
  EventFile, sim_guard, WaitPart, wait_tail, wait_prologue, measure_wait_tail,
  measure_wait_prologue,
}

-- The read window that `measure_event_z_swap_overhead` picks for a part.
abbrev pub swap_window : SwapPart → ReadWindow
swap_window swap_prologue = cross_functions_file_scope_vars
swap_window swap_tail = inside_function_file_scope_vars

module _ (env : Env) where
  -- The event is `tail_event`; `events` and `events_mask` are not used.
  unfoldable pub sim_k_event_post_internal : M EventFile ℕ
  unfolding sim_z_reschedule_tail
  sim_k_event_post_internal = do
    let swap : ℕ = 0
    let data0 : ℕ = sim_guard
    let data1 : ℕ = 0
    modify (λ w. record w {
      file = record (w.file) { tail_event = bit_and data0 (2 ^ 32 - 1 - data1) };
    })
    sim_z_reschedule_tail env swap
    pure data0

  sim_z_impl_k_event_post : M EventFile ℕ
  unfolding sim_k_event_post_internal
  sim_z_impl_k_event_post = sim_k_event_post_internal

  unfoldable pub measure_event_tail : Series → M EventFile (Unit {0})
  unfolding sim_z_impl_k_event_post
  measure_event_tail mseries = do
    mwindow_open mseries
    reset_cntr
    rv ← sim_z_impl_k_event_post
    get_stop_cnt env
    modify (λ w. record w { sim_sink = rv })
    feed_and_close env mseries

  unfoldable pub measure_event_tail_overhead : Series → ℕ → M EventFile (Unit {0})
  unfolding sim_kernel_init measure_event_tail repeat
  measure_event_tail_overhead mseries loop_count = do
    sim_kernel_init
    mseries_initialize mseries inside_function_file_scope_vars
    repeat loop_count (measure_event_tail mseries)

  unfoldable pub measure_event_z_swap_overhead : Series → ℕ → SwapPart → M EventFile (Unit {0})
  unfolding measure_z_swap_overhead
  measure_event_z_swap_overhead mseries loop_count part =
      measure_z_swap_overhead env (swap_window part) mseries loop_count part

  unfoldable pub measure_wait_overhead : Series → ℕ → WaitPart → M EventFile (Unit {0})
  unfolding sim_kernel_init measure_wait_tail measure_wait_prologue repeat
  measure_wait_overhead mseries loop_count wait_tail = do
    sim_kernel_init
    mseries_initialize mseries inside_function_file_scope_vars
    repeat loop_count (measure_wait_tail env mseries env.ticks_forever)
  measure_wait_overhead mseries loop_count wait_prologue = do
    sim_kernel_init
    mseries_initialize mseries cross_functions_file_scope_vars
    repeat loop_count (measure_wait_prologue env mseries env.ticks_forever)
