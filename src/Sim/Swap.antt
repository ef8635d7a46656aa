-- ===== src/Sim/Swap.antt =====
-- The probe of the swap chain that four zephyr_sim.c files share: `measure_event_z_swap` and
-- `measure_sem_z_swap`, the same text under two names, and their counted loops.
pub mod Laws
pub mod Kept
use zephyr_kernel_bm_tuc_hms.Prelude.{ℕ, to_u32}
use zephyr_kernel_bm_tuc_hms.Window.{Series}
use zephyr_kernel_bm_tuc_hms.Sim.Machine.{sched_spinlock, ReadWindow, Env, M, ◌>>=◌, ◌>>◌, modify}
use zephyr_kernel_bm_tuc_hms.Sim.Calls.{
  mwindow_open, reset_cntr, mseries_initialize, get_start_cnt, get_stop_cnt,
}
use zephyr_kernel_bm_tuc_hms.Sim.Kernel.{sim_kernel_init, sim_z_swap_prologue, sim_z_swap_tail}
use zephyr_kernel_bm_tuc_hms.Sim.Probe.{feed_and_close, repeat}

-- `sim_z_swap_part_t`
pub data SwapPart : Type 0 where
  swap_prologue : SwapPart
  swap_tail : SwapPart

module _ (env : Env) {F : Type 0} where
  unfoldable pub measure_z_swap : Series → SwapPart → M F (Unit {0})
  unfolding sim_z_swap_prologue sim_z_swap_tail
  measure_z_swap mseries swap_prologue = do
    mwindow_open mseries
    reset_cntr
    get_start_cnt env
    rv ← sim_z_swap_prologue env sched_spinlock 0
    modify (λ w. record w { sim_sink = to_u32 rv })
    feed_and_close env mseries
  measure_z_swap mseries swap_tail = do
    mwindow_open mseries
    reset_cntr
    get_start_cnt env
    rv ← sim_z_swap_tail env 1
    get_stop_cnt env
    modify (λ w. record w { sim_sink = to_u32 rv })
    feed_and_close env mseries

  -- The read window that the series is initialised with depends on the file, and in
  -- event_preempt on the part.
  unfoldable pub measure_z_swap_overhead : ReadWindow → Series → ℕ → SwapPart → M F (Unit {0})
  unfolding measure_z_swap sim_kernel_init repeat
  measure_z_swap_overhead window mseries loop_count part = do
    sim_kernel_init
    mseries_initialize mseries window
    repeat loop_count (measure_z_swap mseries part)
