-- ===== src/EventBlock/Main.antt =====
-- main() of src/task_switching/event_block/time_task_switch_event.c.
use zephyr_kernel_bm_tuc_hms.Prelude.{◌≡◌, ◌≢◌, []}
use zephyr_kernel_bm_tuc_hms.Window.{Series}
use zephyr_kernel_bm_tuc_hms.Sim.Machine.{
  current_thread, cross_functions_file_scope_vars, Trace, Env, KernelDoc, World, M, Ensures,
}
use zephyr_kernel_bm_tuc_hms.Sim.Main.{
  with_probes, with_probes-Prepared, fed_by_probes, Prepared, Ensures-first, Ensures-both,
}
use zephyr_kernel_bm_tuc_hms.Sim.Event.{EventFile, sim_guard}
use zephyr_kernel_bm_tuc_hms.Sim.Swap.{swap_prologue}
use zephyr_kernel_bm_tuc_hms.Sim.Swap.Kept.{Kept, measure_z_swap_overhead-Kept}
use zephyr_kernel_bm_tuc_hms.Sim.Swap.Laws.{measure_z_swap_overhead_lem}
use zephyr_kernel_bm_tuc_hms.EventBlock.{
  measure_event_z_swap_overhead, measure_post_tail_overhead, measure_wait_tail_no_wait_overhead,
}
use zephyr_kernel_bm_tuc_hms.EventBlock.Laws.{
  measure_post_tail_overhead_lem, measure_wait_tail_no_wait_overhead_lem,
}

-- The series of the probes, numbered behind scenario_a and scenario_b.
abbrev pub z_swap_overhead : Series
z_swap_overhead = 2

abbrev pub post_tail : Series
post_tail = 3

abbrev pub wait_tail_no_wait : Series
wait_tail_no_wait = 4

unfoldable pub main : Env → M EventFile (Unit {0})
main env =
    with_probes env (measure_event_z_swap_overhead env z_swap_overhead 50000 swap_prologue)
      (measure_post_tail_overhead env post_tail 50000)
      (measure_wait_tail_no_wait_overhead env wait_tail_no_wait 50000)

-- main() of event_block, run in thread mode as the first to call the harness, with another thread than the
-- simulated current one in the ready cache: no null pointer is followed, each of the three probes has given
-- its series exactly 50,000 samples, each from a window of its own, no other series has one, every window is
-- shut, and I_Task is created last, behind the start signal.
pub event_block_main-Prepared :
    (env : Env) (doc : KernelDoc env) (thread_mode : (t : Trace) → env.ipsr t ≡ 0)
    (w : World EventFile) (first : w.trace ≡ []) (other : w.ready_cache ≢ current_thread)
    → Ensures
        (λ _ w'. Prepared (fed_by_probes z_swap_overhead post_tail wait_tail_no_wait 50000) w')
        (main env w)
unfolding main measure_event_z_swap_overhead
event_block_main-Prepared env doc thread_mode w first other =
    with_probes-Prepared env z_swap_overhead post_tail wait_tail_no_wait 50000
      (measure_event_z_swap_overhead env z_swap_overhead 50000 swap_prologue)
      (measure_post_tail_overhead env post_tail 50000)
      (measure_wait_tail_no_wait_overhead env wait_tail_no_wait 50000)
      (λ v. Kept w.ready_cache w.file v) (λ v. Kept w.ready_cache w.file v)
      (λ v. (v.sim_sink ≡ sim_guard) × (v.file.tail_event ≡ sim_guard))
      (λ v. v.file.sim_wait_sink ≡ 0) w first
      (λ _ h. record { cache = h.same_cache; statics = h.same_file })
      (λ v c k r m a x y.
        Ensures-both _ _ _
          (Ensures-first _ _ _ (
            measure_z_swap_overhead_lem env z_swap_overhead k r m a cross_functions_file_scope_vars
              50000 swap_prologue v x y))
          (measure_z_swap_overhead-Kept env cross_functions_file_scope_vars z_swap_overhead 50000
            w.ready_cache w.file v c))
      (λ v c k r m a x y.
        measure_post_tail_overhead_lem env doc post_tail k r m a thread_mode 50000 v
          (λ e. let d = c.cache in other cc) x y)
      (λ v _ k r m a x y.
        measure_wait_tail_no_wait_overhead_lem env doc wait_tail_no_wait k r m a 50000 v x y)
