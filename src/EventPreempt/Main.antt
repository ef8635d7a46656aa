-- ===== src/EventPreempt/Main.antt =====
-- main() of src/task_switching/event_preempt/time_task_switch_event.c.
use zephyr_kernel_bm_tuc_hms.Prelude.{◌≡◌, ap, [], bit_and}
use zephyr_kernel_bm_tuc_hms.Window.{Series}
use zephyr_kernel_bm_tuc_hms.Sim.Machine.{Env, KernelDoc, World, M, Ensures}
use zephyr_kernel_bm_tuc_hms.Sim.Main.{with_probes, with_probes-Prepared, fed_by_probes, Prepared}
use zephyr_kernel_bm_tuc_hms.Sim.Swap.{swap_prologue}
use zephyr_kernel_bm_tuc_hms.Sim.Swap.Laws.{measure_z_swap_overhead_lem, returned}
use zephyr_kernel_bm_tuc_hms.Sim.Event.{EventFile, sim_guard, sim_wait_request, wait_tail}
use zephyr_kernel_bm_tuc_hms.EventPreempt.{
  measure_event_tail_overhead, measure_wait_overhead, measure_event_z_swap_overhead,
}
use zephyr_kernel_bm_tuc_hms.EventPreempt.Laws.{
  measure_event_tail_overhead_lem, measure_wait_halves_overhead_lem,
}

-- The series of the probes, numbered behind scenario_a and scenario_b; wait_tail of the source is
-- `wait_chain_tail` here.
abbrev pub event_tail : Series
event_tail = 2

abbrev pub wait_chain_tail : Series
wait_chain_tail = 3

abbrev pub z_swap_overhead : Series
z_swap_overhead = 4

unfoldable pub main : Env → M EventFile (Unit {0})
main env =
    with_probes env (measure_event_tail_overhead env event_tail 50000)
      (measure_wait_overhead env wait_chain_tail 50000 wait_tail)
      (measure_event_z_swap_overhead env z_swap_overhead 50000 swap_prologue)

-- main() of event_preempt, run as the first to call the harness: no null pointer is followed, each of the
-- three probes has given its series exactly 50,000 samples, each from a window of its own, no other series
-- has one, every window is shut, and I_Task is created last, behind the start signal.
pub event_preempt_main-Prepared :
    (env : Env) (doc : KernelDoc env) (w : World EventFile) (first : w.trace ≡ [])
    → Ensures
        (λ _ w'. Prepared (fed_by_probes event_tail wait_chain_tail z_swap_overhead 50000) w')
        (main env w)
unfolding main measure_event_z_swap_overhead
event_preempt_main-Prepared env doc w first =
    with_probes-Prepared env event_tail wait_chain_tail z_swap_overhead 50000
      (measure_event_tail_overhead env event_tail 50000)
      (measure_wait_overhead env wait_chain_tail 50000 wait_tail)
      (measure_event_z_swap_overhead env z_swap_overhead 50000 swap_prologue) (λ v. Unit {0})
      (λ v. (v.sim_sink ≡ sim_guard) × (v.file.tail_event ≡ sim_guard))
      (λ v. v.file.sim_wait_sink ≡ sim_wait_request) (λ v. v.sim_sink ≡ returned env swap_prologue)
      w first (λ _ h. tt)
      (λ v _ k r m a x y. measure_event_tail_overhead_lem env event_tail k r m a 50000 v x y)
      (λ v h k r m a x y.
        measure_wait_halves_overhead_lem env doc wait_chain_tail k r m a wait_tail 50000 v x y
          (ap (λ e. bit_and e sim_wait_request) h.1))
      (λ v _ k r m a x y.
        measure_z_swap_overhead_lem env z_swap_overhead k r m a _ 50000 swap_prologue v x y)
