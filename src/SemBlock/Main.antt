-- ===== src/SemBlock/Main.antt =====
-- main() of src/task_switching/sem_block/time_task_switch_sem.c.
use zephyr_kernel_bm_tuc_hms.Prelude.{◌≡◌, ◌≢◌, ◌∙◌, ap, pos, neg, to_u32, []}
use zephyr_kernel_bm_tuc_hms.Window.{Series}
use zephyr_kernel_bm_tuc_hms.Sim.Machine.{
  current_thread, cross_functions_file_scope_vars, Trace, Env, KernelDoc, World, M, Ensures,
}
use zephyr_kernel_bm_tuc_hms.Sim.Probe.{Measured}
use zephyr_kernel_bm_tuc_hms.Sim.Main.{
  with_probes, with_probes-Prepared, fed_by_probes, Prepared, Ensures-first, Ensures-both,
  Ensures-weaken,
}
use zephyr_kernel_bm_tuc_hms.Sim.Sem.{SemFile}
use zephyr_kernel_bm_tuc_hms.Sim.Swap.{swap_prologue}
use zephyr_kernel_bm_tuc_hms.Sim.Swap.Kept.{Kept, measure_z_swap_overhead-Kept}
use zephyr_kernel_bm_tuc_hms.Sim.Swap.Laws.{measure_z_swap_overhead_lem}
use zephyr_kernel_bm_tuc_hms.SemBlock.{
  measure_sem_z_swap_overhead, measure_give_tail_overhead, measure_take_tail_no_wait_overhead,
}
use zephyr_kernel_bm_tuc_hms.SemBlock.Laws.{
  measure_give_tail_overhead_lem, measure_take_tail_no_wait_overhead_lem,
}

-- The series of the probes, numbered behind scenario_a and scenario_b.
abbrev pub z_swap_overhead : Series
z_swap_overhead = 2

abbrev pub give_tail : Series
give_tail = 3

abbrev pub take_tail_no_wait : Series
take_tail_no_wait = 4

unfoldable pub main : Env → M SemFile (Unit {0})
main env =
    with_probes env (measure_sem_z_swap_overhead env z_swap_overhead 50000 swap_prologue)
      (measure_give_tail_overhead env give_tail 50000)
      (measure_take_tail_no_wait_overhead env take_tail_no_wait 50000)

-- main() of sem_block, run in thread mode as the first to call the harness, with the initial timeout of 0
-- ticks and another thread than the simulated current one in the ready cache: no null pointer is followed,
-- each of the three probes has given its series exactly 50,000 samples, each from a window of its own, no
-- other series has one, every window is shut, and I_Task is created last, behind the start signal.
pub sem_block_main-Prepared :
    (env : Env) (doc : KernelDoc env) (thread_mode : (t : Trace) → env.ipsr t ≡ 0)
    (w : World SemFile) (ticks : w.file.sim_take_ticks ≡ pos 0) (first : w.trace ≡ [])
    (other : w.ready_cache ≢ current_thread)
    → Ensures
        (λ _ w'. Prepared (fed_by_probes z_swap_overhead give_tail take_tail_no_wait 50000) w')
        (main env w)
unfolding main measure_sem_z_swap_overhead
sem_block_main-Prepared env doc thread_mode w ticks first other =
    with_probes-Prepared env z_swap_overhead give_tail take_tail_no_wait 50000
      (measure_sem_z_swap_overhead env z_swap_overhead 50000 swap_prologue)
      (measure_give_tail_overhead env give_tail 50000)
      (measure_take_tail_no_wait_overhead env take_tail_no_wait 50000)
      (λ v. Kept w.ready_cache w.file v) (λ v. Kept w.ready_cache w.file v)
      (λ v. v.file.sim_take_ticks ≡ pos 0)
      (λ v. (v.file.tail_sem.count ≡ 0) × (v.file.sim_take_sink ≡ to_u32 (neg env.ebusy))) w first
      (λ _ h. record { cache = h.same_cache; statics = h.same_file })
      (λ v c k r m a x y.
        Ensures-both _ _ _
          (Ensures-first _ _ _ (
            measure_z_swap_overhead_lem env z_swap_overhead k r m a cross_functions_file_scope_vars
              50000 swap_prologue v x y))
          (measure_z_swap_overhead-Kept env cross_functions_file_scope_vars z_swap_overhead 50000
            w.ready_cache w.file v c))
      (λ v c k r m a x y.
        let d = c.cache in
        let e = ap (λ (q : SemFile). q.sim_take_ticks) c.statics in
        Ensures-weaken
          (λ _ w'.
            Measured give_tail k 50000 r m w'
            × ((w'.cpu_current ≡ current_thread)
                × (w'.file.sim_take_ticks ≡ v.file.sim_take_ticks)))
          (λ _ w'. Measured give_tail k 50000 r m w' × (w'.file.sim_take_ticks ≡ pos 0))
          (measure_give_tail_overhead env give_tail 50000 v)
          (measure_give_tail_overhead_lem env doc give_tail k r m a thread_mode 50000 v
            (λ q. other cc) x y)
          (λ _ _ g. (g.0, g.1.1 ∙ e ∙ ticks)))
      (λ v t k r m a x y.
        measure_take_tail_no_wait_overhead_lem env doc take_tail_no_wait k r m a 50000 v t x y)
