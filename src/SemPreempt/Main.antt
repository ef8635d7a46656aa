-- ===== src/SemPreempt/Main.antt =====
-- main() of src/task_switching/sem_preempt/time_task_switch_sem.c.
use zephyr_kernel_bm_tuc_hms.Prelude.{ℕ, zero, suc, arith, ◌≡◌, []}
use zephyr_kernel_bm_tuc_hms.Window.{Series}
use zephyr_kernel_bm_tuc_hms.Sim.Machine.{
  cross_functions_file_scope_vars, Env, KernelDoc, World, M, Ensures,
}
use zephyr_kernel_bm_tuc_hms.Sim.Main.{
  with_probes, with_probes-Prepared, fed_by_probes, Prepared, Gives, Ensures-any,
}
use zephyr_kernel_bm_tuc_hms.Sim.Swap.{swap_prologue}
use zephyr_kernel_bm_tuc_hms.Sim.Swap.Laws.{measure_z_swap_overhead_lem, returned}
use zephyr_kernel_bm_tuc_hms.Sim.Sem.{SemFile}
use zephyr_kernel_bm_tuc_hms.SemPreempt.{
  measure_give_tail_no_swap_overhead, measure_take_tail_overhead, measure_sem_z_swap_overhead,
}
use zephyr_kernel_bm_tuc_hms.SemPreempt.Laws.{
  give_tail-no_waiter, give_tail-waiter, measure_take_tail_overhead_lem,
}

-- The series of the probes, numbered behind scenario_a and scenario_b.
abbrev pub z_swap_overhead : Series
z_swap_overhead = 2

abbrev pub take_tail : Series
take_tail = 3

abbrev pub give_tail : Series
give_tail = 4

-- `has_waiter` is TEST_SB_HAS_WAITER.
unfoldable pub main : Env → ℕ → M SemFile (Unit {0})
main env has_waiter =
    with_probes env (measure_give_tail_no_swap_overhead env give_tail 50000 has_waiter)
      (measure_take_tail_overhead env take_tail 50000)
      (measure_sem_z_swap_overhead env z_swap_overhead 50000 swap_prologue)

gives :
    (env : Env) (doc : KernelDoc env) (has_waiter : ℕ) (v : World SemFile)
    → Gives
        (λ _. Unit {0})
        give_tail
        50000
        (measure_give_tail_no_swap_overhead env give_tail 50000 has_waiter)
        v
gives env doc zero v k r m a x y =
    Ensures-any _ _ _ (give_tail-no_waiter env doc give_tail k r m a 50000 v x y)
gives env doc (suc b) v k r m a x y =
    Ensures-any _ _ _
      (give_tail-waiter env doc give_tail k r m a 50000 (suc b) v (λ e. omega (arith, e)) x y)

-- main() of sem_preempt, run as the first to call the harness, for each TEST_SB_HAS_WAITER: no null pointer
-- is followed, each of the three probes has given its series exactly 50,000 samples, each from a window of
-- its own, no other series has one, every window is shut, and I_Task is created last, behind the start
-- signal.
pub sem_preempt_main-Prepared :
    (env : Env) (doc : KernelDoc env) (has_waiter : ℕ) (w : World SemFile) (first : w.trace ≡ [])
    → Ensures
        (λ _ w'. Prepared (fed_by_probes give_tail take_tail z_swap_overhead 50000) w')
        (main env has_waiter w)
unfolding main measure_sem_z_swap_overhead
sem_preempt_main-Prepared env doc has_waiter w first =
    with_probes-Prepared env give_tail take_tail z_swap_overhead 50000
      (measure_give_tail_no_swap_overhead env give_tail 50000 has_waiter)
      (measure_take_tail_overhead env take_tail 50000)
      (measure_sem_z_swap_overhead env z_swap_overhead 50000 swap_prologue) (λ v. Unit {0})
      (λ v. Unit {0}) (λ v. (v.file.tail_sem.count ≡ 0) × (v.file.sim_take_sink ≡ 0))
      (λ v. v.sim_sink ≡ returned env swap_prologue) w first (λ _ h. tt)
      (λ v _ k r m a x y. gives env doc has_waiter v k r m a x y)
      (λ v _ k r m a x y. measure_take_tail_overhead_lem env doc take_tail k r m a 50000 v x y)
      (λ v _ k r m a x y.
        measure_z_swap_overhead_lem env z_swap_overhead k r m a cross_functions_file_scope_vars
          50000 swap_prologue v x y)
