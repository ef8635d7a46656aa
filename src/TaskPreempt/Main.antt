-- ===== src/TaskPreempt/Main.antt =====
-- main() of src/task_switching/task_preempt/time_task_switch.c.
use zephyr_kernel_bm_tuc_hms.Prelude.{◌≡◌, neg, to_u32, []}
use zephyr_kernel_bm_tuc_hms.Window.{Series}
use zephyr_kernel_bm_tuc_hms.Sim.Machine.{Env, World, M, Ensures}
use zephyr_kernel_bm_tuc_hms.Sim.Main.{with_probes, with_probes-Prepared, fed_by_probes, Prepared}
use zephyr_kernel_bm_tuc_hms.TaskPreempt.{
  TaskFile, measure_thread_resume_tail, measure_thread_suspend_tail, measure_swap_prologue_overhead,
}
use zephyr_kernel_bm_tuc_hms.TaskPreempt.Laws.{task_preempt_series}

-- The series of the probes, numbered behind scenario_a and scenario_b; swap_prologue of the source is
-- `prologue` here.
abbrev pub z_swap_overhead : Series
z_swap_overhead = 2

abbrev pub suspend_tail : Series
suspend_tail = 3

abbrev pub prologue : Series
prologue = 4

unfoldable pub main : Env → M TaskFile (Unit {0})
main env =
    with_probes env (measure_thread_resume_tail env z_swap_overhead 50000)
      (measure_thread_suspend_tail env suspend_tail 50000)
      (measure_swap_prologue_overhead env prologue 50000)

-- main() of task_preempt, run as the first to call the harness: no null pointer is followed, each of the
-- three probes has given its series exactly 50,000 samples, each from a window of its own, no other series
-- has one, every window is shut, and I_Task is created last, behind the start signal.
pub task_preempt_main-Prepared :
    (env : Env) (w : World TaskFile) (first : w.trace ≡ [])
    → Ensures
        (λ _ w'. Prepared (fed_by_probes z_swap_overhead suspend_tail prologue 50000) w')
        (main env w)
unfolding main
task_preempt_main-Prepared env w first =
    with_probes-Prepared env z_swap_overhead suspend_tail prologue 50000
      (measure_thread_resume_tail env z_swap_overhead 50000)
      (measure_thread_suspend_tail env suspend_tail 50000)
      (measure_swap_prologue_overhead env prologue 50000) (λ v. Unit {0}) (λ v. v.sim_sink ≡ 0)
      (λ v. v.sim_sink ≡ 0) (λ v. v.sim_sink ≡ to_u32 (neg env.eagain)) w first (λ _ h. tt)
      (λ v _ k r m a x y. (task_preempt_series env z_swap_overhead k r m a 50000 v x y).0)
      (λ v _ k r m a x y. (task_preempt_series env suspend_tail k r m a 50000 v x y).1)
      (λ v _ k r m a x y. (task_preempt_series env prologue k r m a 50000 v x y).2)
