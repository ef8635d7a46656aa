-- ===== src/Examples/Guarded.antt =====
-- The theorems on the tests whose loops end with iteration_count at a concrete state.
use zephyr_kernel_bm_tuc_hms.Prelude.{◌+◌, ◌*◌, ◌≡◌, suc, refl, none, []}
use zephyr_kernel_bm_tuc_hms.Itc.Handover.States.{Then}
use zephyr_kernel_bm_tuc_hms.Scenario.Kernel.{View, documented, absent, ready}
use zephyr_kernel_bm_tuc_hms.Scenario.Program.{finished, System, tasks, scenario_a}
use zephyr_kernel_bm_tuc_hms.Scenario.Run.{steps}
use zephyr_kernel_bm_tuc_hms.Scenario.Tally.{tally, timed, stray}
use zephyr_kernel_bm_tuc_hms.Scenario.Whole.{parked, Completed}
use zephyr_kernel_bm_tuc_hms.Scenario.Guarded.{CountsSamples}
use zephyr_kernel_bm_tuc_hms.TaskPreempt.Tasks as TaskPreemptTasks
use zephyr_kernel_bm_tuc_hms.TaskPreempt.Threads.{task_preempt-Completed}
use zephyr_kernel_bm_tuc_hms.Irt as Irt
use zephyr_kernel_bm_tuc_hms.Irt.Whole.{Connected, irt-Completed}
use zephyr_kernel_bm_tuc_hms.Irt.Released.{by_event, waiting_at, at_test, released_round-stray}
use zephyr_kernel_bm_tuc_hms.Examples.Counts.{highest, highest-SchedulerDoc}
use zephyr_kernel_bm_tuc_hms.Examples.Desk.{
  itself, documented-KernelDoc, desk, dawn, dawn-Booted, unseen,
}

pub desk-CountsSamples : CountsSamples desk
desk-CountsSamples s ms h = refl

task_preempt-Completed_example :
    Then
      (λ y'. Completed desk 0 y'.signalled y'.trace)
      (steps
        (λ y'. highest (tasks desk (documented 1) TaskPreemptTasks.priority y'))
        (9 + ((49999 * 10 + 11) + (3 + ((49999 * 9 + 9) + (2 + 4)))))
        (dawn TaskPreemptTasks.threads))
task_preempt-Completed_example =
    task_preempt-Completed desk desk-CountsSamples 1 (documented 1) itself (documented-KernelDoc 1)
      highest highest-SchedulerDoc (dawn TaskPreemptTasks.threads)
      (dawn-Booted TaskPreemptTasks.threads) 4

abbrev at_connection : System View
at_connection =
    parked 0 0 ready absent absent absent
      (Irt.threads_at Irt.release_none finished finished (Irt.i_task Irt.release_none)) none
      (record unseen { functions = Irt.functions })

at_connection-Connected : Connected itself finished finished at_connection
unfolding tally
at_connection-Connected = record {
  nobody_waits = refl;
  line_idle = refl;
  handler_ready = refl;
  no_a = refl;
  no_l = refl;
  none_4 = refl;
  idle_ready = refl;
  of_programs = refl;
  of_functions = refl;
  no_signal = refl;
  nothing_fed_a = refl;
  nothing_fed_b = refl;
}

irt-Completed_example :
    Then
      (λ y'. Completed desk 0 y'.signalled y'.trace)
      (steps
        (λ y'. highest (tasks desk (documented 1) Irt.priority y'))
        (7 + ((49999 * 9 + 11) + (7 + ((49999 * 9 + 11) + (3 + 4)))))
        at_connection)
irt-Completed_example =
    irt-Completed desk desk-CountsSamples 1 (documented 1) itself (documented-KernelDoc 1) highest
      highest-SchedulerDoc at_connection finished finished at_connection-Connected 4

released_round-stray_example :
    Then
      (λ y'.
        (y'.programs.left_3 ≡ at_test)
        × (timed scenario_a y'.trace ≡ suc (timed scenario_a []))
        × (stray scenario_a y'.trace ≡ suc (stray scenario_a [])))
      (steps
        (λ y'. highest (tasks desk (documented 1) Irt.priority y'))
        12
        (waiting_at by_event Irt.l_task_sa_loop unseen))
released_round-stray_example =
    released_round-stray desk by_event (documented 1) itself (documented-KernelDoc 1) highest
      highest-SchedulerDoc (waiting_at by_event Irt.l_task_sa_loop unseen) unseen refl
