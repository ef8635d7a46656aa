-- ===== src/Examples/Change.antt =====
-- The theorems on src/task_switching/task_change at a concrete state.
use zephyr_kernel_bm_tuc_hms.Prelude.{ℕ, ◌≡◌, refl, none, [], ◌∷◌}
use zephyr_kernel_bm_tuc_hms.Itc.Handover.States.{Then}
use zephyr_kernel_bm_tuc_hms.Scenario.Program.{scenario_a}
use zephyr_kernel_bm_tuc_hms.Scenario.Run.{steps}
use zephyr_kernel_bm_tuc_hms.Scenario.Tally.{tally, timed, stray}
use zephyr_kernel_bm_tuc_hms.Scenario.Whole.{Completed}
use zephyr_kernel_bm_tuc_hms.TaskChange.Ready.{
  WakeOrder, newest_first, View, KernelDoc, documented, idle_thread,
}
use zephyr_kernel_bm_tuc_hms.TaskChange.Tasks.{System, threads, next_state}
use zephyr_kernel_bm_tuc_hms.TaskChange.Whole.{Started, test_calls, task_change-Completed}
use zephyr_kernel_bm_tuc_hms.TaskChange.Reversed.{task_change-stray}
use zephyr_kernel_bm_tuc_hms.Examples.Desk.{desk}
use zephyr_kernel_bm_tuc_hms.Examples.Guarded.{desk-CountsSamples}

abbrev as_it_is : View → View
as_it_is v = v

documented-KernelDoc : (o : WakeOrder) → KernelDoc (documented o) o as_it_is
documented-KernelDoc o = record {
  event_init = λ s. refl;
  event_wait = λ m s. refl;
  event_post = λ m s. refl;
  yield = λ s. refl;
  thread_create = λ t s. refl;
  thread_abort = λ t s. refl;
  thread_suspend = λ t s. refl;
  running = λ s. refl;
}

abbrev at_the_start : ℕ → System View
at_the_start n = record {
  kernel = record { queue = idle_thread ∷ []; waiters = []; events = 0x0008 };
  programs = threads n;
  test_start_time = 0;
  test_stop_time = 0;
  signalled = none;
  trace = [];
}

at_the_start-Started : (n : ℕ) → Started as_it_is n (at_the_start n)
unfolding tally
at_the_start-Started n = record {
  alone = refl;
  nobody_waits = refl;
  of_programs = refl;
  no_signal = refl;
  a_fresh = refl;
  b_fresh = refl;
}

-- H_Task_SA is made ready first.
task_change-Completed_example :
    Then
      (λ y'. Completed desk 0 y'.signalled y'.trace)
      (steps
        (next_state desk (documented newest_first))
        (test_calls newest_first 7)
        (at_the_start 0))
task_change-Completed_example =
    task_change-Completed desk desk-CountsSamples newest_first (documented newest_first) as_it_is
      (documented-KernelDoc newest_first) (at_the_start 0) (at_the_start-Started 0) 7

task_change-stray_example :
    Then
      (λ y'. (timed scenario_a y'.trace ≡ 0) × (stray scenario_a y'.trace ≡ 1))
      (steps (next_state desk (documented newest_first)) 45 (at_the_start 4))
task_change-stray_example =
    task_change-stray desk desk-CountsSamples (documented newest_first) as_it_is
      (documented-KernelDoc newest_first) (at_the_start 4) (at_the_start-Started 4)
