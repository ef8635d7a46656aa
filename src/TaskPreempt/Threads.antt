-- ===== src/TaskPreempt/Threads.antt =====
-- The whole run of the threads of task_preempt/time_task_switch.c.
use zephyr_kernel_bm_tuc_hms.Prelude.{ℕ, ◌+◌, ◌*◌, refl, arith, Bool, Option, none}
use zephyr_kernel_bm_tuc_hms.Itc.Kernel.{Scheduler, SchedulerDoc}
use zephyr_kernel_bm_tuc_hms.Itc.Handover.States.{Then}
use zephyr_kernel_bm_tuc_hms.Scenario.Kernel.{
  Kernel, View, Status, absent, ready, stopped, slot_2, slot_3,
}
use zephyr_kernel_bm_tuc_hms.Scenario.Doc.{KernelDoc}
use zephyr_kernel_bm_tuc_hms.Scenario.Program.{
  Call, Program, finished, ◌⨾◌, System, Board, tasks, scenario_a, scenario_b,
}
use zephyr_kernel_bm_tuc_hms.Scenario.Run.{steps}
use zephyr_kernel_bm_tuc_hms.Scenario.Refine.{machine, Ranked}
use zephyr_kernel_bm_tuc_hms.Scenario.Rounds.{Seen, sample}
use zephyr_kernel_bm_tuc_hms.Scenario.Whole.{
  parked, verdict, Completed, Booted, boot, seen, viewed-boot,
}
use zephyr_kernel_bm_tuc_hms.Scenario.Guarded.{CountsSamples, is_counted, steps-then, steps-else}
use zephyr_kernel_bm_tuc_hms.Scenario.GuardedWhole.{GuardedCourse, run-GuardedCompleted}
use zephyr_kernel_bm_tuc_hms.TaskPreempt.Tasks.{
  l_task_sa_loop, h_task_sa_loop, task_sb, i_task_end, i_task_change, threads, priority,
}

-- Where H_Task_SA is suspended, but for its first call in the loop.
abbrev h_task_sa_left : Program
h_task_sa_left =
    Call.get_stop_cnt
    ⨾ Call.mseries_iterate scenario_a
    ⨾ Call.mwindow_close scenario_a
    ⨾ Call.skip_unless_counted scenario_a 2
    ⨾ Call.thread_suspend slot_3
    ⨾ Call.suspend_self
    ⨾ h_task_sa_loop

-- Task_SB after it has suspended H_Task_SA.
abbrev task_sb_left : Program
task_sb_left =
    Call.mwindow_open scenario_b
    ⨾ Call.reset_counter
    ⨾ Call.get_start_cnt
    ⨾ Call.thread_resume slot_2
    ⨾ Call.get_stop_cnt
    ⨾ Call.mseries_iterate scenario_b
    ⨾ Call.mwindow_close scenario_b
    ⨾ Call.skip_unless_counted scenario_b 1
    ⨾ Call.suspend_self
    ⨾ task_sb

abbrev in_a : Status → Program → Seen → System View
in_a h p w =
    parked w.count 0 absent h ready absent
      (record {
        left_1 = task_sb;
        left_2 = p;
        left_3 = l_task_sa_loop;
        left_4 = finished;
        idle_left = i_task_change;
      })
      none w

abbrev at_a : Seen → System View
at_a w = in_a stopped h_task_sa_left w

-- H_Task_SA under its test.
abbrev last_a : Seen → System View
last_a w = in_a ready (Call.thread_suspend slot_3 ⨾ Call.suspend_self ⨾ h_task_sa_loop) w

-- Both threads of S_A are suspended.
abbrev out_a : Seen → System View
out_a w =
    parked w.count 0 absent stopped stopped absent
      (record {
        left_1 = task_sb;
        left_2 = h_task_sa_loop;
        left_3 = l_task_sa_loop;
        left_4 = finished;
        idle_left = i_task_change;
      })
      none w

abbrev in_b : Status → Status → Program → Option Bool → Seen → System View
in_b sb h p signal w =
    parked w.count 0 sb h absent absent
      (record {
        left_1 = p;
        left_2 = h_task_sa_loop;
        left_3 = l_task_sa_loop;
        left_4 = finished;
        idle_left = i_task_end;
      })
      signal w

abbrev at_b : Seen → System View
at_b w = in_b ready stopped task_sb_left none w

-- H_Task_SA, which Task_SB has resumed, can run once Task_SB is suspended.
abbrev out_b : Seen → System View
out_b w = in_b stopped ready task_sb none w

abbrev over : Board → Seen → System View
over b w =
    parked w.count 0 stopped stopped absent absent
      (record {
        left_1 = task_sb;
        left_2 = h_task_sa_left;
        left_3 = l_task_sa_loop;
        left_4 = finished;
        idle_left = i_task_end;
      })
      (verdict b w.trace) w

abbrev same_seen : Seen → Seen
same_seen w = w

course :
    (b : Board) (limit e : ℕ)
    → GuardedCourse b
        (machine b limit priority)
        9
        10
        11
        3
        9
        9
        2
        (boot threads e)
        at_a
        out_a
        at_b
        out_b
        (over b)
        (sample b scenario_a)
        (sample b scenario_b)
        same_seen
        same_seen
unfolding steps
course b limit e = record {
  to_a = λ w. refl;
  loop_a = record {
    again = λ w h.
        steps-else (machine b limit priority) 9 1 (at_a w) (last_a (sample b scenario_a w))
          (in_a ready h_task_sa_loop (sample b scenario_a w)) _
          (is_counted b scenario_a (sample b scenario_a w)) refl h refl;
    leave = λ w h.
        steps-then (machine b limit priority) 9 2 (at_a w) (last_a (sample b scenario_a w))
          (in_a ready h_task_sa_loop (sample b scenario_a w)) _
          (is_counted b scenario_a (sample b scenario_a w)) refl h refl;
    takes = λ w. refl;
  };
  to_b = λ w. refl;
  loop_b = record {
    again = λ w h.
        steps-else (machine b limit priority) 8 1 (at_b w)
          (in_b ready ready (Call.suspend_self ⨾ task_sb) none (sample b scenario_b w))
          (in_b ready ready task_sb none (sample b scenario_b w)) _
          (is_counted b scenario_b (sample b scenario_b w)) refl h refl;
    leave = λ w h.
        steps-then (machine b limit priority) 8 1 (at_b w)
          (in_b ready ready (Call.suspend_self ⨾ task_sb) none (sample b scenario_b w))
          (in_b ready ready task_sb none (sample b scenario_b w)) _
          (is_counted b scenario_b (sample b scenario_b w)) refl h refl;
    takes = λ w. refl;
  };
  to_end = λ w. refl;
  for_ever = λ w. refl;
  first_quiet = λ w. refl;
  second_quiet = λ w. refl;
  over_signal = λ w. refl;
  over_trace = λ w. refl;
}

ranked : Ranked priority
ranked = record {
  order_1 = omega arith;
  order_2 = omega arith;
  order_3 = omega arith;
  order_4 = omega arith;
}

-- task_preempt ends: from the start of I_Task, alone and with nothing fed yet, after 9 + (49999 * 10 + 11) + 3 +
-- (49999 * 9 + 9) + 2 calls and for ever after, I_Task has signalled whether neither scenario has an
-- outlier, and each scenario has exactly 50,000 samples, each the two captures of its window, and no
-- other values. This holds of every kernel that does what is documented, every scheduler that follows
-- Zephyr's rule, and every harness whose iteration_count is the number of samples of a series to which
-- nothing else was fed.
pub task_preempt-Completed :
    (b : Board) (counts : CountsSamples b) (limit : ℕ) {S : Type 0} (k : Kernel S) (view : S → View)
    (doc : KernelDoc k limit view) (next : Scheduler (System S)) (rule : SchedulerDoc next)
    (y : System S) (booted : Booted view threads y) (m : ℕ)
    → Then
        (λ y'. Completed b 0 y'.signalled y'.trace)
        (steps
          (λ y'. next (tasks b k priority y'))
          (9 + ((49999 * 10 + 11) + (3 + ((49999 * 9 + 9) + (2 + m)))))
          y)
task_preempt-Completed b counts limit k view doc next rule y booted m =
    let e = (view y.kernel).events in
    run-GuardedCompleted b limit priority ranked 9 10 11 3 9 9 2 (boot threads e) at_a out_a at_b
      out_b (over b) (sample b scenario_a) (sample b scenario_b) same_seen same_seen
      (course b limit e) counts k view doc next rule y (seen view y)
      (viewed-boot view threads y booted) booted.a_fresh booted.b_fresh m
