-- ===== src/EventPreempt/Threads.antt =====
-- The whole run of the threads of event_preempt: time_task_switch_event.c.
use zephyr_kernel_bm_tuc_hms.Prelude.{
  ℕ, ◌+◌, ◌*◌, refl, arith, none, Bool, true, false, if◌then◌else◌,
}
use zephyr_kernel_bm_tuc_hms.Window.{concerns}
use zephyr_kernel_bm_tuc_hms.Itc.Kernel.{Scheduler, SchedulerDoc}
use zephyr_kernel_bm_tuc_hms.Itc.Handover.States.{Then}
use zephyr_kernel_bm_tuc_hms.Scenario.Kernel.{View, Status, absent, ready, stopped, Kernel}
use zephyr_kernel_bm_tuc_hms.Scenario.Doc.{KernelDoc}
use zephyr_kernel_bm_tuc_hms.Scenario.Program.{
  Call, Program, ◌⨾◌, ◌then◌, Programs, System, Board, tasks, scenario_a, scenario_b,
}
use zephyr_kernel_bm_tuc_hms.Scenario.Run.{steps}
use zephyr_kernel_bm_tuc_hms.Scenario.Refine.{machine, Ranked}
use zephyr_kernel_bm_tuc_hms.Scenario.Rounds.{Seen, sample_or_signal}
use zephyr_kernel_bm_tuc_hms.Scenario.Tally.{
  tally, timed, stray, follow, feeds_timed, feeds_any, count_mark,
}
use zephyr_kernel_bm_tuc_hms.Scenario.Whole.{parked, verdict, Completed, Booted, Course}
use zephyr_kernel_bm_tuc_hms.Scenario.Complete.{Counted, run-Completed}
use zephyr_kernel_bm_tuc_hms.EventPreempt.Tasks.{
  l_task_sa_loop, h_task_sa_loop, h_task_sb, h_task_sb_round, h_task_sb_loop, l_task_sb,
  l_task_sb_loop, i_task_a, i_task_b, i_task_end, threads, priority,
}

-- The calls and the rounds of a part of the run that depend on `has_waiter`.
abbrev to_s_b : Bool → ℕ
to_s_b true = 8
to_s_b false = 22

abbrev s_b_round : Bool → ℕ
s_b_round true = 12
s_b_round false = 13

abbrev s_b_rounds : Bool → ℕ
s_b_rounds true = 50000
s_b_rounds false = 49999

-- The posted events: with no waiter, scenario B's stay posted.
abbrev s_b_events : Bool → ℕ
s_b_events true = 4
s_b_events false = 6

abbrev first_b : Bool → Board → Seen → Seen
first_b true b w = w
first_b false b w = sample_or_signal b scenario_b w

-- I_Task waits, for `n` more rounds of S_A.
abbrev at_a : Bool → ℕ → Seen → System View
at_a has_waiter n w =
    parked w.count 4 ready stopped absent absent
      (record {
        left_1 = h_task_sa_loop;
        left_2 = l_task_sa_loop;
        left_3 = h_task_sb has_waiter;
        left_4 = l_task_sb has_waiter;
        idle_left = i_task_a n;
      })
      none w

-- Where L_Task_SB stands between two rounds: pending, or suspended.
abbrev waiter_left : Bool → Program
waiter_left true = Call.event_wait 2 ⨾ l_task_sb_loop true
waiter_left false = l_task_sb_loop false

abbrev waiter_status : Bool → Status
waiter_status true = ready
waiter_status false = stopped

abbrev s_b_programs : Bool → Program → Programs
s_b_programs has_waiter rest = record {
  left_1 = h_task_sa_loop;
  left_2 = l_task_sa_loop;
  left_3 = h_task_sb_round has_waiter then h_task_sb_loop has_waiter;
  left_4 = waiter_left has_waiter;
  idle_left = rest;
}

abbrev at_b : Bool → ℕ → Seen → System View
at_b has_waiter n w =
    parked w.count (s_b_events has_waiter) absent absent stopped (waiter_status has_waiter)
      (s_b_programs has_waiter (i_task_b n)) none w

abbrev over : Bool → Board → Seen → System View
over has_waiter b w =
    parked w.count (s_b_events has_waiter) absent absent absent absent
      (s_b_programs has_waiter i_task_end) (verdict b w.trace) w

course :
    (has_waiter : Bool) (b : Board) (limit : ℕ)
    → Course
        (machine b limit priority)
        (threads has_waiter)
        15
        12
        (to_s_b has_waiter)
        (s_b_round has_waiter)
        3
        49999
        (s_b_rounds has_waiter)
        (at_a has_waiter)
        (at_b has_waiter)
        (sample_or_signal b scenario_a)
        (sample_or_signal b scenario_b)
        (sample_or_signal b scenario_a)
        (first_b has_waiter b)
        (over has_waiter b)
unfolding steps
course true b limit = record {
  to_a = λ e w. refl;
  round_a = λ n w. refl;
  to_b = λ w. refl;
  round_b = λ n w. refl;
  to_end = λ w. refl;
  for_ever = λ w. refl;
}
course false b limit = record {
  to_a = λ e w. refl;
  round_a = λ n w. refl;
  to_b = λ w. refl;
  round_b = λ n w. refl;
  to_end = λ w. refl;
  for_ever = λ w. refl;
}

counted :
    (has_waiter : Bool) (b : Board)
    → Counted b 0 49999
        (s_b_rounds has_waiter)
        (sample_or_signal b scenario_a)
        (sample_or_signal b scenario_b)
        (sample_or_signal b scenario_a)
        (first_b has_waiter b)
unfolding timed stray tally concerns count_mark follow feeds_timed feeds_any
counted true b = record {
  same_a = λ w. refl;
  same_b = λ w. refl;
  start_a = λ w f. ground arith;
  start_stray = λ w f. ground arith;
  start_b = λ w f. ground arith;
  start_b_stray = λ w f. ground arith;
  change_a = λ w. ground arith;
  change_stray = λ w. ground arith;
  change_b = λ w. ground arith;
  change_b_stray = λ w. ground arith;
}
counted false b = record {
  same_a = λ w. refl;
  same_b = λ w. refl;
  start_a = λ w f. ground arith;
  start_stray = λ w f. ground arith;
  start_b = λ w f. ground arith;
  start_b_stray = λ w f. ground arith;
  change_a = λ w. ground arith;
  change_stray = λ w. ground arith;
  change_b = λ w. ground arith;
  change_b_stray = λ w. ground arith;
}

ranked : Ranked priority
ranked = record {
  order_1 = omega arith;
  order_2 = omega arith;
  order_3 = omega arith;
  order_4 = omega arith;
}

-- From an I_Task that is about to start alone, with nothing fed to either scenario: after
-- 1,200,014 calls where S_B has a waiter and 1,250,015 where it has none, and after any number of further
-- ones, I_Task has signalled at its last call whether neither series has an outlier, and either series
-- has 50,000 timed samples and no stray one. This holds of every kernel that does what is documented
-- and every scheduler that follows Zephyr's rule.
pub event_preempt-Completed :
    (has_waiter : Bool) (b : Board) (limit : ℕ) {S : Type 0} (k : Kernel S) (view : S → View)
    (doc : KernelDoc k limit view) (next : Scheduler (System S)) (rule : SchedulerDoc next)
    (y : System S) (booted : Booted view (threads has_waiter) y) (m : ℕ)
    → Then
        (λ y'. Completed b 0 y'.signalled y'.trace)
        (steps
          (λ y'. next (tasks b k priority y'))
          (15
            + (49999 * 12
                + (to_s_b has_waiter + (s_b_rounds has_waiter * s_b_round has_waiter + (3 + m)))))
          y)
event_preempt-Completed has_waiter b limit k view doc next rule y booted m =
    run-Completed b limit priority ranked (threads has_waiter) 15 12 (to_s_b has_waiter)
      (s_b_round has_waiter) 3 49999 (s_b_rounds has_waiter) 0 (at_a has_waiter) (at_b has_waiter)
      (sample_or_signal b scenario_a) (sample_or_signal b scenario_b)
      (sample_or_signal b scenario_a) (first_b has_waiter b) (over has_waiter b)
      (course has_waiter b limit) (counted has_waiter b) (λ w. refl) (λ w. refl) k view doc next
      rule y booted m
