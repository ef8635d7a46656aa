-- ===== src/SemPreempt/Threads.antt =====
-- The whole run of the threads of sem_preempt: time_task_switch_sem.c.
use zephyr_kernel_bm_tuc_hms.Prelude.{
  ℕ, min, ◌≤◌, ◌+◌, ◌*◌, ◌≡◌, refl, arith, none, Bool, true, false, if◌then◌else◌,
}
use zephyr_kernel_bm_tuc_hms.Window.{concerns}
use zephyr_kernel_bm_tuc_hms.Itc.Kernel.{Scheduler, SchedulerDoc}
use zephyr_kernel_bm_tuc_hms.Itc.Handover.States.{Then}
use zephyr_kernel_bm_tuc_hms.Scenario.Kernel.{View, Status, absent, ready, stopped, Kernel}
use zephyr_kernel_bm_tuc_hms.Scenario.Doc.{KernelDoc}
use zephyr_kernel_bm_tuc_hms.Scenario.Program.{
  Call, Program, ◌⨾◌, ◌then◌, Programs, System, Board, tasks, scenario_a, scenario_b,
}
use zephyr_kernel_bm_tuc_hms.Scenario.Run.{steps}
use zephyr_kernel_bm_tuc_hms.Scenario.Refine.{machine, Ranked}
use zephyr_kernel_bm_tuc_hms.Scenario.Rounds.{Seen, sample}
use zephyr_kernel_bm_tuc_hms.Scenario.Tally.{
  tally, timed, stray, follow, feeds_timed, feeds_any, count_mark,
}
use zephyr_kernel_bm_tuc_hms.Scenario.Whole.{parked, verdict, Completed, Booted, Course}
use zephyr_kernel_bm_tuc_hms.Scenario.Complete.{Counted, run-Completed}
use zephyr_kernel_bm_tuc_hms.SemPreempt.Tasks.{
  l_task_sa_loop, h_task_sa_loop, h_task_sb, h_task_sb_round, h_task_sb_loop, l_task_sb,
  l_task_sb_loop, i_task_a, i_task_b, i_task_end, threads, priority,
}

-- The calls and the rounds of a part of the run that depend on `has_waiter`.
abbrev to_s_b : Bool → ℕ
to_s_b true = 9
to_s_b false = 10

abbrev s_b_round : Bool → ℕ
s_b_round true = 12
s_b_round false = 13

abbrev s_b_count : Bool → Seen → ℕ
s_b_count true w = 0
s_b_count false w = w.count

-- With no waiter, what is given stays.
abbrev turn_b : ℕ → Bool → Board → Seen → Seen
turn_b limit true b w = sample b scenario_b w
turn_b limit false b w = record (sample b scenario_b w) { count = min (w.count + 1) limit }

abbrev first_b : Seen → Seen
first_b w = record w { count = 0 }

-- I_Task waits, for `n` more rounds of S_A.
abbrev at_a : Bool → ℕ → Seen → System View
at_a has_waiter n w =
    parked 0 4 ready stopped absent absent
      (record {
        left_1 = h_task_sa_loop;
        left_2 = l_task_sa_loop;
        left_3 = h_task_sb has_waiter;
        left_4 = l_task_sb has_waiter;
        idle_left = i_task_a n;
      })
      none w

-- Where L_Task_SB stands between two rounds: pending, or suspended.
abbrev waiter_left : Bool → Program
waiter_left true = Call.sem_take ⨾ l_task_sb_loop true
waiter_left false = l_task_sb_loop false

abbrev waiter_status : Bool → Status
waiter_status true = ready
waiter_status false = stopped

abbrev s_b_programs : Bool → Program → Programs
s_b_programs has_waiter rest = record {
  left_1 = h_task_sa_loop;
  left_2 = l_task_sa_loop;
  left_3 = h_task_sb_round has_waiter then h_task_sb_loop has_waiter;
  left_4 = waiter_left has_waiter;
  idle_left = rest;
}

abbrev at_b : Bool → ℕ → Seen → System View
at_b has_waiter n w =
    parked (s_b_count has_waiter w) 4 absent absent stopped (waiter_status has_waiter)
      (s_b_programs has_waiter (i_task_b n)) none w

abbrev over : Bool → Board → Seen → System View
over has_waiter b w =
    parked (s_b_count has_waiter w) 4 absent absent absent absent
      (s_b_programs has_waiter i_task_end) (verdict b w.trace) w

course :
    (limit : ℕ) (e : min 1 limit ≡ 1) (has_waiter : Bool) (b : Board)
    → Course
        (machine b limit priority)
        (threads has_waiter)
        16
        12
        (to_s_b has_waiter)
        (s_b_round has_waiter)
        3
        49999
        50000
        (at_a has_waiter)
        (at_b has_waiter)
        (sample b scenario_a)
        (turn_b limit has_waiter b)
        (sample b scenario_a)
        first_b
        (over has_waiter b)
unfolding steps
course limit e true b = record {
  to_a = λ z w. rw e refl;
  round_a = λ n w. rw e refl;
  to_b = λ w. refl;
  round_b = λ n w. rw e refl;
  to_end = λ w. refl;
  for_ever = λ w. refl;
}
course limit e false b = record {
  to_a = λ z w. rw e refl;
  round_a = λ n w. rw e refl;
  to_b = λ w. refl;
  round_b = λ n w. refl;
  to_end = λ w. refl;
  for_ever = λ w. refl;
}

counted :
    (limit : ℕ) (has_waiter : Bool) (b : Board)
    → Counted b 0 49999 50000
        (sample b scenario_a)
        (turn_b limit has_waiter b)
        (sample b scenario_a)
        first_b
unfolding timed stray tally concerns count_mark follow feeds_timed feeds_any
counted limit true b = record {
  same_a = λ w. refl;
  same_b = λ w. refl;
  start_a = λ w f. ground arith;
  start_stray = λ w f. ground arith;
  start_b = λ w f. ground arith;
  start_b_stray = λ w f. ground arith;
  change_a = λ w. ground arith;
  change_stray = λ w. ground arith;
  change_b = λ w. ground arith;
  change_b_stray = λ w. ground arith;
}
counted limit false b = record {
  same_a = λ w. refl;
  same_b = λ w. refl;
  start_a = λ w f. ground arith;
  start_stray = λ w f. ground arith;
  start_b = λ w f. ground arith;
  start_b_stray = λ w f. ground arith;
  change_a = λ w. ground arith;
  change_stray = λ w. ground arith;
  change_b = λ w. ground arith;
  change_b_stray = λ w. ground arith;
}

ranked : Ranked priority
ranked = record {
  order_1 = omega arith;
  order_2 = omega arith;
  order_3 = omega arith;
  order_4 = omega arith;
}

-- From an I_Task that is about to start alone, with nothing fed to either scenario: after
-- 1,200,016 calls where S_B has a waiter and 1,250,017 where it has none, and after any number of further
-- ones, I_Task has signalled at its last call whether neither series has an outlier, and either series
-- has 50,000 timed samples and no stray one. This holds of every kernel that does what is documented,
-- for a semaphore limit of at least 1,
-- and every scheduler that follows Zephyr's rule.
pub sem_preempt-Completed :
    (limit : ℕ) (some_limit : 1 ≤ limit) (has_waiter : Bool) (b : Board) {S : Type 0} (k : Kernel S)
    (view : S → View) (doc : KernelDoc k limit view) (next : Scheduler (System S))
    (rule : SchedulerDoc next) (y : System S) (booted : Booted view (threads has_waiter) y) (m : ℕ)
    → Then
        (λ y'. Completed b 0 y'.signalled y'.trace)
        (steps
          (λ y'. next (tasks b k priority y'))
          (16 + (49999 * 12 + (to_s_b has_waiter + (50000 * s_b_round has_waiter + (3 + m)))))
          y)
sem_preempt-Completed limit some_limit has_waiter b k view doc next rule y booted m =
    let e : min 1 limit ≡ 1 = omega arith in
    run-Completed b limit priority ranked (threads has_waiter) 16 12 (to_s_b has_waiter)
      (s_b_round has_waiter) 3 49999 50000 0 (at_a has_waiter) (at_b has_waiter)
      (sample b scenario_a) (turn_b limit has_waiter b) (sample b scenario_a) first_b
      (over has_waiter b) (course limit e has_waiter b) (counted limit has_waiter b) (λ w. refl)
      (λ w. refl) k view doc next rule y booted m
