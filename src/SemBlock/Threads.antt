-- ===== src/SemBlock/Threads.antt =====
-- The whole run of the threads of sem_block: time_task_switch_sem.c.
use zephyr_kernel_bm_tuc_hms.Prelude.{
  ℕ, min, ◌≤◌, ◌+◌, ◌*◌, ◌≡◌, refl, arith, ◌∷◌, Option, none, Bool,
}
use zephyr_kernel_bm_tuc_hms.Window.{Mark, concerns}
use zephyr_kernel_bm_tuc_hms.Itc.Kernel.{Scheduler, SchedulerDoc}
use zephyr_kernel_bm_tuc_hms.Itc.Handover.States.{Then}
use zephyr_kernel_bm_tuc_hms.Scenario.Kernel.{View, absent, ready, stopped, Kernel}
use zephyr_kernel_bm_tuc_hms.Scenario.Doc.{KernelDoc}
use zephyr_kernel_bm_tuc_hms.Scenario.Program.{
  Call, Program, finished, ◌⨾◌, System, Board, tasks, scenario_a, scenario_b,
}
use zephyr_kernel_bm_tuc_hms.Scenario.Run.{steps}
use zephyr_kernel_bm_tuc_hms.Scenario.Refine.{machine, Ranked}
use zephyr_kernel_bm_tuc_hms.Scenario.Rounds.{Seen, sample}
use zephyr_kernel_bm_tuc_hms.Scenario.Tally.{
  tally, timed, stray, follow, feeds_timed, feeds_any, count_mark,
}
use zephyr_kernel_bm_tuc_hms.Scenario.Whole.{parked, verdict, Completed, Booted, Course}
use zephyr_kernel_bm_tuc_hms.Scenario.Complete.{Counted, run-Completed}
use zephyr_kernel_bm_tuc_hms.SemBlock.Tasks.{
  l_task_sa, h_task_sa_loop, h_task_sb, h_task_sb_loop, i_task_a, i_task_b, i_task_end, threads,
  priority,
}

-- Where L_Task_SA is suspended.
abbrev l_task_sa_left : Program
l_task_sa_left = Call.sem_give ⨾ l_task_sa

-- I_Task waits, for `n` more rounds of S_A.
abbrev at_a : ℕ → Seen → System View
at_a n w =
    parked 0 4 ready stopped absent absent
      (record {
        left_1 = Call.sem_take ⨾ h_task_sa_loop;
        left_2 = l_task_sa_left;
        left_3 = h_task_sb;
        left_4 = finished;
        idle_left = i_task_a n;
      })
      none w

-- I_Task is in its S_B loop, or past it.
abbrev in_b : Program → Option Bool → Seen → System View
in_b rest signal w =
    parked 0 4 absent absent stopped absent
      (record {
        left_1 = Call.sem_take ⨾ h_task_sa_loop;
        left_2 = l_task_sa_left;
        left_3 = h_task_sb_loop;
        left_4 = finished;
        idle_left = rest;
      })
      signal w

abbrev at_b : ℕ → Seen → System View
at_b n w = in_b (i_task_b n) none w

abbrev over : Board → Seen → System View
over b w = in_b i_task_end (verdict b w.trace) w

-- L_Task_SA feeds once before the start, outside of a window; then H_Task_SA opens one.
abbrev first_a : Board → Seen → Seen
first_a b w =
    let z = b.counter w.trace in
    let ms =
      Mark.reset
      ∷ Mark.opened scenario_a
      ∷ Mark.closed scenario_a
      ∷ Mark.fed scenario_a w.last_start z
      ∷ Mark.stop z
      ∷ w.trace in
    let a = b.counter ms in record w { last_start = a; last_stop = z; trace = Mark.start a ∷ ms }

course :
    (limit : ℕ) (e : min 1 limit ≡ 1) (b : Board)
    → Course
        (machine b limit priority)
        threads
        14
        12
        15
        12
        1
        50000
        49999
        at_a
        at_b
        (sample b scenario_a)
        (sample b scenario_b)
        (first_a b)
        (sample b scenario_b)
        (over b)
unfolding steps
course limit e b = record {
  to_a = λ e w. refl;
  round_a = λ n w. rw e refl;
  to_b = λ w. refl;
  round_b = λ n w. refl;
  to_end = λ w. refl;
  for_ever = λ w. refl;
}

counted :
    (b : Board)
    → Counted b 1 50000 49999
        (sample b scenario_a)
        (sample b scenario_b)
        (first_a b)
        (sample b scenario_b)
unfolding timed stray tally concerns count_mark follow feeds_timed feeds_any
counted b = record {
  same_a = λ w. refl;
  same_b = λ w. refl;
  start_a = λ w f. ground arith;
  start_stray = λ w f. ground arith;
  start_b = λ w f. ground arith;
  start_b_stray = λ w f. ground arith;
  change_a = λ w. ground arith;
  change_stray = λ w. ground arith;
  change_b = λ w. ground arith;
  change_b_stray = λ w. ground arith;
}

ranked : Ranked priority
ranked = record {
  order_1 = omega arith;
  order_2 = omega arith;
  order_3 = omega arith;
  order_4 = omega arith;
}

-- From an I_Task that is about to start alone, with nothing fed to either scenario: after
-- 1,200,018 calls, and after any number of further ones, I_Task has signalled at its last call
-- whether neither series has an outlier, scenario_a has 50,000 timed samples and one stray one, which
-- L_Task_SA feeds when it is created, and scenario_b has 50,000 timed samples and no stray one. This
-- holds of every kernel that does what is documented, for a semaphore limit of at least 1, and every scheduler that follows Zephyr's rule.
pub sem_block-Completed :
    (limit : ℕ) (some_limit : 1 ≤ limit) (b : Board) {S : Type 0} (k : Kernel S) (view : S → View)
    (doc : KernelDoc k limit view) (next : Scheduler (System S)) (rule : SchedulerDoc next)
    (y : System S) (booted : Booted view threads y) (m : ℕ)
    → Then
        (λ y'. Completed b 1 y'.signalled y'.trace)
        (steps
          (λ y'. next (tasks b k priority y'))
          (14 + (50000 * 12 + (15 + (49999 * 12 + (1 + m)))))
          y)
sem_block-Completed limit some_limit b k view doc next rule y booted m =
    let e : min 1 limit ≡ 1 = omega arith in
    run-Completed b limit priority ranked threads 14 12 15 12 1 50000 49999 1 at_a at_b
      (sample b scenario_a) (sample b scenario_b) (first_a b) (sample b scenario_b) (over b)
      (course limit e b) (counted b) (λ w. refl) (λ w. refl) k view doc next rule y booted m
