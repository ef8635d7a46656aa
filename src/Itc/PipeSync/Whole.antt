-- ===== src/Itc/PipeSync/Whole.antt =====
-- The whole run of src/itc/pipe/pipe_sync.c.
use zephyr_kernel_bm_tuc_hms.Prelude.{ℕ, suc, ◌+◌, ◌*◌, ◌≤◌, ◌≡◌, refl, List, none, some}
use zephyr_kernel_bm_tuc_hms.Window.{Mark, Series}
use zephyr_kernel_bm_tuc_hms.Itc.Kernel.{Scheduler, SchedulerDoc}
use zephyr_kernel_bm_tuc_hms.Itc.Handover.{Direction, up, down}
use zephyr_kernel_bm_tuc_hms.Itc.Handover.States.{Then}
use zephyr_kernel_bm_tuc_hms.Scenario.Kernel.{Kernel, View, no_transfer, absent, ready}
use zephyr_kernel_bm_tuc_hms.Scenario.Doc.{KernelDoc}
use zephyr_kernel_bm_tuc_hms.Scenario.Program.{
  Board, Call, Program, finished, for_count, Programs, System, tasks,
}
use zephyr_kernel_bm_tuc_hms.Scenario.Run.{steps}
use zephyr_kernel_bm_tuc_hms.Scenario.Refine.{machine}
use zephyr_kernel_bm_tuc_hms.Scenario.Rounds.{Seen}
use zephyr_kernel_bm_tuc_hms.Scenario.Whole.{parked}
use zephyr_kernel_bm_tuc_hms.Scenario.Sweep.{Sweeping, sized}
use zephyr_kernel_bm_tuc_hms.Itc.Async.{below_nine, none_or_more}
use zephyr_kernel_bm_tuc_hms.Itc.Sync.{
  meeting, sync_priority, signal_loop, outliers_added, sync_verdict,
}
use zephyr_kernel_bm_tuc_hms.Itc.Sync.Course.{Launched, SyncCompleted, SyncCourse}
use zephyr_kernel_bm_tuc_hms.Itc.Sync.Complete.{run-SyncCompleted}
use zephyr_kernel_bm_tuc_hms.Itc.PipeSync.{
  send_up_loop, t_recv_up, send_down_loop, t_recv_down, arm_up_round, arm_up_sweep, arm_down_round,
  arm_down_sweep, functions, after_up, after_down, i_task,
}

-- Nothing is given and nothing on its way through the pipe.
abbrev set_up : Seen → Seen
set_up w = record w {
  outlier_count = 0;
  functions = functions;
  mail = record w.mail { arm_count = 0; recv_count = 0; transfer = no_transfer };
}

-- The threads of a direction between two transactions, the releaser and I_Task being at the given places.
abbrev threads_at : Direction → Program → Program → Programs
threads_at up releaser i = record {
  left_1 = t_recv_up;
  left_2 = send_up_loop;
  left_3 = releaser;
  left_4 = finished;
  idle_left = i;
}
threads_at down releaser i = record {
  left_1 = send_down_loop;
  left_2 = t_recv_down;
  left_3 = releaser;
  left_4 = finished;
  idle_left = i;
}

abbrev waiting : Direction → Program
waiting up = after_up
waiting down = after_down

abbrev releasing : Direction → ℕ → ℕ → Program
releasing up n step = arm_up_sweep n step
releasing down n step = arm_down_sweep n step

abbrev round_of : Direction → ℕ → List Call
round_of up step = arm_up_round step
round_of down step = arm_down_round step

abbrev at_program : Direction → Program → Seen → System View
at_program d p w =
    parked w.count 0 ready ready ready absent (threads_at d p (waiting d)) none (set_up w)

abbrev before : Direction → ℕ → ℕ → Seen → System View
before d n step w = at_program d (releasing d n step) w

abbrev inside : Direction → ℕ → ℕ → ℕ → Seen → System View
inside d n step m w =
    at_program d (for_count m (round_of d step) (releasing d n (suc step))) (sized step w)

abbrev after : Direction → Seen → System View
after d w = before d 0 0 w

abbrev over : Board → Seen → System View
over b w =
    parked w.count 0 absent absent absent absent (threads_at down finished signal_loop)
      (sync_verdict b w.trace)
      (record (set_up w) { outlier_count = outliers_added b w.trace 9 0 0 })

abbrev same_seen : Seen → Seen
same_seen w = w

sweeping :
    (b : Board) (limit : ℕ) (d : Direction)
    → Sweeping (machine b limit sync_priority) 18 (before d) (inside d) (after d) (meeting b d)
unfolding steps
sweeping b limit up = record {
  begin = λ n step w. refl;
  round = λ n step m w l.
      below_nine
        (λ s.
          steps (machine b limit sync_priority) 18 (inside up n s (suc m) w)
          ≡ some (inside up n s m (meeting b up s w)))
        refl refl refl refl refl refl refl refl refl step l;
  leave = λ n step w.
      none_or_more
        (λ m.
          machine b limit sync_priority (inside up m step 0 w)
          ≡ machine b limit sync_priority (before up m (suc step) (sized step w)))
        refl (λ m. refl) n;
  done = λ step w. refl;
}
sweeping b limit down = record {
  begin = λ n step w. refl;
  round = λ n step m w l.
      below_nine
        (λ s.
          steps (machine b limit sync_priority) 18 (inside down n s (suc m) w)
          ≡ some (inside down n s m (meeting b down s w)))
        refl refl refl refl refl refl refl refl refl step l;
  leave = λ n step w.
      none_or_more
        (λ m.
          machine b limit sync_priority (inside down m step 0 w)
          ≡ machine b limit sync_priority (before down m (suc step) (sized step w)))
        refl (λ m. refl) n;
  done = λ step w. refl;
}

course :
    (b : Board) (limit : ℕ)
    → SyncCourse b
        (machine b limit sync_priority)
        i_task
        functions
        13
        18
        16
        42
        before
        inside
        after
        (meeting b)
        same_seen
        same_seen
        (over b)
unfolding steps
course b limit = record {
  to_up = λ e w. refl;
  sweeping = sweeping b limit;
  to_down = λ w. refl;
  to_end = λ w. refl;
  for_ever = λ w. refl;
  takes = λ d i w. refl;
  first_quiet = λ w. refl;
  second_quiet = λ w. refl;
  over_signal = λ w. refl;
  over_trace = λ w. refl;
}

-- pipe_sync.c ends: from the start of I_Task, alone and with nobody waiting for test_event, after 13 + (1 + 18 *
-- 50000) * 9 + 17 + (1 + 18 * 50000) * 9 + 43 calls and for ever after, I_Task has signalled whether no series
-- has an outlier, and in every step and direction both series have 50,000 samples more than before,
-- each the start and the marker of the receiver, or of the sender, in its window, and no other values.
-- This holds of every kernel that does what is documented, every scheduler that follows Zephyr's rule
-- and every harness that never counts more than 50,000 outliers of a series.
pub pipe_sync-SyncCompleted :
    (b : Board) (limit : ℕ) {S : Type 0} (k : Kernel S) (view : S → View)
    (doc : KernelDoc k limit view) (next : Scheduler (System S)) (rule : SchedulerDoc next)
    (fits : (s : Series) (ms : List Mark) → b.outliers s ms ≤ 50000) (y : System S)
    (launched : Launched view i_task functions y) (m : ℕ)
    → Then
        (λ y'. SyncCompleted b y.trace y'.signalled y'.trace)
        (steps
          (λ y'. next (tasks b k sync_priority y'))
          (13 + (9 * (1 + 50000 * 18) + suc (16 + (9 * (1 + 50000 * 18) + suc (42 + m)))))
          y)
pipe_sync-SyncCompleted b limit k view doc next rule fits y launched m =
    run-SyncCompleted b limit i_task functions 13 18 16 42 before inside after (meeting b) same_seen
      same_seen (over b) (course b limit) k view doc next rule fits y launched m
