-- ===== src/Itc/MailboxAsync/Whole.antt =====
-- The whole run of src/itc/mailbox/mailbox_async.c.
use zephyr_kernel_bm_tuc_hms.Prelude.{ℕ, suc, ◌+◌, ◌*◌, ◌≡◌, refl, [], none, some}
use zephyr_kernel_bm_tuc_hms.Itc.Kernel.{Scheduler, SchedulerDoc}
use zephyr_kernel_bm_tuc_hms.Itc.Handover.{up, down}
use zephyr_kernel_bm_tuc_hms.Itc.Handover.States.{Then}
use zephyr_kernel_bm_tuc_hms.Scenario.Kernel.{Kernel, View, Status, absent, ready}
use zephyr_kernel_bm_tuc_hms.Scenario.Doc.{KernelDoc}
use zephyr_kernel_bm_tuc_hms.Scenario.Program.{
  Board, Program, finished, for_count, Programs, System, tasks,
}
use zephyr_kernel_bm_tuc_hms.Scenario.Run.{steps}
use zephyr_kernel_bm_tuc_hms.Scenario.Refine.{machine}
use zephyr_kernel_bm_tuc_hms.Scenario.Rounds.{Seen}
use zephyr_kernel_bm_tuc_hms.Scenario.Whole.{parked}
use zephyr_kernel_bm_tuc_hms.Scenario.Sweep.{Sweeping, sized}
use zephyr_kernel_bm_tuc_hms.Itc.Sync.{sync_priority, signal_loop}
use zephyr_kernel_bm_tuc_hms.Itc.Outliers.{outlier_count}
use zephyr_kernel_bm_tuc_hms.Itc.Sync.Course.{Launched}
use zephyr_kernel_bm_tuc_hms.Itc.Async.{Phase, to_self, toward, below_nine, none_or_more}
use zephyr_kernel_bm_tuc_hms.Itc.Async.Outcome.{all_outliers, async_verdict, AsyncCompleted}
use zephyr_kernel_bm_tuc_hms.Itc.Async.Course.{AsyncCourse, run-AsyncCompleted}
use zephyr_kernel_bm_tuc_hms.Itc.MailboxAsync.{t_send_up, t_recv_up, t_send_down, t_recv_down}
use zephyr_kernel_bm_tuc_hms.Itc.MailboxAsync.States.{sweeper, round_of, turn}
use zephyr_kernel_bm_tuc_hms.Itc.MailboxAsync.Start.{
  functions, after_self, after_up, after_down, i_task_from_start,
}

-- Nothing is given and nothing in the mailboxes.
abbrev set_up : Seen → Seen
set_up w = record w {
  outlier_count = 0;
  functions = functions;
  mail = record w.mail {
    arm_count = 0;
    recv_count = 0;
    self_object = record w.mail.self_object { messages = [] };
    high_object = record w.mail.high_object { messages = [] };
    low_object = record w.mail.low_object { messages = [] };
  };
}

-- The threads of a phase between two samples, the one with the sweep and I_Task being at the given places.
abbrev threads_in : Phase → Program → Program → Programs
threads_in to_self p i = record {
  left_1 = finished;
  left_2 = p;
  left_3 = finished;
  left_4 = finished;
  idle_left = i;
}
threads_in (toward up) p i = record {
  left_1 = t_recv_up;
  left_2 = t_send_up;
  left_3 = p;
  left_4 = finished;
  idle_left = i;
}
threads_in (toward down) p i = record {
  left_1 = t_send_down;
  left_2 = t_recv_down;
  left_3 = p;
  left_4 = finished;
  idle_left = i;
}

abbrev waiting : Phase → Program
waiting to_self = after_self
waiting (toward up) = after_up
waiting (toward down) = after_down

abbrev outer : Phase → Status
outer to_self = absent
outer (toward d) = ready

abbrev at_place : Phase → Program → Seen → System View
at_place ph p w =
    parked w.count 0 (outer ph) ready (outer ph) absent (threads_in ph p (waiting ph)) none
      (set_up w)

abbrev before : Phase → ℕ → ℕ → Seen → System View
before ph n step w = at_place ph (sweeper ph n step) w

abbrev inside : Phase → ℕ → ℕ → ℕ → Seen → System View
inside ph n step m w =
    at_place ph (for_count m (round_of ph step) (sweeper ph n (suc step))) (sized step w)

abbrev after : Phase → Seen → System View
after ph w = before ph 0 0 w

abbrev over : Board → Seen → System View
over b w =
    parked w.count 0 absent absent absent absent (threads_in (toward down) finished signal_loop)
      (async_verdict b w.trace) (record (set_up w) { outlier_count = all_outliers b w.trace })

-- The descriptors are armed for the size in the static, and for the least one.
abbrev described : Seen → Seen
described w = record w { tx_size = w.message_size; rx_size = w.message_size }

abbrev described_anew : Seen → Seen
described_anew w = record w { message_size = 4; tx_size = 4; rx_size = 4 }

-- The sweep of a phase whose rounds the machine runs.
module _ (b : Board) (limit r : ℕ) (ph : Phase) where
  abbrev Round : ℕ → Type 0
  Round step =
      (n m : ℕ) (w : Seen)
      → steps (machine b limit sync_priority) r (inside ph n step (suc m) w)
        ≡ some (inside ph n step m (turn b ph step w))

  abbrev Leave : ℕ → Type 0
  Leave n =
      (step : ℕ) (w : Seen)
      → machine b limit sync_priority (inside ph n step 0 w)
        ≡ machine b limit sync_priority (before ph n (suc step) (sized step w))

to_self-Sweeping :
    (b : Board) (limit : ℕ)
    → Sweeping
        (machine b limit sync_priority)
        9
        (before to_self)
        (inside to_self)
        (after to_self)
        (turn b to_self)
unfolding steps
to_self-Sweeping b limit = record {
  begin = λ n step w. refl;
  round = λ n step m w l.
      below_nine (Round b limit 9 to_self) (λ _ _ _. refl) (λ _ _ _. refl) (λ _ _ _. refl)
        (λ _ _ _. refl) (λ _ _ _. refl) (λ _ _ _. refl) (λ _ _ _. refl) (λ _ _ _. refl)
        (λ _ _ _. refl) step l n m w;
  leave = λ n step w. none_or_more (Leave b limit 9 to_self) (λ _ _. refl) (λ _ _ _. refl) n step w;
  done = λ step w. refl;
}

up-Sweeping :
    (b : Board) (limit : ℕ)
    → Sweeping
        (machine b limit sync_priority)
        13
        (before (toward up))
        (inside (toward up))
        (after (toward up))
        (turn b (toward up))
unfolding steps
up-Sweeping b limit = record {
  begin = λ n step w. refl;
  round = λ n step m w l.
      below_nine (Round b limit 13 (toward up)) (λ _ _ _. refl) (λ _ _ _. refl) (λ _ _ _. refl)
        (λ _ _ _. refl) (λ _ _ _. refl) (λ _ _ _. refl) (λ _ _ _. refl) (λ _ _ _. refl)
        (λ _ _ _. refl) step l n m w;
  leave = λ n step w.
      none_or_more (Leave b limit 13 (toward up)) (λ _ _. refl) (λ _ _ _. refl) n step w;
  done = λ step w. refl;
}

down-Sweeping :
    (b : Board) (limit : ℕ)
    → Sweeping
        (machine b limit sync_priority)
        13
        (before (toward down))
        (inside (toward down))
        (after (toward down))
        (turn b (toward down))
unfolding steps
down-Sweeping b limit = record {
  begin = λ n step w. refl;
  round = λ n step m w l.
      below_nine (Round b limit 13 (toward down)) (λ _ _ _. refl) (λ _ _ _. refl) (λ _ _ _. refl)
        (λ _ _ _. refl) (λ _ _ _. refl) (λ _ _ _. refl) (λ _ _ _. refl) (λ _ _ _. refl)
        (λ _ _ _. refl) step l n m w;
  leave = λ n step w.
      none_or_more (Leave b limit 13 (toward down)) (λ _ _. refl) (λ _ _ _. refl) n step w;
  done = λ step w. refl;
}

course :
    (b : Board) (limit : ℕ)
    → AsyncCourse b
        (machine b limit sync_priority)
        i_task_from_start
        functions
        11
        9
        13
        13
        17
        34
        before
        inside
        after
        (turn b)
        described
        described_anew
        described_anew
        (over b)
unfolding steps outlier_count
course b limit = record {
  to_start = λ e w. refl;
  sweeping_self = to_self-Sweeping b limit;
  to_up = λ w. refl;
  sweeping_up = up-Sweeping b limit;
  to_down = λ w. refl;
  sweeping_down = down-Sweeping b limit;
  to_end = λ w. refl;
  for_ever = λ w. refl;
  takes = λ ph i w. refl;
  first_quiet = λ w. refl;
  second_quiet = λ w. refl;
  third_quiet = λ w. refl;
  over_signal = λ w. refl;
  over_trace = λ w. refl;
}

-- mailbox_async.c ends: from the start of I_Task, alone and with nobody waiting for test_event, after 11 + (1 + 9 *
-- 50000) * 9 + 14 + (1 + 13 * 50000) * 9 + 18 + (1 + 13 * 50000) * 9 + 35 calls and for ever after,
-- I_Task has signalled whether the uint32_t sum of all outliers is 0, and in each of the three phases
-- the series of each of the nine steps has 50,000 timed samples more than before, and no more stray
-- ones. This holds of every kernel that does what is documented and every scheduler that follows
-- Zephyr's rule.
pub mailbox_async-AsyncCompleted :
    (b : Board) (limit : ℕ) {S : Type 0} (k : Kernel S) (view : S → View)
    (doc : KernelDoc k limit view) (next : Scheduler (System S)) (rule : SchedulerDoc next)
    (y : System S) (launched : Launched view i_task_from_start functions y) (m : ℕ)
    → Then
        (λ y'. AsyncCompleted b y.trace y'.signalled y'.trace)
        (steps
          (λ y'. next (tasks b k sync_priority y'))
          (11
            + (9 * (1 + 50000 * 9)
                + suc (
                    13
                    + (9 * (1 + 50000 * 13) + suc (17 + (9 * (1 + 50000 * 13) + suc (34 + m)))))))
          y)
mailbox_async-AsyncCompleted b limit k view doc next rule y launched m =
    run-AsyncCompleted b limit i_task_from_start functions 11 9 13 13 17 34 before inside after
      (turn b) described described_anew described_anew (over b) (course b limit) k view doc next
      rule y launched m
