-- ===== src/TaskChange/States.antt =====
-- The states of the documented machine between the turns of the threads of task_change.
use zephyr_kernel_bm_tuc_hms.Prelude.{
  ℕ, zero, suc, ◌-◌, Bool, List, [], ◌∷◌, ◌++◌, Option, none, ◌==◌, ltb, if◌then◌else◌,
}
use zephyr_kernel_bm_tuc_hms.Window.{Mark, Series}
use zephyr_kernel_bm_tuc_hms.Scenario.Program.{Board, scenario_a}
use zephyr_kernel_bm_tuc_hms.TaskChange.Ready.{
  Thread, sa_low_prio_thread, sa_high_prio_thread, sb_thread, idle_thread, View,
}
use zephyr_kernel_bm_tuc_hms.TaskChange.Tasks.{
  Program, Programs, System, set_left, rest_of, skip_calls, dummy_thread, l_task_sa_loop,
  h_task_sa_loop, dummy_task, dummy_task_loop, task_sb, i_task_change, i_task_end, threads,
}

-- What a round changes.
pub record Held : Type 0 where
  pub last_start : ℕ
  pub last_stop : ℕ
  pub trace : List Mark

abbrev pub parked : List Thread → Programs → Option Bool → Held → System View
parked q p signal w = record {
  kernel = record { queue = q; waiters = []; events = 0 };
  programs = p;
  test_start_time = w.last_start;
  test_stop_time = w.last_stop;
  signalled = signal;
  trace = w.trace;
}

-- I_Task is about to run, alone.
abbrev pub at_start : ℕ → ℕ → Held → System View
at_start n e w = record {
  kernel = record { queue = idle_thread ∷ []; waiters = []; events = e };
  programs = threads n;
  test_start_time = w.last_start;
  test_stop_time = w.last_stop;
  signalled = none;
  trace = w.trace;
}

-- The dummies from number `i` on, `n` of them.
abbrev pub dummies : ℕ → ℕ → List Thread
dummies zero i = []
dummies (suc n) i = dummy_thread i ∷ dummies n (suc i)

abbrev dummy_left : ℕ → ℕ → Program
dummy_left n i = if ltb i n then dummy_task_loop else dummy_task

-- The threads of S_A with `n` dummies: L_Task_SA and the dummies at their loops, H_Task_SA in its k_yield().
abbrev pub in_a : ℕ → Programs
in_a n = record {
  low_left = l_task_sa_loop;
  high_left = rest_of (h_task_sa_loop n);
  left_0 = dummy_left n 0;
  left_1 = dummy_left n 1;
  left_2 = dummy_left n 2;
  left_3 = dummy_left n 3;
  sb_left = task_sb;
  idle_left = i_task_change n;
}

-- The first `i` of the dummies have had their turn.
abbrev pub queue_past : ℕ → ℕ → List Thread
queue_past n i =
    dummies (n - i) i
    ++ (sa_low_prio_thread ∷ sa_high_prio_thread ∷ (dummies i 0 ++ (idle_thread ∷ [])))

abbrev pub past : ℕ → ℕ → Held → System View
past n i w = parked (queue_past n i) (in_a n) none w

abbrev pub at_a : ℕ → Held → System View
at_a n w = past n n w

-- Dummy number `i` after the test of iteration_count: the series is not complete, or is.
abbrev pub incomplete : ℕ → ℕ → Held → System View
incomplete n i w =
    parked (queue_past n i) (set_left (dummy_thread i) (skip_calls 5 dummy_task_loop) (in_a n)) none
      w

abbrev pub complete : ℕ → ℕ → Held → System View
complete n i w =
    parked (queue_past n i) (set_left (dummy_thread i) (skip_calls 2 dummy_task_loop) (in_a n)) none
      w

-- The first `i` of the dummies are suspended in front of their k_yield(), and the measured threads are, too.
abbrev stopped_to : ℕ → ℕ → Programs → Programs
stopped_to zero i p = p
stopped_to (suc m) i p =
    set_left (dummy_thread i) (skip_calls 5 dummy_task_loop) (stopped_to m (suc i) p)

abbrev pub stopped : ℕ → ℕ → Held → System View
stopped n i w = parked (dummies (n - i) i ++ (idle_thread ∷ [])) (stopped_to i 0 (in_a n)) none w

abbrev pub stopped_incomplete : ℕ → ℕ → Held → System View
stopped_incomplete n i w =
    parked (dummies (n - i) i ++ (idle_thread ∷ []))
      (set_left (dummy_thread i) (skip_calls 5 dummy_task_loop) (stopped_to i 0 (in_a n))) none w

abbrev pub stopped_complete : ℕ → ℕ → Held → System View
stopped_complete n i w =
    parked (dummies (n - i) i ++ (idle_thread ∷ []))
      (set_left (dummy_thread i) (skip_calls 2 dummy_task_loop) (stopped_to i 0 (in_a n))) none w

-- S_A is over with `n` dummies, all of them suspended.
abbrev pub out_a : ℕ → Held → System View
out_a n w = stopped n n w

-- With no dummies it is H_Task_SA that tests iteration_count.
abbrev pub tested : Program → Held → System View
tested p w =
    parked (sa_high_prio_thread ∷ sa_low_prio_thread ∷ idle_thread ∷ [])
      (record (in_a 0) { high_left = p }) none w

abbrev pub in_b : ℕ → List Thread → Program → Program → Option Bool → Held → System View
in_b n q sb i signal w =
    parked q
      (record (stopped_to n 0 (in_a n)) {
        high_left = if n == 0 then h_task_sa_loop 0 else rest_of (h_task_sa_loop n);
        sb_left = sb;
        idle_left = i;
      })
      signal w

-- A thread of S_A with no dummies is suspended at the end of its loop.
abbrev pub out_a_0 : Held → System View
out_a_0 w = parked (idle_thread ∷ []) (record (in_a 0) { high_left = h_task_sa_loop 0 }) none w

abbrev pub at_b : ℕ → Held → System View
at_b n w = in_b n (sb_thread ∷ idle_thread ∷ []) task_sb i_task_end none w

abbrev pub out_b : ℕ → Held → System View
out_b n w = in_b n (idle_thread ∷ []) task_sb i_task_end none w

abbrev pub over : ℕ → Option Bool → Held → System View
over n signal w = in_b n (idle_thread ∷ []) task_sb i_task_end signal w

-- A sample of series `s` up to its feed.
abbrev pub take_sample : Board → Series → Held → Held
take_sample b s w =
    let ms = Mark.reset ∷ Mark.opened s ∷ w.trace in
    let a = b.counter ms in
    let ns = Mark.start a ∷ ms in
    let z = b.counter ns in
    record { last_start = a; last_stop = z; trace = Mark.fed s a z ∷ Mark.stop z ∷ ns }

abbrev pub shut : Series → Held → Held
shut s w = record w { trace = Mark.closed s ∷ w.trace }

-- The dummies close the window of scenario_a one after the other.
abbrev pub shut_by : ℕ → Held → Held
shut_by zero w = w
shut_by (suc n) w = shut_by n (shut scenario_a w)

-- A window that is opened and started, and then left.
abbrev pub begun : Board → Held → Held
begun b w =
    let ms = Mark.reset ∷ Mark.opened scenario_a ∷ w.trace in
    let a = b.counter ms in record w { last_start = a; trace = Mark.start a ∷ ms }
