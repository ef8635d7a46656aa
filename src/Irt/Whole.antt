-- ===== src/Irt/Whole.antt =====
-- The whole run of src/irt/time_interrupt_response.c where the handler itself takes the stop marker
-- (SA_RELEASE_NONE, TEST_CASE_IV and TEST_CASE_VIII).
use zephyr_kernel_bm_tuc_hms.Prelude.{ℕ, ◌+◌, ◌*◌, ◌≡◌, refl, arith, Bool, true, false, none}
use zephyr_kernel_bm_tuc_hms.Itc.Kernel.{Scheduler, SchedulerDoc}
use zephyr_kernel_bm_tuc_hms.Itc.Handover.States.{Then}
use zephyr_kernel_bm_tuc_hms.Scenario.Kernel.{
  Kernel, View, Status, absent, ready, stopped, nobody, idle_line,
}
use zephyr_kernel_bm_tuc_hms.Scenario.Doc.{KernelDoc}
use zephyr_kernel_bm_tuc_hms.Scenario.Program.{
  Call, Program, ◌⨾◌, System, Board, tasks, scenario_a, scenario_b,
}
use zephyr_kernel_bm_tuc_hms.Scenario.Run.{steps}
use zephyr_kernel_bm_tuc_hms.Scenario.Refine.{viewed, machine, Ranked}
use zephyr_kernel_bm_tuc_hms.Scenario.Rounds.{Seen, sample}
use zephyr_kernel_bm_tuc_hms.Scenario.Tally.{tally}
use zephyr_kernel_bm_tuc_hms.Scenario.Whole.{parked, fresh, verdict, Completed, seen}
use zephyr_kernel_bm_tuc_hms.Scenario.Guarded.{CountsSamples, is_counted, steps-then, steps-else}
use zephyr_kernel_bm_tuc_hms.Scenario.GuardedWhole.{GuardedCourse, run-GuardedCompleted}
use zephyr_kernel_bm_tuc_hms.Irt.{
  release_none, priority, l_task_sa_loop, task_sb_loop, functions, i_task, i_task_a, i_task_b,
  i_task_end, threads_at, signalize_done_event_mask,
}

-- TEST_IRQ_LINE is as given, and nothing else has happened to the kernel's objects.
abbrev pub on_line : Bool → Seen → Seen
on_line enabled w = record w {
  functions = functions;
  mail = record w.mail { released = 0; line = record { enabled = enabled; pending = false } };
}

abbrev start : ℕ → Program → Program → Seen → System View
start e a l w =
    parked w.count e ready absent absent absent (threads_at release_none a l (i_task release_none))
      none (record w { functions = functions; mail = record w.mail { line = idle_line } })

abbrev in_a : ℕ → Program → Status → Program → Seen → System View
in_a e a s l w =
    parked 0 e ready absent s absent (threads_at release_none a l (i_task_a release_none)) none
      (on_line true w)

abbrev at_a : Program → Seen → System View
at_a a w = in_a 0 a ready l_task_sa_loop w

abbrev out_a : Program → Seen → System View
out_a a w = in_a signalize_done_event_mask a stopped l_task_sa_loop w

abbrev in_b : ℕ → Program → Status → Program → Seen → System View
in_b e a s l w =
    parked 0 e ready absent s absent (threads_at release_none a l i_task_b) none (on_line false w)

abbrev at_b : Program → Seen → System View
at_b a w = in_b 0 a ready task_sb_loop w

abbrev out_b : Program → Seen → System View
out_b a w = in_b signalize_done_event_mask a stopped task_sb_loop w

abbrev over : Board → Program → Seen → System View
over b a w =
    parked 0 0 ready absent absent absent (threads_at release_none a task_sb_loop i_task_end)
      (verdict b w.trace) (on_line false w)

-- What is under the tests.
abbrev done_then : Program → Program
done_then p = Call.event_post signalize_done_event_mask ⨾ Call.suspend_self ⨾ p

abbrev same_seen : Seen → Seen
same_seen w = w

course :
    (b : Board) (limit e : ℕ) (a l : Program)
    → GuardedCourse b
        (machine b limit priority)
        7
        9
        11
        7
        9
        11
        3
        (start e a l)
        (at_a a)
        (out_a a)
        (at_b a)
        (out_b a)
        (over b a)
        (sample b scenario_a)
        (sample b scenario_b)
        same_seen
        same_seen
unfolding steps
course b limit e a l = record {
  to_a = λ w. refl;
  loop_a = record {
    again = λ w h.
        steps-else (machine b limit priority) 9 0 (at_a a w)
          (in_a 0 a ready (done_then l_task_sa_loop) (sample b scenario_a w))
          (at_a a (sample b scenario_a w)) _ (is_counted b scenario_a (sample b scenario_a w)) refl
          h refl;
    leave = λ w h.
        steps-then (machine b limit priority) 9 2 (at_a a w)
          (in_a 0 a ready (done_then l_task_sa_loop) (sample b scenario_a w))
          (at_a a (sample b scenario_a w)) _ (is_counted b scenario_a (sample b scenario_a w)) refl
          h refl;
    takes = λ w. refl;
  };
  to_b = λ w. refl;
  loop_b = record {
    again = λ w h.
        steps-else (machine b limit priority) 9 0 (at_b a w)
          (in_b 0 a ready (done_then task_sb_loop) (sample b scenario_b w))
          (at_b a (sample b scenario_b w)) _ (is_counted b scenario_b (sample b scenario_b w)) refl
          h refl;
    leave = λ w h.
        steps-then (machine b limit priority) 9 2 (at_b a w)
          (in_b 0 a ready (done_then task_sb_loop) (sample b scenario_b w))
          (at_b a (sample b scenario_b w)) _ (is_counted b scenario_b (sample b scenario_b w)) refl
          h refl;
    takes = λ w. refl;
  };
  to_end = λ w. refl;
  for_ever = λ w. refl;
  first_quiet = λ w. refl;
  second_quiet = λ w. refl;
  over_signal = λ w. refl;
  over_trace = λ w. refl;
}

pub ranked : Ranked priority
ranked = record {
  order_1 = omega arith;
  order_2 = omega arith;
  order_3 = omega arith;
  order_4 = omega arith;
}

-- I_Task is about to run, the handler being connected and TEST_IRQ_LINE neither enabled nor pending;
-- nobody waits for test_event, and nothing was fed to either scenario yet.
pub record Connected {S : Type 0} (view : S → View) (a l : Program) (y : System S) : Type 0 where
  pub nobody_waits : (view y.kernel).waits ≡ nobody
  pub line_idle : (view y.kernel).mail.line ≡ idle_line
  pub handler_ready : (view y.kernel).status_1 ≡ ready
  pub no_a : (view y.kernel).status_2 ≡ absent
  pub no_l : (view y.kernel).status_3 ≡ absent
  pub none_4 : (view y.kernel).status_4 ≡ absent
  pub idle_ready : (view y.kernel).idle_status ≡ ready
  pub of_programs : y.programs ≡ threads_at release_none a l (i_task release_none)
  pub of_functions : y.functions ≡ functions
  pub no_signal : y.signalled ≡ none
  pub nothing_fed_a : tally scenario_a y.trace ≡ fresh
  pub nothing_fed_b : tally scenario_b y.trace ≡ fresh

viewed-Connected :
    {S : Type 0} (view : S → View) (a l : Program) (y : System S)
    → Connected view a l y
    → viewed view y ≡ start (view y.kernel).events a l (seen view y)
viewed-Connected view a l y h = λ i. record {
  kernel = record {
    count = (view y.kernel).count;
    mail = record (view y.kernel).mail { line = h.line_idle i };
    events = (view y.kernel).events;
    waits = h.nobody_waits i;
    status_1 = h.handler_ready i;
    status_2 = h.no_a i;
    status_3 = h.no_l i;
    status_4 = h.none_4 i;
    idle_status = h.idle_ready i;
  };
  programs = h.of_programs i;
  test_start_time = y.test_start_time;
  test_stop_time = y.test_stop_time;
  test_stop_time_rendezvous = y.test_stop_time_rendezvous;
  message_size = y.message_size;
  tx_size = y.tx_size;
  rx_size = y.rx_size;
  outlier_count = y.outlier_count;
  functions = h.of_functions i;
  jitters = y.jitters;
  signalled = h.no_signal i;
  trace = y.trace;
}

-- The interrupt test without a release ends: from the start of I_Task, with the handler connected, the line idle
-- and nothing fed yet, after 7 + (49999 * 9 + 11) + 7 + (49999 * 9 + 11) + 3 calls and for ever after,
-- I_Task has signalled whether neither scenario has an outlier, and each scenario has exactly 50,000
-- samples, each the two captures of its window, and no other values; the stop of scenario_a is the one
-- in the handler. This holds of every kernel that does what is documented, every scheduler that follows
-- Zephyr's rule, and every harness whose iteration_count is the number of samples of a series to which
-- nothing else was fed.
pub irt-Completed :
    (b : Board) (counts : CountsSamples b) (limit : ℕ) {S : Type 0} (k : Kernel S) (view : S → View)
    (doc : KernelDoc k limit view) (next : Scheduler (System S)) (rule : SchedulerDoc next)
    (y : System S) (a l : Program) (connected : Connected view a l y) (m : ℕ)
    → Then
        (λ y'. Completed b 0 y'.signalled y'.trace)
        (steps
          (λ y'. next (tasks b k priority y'))
          (7 + ((49999 * 9 + 11) + (7 + ((49999 * 9 + 11) + (3 + m)))))
          y)
irt-Completed b counts limit k view doc next rule y a l connected m =
    let e = (view y.kernel).events in
    run-GuardedCompleted b limit priority ranked 7 9 11 7 9 11 3 (start e a l) (at_a a) (out_a a)
      (at_b a) (out_b a) (over b a) (sample b scenario_a) (sample b scenario_b) same_seen same_seen
      (course b limit e a l) counts k view doc next rule y (seen view y)
      (viewed-Connected view a l y connected) connected.nothing_fed_a connected.nothing_fed_b m
