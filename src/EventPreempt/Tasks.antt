-- ===== src/EventPreempt/Tasks.antt =====
-- The threads of src/task_switching/event_preempt/time_task_switch_event.c, without the dummy load
-- (`dummy_count` is 0 unless the build adds it). `has_waiter` is TEST_SB_HAS_WAITER, which the test
-- case sets.
use zephyr_kernel_bm_tuc_hms.Prelude.{ℕ, ◌-◌, List, [], ◌∷◌, Bool, if◌then◌else◌, ◌++◌}
use zephyr_kernel_bm_tuc_hms.Scenario.Kernel.{Task, slot_1, slot_2, slot_3, slot_4, idle}
use zephyr_kernel_bm_tuc_hms.Scenario.Program.{
  Call, Program, ◌⨾◌, for_count, while_true, ◌then◌, Programs, scenario_a, scenario_b,
}

-- The thread objects, in the order of their priorities.
abbrev sa_high : Task
sa_high = slot_1

abbrev sa_low : Task
sa_low = slot_2

abbrev sb_high : Task
sb_high = slot_3

abbrev sb_low : Task
sb_low = slot_4

abbrev measurement_count : ℕ
measurement_count = 50000

abbrev pub scenario_a_event_mask : ℕ
scenario_a_event_mask = 0x0001

abbrev pub scenario_b_event_mask : ℕ
scenario_b_event_mask = 0x0002

abbrev pub signalize_yield_event_mask : ℕ
signalize_yield_event_mask = 0x0004

abbrev pub start_event_mask : ℕ
start_event_mask = 0x0008

-- The `while (1)` of each thread.
abbrev pub l_task_sa_loop : Program
l_task_sa_loop = while_true (
    Call.mwindow_open scenario_a
    ∷ Call.reset_counter
    ∷ Call.get_start_cnt
    ∷ Call.event_post scenario_a_event_mask
    ∷ Call.suspend_self
    ∷ [])

abbrev pub l_task_sa : Program
l_task_sa = Call.event_wait start_event_mask ⨾ l_task_sa_loop

abbrev pub h_task_sa_loop : Program
h_task_sa_loop = while_true (
    Call.event_wait scenario_a_event_mask
    ∷ Call.get_stop_cnt
    ∷ Call.mseries_iterate_or_signal scenario_a
    ∷ Call.mwindow_close scenario_a
    ∷ Call.event_post signalize_yield_event_mask
    ∷ [])

abbrev pub h_task_sa : Program
h_task_sa = Call.event_post start_event_mask ⨾ h_task_sa_loop

-- What H_Task_SB does between two suspensions.
abbrev pub h_task_sb_round : Bool → List Call
h_task_sb_round has_waiter =
    (if has_waiter then [] else Call.thread_resume sb_low ∷ [])
    ++ (Call.mwindow_open scenario_b
        ∷ Call.reset_counter
        ∷ Call.get_start_cnt
        ∷ Call.event_post scenario_b_event_mask
        ∷ Call.get_stop_cnt
        ∷ Call.mseries_iterate_or_signal scenario_b
        ∷ Call.mwindow_close scenario_b
        ∷ [])

abbrev pub h_task_sb_loop : Bool → Program
h_task_sb_loop has_waiter = while_true (Call.suspend_self ∷ h_task_sb_round has_waiter)

abbrev pub h_task_sb : Bool → Program
h_task_sb has_waiter = Call.event_wait start_event_mask ⨾ h_task_sb_loop has_waiter

abbrev pub l_task_sb_loop : Bool → Program
l_task_sb_loop has_waiter = while_true (
    Call.event_post signalize_yield_event_mask
    ∷ (if has_waiter then Call.event_wait scenario_b_event_mask else Call.suspend_self)
    ∷ [])

abbrev pub l_task_sb : Bool → Program
l_task_sb has_waiter = Call.event_post start_event_mask ⨾ l_task_sb_loop has_waiter

-- The end of I_Task, and the rest of it with `n` rounds of S_B or of S_A to go.
abbrev pub i_task_end : Program
i_task_end = while_true (Call.signalize_mseries_stop ∷ [])

abbrev pub i_task_b : ℕ → Program
i_task_b n =
    for_count n (Call.event_wait signalize_yield_event_mask ∷ Call.thread_resume sb_high ∷ [])
      (Call.thread_abort sb_low ⨾ Call.thread_abort sb_high ⨾ i_task_end)

abbrev pub i_task_a : ℕ → Program
i_task_a n =
    for_count n (Call.event_wait signalize_yield_event_mask ∷ Call.thread_resume sa_low ∷ []) (
      Call.thread_abort sa_low
      ⨾ Call.thread_abort sa_high
      ⨾ Call.thread_create sb_high
      ⨾ Call.thread_create sb_low
      ⨾ i_task_b measurement_count)

abbrev pub i_task : Program
i_task =
    Call.event_init
    ⨾ Call.thread_create sa_high
    ⨾ Call.thread_create sa_low
    ⨾ i_task_a (measurement_count - 1)

-- The priorities of benchmark_testcases.h.
abbrev pub priority : Task → ℕ
priority slot_1 = 2
priority slot_2 = 7
priority slot_3 = 8
priority slot_4 = 14
priority idle = 15

-- What each thread runs.
abbrev pub threads : Bool → Programs
threads has_waiter = record {
  left_1 = h_task_sa;
  left_2 = l_task_sa;
  left_3 = h_task_sb has_waiter;
  left_4 = l_task_sb has_waiter;
  idle_left = i_task;
}
