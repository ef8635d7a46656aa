-- ===== src/TaskPreempt/Tasks.antt =====
-- The threads of src/task_switching/task_preempt/time_task_switch.c in TEST_CASE_I, which has no dummy
-- tasks: dummy_count is 0, and the loops over it make no call.
use zephyr_kernel_bm_tuc_hms.Prelude.{ℕ, [], ◌∷◌}
use zephyr_kernel_bm_tuc_hms.Scenario.Kernel.{Task, slot_1, slot_2, slot_3, slot_4, idle}
use zephyr_kernel_bm_tuc_hms.Scenario.Program.{
  Call, Program, finished, ◌⨾◌, while_true, Programs, scenario_a, scenario_b,
}

abbrev pub start_event_mask : ℕ
start_event_mask = 0x0008

-- Task_SB, H_Task_SA and L_Task_SA are in slot_1, slot_2 and slot_3.
abbrev pub priority : Task → ℕ
priority slot_1 = 2
priority slot_2 = 8
priority slot_3 = 9
priority slot_4 = 10
priority idle = 15

abbrev pub l_task_sa_loop : Program
l_task_sa_loop = while_true (
    Call.thread_suspend slot_2
    ∷ Call.mwindow_open scenario_a
    ∷ Call.reset_counter
    ∷ Call.get_start_cnt
    ∷ Call.thread_resume slot_2
    ∷ [])

abbrev pub l_task_sa : Program
l_task_sa = Call.event_wait_begin start_event_mask ⨾ Call.event_wait_end ⨾ l_task_sa_loop

-- The last two calls are those under the test of iteration_count.
abbrev pub h_task_sa_loop : Program
h_task_sa_loop = while_true (
    Call.suspend_self
    ∷ Call.get_stop_cnt
    ∷ Call.mseries_iterate scenario_a
    ∷ Call.mwindow_close scenario_a
    ∷ Call.skip_unless_counted scenario_a 2
    ∷ Call.thread_suspend slot_3
    ∷ Call.suspend_self
    ∷ [])

abbrev pub h_task_sa : Program
h_task_sa = Call.event_wait_begin start_event_mask ⨾ Call.event_wait_end ⨾ h_task_sa_loop

abbrev pub task_sb : Program
task_sb = while_true (
    Call.thread_suspend slot_2
    ∷ Call.mwindow_open scenario_b
    ∷ Call.reset_counter
    ∷ Call.get_start_cnt
    ∷ Call.thread_resume slot_2
    ∷ Call.get_stop_cnt
    ∷ Call.mseries_iterate scenario_b
    ∷ Call.mwindow_close scenario_b
    ∷ Call.skip_unless_counted scenario_b 1
    ∷ Call.suspend_self
    ∷ [])

abbrev pub i_task_end : Program
i_task_end = while_true (Call.signalize_mseries_stop ∷ [])

abbrev pub i_task_change : Program
i_task_change = Call.thread_abort slot_3 ⨾ Call.thread_create slot_1 ⨾ i_task_end

abbrev pub i_task : Program
i_task =
    Call.event_init
    ⨾ Call.thread_create slot_2
    ⨾ Call.thread_create slot_3
    ⨾ Call.event_post start_event_mask
    ⨾ i_task_change

abbrev pub threads : Programs
threads = record {
  left_1 = task_sb;
  left_2 = h_task_sa;
  left_3 = l_task_sa;
  left_4 = finished;
  idle_left = i_task;
}
