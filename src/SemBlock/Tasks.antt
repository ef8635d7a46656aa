-- ===== src/SemBlock/Tasks.antt =====
-- The threads of src/task_switching/sem_block/time_task_switch_sem.c, without the dummy load
-- (`dummy_count` is 0 unless the build adds it).
use zephyr_kernel_bm_tuc_hms.Prelude.{ℕ, ◌-◌, [], ◌∷◌}
use zephyr_kernel_bm_tuc_hms.Scenario.Kernel.{Task, slot_1, slot_2, slot_3, slot_4, idle}
use zephyr_kernel_bm_tuc_hms.Scenario.Program.{
  Call, Program, finished, ◌⨾◌, for_count, while_true, Programs, scenario_a, scenario_b,
}

-- The thread objects, in the order of their priorities.
abbrev sa_high : Task
sa_high = slot_1

abbrev sa_low : Task
sa_low = slot_2

abbrev sb_high : Task
sb_high = slot_3

abbrev measurement_count : ℕ
measurement_count = 50000

abbrev pub signalize_yield_event_mask : ℕ
signalize_yield_event_mask = 0x0004

abbrev pub start_event_mask : ℕ
start_event_mask = 0x0008

abbrev pub l_task_sa : Program
l_task_sa = while_true (
    Call.get_stop_cnt
    ∷ Call.mseries_iterate scenario_a
    ∷ Call.mwindow_close scenario_a
    ∷ Call.event_post signalize_yield_event_mask
    ∷ Call.suspend_self
    ∷ Call.sem_give
    ∷ [])

-- The `while (1)` of H_Task_SA, and that of H_Task_SB.
abbrev pub h_task_sa_loop : Program
h_task_sa_loop =
    while_true
      (Call.mwindow_open scenario_a ∷ Call.reset_counter ∷ Call.get_start_cnt ∷ Call.sem_take ∷ [])

abbrev pub h_task_sa : Program
h_task_sa = Call.event_wait start_event_mask ⨾ h_task_sa_loop

abbrev pub h_task_sb_loop : Program
h_task_sb_loop = while_true (
    Call.mwindow_open scenario_b
    ∷ Call.reset_counter
    ∷ Call.get_start_cnt
    ∷ Call.sem_take_no_wait
    ∷ Call.get_stop_cnt
    ∷ Call.mseries_iterate scenario_b
    ∷ Call.mwindow_close scenario_b
    ∷ Call.event_post signalize_yield_event_mask
    ∷ Call.suspend_self
    ∷ [])

abbrev pub h_task_sb : Program
h_task_sb = Call.event_wait start_event_mask ⨾ h_task_sb_loop

-- The end of I_Task, and the rest of it with `n` rounds of S_B or of S_A to go.
abbrev pub i_task_end : Program
i_task_end = while_true (Call.signalize_mseries_stop ∷ [])

abbrev pub i_task_b : ℕ → Program
i_task_b n =
    for_count n
      (Call.event_wait signalize_yield_event_mask
        ∷ Call.sem_reset
        ∷ Call.thread_resume sb_high
        ∷ [])
      i_task_end

abbrev pub i_task_a : ℕ → Program
i_task_a n =
    for_count n (Call.event_wait signalize_yield_event_mask ∷ Call.thread_resume sa_low ∷ []) (
      Call.thread_abort sa_low
      ⨾ Call.thread_abort sa_high
      ⨾ Call.sem_reset
      ⨾ Call.thread_create sb_high
      ⨾ Call.event_post start_event_mask
      ⨾ i_task_b (measurement_count - 1))

abbrev pub i_task : Program
i_task =
    Call.event_init
    ⨾ Call.sem_init
    ⨾ Call.thread_create sa_high
    ⨾ Call.thread_create sa_low
    ⨾ Call.event_post start_event_mask
    ⨾ i_task_a measurement_count

-- The priorities of benchmark_testcases.h; there is no thread in `slot_4`.
abbrev pub priority : Task → ℕ
priority slot_1 = 2
priority slot_2 = 7
priority slot_3 = 8
priority slot_4 = 9
priority idle = 15

-- What each thread runs.
abbrev pub threads : Programs
threads = record {
  left_1 = h_task_sa;
  left_2 = l_task_sa;
  left_3 = h_task_sb;
  left_4 = finished;
  idle_left = i_task;
}
