-- ===== src/Irt.antt =====
-- The threads and the interrupt handler of src/irt/time_interrupt_response.c.
use zephyr_kernel_bm_tuc_hms.Prelude.{ℕ, zero, suc, List, [], ◌∷◌}
use zephyr_kernel_bm_tuc_hms.Scenario.Kernel.{Task, slot_1, slot_2, slot_3, slot_4, idle}
use zephyr_kernel_bm_tuc_hms.Scenario.Program.{
  Call, Program, finished, ◌⨾◌, while_true, ◌then◌, Programs, scenario_a, scenario_b,
}
pub mod Whole
pub mod Released

-- SA_RELEASE: what the handler does.
pub data Release : Type 0 where
  release_resume : Release
  release_sem : Release
  release_event : Release
  release_none : Release

abbrev pub signalize_done_event_mask : ℕ
signalize_done_event_mask = 0x0001

abbrev start_event_mask : ℕ
start_event_mask = 0x0008

abbrev scenario_a_event_mask : ℕ
scenario_a_event_mask = 0x0010

-- The handler is in slot_1, above every thread; A_Task_SA in slot_2, and in slot_3 first L_Task_SA, then Task_SB.
abbrev pub priority : Task → ℕ
priority slot_1 = 0
priority slot_2 = 2
priority slot_3 = 3
priority slot_4 = 4
priority idle = 15

abbrev test_isr_body : Release → Call
test_isr_body release_resume = Call.thread_resume slot_2
test_isr_body release_sem = Call.sem_give
test_isr_body release_event = Call.release_post scenario_a_event_mask
test_isr_body release_none = Call.get_stop_cnt

-- test_isr() at every interrupt.
abbrev pub test_isr : Release → Program
test_isr r = while_true (Call.isr_entry ∷ test_isr_body r ∷ [])

abbrev wait_for_release : Release → Call
wait_for_release release_resume = Call.suspend_self
wait_for_release release_sem = Call.sem_take
wait_for_release release_event = Call.release_wait scenario_a_event_mask
wait_for_release release_none = Call.suspend_self  -- not created

abbrev pub a_task_sa : Release → Program
a_task_sa r = while_true (
    wait_for_release r
    ∷ Call.get_stop_cnt
    ∷ Call.mseries_iterate scenario_a
    ∷ Call.mwindow_close scenario_a
    ∷ [])

abbrev pub l_task_sa_loop : Program
l_task_sa_loop = while_true (
    Call.mwindow_open scenario_a
    ∷ Call.reset_counter
    ∷ Call.get_start_cnt
    ∷ Call.trigger_test_irq
    ∷ Call.mseries_iterate scenario_a
    ∷ Call.mwindow_close scenario_a
    ∷ Call.skip_unless_counted scenario_a 2
    ∷ Call.event_post signalize_done_event_mask
    ∷ Call.suspend_self
    ∷ [])

abbrev pub l_task_sa : Program
l_task_sa = Call.event_wait start_event_mask ⨾ l_task_sa_loop

abbrev pub task_sb_loop : Program
task_sb_loop = while_true (
    Call.mwindow_open scenario_b
    ∷ Call.reset_counter
    ∷ Call.get_start_cnt
    ∷ Call.trigger_test_irq
    ∷ Call.get_stop_cnt
    ∷ Call.mseries_iterate scenario_b
    ∷ Call.mwindow_close scenario_b
    ∷ Call.clear_pending_irq
    ∷ Call.skip_unless_counted scenario_b 2
    ∷ Call.event_post signalize_done_event_mask
    ∷ Call.suspend_self
    ∷ [])

abbrev pub task_sb : Program
task_sb = Call.event_wait start_event_mask ⨾ task_sb_loop

-- The C functions of L_Task_SA and Task_SB.
abbrev pub functions : ℕ → Program
functions zero = l_task_sa
functions (suc n) = task_sb

abbrev pub i_task_end : Program
i_task_end = while_true (Call.signalize_mseries_stop ∷ [])

abbrev pub i_task_b : Program
i_task_b = Call.event_wait signalize_done_event_mask ⨾ Call.thread_abort slot_3 ⨾ i_task_end

-- The calls that SA_RELEASE_NONE leaves out.
abbrev with_release : Release → Call → List Call
with_release release_none c = []
with_release release_resume c = c ∷ []
with_release release_sem c = c ∷ []
with_release release_event c = c ∷ []

abbrev pub i_task_a : Release → Program
i_task_a r =
    Call.event_wait signalize_done_event_mask
    ⨾ Call.thread_abort slot_3
    ⨾ (with_release r (Call.thread_abort slot_2)
        then Call.irq_disable
        ⨾ Call.clear_pending_irq
        ⨾ Call.thread_start slot_3 1
        ⨾ Call.event_post start_event_mask
        ⨾ i_task_b)

abbrev pub i_task : Release → Program
i_task r =
    Call.event_init
    ⨾ Call.release_init
    ⨾ Call.sem_init
    ⨾ Call.irq_enable
    ⨾ (with_release r (Call.thread_create slot_2)
        then Call.thread_start slot_3 0
        ⨾ Call.event_post start_event_mask
        ⨾ i_task_a r)

abbrev pub threads_at : Release → Program → Program → Program → Programs
threads_at r a l i = record {
  left_1 = test_isr r;
  left_2 = a;
  left_3 = l;
  left_4 = finished;
  idle_left = i;
}
