-- ===== src/Itc/MailboxAsync/Start.antt =====
-- I_Task of src/itc/mailbox/mailbox_async.c from its start, and the threads that it creates.
use zephyr_kernel_bm_tuc_hms.Prelude.{ℕ, zero, suc}
use zephyr_kernel_bm_tuc_hms.Itc.Kernel.{test_arm_sem, test_recv_sem}
use zephyr_kernel_bm_tuc_hms.Itc.Handover.{up, down}
use zephyr_kernel_bm_tuc_hms.Itc.Sync.{
  sync_start_mask, send_entry, recv_entry, arm_entry, signal_loop,
}
use zephyr_kernel_bm_tuc_hms.Itc.Async.{to_self, toward}
use zephyr_kernel_bm_tuc_hms.Itc.Async.Outcome.{add_all_outliers}
use zephyr_kernel_bm_tuc_hms.Itc.MailboxAsync.{
  start_self_event_mask, done_mask, t_self, t_send_up, t_recv_up, t_send_down, t_recv_down,
  t_arm_up, t_arm_down,
}
use zephyr_kernel_bm_tuc_hms.Scenario.Kernel.{
  slot_1, slot_2, slot_3, test_self, test_high, test_low,
}
use zephyr_kernel_bm_tuc_hms.Scenario.Program.{Call, Program, ◌⨾◌}

abbrev self_entry : ℕ
self_entry = 6

-- The C functions of the threads, those that wait for the start of a direction with that wait.
abbrev pub functions : ℕ → Program
functions zero = Call.event_wait_begin (sync_start_mask up) ⨾ Call.event_wait_end ⨾ t_send_up
functions (suc zero) = t_recv_up
functions (suc (suc zero)) =
    Call.event_wait_begin (sync_start_mask up) ⨾ Call.event_wait_end ⨾ t_arm_up 9 0
functions (suc (suc (suc zero))) =
    Call.event_wait_begin (sync_start_mask down) ⨾ Call.event_wait_end ⨾ t_send_down
functions (suc (suc (suc (suc zero)))) = t_recv_down
functions (suc (suc (suc (suc (suc zero))))) =
    Call.event_wait_begin (sync_start_mask down) ⨾ Call.event_wait_end ⨾ t_arm_down 9 0
functions (suc (suc (suc (suc (suc (suc n)))))) = t_self

-- I_Task from its wait for the end of a phase on. Nobody else waits for what it waits for, so its
-- waits are one call.
abbrev pub after_down : Program
after_down =
    Call.event_wait (done_mask (toward down))
    ⨾ Call.thread_abort slot_1
    ⨾ Call.thread_abort slot_2
    ⨾ Call.thread_abort slot_3
    ⨾ add_all_outliers 9 0 signal_loop

abbrev pub after_up : Program
after_up =
    Call.event_wait (done_mask (toward up))
    ⨾ Call.thread_abort slot_2
    ⨾ Call.thread_abort slot_1
    ⨾ Call.thread_abort slot_3
    ⨾ Call.gate_reset test_arm_sem
    ⨾ Call.gate_reset test_recv_sem
    ⨾ Call.set_message_size 4
    ⨾ Call.arm_descriptors
    ⨾ Call.thread_start slot_1 (send_entry down)
    ⨾ Call.thread_start slot_2 (recv_entry down)
    ⨾ Call.thread_start slot_3 (arm_entry down)
    ⨾ Call.event_post (sync_start_mask down)
    ⨾ after_down

abbrev pub after_self : Program
after_self =
    Call.event_wait (done_mask to_self)
    ⨾ Call.thread_abort slot_2
    ⨾ Call.set_message_size 4
    ⨾ Call.arm_descriptors
    ⨾ Call.thread_start slot_2 (send_entry up)
    ⨾ Call.thread_start slot_1 (recv_entry up)
    ⨾ Call.thread_start slot_3 (arm_entry up)
    ⨾ Call.event_post (sync_start_mask up)
    ⨾ after_up

-- T_Self has the priority of the second slot.
abbrev pub i_task_from_start : Program
i_task_from_start =
    Call.reset_outlier_count
    ⨾ Call.event_init
    ⨾ Call.gate_init test_arm_sem
    ⨾ Call.gate_init test_recv_sem
    ⨾ Call.mbox_init test_self
    ⨾ Call.mbox_init test_high
    ⨾ Call.mbox_init test_low
    ⨾ Call.arm_descriptors
    ⨾ Call.thread_start slot_2 self_entry
    ⨾ Call.event_post start_self_event_mask
    ⨾ after_self
