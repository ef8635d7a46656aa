-- ===== src/Itc/PipeSync.antt =====
-- The threads of src/itc/pipe/pipe_sync.c and its I_Task.
use zephyr_kernel_bm_tuc_hms.Prelude.{ℕ, zero, suc, List, [], ◌∷◌}
use zephyr_kernel_bm_tuc_hms.Itc.Kernel.{test_arm_sem, test_recv_sem}
use zephyr_kernel_bm_tuc_hms.Itc.Handover.{Direction, up, down}
use zephyr_kernel_bm_tuc_hms.Itc.Sync.{
  direct, rendezvous, sync_series, sync_start_mask, sync_done_mask, send_entry, recv_entry,
  arm_entry, add_outliers_from, signal_loop,
}
use zephyr_kernel_bm_tuc_hms.Scenario.Kernel.{slot_1, slot_2, slot_3}
use zephyr_kernel_bm_tuc_hms.Scenario.Program.{Call, Program, finished, ◌⨾◌, while_true}
use zephyr_kernel_bm_tuc_hms.Scenario.Sweep.{sweep_from}
pub mod Whole

-- The loop of T_SendUp, and T_SendUp.
abbrev pub send_up_loop : Program
send_up_loop = while_true (
    Call.gate_take test_arm_sem
    ∷ Call.reset_counter
    ∷ Call.get_start_cnt
    ∷ Call.pipe_write_begin
    ∷ Call.pipe_write_end
    ∷ Call.get_rendezvous_cnt
    ∷ [])

abbrev t_send_up : Program
t_send_up = Call.event_wait_begin (sync_start_mask up) ⨾ Call.event_wait_end ⨾ send_up_loop

abbrev pub t_recv_up : Program
t_recv_up = while_true (
    Call.gate_take test_recv_sem
    ∷ Call.pipe_read_begin
    ∷ Call.pipe_read_end
    ∷ Call.get_stop_cnt
    ∷ [])

abbrev pub send_down_loop : Program
send_down_loop = while_true (
    Call.gate_take test_arm_sem
    ∷ Call.reset_counter
    ∷ Call.get_start_cnt
    ∷ Call.pipe_write_begin
    ∷ Call.pipe_write_end
    ∷ Call.get_rendezvous_cnt
    ∷ [])

abbrev t_send_down : Program
t_send_down = Call.event_wait_begin (sync_start_mask down) ⨾ Call.event_wait_end ⨾ send_down_loop

abbrev pub t_recv_down : Program
t_recv_down = while_true (
    Call.gate_take test_recv_sem
    ∷ Call.pipe_read_begin
    ∷ Call.pipe_read_end
    ∷ Call.get_stop_cnt
    ∷ [])

-- The body of the inner loop of T_ArmUp, its outer loop, and T_ArmUp.
abbrev pub arm_up_round : ℕ → List Call
arm_up_round step =
    Call.gate_give test_recv_sem
    ∷ Call.mwindow_open (sync_series direct up step)
    ∷ Call.mwindow_open (sync_series rendezvous up step)
    ∷ Call.gate_give test_arm_sem
    ∷ Call.mseries_iterate (sync_series direct up step)
    ∷ Call.rendezvous_iterate (sync_series rendezvous up step)
    ∷ Call.mwindow_close (sync_series direct up step)
    ∷ Call.mwindow_close (sync_series rendezvous up step)
    ∷ []

abbrev pub arm_up_sweep : ℕ → ℕ → Program
arm_up_sweep n step =
    sweep_from arm_up_round n step
      (Call.event_post (sync_done_mask up) ⨾ Call.suspend_self ⨾ finished)

abbrev t_arm_up : Program
t_arm_up = Call.event_wait_begin (sync_start_mask up) ⨾ Call.event_wait_end ⨾ arm_up_sweep 9 0

-- The body of the inner loop of T_ArmDown, its outer loop, and T_ArmDown.
abbrev pub arm_down_round : ℕ → List Call
arm_down_round step =
    Call.gate_give test_recv_sem
    ∷ Call.mwindow_open (sync_series direct down step)
    ∷ Call.mwindow_open (sync_series rendezvous down step)
    ∷ Call.gate_give test_arm_sem
    ∷ Call.mseries_iterate (sync_series direct down step)
    ∷ Call.rendezvous_iterate (sync_series rendezvous down step)
    ∷ Call.mwindow_close (sync_series direct down step)
    ∷ Call.mwindow_close (sync_series rendezvous down step)
    ∷ []

abbrev pub arm_down_sweep : ℕ → ℕ → Program
arm_down_sweep n step =
    sweep_from arm_down_round n step
      (Call.event_post (sync_done_mask down) ⨾ Call.suspend_self ⨾ finished)

abbrev t_arm_down : Program
t_arm_down = Call.event_wait_begin (sync_start_mask down) ⨾ Call.event_wait_end ⨾ arm_down_sweep 9 0

-- The C functions of the threads that I_Task creates.
abbrev pub functions : ℕ → Program
functions zero = t_send_up
functions (suc zero) = t_recv_up
functions (suc (suc zero)) = t_arm_up
functions (suc (suc (suc zero))) = t_send_down
functions (suc (suc (suc (suc zero)))) = t_recv_down
functions (suc (suc (suc (suc (suc n))))) = t_arm_down

-- I_Task after its wait for the end of a direction. Nobody else waits for what it waits for, so its waits are one
-- call.
abbrev pub after_down : Program
after_down =
    Call.event_wait (sync_done_mask down)
    ⨾ Call.thread_abort slot_1
    ⨾ Call.thread_abort slot_2
    ⨾ Call.thread_abort slot_3
    ⨾ add_outliers_from 9 0 signal_loop

abbrev pub after_up : Program
after_up =
    Call.event_wait (sync_done_mask up)
    ⨾ Call.thread_abort slot_2
    ⨾ Call.thread_abort slot_1
    ⨾ Call.thread_abort slot_3
    ⨾ Call.gate_reset test_arm_sem
    ⨾ Call.gate_reset test_recv_sem
    ⨾ Call.pipe_init
    ⨾ Call.thread_start slot_1 (send_entry down)
    ⨾ Call.thread_start slot_2 (recv_entry down)
    ⨾ Call.thread_start slot_3 (arm_entry down)
    ⨾ Call.event_post (sync_start_mask down)
    ⨾ after_down

abbrev pub i_task : Program
i_task =
    Call.reset_outlier_count
    ⨾ Call.event_init
    ⨾ Call.gate_init test_arm_sem
    ⨾ Call.gate_init test_recv_sem
    ⨾ Call.pipe_init
    ⨾ Call.thread_start slot_2 (send_entry up)
    ⨾ Call.thread_start slot_1 (recv_entry up)
    ⨾ Call.thread_start slot_3 (arm_entry up)
    ⨾ Call.event_post (sync_start_mask up)
    ⨾ after_up
