-- ===== src/Itc/MailboxAsync.antt =====
-- The threads of src/itc/mailbox/mailbox_async.c, those of T_SendUp, T_ArmUp, T_SendDown and T_ArmDown from the
-- return of their k_event_wait_safe() on; Start.antt has that wait.
use zephyr_kernel_bm_tuc_hms.Prelude.{ℕ, List, [], ◌∷◌}
use zephyr_kernel_bm_tuc_hms.Itc.Kernel.{test_arm_sem, test_recv_sem}
use zephyr_kernel_bm_tuc_hms.Itc.Handover.{up, down, self_send, series}
use zephyr_kernel_bm_tuc_hms.Itc.Async.{Phase, to_self, toward}
use zephyr_kernel_bm_tuc_hms.Scenario.Kernel.{test_self, test_high, test_low}
use zephyr_kernel_bm_tuc_hms.Scenario.Program.{Call, Program, finished, ◌⨾◌, while_true}
use zephyr_kernel_bm_tuc_hms.Scenario.Sweep.{sweep_from}
pub mod States
pub mod Start
pub mod Whole

abbrev pub start_self_event_mask : ℕ
start_self_event_mask = 0x0001

-- What a phase posts at its end.
abbrev pub done_mask : Phase → ℕ
done_mask to_self = 0x0010
done_mask (toward up) = 0x0020
done_mask (toward down) = 0x0040

-- The body of the inner loop of T_Self.
abbrev pub t_self_round : ℕ → List Call
t_self_round step =
    Call.arm_descriptors
    ∷ Call.mwindow_open (self_send step)
    ∷ Call.reset_counter
    ∷ Call.get_start_cnt
    ∷ Call.mbox_async_put test_self
    ∷ Call.mbox_get test_self
    ∷ Call.get_stop_cnt
    ∷ Call.mseries_iterate (self_send step)
    ∷ Call.mwindow_close (self_send step)
    ∷ []

abbrev pub t_self_sweep : ℕ → ℕ → Program
t_self_sweep n step =
    sweep_from t_self_round n step
      (Call.event_post (done_mask to_self) ⨾ Call.suspend_self ⨾ finished)

abbrev pub t_self : Program
t_self = Call.event_wait start_self_event_mask ⨾ t_self_sweep 9 0

abbrev pub t_send_up : Program
t_send_up = while_true (
    Call.gate_take test_arm_sem
    ∷ Call.reset_counter
    ∷ Call.get_start_cnt
    ∷ Call.mbox_async_put test_high
    ∷ [])

abbrev pub t_recv_up : Program
t_recv_up =
    while_true (Call.gate_take test_recv_sem ∷ Call.mbox_get test_high ∷ Call.get_stop_cnt ∷ [])

abbrev pub t_send_down : Program
t_send_down = while_true (
    Call.gate_take test_arm_sem
    ∷ Call.reset_counter
    ∷ Call.get_start_cnt
    ∷ Call.mbox_async_put test_low
    ∷ [])

abbrev pub t_recv_down : Program
t_recv_down =
    while_true (Call.gate_take test_recv_sem ∷ Call.mbox_get test_low ∷ Call.get_stop_cnt ∷ [])

-- The body of the inner loop of T_ArmUp.
abbrev pub t_arm_up_round : ℕ → List Call
t_arm_up_round step =
    Call.arm_descriptors
    ∷ Call.gate_give test_recv_sem
    ∷ Call.mwindow_open (series up step)
    ∷ Call.gate_give test_arm_sem
    ∷ Call.mseries_iterate (series up step)
    ∷ Call.mwindow_close (series up step)
    ∷ []

abbrev pub t_arm_up : ℕ → ℕ → Program
t_arm_up n step =
    sweep_from t_arm_up_round n step
      (Call.event_post (done_mask (toward up)) ⨾ Call.suspend_self ⨾ finished)

-- The body of the inner loop of T_ArmDown.
abbrev pub t_arm_down_round : ℕ → List Call
t_arm_down_round step =
    Call.arm_descriptors
    ∷ Call.gate_give test_recv_sem
    ∷ Call.mwindow_open (series down step)
    ∷ Call.gate_give test_arm_sem
    ∷ Call.mseries_iterate (series down step)
    ∷ Call.mwindow_close (series down step)
    ∷ []

abbrev pub t_arm_down : ℕ → ℕ → Program
t_arm_down n step =
    sweep_from t_arm_down_round n step
      (Call.event_post (done_mask (toward down)) ⨾ Call.suspend_self ⨾ finished)
