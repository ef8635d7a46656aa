-- ===== src/Itc/Handover/Passing.antt =====
-- The statements of a round that the sender and the receiver of src/itc run.
use zephyr_kernel_bm_tuc_hms.Prelude.{ℕ, ◌≢◌, arith, List}
use zephyr_kernel_bm_tuc_hms.Window.{Mark, Phase, phase, samples}
use zephyr_kernel_bm_tuc_hms.Itc.Kernel.{
  test_arm_sem, test_recv_sem, Object, Kernel, KernelDoc, Scheduler, SchedulerDoc,
}
use zephyr_kernel_bm_tuc_hms.Itc.Handover.{
  Uses, Agree, Direction, series, SendPc, RecvPc, ArmPc, System, t_send, t_recv, t_arm, threads,
}
use zephyr_kernel_bm_tuc_hms.Itc.Handover.States.{Then, State, goes, recv-arm, arm-recv}

module _ {S : Type 0} (k : Kernel S) (doc : KernelDoc k) (counter : List Mark → ℕ) (uses : Uses)
    (agree : Agree uses) (next : Scheduler (System S)) (rule : SchedulerDoc next) (d : Direction)
    (step i r m n : ℕ) (o : Object) (apart : r ≢ series d step) where
  pub take_recv-State :
      (y : System S)
      → State k uses d step r m o SendPc.take_arm RecvPc.take_recv
          (ArmPc.arm_open step i)
          0
          1
          0
          (λ _. Phase.shut)
          n
          y
      → Then
          (State k uses d step r m o SendPc.take_arm RecvPc.recv_get
            (ArmPc.arm_open step i)
            0
            0
            0
            (λ _. Phase.shut)
            n)
          (next (threads k counter uses d y))
  unfolding t_send t_recv t_arm phase samples
  take_recv-State y h = goes k doc counter uses agree next rule d (Then _) y (
      ground (
        arith,
        agree y.active,
        doc.take test_recv_sem y.kernel 0 h.gate_tokens,
        doc.take_other test_recv_sem test_arm_sem y.kernel recv-arm,
        doc.take_sent test_recv_sem (uses.sender_object y.active) y.kernel,
        doc.take_sent test_recv_sem o y.kernel,
      ))

  pub take_arm-State :
      (y : System S)
      → State k uses d step r m o SendPc.take_arm RecvPc.recv_get
          (ArmPc.arm_feed step i)
          1
          0
          0
          (λ _. Phase.empty)
          n
          y
      → Then
          (State k uses d step r m o SendPc.send_reset RecvPc.recv_get
            (ArmPc.arm_feed step i)
            0
            0
            0
            (λ _. Phase.empty)
            n)
          (next (threads k counter uses d y))
  unfolding t_send t_recv t_arm phase samples
  take_arm-State y h = goes k doc counter uses agree next rule d (Then _) y (
      ground (
        arith,
        agree y.active,
        doc.take test_arm_sem y.kernel 0 h.baton_tokens,
        doc.take_other test_arm_sem test_recv_sem y.kernel arm-recv,
        doc.take_sent test_arm_sem (uses.sender_object y.active) y.kernel,
        doc.take_sent test_arm_sem o y.kernel,
      ))

  pub send_reset-State :
      (y : System S)
      → State k uses d step r m o SendPc.send_reset RecvPc.recv_get
          (ArmPc.arm_feed step i)
          0
          0
          0
          (λ _. Phase.empty)
          n
          y
      → Then
          (State k uses d step r m o SendPc.send_start RecvPc.recv_get
            (ArmPc.arm_feed step i)
            0
            0
            0
            (λ _. Phase.armed)
            n)
          (next (threads k counter uses d y))
  unfolding t_send t_recv t_arm phase samples
  send_reset-State y h =
      goes k doc counter uses agree next rule d (Then _) y (ground (arith, agree y.active))

  pub send_start-State :
      (y : System S)
      → State k uses d step r m o SendPc.send_start RecvPc.recv_get
          (ArmPc.arm_feed step i)
          0
          0
          0
          (λ _. Phase.armed)
          n
          y
      → Then
          (State k uses d step r m o SendPc.send_put RecvPc.recv_get
            (ArmPc.arm_feed step i)
            0
            0
            0
            (λ y. Phase.timing y.test_start_time)
            n)
          (next (threads k counter uses d y))
  unfolding t_send t_recv t_arm phase samples
  send_start-State y h =
      goes k doc counter uses agree next rule d (Then _) y (ground (arith, agree y.active))

  pub send_put-State :
      (y : System S)
      → State k uses d step r m o SendPc.send_put RecvPc.recv_get
          (ArmPc.arm_feed step i)
          0
          0
          0
          (λ y. Phase.timing y.test_start_time)
          n
          y
      → Then
          (State k uses d step r m o SendPc.take_arm RecvPc.recv_get
            (ArmPc.arm_feed step i)
            0
            0
            1
            (λ y. Phase.timing y.test_start_time)
            n)
          (next (threads k counter uses d y))
  unfolding t_send t_recv t_arm phase samples
  send_put-State y h = goes k doc counter uses agree next rule d (Then _) y (
      ground (
        arith,
        agree y.active,
        doc.empty_has_room (uses.sender_object y.active) y.kernel h.in_object,
        doc.put_sent (uses.sender_object y.active) (uses.sender_object y.active) y.kernel,
        doc.put_sent (uses.sender_object y.active) o y.kernel,
        doc.put_tokens (uses.sender_object y.active) test_arm_sem y.kernel,
        doc.put_tokens (uses.sender_object y.active) test_recv_sem y.kernel,
      ))

  pub recv_get-State :
      (y : System S)
      → State k uses d step r m o SendPc.take_arm RecvPc.recv_get
          (ArmPc.arm_feed step i)
          0
          0
          1
          (λ y. Phase.timing y.test_start_time)
          n
          y
      → Then
          (State k uses d step r m o SendPc.take_arm RecvPc.recv_stop
            (ArmPc.arm_feed step i)
            0
            0
            0
            (λ y. Phase.timing y.test_start_time)
            n)
          (next (threads k counter uses d y))
  unfolding t_send t_recv t_arm phase samples
  recv_get-State y h = goes k doc counter uses agree next rule d (Then _) y (
      ground (
        arith,
        agree y.active,
        doc.get_sent (uses.sender_object y.active) (uses.sender_object y.active) y.kernel 0
            h.in_object,
        doc.get_sent (uses.sender_object y.active) o y.kernel 0 h.in_object,
        doc.get_tokens (uses.sender_object y.active) test_arm_sem y.kernel,
        doc.get_tokens (uses.sender_object y.active) test_recv_sem y.kernel,
      ))

  pub recv_stop-State :
      (y : System S)
      → State k uses d step r m o SendPc.take_arm RecvPc.recv_stop
          (ArmPc.arm_feed step i)
          0
          0
          0
          (λ y. Phase.timing y.test_start_time)
          n
          y
      → Then
          (State k uses d step r m o SendPc.take_arm RecvPc.take_recv
            (ArmPc.arm_feed step i)
            0
            0
            0
            (λ y. Phase.timed y.test_start_time y.test_stop_time)
            n)
          (next (threads k counter uses d y))
  unfolding t_send t_recv t_arm phase samples
  recv_stop-State y h =
      goes k doc counter uses agree next rule d (Then _) y (ground (arith, agree y.active))
