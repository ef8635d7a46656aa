-- ===== src/Itc/Handover/Arming.antt =====
-- The statements of a round that the releaser of src/itc runs.
use zephyr_kernel_bm_tuc_hms.Prelude.{ℕ, suc, ◌≢◌, arith, List}
use zephyr_kernel_bm_tuc_hms.Window.{Mark, Phase, phase, samples}
use zephyr_kernel_bm_tuc_hms.Itc.Kernel.{
  test_arm_sem, test_recv_sem, Object, Kernel, KernelDoc, Scheduler, SchedulerDoc,
}
use zephyr_kernel_bm_tuc_hms.Itc.Handover.{
  Uses, Agree, Direction, series, SendPc, RecvPc, ArmPc, next_round, System, t_send, t_recv, t_arm,
  threads,
}
use zephyr_kernel_bm_tuc_hms.Itc.Handover.States.{Then, State, goes, recv-arm, arm-recv}

module _ {S : Type 0} (k : Kernel S) (doc : KernelDoc k) (counter : List Mark → ℕ) (uses : Uses)
    (agree : Agree uses) (next : Scheduler (System S)) (rule : SchedulerDoc next) (d : Direction)
    (step i r m n : ℕ) (o : Object) (apart : r ≢ series d step) where
  pub give_recv-State :
      (y : System S)
      → State k uses d step r m o SendPc.take_arm RecvPc.take_recv
          (ArmPc.give_recv step i)
          0
          0
          0
          (λ _. Phase.shut)
          n
          y
      → Then
          (State k uses d step r m o SendPc.take_arm RecvPc.take_recv
            (ArmPc.arm_open step i)
            0
            1
            0
            (λ _. Phase.shut)
            n)
          (next (threads k counter uses d y))
  unfolding t_send t_recv t_arm phase samples
  give_recv-State y h = goes k doc counter uses agree next rule d (Then _) y (
      ground (
        arith,
        agree y.active,
        doc.give test_recv_sem y.kernel h.gate_tokens,
        doc.give_other test_recv_sem test_arm_sem y.kernel recv-arm,
        doc.give_sent test_recv_sem (uses.sender_object y.active) y.kernel,
        doc.give_sent test_recv_sem o y.kernel,
      ))

  pub arm_open-State :
      (y : System S)
      → State k uses d step r m o SendPc.take_arm RecvPc.recv_get
          (ArmPc.arm_open step i)
          0
          0
          0
          (λ _. Phase.shut)
          n
          y
      → Then
          (State k uses d step r m o SendPc.take_arm RecvPc.recv_get
            (ArmPc.give_arm step i)
            0
            0
            0
            (λ _. Phase.empty)
            n)
          (next (threads k counter uses d y))
  unfolding t_send t_recv t_arm phase samples
  arm_open-State y h =
      goes k doc counter uses agree next rule d (Then _) y (ground (arith, agree y.active))

  pub give_arm-State :
      (y : System S)
      → State k uses d step r m o SendPc.take_arm RecvPc.recv_get
          (ArmPc.give_arm step i)
          0
          0
          0
          (λ _. Phase.empty)
          n
          y
      → Then
          (State k uses d step r m o SendPc.take_arm RecvPc.recv_get
            (ArmPc.arm_feed step i)
            1
            0
            0
            (λ _. Phase.empty)
            n)
          (next (threads k counter uses d y))
  unfolding t_send t_recv t_arm phase samples
  give_arm-State y h = goes k doc counter uses agree next rule d (Then _) y (
      ground (
        arith,
        agree y.active,
        doc.give test_arm_sem y.kernel h.baton_tokens,
        doc.give_other test_arm_sem test_recv_sem y.kernel arm-recv,
        doc.give_sent test_arm_sem (uses.sender_object y.active) y.kernel,
        doc.give_sent test_arm_sem o y.kernel,
      ))

  pub arm_feed-State :
      (y : System S)
      → State k uses d step r m o SendPc.take_arm RecvPc.take_recv
          (ArmPc.arm_feed step i)
          0
          0
          0
          (λ y. Phase.timed y.test_start_time y.test_stop_time)
          n
          y
      → Then
          (State k uses d step r m o SendPc.take_arm RecvPc.take_recv
            (ArmPc.arm_close step i)
            0
            0
            0
            (λ _. Phase.done)
            (suc n))
          (next (threads k counter uses d y))
  unfolding t_send t_recv t_arm phase samples
  arm_feed-State y h =
      goes k doc counter uses agree next rule d (Then _) y (ground (arith, agree y.active))

  pub arm_close-State :
      (y : System S)
      → State k uses d step r m o SendPc.take_arm RecvPc.take_recv
          (ArmPc.arm_close step i)
          0
          0
          0
          (λ _. Phase.done)
          (suc n)
          y
      → Then
          (State k uses d step r m o SendPc.take_arm RecvPc.take_recv
            (next_round step i)
            0
            0
            0
            (λ _. Phase.shut)
            (suc n))
          (next (threads k counter uses d y))
  unfolding t_send t_recv t_arm phase samples
  arm_close-State y h =
      goes k doc counter uses agree next rule d (Then _) y (ground (arith, agree y.active))
