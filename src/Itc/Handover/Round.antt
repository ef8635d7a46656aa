-- ===== src/Itc/Handover/Round.antt =====
-- One round of the releaser of src/itc: the chain of its twelve statements.
use zephyr_kernel_bm_tuc_hms.Prelude.{ℕ, suc, ◌≢◌, List}
use zephyr_kernel_bm_tuc_hms.Window.{Mark, Phase}
use zephyr_kernel_bm_tuc_hms.Itc.Kernel.{Object, Kernel, KernelDoc, Scheduler, SchedulerDoc}
use zephyr_kernel_bm_tuc_hms.Itc.Handover.{
  Uses, Agree, Direction, series, SendPc, RecvPc, ArmPc, next_round, System, threads, run,
}
use zephyr_kernel_bm_tuc_hms.Itc.Handover.States.{Then, continue-Then, Then-continue, State}
use zephyr_kernel_bm_tuc_hms.Itc.Handover.Arming.{
  give_recv-State, arm_open-State, give_arm-State, arm_feed-State, arm_close-State,
}
use zephyr_kernel_bm_tuc_hms.Itc.Handover.Passing.{
  take_recv-State, take_arm-State, send_reset-State, send_start-State, send_put-State,
  recv_get-State, recv_stop-State,
}

module _ {S : Type 0} (k : Kernel S) (doc : KernelDoc k) (counter : List Mark → ℕ) (uses : Uses)
    (agree : Agree uses) (next : Scheduler (System S)) (rule : SchedulerDoc next) (d : Direction)
    (step i r m n : ℕ) (o : Object) (apart : r ≢ series d step) where
  -- One round: twelve statements later the sender waits for the baton again and the receiver at
  -- the gate, no message is left, and the series has one sample more, timed in its own window.
  pub round :
      (y : System S)
      → State k uses d step r m o SendPc.take_arm RecvPc.take_recv
          (ArmPc.give_recv step i)
          0
          0
          0
          (λ _. Phase.shut)
          n
          y
      → Then
          (State k uses d step r m o SendPc.take_arm RecvPc.take_recv
            (next_round step i)
            0
            0
            0
            (λ _. Phase.shut)
            (suc n))
          (run next (threads k counter uses d) 12 y)
  unfolding run
  round y h =
      continue-Then _ _ _ _
        (give_recv-State k doc counter uses agree next rule d step i r m n o apart y h)
        (λ y h.
          continue-Then _ _ _ _
            (take_recv-State k doc counter uses agree next rule d step i r m n o apart y h)
            (λ y h.
              continue-Then _ _ _ _
                (arm_open-State k doc counter uses agree next rule d step i r m n o apart y h)
                (λ y h.
                  continue-Then _ _ _ _
                    (give_arm-State k doc counter uses agree next rule d step i r m n o apart y h)
                    (λ y h.
                      continue-Then _ _ _ _
                        (take_arm-State k doc counter uses agree next rule d step i r m n o apart y
                          h)
                        (λ y h.
                          continue-Then _ _ _ _
                            (send_reset-State k doc counter uses agree next rule d step i r m n o
                              apart y h)
                            (λ y h.
                              continue-Then _ _ _ _
                                (send_start-State k doc counter uses agree next rule d step i r m n
                                  o apart y h)
                                (λ y h.
                                  continue-Then _ _ _ _
                                    (send_put-State k doc counter uses agree next rule d step i r m
                                      n o apart y h)
                                    (λ y h.
                                      continue-Then _ _ _ _
                                        (recv_get-State k doc counter uses agree next rule d step i
                                          r m n o apart y h)
                                        (λ y h.
                                          continue-Then _ _ _ _
                                            (recv_stop-State k doc counter uses agree next rule d
                                              step i r m n o apart y h)
                                            (λ y h.
                                              continue-Then _ _ _ _
                                                (arm_feed-State k doc counter uses agree next rule d
                                                  step i r m n o apart y h)
                                                (λ y h.
                                                  Then-continue
                                                    (State k uses d step r m o SendPc.take_arm
                                                      RecvPc.take_recv (next_round step i) 0 0 0
                                                      (λ _. Phase.shut) (suc n))
                                                    (next (threads k counter uses d y))
                                                    (arm_close-State k doc counter uses agree next
                                                      rule d step i r m n o apart y h))))))))))))
