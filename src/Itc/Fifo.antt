-- ===== src/Itc/Fifo.antt =====
-- src/itc/fifo/fifo.c: the threads of the two directions, with the protocol of Itc/Handover.antt,
-- and T_Self.
use zephyr_kernel_bm_tuc_hms.Prelude.{
  refl, false, ℕ, List, [], ◌∷◌, Option, ◌+◌, ◌*◌, ◌<◌, ◌≡◌, none,
}
use zephyr_kernel_bm_tuc_hms.Window.{Mark, IsSampled}
use zephyr_kernel_bm_tuc_hms.Itc.Kernel.{Object, Kernel, KernelDoc, Scheduler, SchedulerDoc}
use zephyr_kernel_bm_tuc_hms.Itc.Handover.{
  Uses, measurement_count, message_size_steps, up, down, self_send, series, ArmPc, t_send_prio,
  t_recv_prio, t_arm_prio, System, t_send, t_recv, t_arm, threads, run,
}
use zephyr_kernel_bm_tuc_hms.Itc.Handover.States.{Then}
use zephyr_kernel_bm_tuc_hms.Itc.Handover.Sweep.{Between}
use zephyr_kernel_bm_tuc_hms.Itc.Handover.Steps.{sweep}
use zephyr_kernel_bm_tuc_hms.Itc.Self.{SelfThread, self_loop}
use zephyr_kernel_bm_tuc_hms.Itc.Self.Laws.{Idle, self_loop-Idle}

-- `&test_fifo_self`, numbered.
abbrev pub test_fifo_self : ℕ → Object
test_fifo_self step = 2

-- `&test_fifo_high` and `&test_fifo_low`, which the threads of the two directions name.
abbrev pub test_fifo_high : Object
test_fifo_high = 0

abbrev pub test_fifo_low : Object
test_fifo_low = 1

abbrev pub high_uses : Uses
high_uses = record {
  choose = λ step o. o;
  sender_object = λ _. test_fifo_high;
  receiver_object = λ _. test_fifo_high;
  put_fails = false;
}

abbrev pub low_uses : Uses
low_uses = record {
  choose = λ step o. o;
  sender_object = λ _. test_fifo_low;
  receiver_object = λ _. test_fifo_low;
  put_fails = false;
}

module _ {S : Type 0} (k : Kernel S) (counter : List Mark → ℕ) where
  unfoldable pub t_self : SelfThread S → Option (SelfThread S)
  t_self = self_loop k counter false false test_fifo_self

  unfoldable pub t_send_up : System S → Option (System S)
  t_send_up = t_send k counter high_uses up

  unfoldable pub t_recv_up : System S → Option (System S)
  t_recv_up = t_recv k counter high_uses up

  unfoldable pub t_send_down : System S → Option (System S)
  t_send_down = t_send k counter low_uses down

  unfoldable pub t_recv_down : System S → Option (System S)
  t_recv_down = t_recv k counter low_uses down

  unfoldable pub t_arm_up : System S → Option (System S)
  t_arm_up = t_arm k counter high_uses up

  unfoldable pub t_arm_down : System S → Option (System S)
  t_arm_down = t_arm k counter low_uses down

  unfoldable pub threads_up : System S → List (ℕ × Option (System S))
  unfolding t_send_up t_recv_up t_arm_up
  threads_up y =
      (t_recv_prio up, t_recv_up y) ∷ (t_send_prio up, t_send_up y) ∷ (t_arm_prio, t_arm_up y) ∷ []

  unfoldable pub threads_down : System S → List (ℕ × Option (System S))
  unfolding t_send_down t_recv_down t_arm_down
  threads_down y =
      (t_send_prio down, t_send_down y)
      ∷ (t_recv_prio down, t_recv_down y)
      ∷ (t_arm_prio, t_arm_down y)
      ∷ []

module _ {S : Type 0} (k : Kernel S) (doc : KernelDoc k) (counter : List Mark → ℕ)
    (next : Scheduler (System S)) (rule : SchedulerDoc next) where
  -- The three benchmarks of fifo.c. Each direction, from the start of the first step, with the
  -- measured threads waiting, no token and no message left and no sample fed: after
  -- 9 * (1 + 12 * 50000) + 1 statements of its three threads, in the order that Zephyr's scheduler
  -- picks, the releaser is suspended, no thread can go on, and the series of every step has exactly
  -- 50000 samples, each timed in its own window. T_Self, from a state with no message left and no
  -- sample fed, never pends and ends with the same.
  pub fifo_sweep :
      (step : ℕ) (y : System S) (z : SelfThread S)
      → step < message_size_steps
      → Between k (ArmPc.begin_step 0) (λ _. 0) y
      → Idle k (self_send step) 0 z
      → Then
          (λ y'.
            (y'.arm ≡ ArmPc.suspended)
            × ((next (threads_up k counter y') ≡ none)
                × IsSampled (series up step) measurement_count y'.trace))
          (run next
            (threads_up k counter)
            ((1 + 12 * measurement_count) * message_size_steps + 1)
            y)
        × (Then
              (λ y'.
                (y'.arm ≡ ArmPc.suspended)
                × ((next (threads_down k counter y') ≡ none)
                    × IsSampled (series down step) measurement_count y'.trace))
              (run next
                (threads_down k counter)
                ((1 + 12 * measurement_count) * message_size_steps + 1)
                y)
            × Then (Idle k (self_send step) measurement_count) (t_self k counter z))
  unfolding threads_up threads_down threads t_self
  fifo_sweep step y z l h g = (
    sweep k doc counter high_uses (λ _. refl) next rule up step y l h,
    (
      sweep k doc counter low_uses (λ _. refl) next rule down step y l h,
      self_loop-Idle k doc counter false false test_fifo_self step 0 z l g,
    ),
  )
