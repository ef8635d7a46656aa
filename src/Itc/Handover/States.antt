-- ===== src/Itc/Handover/States.antt =====
-- The states of the threads of src/itc between two statements, and the thread that the scheduler
-- lets run next.
use zephyr_kernel_bm_tuc_hms.Prelude.{
  ℕ, ◌≡◌, ◌≢◌, arith, List, Option, none, some, ◌==◌, if◌then◌else◌,
}
use zephyr_kernel_bm_tuc_hms.Window.{Mark, Phase, phase, samples, IsSampled}
use zephyr_kernel_bm_tuc_hms.Itc.Kernel.{
  test_arm_sem, test_recv_sem, Object, Kernel, KernelDoc, Scheduler, SchedulerDoc, next-first_ready,
  first_ready,
}
use zephyr_kernel_bm_tuc_hms.Itc.Handover.{
  Uses, Agree, continue, Direction, up, down, series, SendPc, RecvPc, ArmPc, System, t_send, t_recv,
  t_arm, threads,
}

-- Some thread can go on, and leaves a state with the property.
abbrev pub Then {ℓ} : {A : Type ℓ} → (A → Type 0) → Option A → Type 0
Then Q none = ⊥
Then Q (some y) = Q y

pub continue-Then :
    {A B : Type 0} (P : A → Type 0) (Q : B → Type 0) (r : Option A) (f : A → Option B)
    → Then P r
    → ((a : A) → P a → Then Q (f a))
    → Then Q (continue r f)
continue-Then P Q none f h g = absurd h
continue-Then P Q (some a) f h g = g a h

pub Then-continue :
    {A : Type 0} (P : A → Type 0) (r : Option A) → Then P r → Then P (continue r (λ a. some a))
Then-continue P none h = h
Then-continue P (some a) h = h

pub recv-arm : test_recv_sem ≢ test_arm_sem
recv-arm = λ e. ground arith

pub arm-recv : test_arm_sem ≢ test_recv_sem
arm-recv = λ e. ground arith

-- A state between two statements: where each thread is, the tokens of the baton and of the gate, the
-- messages in the object, where the window of series `s` stands and how many samples it has had, and
-- another series
-- with its own, and an object that may be another.
pub record At {S : Type 0} (k : Kernel S) (uses : Uses) (s r m : ℕ) (o : Object) (send : SendPc)
    (recv : RecvPc) (arm : ArmPc) (baton gate messages : ℕ) (window : System S → Phase) (n : ℕ)
    (y : System S) : Type 0 where
  pub sender : y.send ≡ send
  pub receiver : y.recv ≡ recv
  pub releaser : y.arm ≡ arm
  pub baton_tokens : k.tokens test_arm_sem y.kernel ≡ baton
  pub gate_tokens : k.tokens test_recv_sem y.kernel ≡ gate
  pub in_object : k.sent (uses.sender_object y.active) y.kernel ≡ messages
  pub in_other : k.sent o y.kernel ≡ (if o == uses.sender_object y.active then messages else 0)
  pub at_window : phase s y.trace ≡ window y
  pub fed : samples s y.trace ≡ n
  pub beside : IsSampled r m y.trace

module _ {S : Type 0} (k : Kernel S) (doc : KernelDoc k) (counter : List Mark → ℕ) (uses : Uses)
    (agree : Agree uses) (next : Scheduler (System S)) (rule : SchedulerDoc next) where
  -- Whichever of the sender and the receiver is of higher priority, the first of the three that can
  -- go on goes on.
  pub goes :
      (d : Direction) (P : Option (System S) → Type 0) (y : System S)
      → P (
          first_ready
            (t_recv k counter uses d y)
            (t_send k counter uses d y)
            (t_arm k counter uses d y))
        × P (
            first_ready
              (t_send k counter uses d y)
              (t_recv k counter uses d y)
              (t_arm k counter uses d y))
      → P (next (threads k counter uses d y))
  unfolding threads
  goes up P y (h, h') =
      rw
        (next-first_ready next rule 2 3 4 (t_recv k counter uses up y) (t_send k counter uses up y)
          (t_arm k counter uses up y) (omega arith) (omega arith) (omega arith))
        h
  goes down P y (h, h') =
      rw
        (next-first_ready next rule 2 3 4 (t_send k counter uses down y)
          (t_recv k counter uses down y) (t_arm k counter uses down y) (omega arith) (omega arith)
          (omega arith))
        h'

-- `At`, for the series of a step.
abbrev pub State :
    {S : Type 0} (k : Kernel S) (uses : Uses) (d : Direction) (step r m : ℕ) (o : Object)
    → SendPc
    → RecvPc
    → ArmPc
    → (baton gate messages : ℕ) → (System S → Phase)
    → ℕ
    → System S
    → Type 0
State k uses d step r m o = At k uses (series d step) r m o
