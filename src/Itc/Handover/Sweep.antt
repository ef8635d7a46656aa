-- ===== src/Itc/Handover/Sweep.antt =====
-- What one round of the releaser of src/itc leaves of every series and every object.
use zephyr_kernel_bm_tuc_hms.Prelude.{
  ℕ, zero, suc, ◌+◌, ◌≡◌, inl, inr, arith, true, false, List, Option, none, some, ◌==◌,
  if◌then◌else◌, Bool-cases,
}
use zephyr_kernel_bm_tuc_hms.Window.{Mark, Series, Phase, IsSampled}
use zephyr_kernel_bm_tuc_hms.Itc.Kernel.{
  test_arm_sem, test_recv_sem, Object, Kernel, KernelDoc, Scheduler, SchedulerDoc,
}
use zephyr_kernel_bm_tuc_hms.Itc.Handover.{
  Uses, Agree, measurement_count, Direction, series, SendPc, RecvPc, ArmPc, next_round, System,
  threads, run, continue,
}
use zephyr_kernel_bm_tuc_hms.Itc.Handover.States.{Then, continue-Then, At}
use zephyr_kernel_bm_tuc_hms.Itc.Handover.Round.{round}

continue-split :
    {A B : Type 0} (P : B → Type 0) (r : Option A) (f : A → Option B)
    → Then P (continue r f)
    → Then (λ a. Then P (f a)) r
continue-split P none f h = h
continue-split P (some a) f h = h

pub Then-map :
    {A : Type 0} (P Q : A → Type 0) (r : Option A) → ((a : A) → P a → Q a) → Then P r → Then Q r
Then-map P Q none f h = h
Then-map P Q (some a) f h = f a h

-- What holds of every index holds of all of them at once.
pub Then-all :
    {A I : Type 0} (P : I → A → Type 0) (r : Option A) (i : I)
    → ((i : I) → Then (P i) r)
    → Then (λ a. (i : I) → P i a) r
Then-all P none i h = h i
Then-all P (some a) i h = h

-- A run in two parts.
module _ {S : Type 0} (next : Scheduler (System S)) (ts : System S → List (ℕ × Option (System S)))
    (P Q : System S → Type 0) where
  pub run-Then :
      (n m : ℕ) (y : System S)
      → Then P (run next ts n y)
      → ((y' : System S) → P y' → Then Q (run next ts m y'))
      → Then Q (run next ts (n + m) y)
  unfolding run
  run-Then zero m y h f = let e : 0 + m ≡ m = omega arith in rw e (f y h)
  run-Then (suc n) m y h f =
      let e : suc n + m ≡ suc (n + m) = omega arith in
      rw e (
        continue-Then (λ a. Then P (run next ts n a)) Q (next (ts y)) (λ a. run next ts (n + m) a)
          (continue-split P (next (ts y)) (λ a. run next ts n a) h) (λ a g. run-Then n m a g f))

-- The samples that the releaser has fed to a series when it is at round `i` of a step.
unfoldable pub fed_so_far : Direction → (step i : ℕ) → Series → ℕ
fed_so_far d zero i s = if s == series d 0 then i else 0
fed_so_far d (suc step) i s =
    let before = fed_so_far d step measurement_count s in
    before + (if s == series d (suc step) then i else 0)

-- Between two rounds: the measured threads wait, no token and no message is left, every window is
-- shut and every series has had its samples.
pub record Between {S : Type 0} (k : Kernel S) (arm : ArmPc) (fed : Series → ℕ) (y : System S)
    : Type 0 where
  pub sender : y.send ≡ SendPc.take_arm
  pub receiver : y.recv ≡ RecvPc.take_recv
  pub releaser : y.arm ≡ arm
  pub baton_tokens : k.tokens test_arm_sem y.kernel ≡ 0
  pub gate_tokens : k.tokens test_recv_sem y.kernel ≡ 0
  pub in_objects : (o : Object) → k.sent o y.kernel ≡ 0
  pub sampled : (s : Series) → IsSampled s (fed s) y.trace

-- The same for one series and one object.
pub record Settled {S : Type 0} (k : Kernel S) (arm : ArmPc) (n : ℕ) (s : Series) (o : Object)
    (y : System S) : Type 0 where
  pub sender : y.send ≡ SendPc.take_arm
  pub receiver : y.recv ≡ RecvPc.take_recv
  pub releaser : y.arm ≡ arm
  pub baton_tokens : k.tokens test_arm_sem y.kernel ≡ 0
  pub gate_tokens : k.tokens test_recv_sem y.kernel ≡ 0
  pub in_object : k.sent o y.kernel ≡ 0
  pub sampled : IsSampled s n y.trace

pub fed_so_far-suc :
    (d : Direction) (step i : ℕ) (s : Series)
    → fed_so_far d step (suc i) s ≡ fed_so_far d step i s + (if s == series d step then 1 else 0)
unfolding fed_so_far
fed_so_far-suc d zero i s = ground arith
fed_so_far-suc d (suc step) i s = ground arith

module _ {S : Type 0} (k : Kernel S) (doc : KernelDoc k) (counter : List Mark → ℕ) (uses : Uses)
    (agree : Agree uses) (next : Scheduler (System S)) (rule : SchedulerDoc next)
    (d : Direction) where
  Between-At :
      (step i r : ℕ) (o : Object) (y : System S)
      → Between k (ArmPc.give_recv step i) (fed_so_far d step i) y
      → At k uses
          (series d step)
          r
          (fed_so_far d step i r)
          o
          SendPc.take_arm
          RecvPc.take_recv
          (ArmPc.give_recv step i)
          0
          0
          0
          (λ _. Phase.shut)
          (fed_so_far d step i (series d step))
          y
  Between-At step i r o y h = record {
    sender = h.sender;
    receiver = h.receiver;
    releaser = h.releaser;
    baton_tokens = h.baton_tokens;
    gate_tokens = h.gate_tokens;
    in_object = h.in_objects (uses.sender_object y.active);
    in_other = ground (arith, h.in_objects o);
    at_window = (h.sampled (series d step)).at_rest;
    fed = (h.sampled (series d step)).count;
    beside = h.sampled r;
  }

  -- What `round` says of a round that starts between two rounds.
  After : (step i r : ℕ) → Object → System S → Type 0
  After step i r o =
      At k uses (series d step) r (fed_so_far d step i r) o SendPc.take_arm RecvPc.take_recv
        (next_round step i) 0 0 0 (λ _. Phase.shut) (suc (fed_so_far d step i (series d step)))

  own_series :
      (step i r s : ℕ) (o : Object) (y : System S)
      → (s == series d step) ≡ true
      → After step i r o y
      → Settled k (next_round step i) (fed_so_far d step (suc i) s) s o y
  unfolding After
  own_series step i r s o y e h = ground (arith, fed_so_far-suc d step i s)

  other_series :
      (step i s : ℕ) (o : Object) (y : System S)
      → (s == series d step) ≡ false
      → After step i s o y
      → Settled k (next_round step i) (fed_so_far d step (suc i) s) s o y
  unfolding After
  other_series step i s o y e h = ground (arith, fed_so_far-suc d step i s)

  -- One series and one object after a round.
  pub round_one :
      (step i : ℕ) (s : Series) (o : Object) (y : System S)
      → Between k (ArmPc.give_recv step i) (fed_so_far d step i) y
      → Then
          (Settled k (next_round step i) (fed_so_far d step (suc i) s) s o)
          (run next (threads k counter uses d) 12 y)
  unfolding After
  round_one step i s o y h = elim (Bool-cases (s == series d step)) [
    | inl e ↦
        Then-map (After step i (suc s) o) _ (run next (threads k counter uses d) 12 y)
          (λ y' g. own_series step i (suc s) s o y' e g)
          (round k doc counter uses agree next rule d step i (suc s) (fed_so_far d step i (suc s))
            (fed_so_far d step i (series d step)) o (λ q. ground arith) y
            (Between-At step i (suc s) o y h))
    | inr e ↦
        Then-map (After step i s o) _ (run next (threads k counter uses d) 12 y)
          (λ y' g. other_series step i s o y' e g)
          (round k doc counter uses agree next rule d step i s (fed_so_far d step i s)
            (fed_so_far d step i (series d step)) o (λ q. ground arith) y
            (Between-At step i s o y h))
  ]
