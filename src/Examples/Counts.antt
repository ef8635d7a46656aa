-- ===== src/Examples/Counts.antt =====
-- A concrete kernel and scheduler for the threads of src/itc, and concrete states.
use zephyr_kernel_bm_tuc_hms.Prelude.{
  ℕ, suc, ◌-◌, ◌≡◌, ◌≢◌, refl, arith, Bool, true, ◌&&◌, List, [], ◌∷◌, Option, none, some, length,
  ltb, ◌==◌, if◌then◌else◌,
}
use zephyr_kernel_bm_tuc_hms.Window.{Mark, phase, samples}
use zephyr_kernel_bm_tuc_hms.Itc.Kernel.{
  SemPtr, test_arm_sem, test_recv_sem, Object, Kernel, KernelDoc, SchedulerDoc, IsLowest,
}
use zephyr_kernel_bm_tuc_hms.Itc.Handover.{SendPc, RecvPc, ArmPc, System}
use zephyr_kernel_bm_tuc_hms.Itc.Handover.Sweep.{Between}
use zephyr_kernel_bm_tuc_hms.Itc.Self.{SelfThread}
use zephyr_kernel_bm_tuc_hms.Itc.Self.Laws.{Idle}

-- Two binary semaphores, and objects that hold any number of messages.
pub record Counts : Type 0 where
  pub baton : ℕ
  pub gate : ℕ
  pub messages : ℕ → ℕ

abbrev pub tokens_of : SemPtr → Counts → ℕ
tokens_of test_arm_sem s = s.baton
tokens_of test_recv_sem s = s.gate

abbrev pub set_tokens : SemPtr → ℕ → Counts → Counts
set_tokens test_arm_sem n s = record s { baton = n }
set_tokens test_recv_sem n s = record s { gate = n }

abbrev pub counts : Kernel Counts
counts = record {
  k_sem_give = λ p s. set_tokens p 1 s;
  k_sem_take = λ p s. set_tokens p (tokens_of p s - 1) s;
  tokens = tokens_of;
  put = λ o s. record s { messages = λ o'. if o' == o then suc (s.messages o') else s.messages o' };
  get = λ o s. record s { messages = λ o'. if o' == o then s.messages o' - 1 else s.messages o' };
  sent = λ o s. s.messages o;
  has_room = λ o s. true;
  k_event_wait_safe = λ m s. some s;
  k_event_post = λ m s. s;
}

tokens-set_tokens : (p : SemPtr) (n : ℕ) (s : Counts) → tokens_of p (set_tokens p n s) ≡ n
tokens-set_tokens test_arm_sem n s = refl
tokens-set_tokens test_recv_sem n s = refl

tokens-set_other :
    (p q : SemPtr) (n : ℕ) (s : Counts) → p ≢ q → tokens_of q (set_tokens p n s) ≡ tokens_of q s
tokens-set_other test_arm_sem test_arm_sem n s h = absurd (h refl)
tokens-set_other test_arm_sem test_recv_sem n s h = refl
tokens-set_other test_recv_sem test_arm_sem n s h = refl
tokens-set_other test_recv_sem test_recv_sem n s h = absurd (h refl)

messages-set_tokens :
    (p : SemPtr) (n : ℕ) (o : Object) (s : Counts) → (set_tokens p n s).messages o ≡ s.messages o
messages-set_tokens test_arm_sem n o s = refl
messages-set_tokens test_recv_sem n o s = refl

tokens-messages :
    (p : SemPtr) (f : ℕ → ℕ) (s : Counts) → tokens_of p (record s { messages = f }) ≡ tokens_of p s
tokens-messages test_arm_sem f s = refl
tokens-messages test_recv_sem f s = refl

pub counts-KernelDoc : KernelDoc counts
counts-KernelDoc = record {
  give = λ p s h. tokens-set_tokens p 1 s;
  give_other = λ p q s h. tokens-set_other p q 1 s h;
  take = λ p s n h. ground (arith, tokens-set_tokens p (tokens_of p s - 1) s);
  take_other = λ p q s h. tokens-set_other p q (tokens_of p s - 1) s h;
  give_sent = λ p o s. messages-set_tokens p 1 o s;
  take_sent = λ p o s. messages-set_tokens p (tokens_of p s - 1) o s;
  put_sent = λ o o' s. refl;
  get_sent = λ o o' s n h. ground arith;
  put_tokens = λ o p s. tokens-messages p _ s;
  get_tokens = λ o p s. tokens-messages p _ s;
  empty_has_room = λ o s h. refl;
  post_sent = λ m o s. refl;
  post_tokens = λ m p s. refl;
}

-- Whether every listed priority is a larger number.
abbrev pub is_lowest {ℓ} : {A : Type ℓ} → ℕ → List (ℕ × A) → Bool
is_lowest p [] = true
is_lowest p ((q, a) ∷ ts) = ltb p q && is_lowest p ts

is_lowest-IsLowest :
    {A : Type 0} (p : ℕ) (ts : List (ℕ × A)) → IsLowest p ts → is_lowest p ts ≡ true
is_lowest-IsLowest p [] h = refl
is_lowest-IsLowest p ((q, a) ∷ ts) (l, h) = ground (arith, is_lowest-IsLowest p ts h)

abbrev pub highest : {A : Type 0} → List (ℕ × Option A) → Option A
highest [] = none
highest ((p, none) ∷ ts) = highest ts
highest ((p, some a) ∷ ts) = let later = highest ts in if is_lowest p ts then some a else later

pub highest-SchedulerDoc : {A : Type 0} → SchedulerDoc (highest {A = A})
highest-SchedulerDoc = record {
  idle = refl;
  skip = λ p ts. refl;
  first = λ p a ts h. ground (arith, is_lowest-IsLowest p ts h);
}

abbrev pub clock : List Mark → ℕ
clock = λ t. length t

abbrev pub waiting : System Counts
waiting = record {
  kernel = record { baton = 0; gate = 0; messages = λ _. 0 };
  send = SendPc.take_arm;
  recv = RecvPc.take_recv;
  arm = ArmPc.begin_step 0;
  active = 0;
  test_start_time = 0;
  test_stop_time = 0;
  trace = [];
}

pub waiting-Between : Between counts (ArmPc.begin_step 0) (λ _. 0) waiting
unfolding phase samples
waiting-Between = record {
  sender = refl;
  receiver = refl;
  releaser = refl;
  baton_tokens = refl;
  gate_tokens = refl;
  in_objects = λ o. refl;
  sampled = λ s. record { at_rest = refl; count = refl };
}

abbrev pub quiet : SelfThread Counts
quiet = record {
  kernel = record { baton = 0; gate = 0; messages = λ _. 0 };
  test_start_time = 0;
  test_stop_time = 0;
  trace = [];
}

pub quiet-Idle : Idle counts 24 0 quiet
unfolding phase samples
quiet-Idle = record { in_objects = λ o. refl; sampled = record { at_rest = refl; count = refl } }
