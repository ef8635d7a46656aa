-- ===== src/Examples/Board.antt =====
-- A concrete kernel, harness and processor for the simulated kernel, and concrete states.
use zephyr_kernel_bm_tuc_hms.Prelude.{
  ℕ, ◌≡◌, ◌≢◌, refl, arith, true, false, [], ◌∷◌, ◌++◌, length, pos, neg, bit_and,
}
use zephyr_kernel_bm_tuc_hms.Window.{phase, samples, IsSampled}
use zephyr_kernel_bm_tuc_hms.Sim.Machine.{
  ThreadPtr, null, current_thread, waiter_thread, sched_spinlock, event_lock, WaitQ, marks, Env,
  KernelDoc, Thread, World,
}
use zephyr_kernel_bm_tuc_hms.Sim.Event.{EventFile, sim_guard, sim_are_wait_conditions_met}
use zephyr_kernel_bm_tuc_hms.Sim.Sem.{SemFile}
use zephyr_kernel_bm_tuc_hms.TaskPreempt.{TaskFile}

-- The first thread of the queue.
abbrev pub first_of : WaitQ → ThreadPtr
first_of [] = null
first_of (null ∷ q) = first_of q
first_of (t ∷ q) = t

first_of-append : (q : WaitQ) (t : ThreadPtr) → first_of q ≡ null → first_of (q ++ t ∷ []) ≡ t
first_of-append [] null h = refl
first_of-append [] current_thread h = refl
first_of-append [] waiter_thread h = refl
first_of-append (null ∷ q) t h = first_of-append q t h
first_of-append (current_thread ∷ q) t h = ground arith
first_of-append (waiter_thread ∷ q) t h = ground arith

-- A counter that goes up by one with every call.
abbrev pub board : Env
board = record {
  counter = λ t. length t;
  lock_key = λ _. 0;
  icsr = λ _. 0;
  ipsr = λ _. 0;
  jitter = λ _. false;
  read_valid = λ _. true;
  eagain = 11;
  ebusy = 16;
  ticks_forever = neg 1;
  ticks_no_wait = pos 0;
  sem_max_limit = 3;
  sem_init = λ _ c l. record { count = c; limit = l; wait_q = [] };
  dlist_append = λ q t. q ++ t ∷ [];
  dlist_peek_head = first_of;
}

pub board-KernelDoc : KernelDoc board
board-KernelDoc = record {
  forever = refl;
  no_wait = refl;
  again = omega arith;
  limit_fits = omega arith;
  init_count = λ _ _ _. refl;
  init_limit = λ _ _ _. refl;
  init_empty = λ _ _ _. refl;
  append_empty = first_of-append;
}

abbrev pub fresh_thread : Thread
fresh_thread = record { basepri = 0; swap_return_value = pos 0; events = 0; event_options = 0 }

-- Before any probe, with the statics' initialisers.
abbrev pub boot : {F : Type 0} → F → World F
boot f = record {
  cpu_current = null;
  ready_cache = null;
  sim_current_thread = fresh_thread;
  sim_waiter_thread = fresh_thread;
  sim_test_start_time = 0;
  sim_test_stop_time = 0;
  sim_sink = 0;
  trace = [];
  file = f;
}

-- With the current thread set.
abbrev pub running : {F : Type 0} → F → World F
running f = record (boot f) { cpu_current = current_thread }

-- With another thread to switch to.
abbrev pub contended : {F : Type 0} → F → World F
contended f = record (boot f) { ready_cache = waiter_thread }

abbrev pub event_file : EventFile
event_file = record { tail_event = sim_guard; sim_wait_sink = 0 }

abbrev pub sem_file : SemFile
sem_file = record {
  tail_sem = record { count = 0; limit = 1; wait_q = [] };
  sim_take_ticks = pos 0;
  sim_take_sink = 0;
}

abbrev pub task_file : TaskFile
task_file = tt

pub nothing-IsSampled : (s : ℕ) → IsSampled s 0 []
unfolding phase samples
nothing-IsSampled s = record { at_rest = refl; count = refl }

pub boot-IsSampled : {F : Type 0} (s : ℕ) (f : F) → IsSampled s 0 (marks ((boot f).trace))
unfolding marks
boot-IsSampled s f = nothing-IsSampled s

pub apart : ◌≢◌ {A = ℕ} 7 1
apart = omega arith

pub bits_apart : bit_and 0x20 1 ≡ 0
bits_apart = refl

pub waiter-current : waiter_thread ≢ current_thread
waiter-current = λ e. ground arith

pub null-current : null ≢ current_thread
null-current = λ e. ground arith

pub event-sched : event_lock ≢ sched_spinlock
event-sched = λ e. ground arith

pub some_match : sim_are_wait_conditions_met 0x21 sim_guard 0 ≢ 0
unfolding sim_are_wait_conditions_met
some_match = omega arith

pub no_match : sim_are_wait_conditions_met 1 sim_guard 0 ≡ 0
unfolding sim_are_wait_conditions_met
no_match = refl
