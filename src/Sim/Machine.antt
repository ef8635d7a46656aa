-- ===== src/Sim/Machine.antt =====
-- The machine that the simulated kernel chains run on (src/zephyr_api_simulation/sim_common.h,
-- sim_init.c): the simulation's own kernel object and threads, the two time markers, and a record of
-- every call that leaves src/. What those calls return is given by an `Env`.
use zephyr_kernel_bm_tuc_hms.Prelude.{
  ℕ, Bool, true, false, List, [], ◌∷◌, Option, none, some, ℤ, pos, neg, ◌≡◌, ◌<◌, ◌^◌,
}
use zephyr_kernel_bm_tuc_hms.Window.{Mark, Series}

-- `struct k_thread *` in the simulation: the simulated current thread, or the waiter of
-- sem_preempt/zephyr_sim.c.
pub data ThreadPtr : Type 0 where
  null : ThreadPtr
  current_thread : ThreadPtr
  waiter_thread : ThreadPtr

-- `p == q`
abbrev pub same_thread : ThreadPtr → ThreadPtr → Bool
same_thread null null = true
same_thread current_thread current_thread = true
same_thread waiter_thread waiter_thread = true
same_thread _ _ = false

-- `struct k_spinlock *`: the scheduler's stand-in, the semaphore's, the event's.
pub data Lock : Type 0 where
  sched_spinlock : Lock
  sem_lock : Lock
  event_lock : Lock

-- The nodes of a `_wait_q_t`, head first.
abbrev pub WaitQ : Type 0
WaitQ = List ThreadPtr

-- The fields of `struct k_sem` that the simulation reads or writes.
pub record Sem : Type 0 where
  pub count : ℕ
  pub limit : ℕ
  pub wait_q : WaitQ

-- The read overhead that a series is told it carries.
pub data ReadWindow : Type 0 where
  cross_functions_file_scope_vars : ReadWindow
  inside_function_file_scope_vars : ReadWindow

-- One call that leaves src/, with the value it was given or returned.
pub data Action : Type 0 where
  mark : Mark → Action
  mseries_initialize : Series → ReadWindow → Action
  signalize_jitter : Action
  hardware_init : Bool → Action
  enable_counters : Action
  disable_sys_tick : Action
  signalize_mseries_start : Action
  create_idle_thread : Action  -- k_thread_create(&idle_thread, ..., I_Task, ...)
  spin_lock : Lock → ℕ → Action
  spin_unlock : Lock → ℕ → Action
  spin_release : Lock → Action
  irq_lock : ℕ → Action
  irq_unlock : ℕ → Action
  set_basepri : ℕ → Action
  set_icsr : ℕ → Action
  isb : Action

-- Newest first.
abbrev pub Trace : Type 0
Trace = List Action

unfoldable pub marks : Trace → List Mark
marks [] = []
marks (mark m ∷ t) = m ∷ marks t
marks (_ ∷ t) = marks t

-- Zephyr, the harness and the processor: what their calls return may depend on every call so far.
pub record Env : Type 0 where
  pub counter : Trace → ℕ  -- the cycle counter
  pub lock_key : Trace → ℕ  -- the key of `k_spin_lock()` and `irq_lock()`
  pub icsr : Trace → ℕ  -- SCB->ICSR
  pub ipsr : Trace → ℕ  -- `__get_IPSR()`
  pub jitter : Trace → Bool  -- BMTH_mseries_iterate() == ..._COMPLETED_WITH_JITTER
  pub read_valid : Trace → Bool  -- BMTH_check_read_validity()
  pub eagain : ℕ
  pub ebusy : ℕ
  pub ticks_forever : ℤ  -- K_FOREVER
  pub ticks_no_wait : ℤ  -- K_NO_WAIT
  pub sem_max_limit : ℕ  -- K_SEM_MAX_LIMIT
  pub sem_init : Sem → ℕ → ℕ → Sem
  pub dlist_append : WaitQ → ThreadPtr → WaitQ
  pub dlist_peek_head : WaitQ → ThreadPtr

-- What the simulation relies on, as Zephyr's headers document it.
pub record KernelDoc (env : Env) : Type 0 where
  pub forever : env.ticks_forever ≡ neg 1
  pub no_wait : env.ticks_no_wait ≡ pos 0
  pub again : 0 < env.eagain
  pub limit_fits : env.sem_max_limit < 2 ^ 32
  pub init_count : (s : Sem) (c l : ℕ) → (env.sem_init s c l).count ≡ c
  pub init_limit : (s : Sem) (c l : ℕ) → (env.sem_init s c l).limit ≡ l
  pub init_empty : (s : Sem) (c l : ℕ) → env.dlist_peek_head (env.sem_init s c l).wait_q ≡ null
  pub append_empty :
      (q : WaitQ) (t : ThreadPtr)
      → env.dlist_peek_head q ≡ null
      → env.dlist_peek_head (env.dlist_append q t) ≡ t

-- The fields of `struct k_thread` that the simulation reads or writes.
pub record Thread : Type 0 where
  pub basepri : ℕ
  pub swap_return_value : ℤ
  pub events : ℕ
  pub event_options : ℕ

-- The statics of sim_common.h and sim_sched.c; `F` holds those of the test's own zephyr_sim.c.
-- `sim_kernel_p` is never assigned after its initialiser, so it is left out: it is `&_sim_kernel`.
pub record World (F : Type 0) : Type 0 where
  pub cpu_current : ThreadPtr  -- _sim_kernel.cpus[0].current
  pub ready_cache : ThreadPtr  -- _sim_kernel.ready_q.cache
  pub sim_current_thread : Thread
  pub sim_waiter_thread : Thread
  pub sim_test_start_time : ℕ
  pub sim_test_stop_time : ℕ
  pub sim_sink : ℕ  -- every zephyr_sim.c has one of its own
  pub trace : Trace
  pub file : F

-- `none` is a read or a write through a null pointer.
abbrev pub M : Type 0 → Type 0 → Type 0
M F A = World F → Option (A × World F)

abbrev pub pure : {F A : Type 0} → A → M F A
pure a w = some (a, w)

abbrev pub and_then : {F A B : Type 0} → Option (A × World F) → (A → M F B) → Option (B × World F)
and_then none f = none
and_then (some (a, w)) f = f a w

infixl 5 ◌>>=◌ ◌>>◌
abbrev pub ◌>>=◌ : {F A B : Type 0} → M F A → (A → M F B) → M F B
◌>>=◌ m f w = and_then (m w) f

abbrev pub ◌>>◌ : {F B : Type 0} → M F (Unit {0}) → M F B → M F B
m >> k = m >>= λ _. k

-- The run ends without a fault, in a result and a state that satisfy `P`.
abbrev pub Ensures : {F A : Type 0} → (A → World F → Type 0) → Option (A × World F) → Type 0
Ensures P none = ⊥
Ensures P (some (a, w)) = P a w

abbrev pub act : {F : Type 0} → Action → M F (Unit {0})
act a w = some (tt, record w { trace = a ∷ w.trace })

-- A read of the state.
abbrev pub gets : {F A : Type 0} → (World F → A) → M F A
gets f w = some (f w, w)

abbrev pub modify : {F : Type 0} → (World F → World F) → M F (Unit {0})
modify f w = some (tt, f w)

-- A field of the thread behind a pointer.
abbrev pub load_thread : {F : Type 0} → ThreadPtr → M F Thread
load_thread null w = none
load_thread current_thread w = some (w.sim_current_thread, w)
load_thread waiter_thread w = some (w.sim_waiter_thread, w)

abbrev pub store_thread : {F : Type 0} → ThreadPtr → (Thread → Thread) → M F (Unit {0})
store_thread null f w = none
store_thread current_thread f w =
    some (tt, record w { sim_current_thread = f w.sim_current_thread })
store_thread waiter_thread f w = some (tt, record w { sim_waiter_thread = f w.sim_waiter_thread })
