-- ===== src/TaskChange/Tasks.antt =====
-- The threads of src/task_switching/task_change/time_task_switch.c, each C function as the calls that it makes,
-- and the system that runs them one call at a time.
use zephyr_kernel_bm_tuc_hms.Prelude.{
  ℕ, zero, suc, not, ◌||◌, Bool, true, false, List, [], ◌∷◌, Option, some, ◌==◌, ltb, leb,
  if◌then◌else◌,
}
use zephyr_kernel_bm_tuc_hms.Window.{Mark, Series}
use zephyr_kernel_bm_tuc_hms.Itc.Handover.{continue}
use zephyr_kernel_bm_tuc_hms.Scenario.Program.{Board, scenario_a, scenario_b}
use zephyr_kernel_bm_tuc_hms.TaskChange.Ready.{
  Thread, sa_low_prio_thread, sa_high_prio_thread, sa_dummy_0, sa_dummy_1, sa_dummy_2, sa_dummy_3,
  sb_thread, idle_thread, Kernel,
}

pub data Call : Type 0 where
  mwindow_open : Series → Call
  reset_counter : Call
  get_start_cnt : Call
  get_stop_cnt : Call
  mseries_iterate : Series → Call  -- the jitter branch does nothing
  mwindow_close : Series → Call
  skip_unless_counted : Series → ℕ → Call  -- the test of iteration_count, and how many calls it guards
  event_init : Call
  event_wait : ℕ → Call
  event_post : ℕ → Call
  yield : Call
  thread_create : Thread → Call
  thread_abort : Thread → Call
  thread_suspend : Thread → Call
  suspend_self : Call
  signalize_mseries_stop : Call  -- with whether neither series has an outlier

infixr 20 ◌⨾◌
pub data Program : Type 0 where
  ◌⨾◌ : Call → Program → Program
  while_true : Call → List Call → Program  -- a first call and the others

infixr 20 ◌then◌
abbrev ◌then◌ : List Call → Program → Program
◌then◌ [] p = p
◌then◌ (c ∷ cs) p = c ⨾ (cs then p)

abbrev pub first_call : Program → Call
first_call (c ⨾ p) = c
first_call (while_true c cs) = c

abbrev pub rest_of : Program → Program
rest_of (c ⨾ p) = p
rest_of (while_true c cs) = cs then while_true c cs

abbrev pub skip_calls : ℕ → Program → Program
skip_calls zero p = p
skip_calls (suc n) p = skip_calls n (rest_of p)

-- What every thread has left to do.
pub record Programs : Type 0 where
  pub low_left : Program
  pub high_left : Program
  pub left_0 : Program
  pub left_1 : Program
  pub left_2 : Program
  pub left_3 : Program
  pub sb_left : Program
  pub idle_left : Program

abbrev pub left : Thread → Programs → Program
left sa_low_prio_thread p = p.low_left
left sa_high_prio_thread p = p.high_left
left sa_dummy_0 p = p.left_0
left sa_dummy_1 p = p.left_1
left sa_dummy_2 p = p.left_2
left sa_dummy_3 p = p.left_3
left sb_thread p = p.sb_left
left idle_thread p = p.idle_left

abbrev pub set_left : Thread → Program → Programs → Programs
set_left sa_low_prio_thread q p = record p { low_left = q }
set_left sa_high_prio_thread q p = record p { high_left = q }
set_left sa_dummy_0 q p = record p { left_0 = q }
set_left sa_dummy_1 q p = record p { left_1 = q }
set_left sa_dummy_2 q p = record p { left_2 = q }
set_left sa_dummy_3 q p = record p { left_3 = q }
set_left sb_thread q p = record p { sb_left = q }
set_left idle_thread q p = record p { idle_left = q }

pub record System (S : Type 0) : Type 0 where
  pub kernel : S
  pub programs : Programs
  pub test_start_time : ℕ
  pub test_stop_time : ℕ
  pub signalled : Option Bool  -- what BMTH_signalize_mseries_stop() was last given
  pub trace : List Mark

abbrev pub start_event_mask : ℕ
start_event_mask = 0x0008

abbrev pub measurement_count : ℕ
measurement_count = 50000

abbrev pub dummy_pool_size : ℕ
dummy_pool_size = 4

-- DUMMY_COUNT_CFG for a DUMMY_TASKS_COUNT, which is 0 where ADD_DUMMY_TASKS is not defined.
abbrev pub dummy_count : ℕ → ℕ
dummy_count n = if ltb dummy_pool_size n then dummy_pool_size else n

abbrev pub dummy_thread : ℕ → Thread
dummy_thread zero = sa_dummy_0
dummy_thread (suc zero) = sa_dummy_1
dummy_thread (suc (suc zero)) = sa_dummy_2
dummy_thread (suc (suc (suc i))) = sa_dummy_3

abbrev pub l_task_sa_loop : Program
l_task_sa_loop =
    while_true (Call.mwindow_open scenario_a)
      (Call.reset_counter ∷ Call.get_start_cnt ∷ Call.yield ∷ [])

abbrev pub l_task_sa : Program
l_task_sa = Call.event_wait start_event_mask ⨾ l_task_sa_loop

-- `n` is DUMMY_TASKS_COUNT.
abbrev pub h_task_sa_loop : ℕ → Program
h_task_sa_loop n = while_true Call.yield (
    Call.get_stop_cnt
    ∷ Call.mseries_iterate scenario_a
    ∷ (if n == 0
        then Call.mwindow_close scenario_a
          ∷ Call.skip_unless_counted scenario_a 2
          ∷ Call.thread_suspend sa_low_prio_thread
          ∷ Call.suspend_self
          ∷ []
        else []))

abbrev pub h_task_sa : ℕ → Program
h_task_sa n = Call.event_wait start_event_mask ⨾ h_task_sa_loop n

abbrev pub task_sb : Program
task_sb = while_true (Call.mwindow_open scenario_b) (
    Call.reset_counter
    ∷ Call.get_start_cnt
    ∷ Call.yield
    ∷ Call.get_stop_cnt
    ∷ Call.mseries_iterate scenario_b
    ∷ Call.mwindow_close scenario_b
    ∷ Call.skip_unless_counted scenario_b 1
    ∷ Call.suspend_self
    ∷ [])

abbrev pub dummy_task_loop : Program
dummy_task_loop = while_true (Call.mwindow_close scenario_a) (
    Call.skip_unless_counted scenario_a 3
    ∷ Call.thread_suspend sa_low_prio_thread
    ∷ Call.thread_suspend sa_high_prio_thread
    ∷ Call.suspend_self
    ∷ Call.yield
    ∷ [])

abbrev pub dummy_task : Program
dummy_task = Call.event_wait start_event_mask ⨾ dummy_task_loop

-- The two loops over sa_dummy_threads, for `n` of them from number `i` on.
abbrev pub create_dummies : ℕ → ℕ → Program → Program
create_dummies zero i p = p
create_dummies (suc n) i p = Call.thread_create (dummy_thread i) ⨾ create_dummies n (suc i) p

abbrev pub abort_dummies : ℕ → ℕ → Program → Program
abort_dummies zero i p = p
abort_dummies (suc n) i p = Call.thread_abort (dummy_thread i) ⨾ abort_dummies n (suc i) p

abbrev pub i_task_end : Program
i_task_end = while_true Call.signalize_mseries_stop []

-- I_Task from the end of S_A on.
abbrev pub i_task_change : ℕ → Program
i_task_change n =
    Call.thread_abort sa_high_prio_thread
    ⨾ Call.thread_abort sa_low_prio_thread
    ⨾ abort_dummies (dummy_count n) 0 (Call.thread_create sb_thread ⨾ i_task_end)

abbrev pub i_task : ℕ → Program
i_task n =
    Call.event_init
    ⨾ Call.thread_create sa_low_prio_thread
    ⨾ Call.thread_create sa_high_prio_thread
    ⨾ create_dummies (dummy_count n) 0 (Call.event_post start_event_mask ⨾ i_task_change n)

abbrev pub threads : ℕ → Programs
threads n = record {
  low_left = l_task_sa;
  high_left = h_task_sa n;
  left_0 = dummy_task;
  left_1 = dummy_task;
  left_2 = dummy_task;
  left_3 = dummy_task;
  sb_left = task_sb;
  idle_left = i_task n;
}

module _ (b : Board) {S : Type 0} (k : Kernel S) where
  abbrev on_kernel : (S → S) → System S → System S
  on_kernel f y = record y { kernel = f y.kernel }

  abbrev marked : Mark → System S → System S
  marked m y = record y { trace = m ∷ y.trace }

  -- One call of thread `t`.
  abbrev pub call : Thread → Call → System S → System S
  call t (Call.mwindow_open s) y = marked (Mark.opened s) y
  call t Call.reset_counter y = marked Mark.reset y
  call t Call.get_start_cnt y =
      let v = b.counter y.trace in record y { test_start_time = v; trace = Mark.start v ∷ y.trace }
  call t Call.get_stop_cnt y =
      let v = b.counter y.trace in record y { test_stop_time = v; trace = Mark.stop v ∷ y.trace }
  call t (Call.mseries_iterate s) y = marked (Mark.fed s y.test_start_time y.test_stop_time) y
  call t (Call.mwindow_close s) y = marked (Mark.closed s) y
  call t (Call.skip_unless_counted s n) y =
      if leb measurement_count (b.iterations s y.trace)
      then y
      else record y { programs = set_left t (skip_calls n (left t y.programs)) y.programs }
  call t Call.event_init y = on_kernel k.k_event_init y
  call t (Call.event_wait m) y = on_kernel (k.k_event_wait_safe m) y
  call t (Call.event_post m) y = on_kernel (k.k_event_post m) y
  call t Call.yield y = on_kernel k.k_yield y
  call t (Call.thread_create u) y = on_kernel (k.k_thread_create u) y
  call t (Call.thread_abort u) y = on_kernel (k.k_thread_abort u) y
  call t (Call.thread_suspend u) y = on_kernel (k.k_thread_suspend u) y
  call t Call.suspend_self y = on_kernel (k.k_thread_suspend t) y
  call t Call.signalize_mseries_stop y = record y {
    signalled =
        if not (b.outliers scenario_a y.trace == 0) || not (b.outliers scenario_b y.trace == 0)
        then some false
        else some true;
  }

  -- The next call of the thread that runs.
  abbrev pub turn_of : Thread → System S → System S
  turn_of t y =
      let p = left t y.programs in
      call t (first_call p) (record y { programs = set_left t (rest_of p) y.programs })

  abbrev pub next_state : System S → Option (System S)
  next_state y = continue (k.current y.kernel) (λ t. some (turn_of t y))
