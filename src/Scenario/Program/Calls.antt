-- ===== src/Scenario/Program/Calls.antt =====
-- A C function of a thread as the calls that it makes.
use zephyr_kernel_bm_tuc_hms.Prelude.{
  ℕ, zero, suc, List, [], ◌∷◌, Option, none, some, if◌then◌else◌,
}
use zephyr_kernel_bm_tuc_hms.Window.{Series}
use zephyr_kernel_bm_tuc_hms.Itc.Kernel.{SemPtr}
use zephyr_kernel_bm_tuc_hms.Scenario.Kernel.{Task, Object}

-- One call. The semaphore is `test_sem`, the event object `test_event`.
pub data Call : Type 0 where
  mwindow_open : Series → Call
  reset_counter : Call
  get_start_cnt : Call  -- BMTH_GET_START_CNT(test_start_time)
  get_stop_cnt : Call  -- BMTH_GET_STOP_CNT(test_stop_time)
  mseries_iterate : Series → Call  -- the jitter branch does nothing
  mseries_iterate_or_signal : Series → Call  -- the jitter branch calls BMTH_signalize_jitter_detected()
  mwindow_close : Series → Call
  sem_init : Call
  sem_take : Call
  sem_take_no_wait : Call
  sem_give : Call
  sem_reset : Call
  event_init : Call
  event_wait : ℕ → Call
  event_wait_no_wait : ℕ → Call
  event_wait_begin : ℕ → Call  -- k_event_wait_safe(), K_FOREVER, in two: up to where it may pend
  event_wait_end : Call  -- and its return
  event_post : ℕ → Call
  event_clear : ℕ → Call
  gate_give : SemPtr → Call
  gate_take : SemPtr → Call
  gate_init : SemPtr → Call
  gate_reset : SemPtr → Call
  set_message_size : ℕ → Call  -- the assignment to message_size or active_message_size
  arm_descriptors : Call
  pipe_write : Object → Call  -- of message_size bytes
  pipe_read : Object → Call
  pipe_reset : Object → Call
  mbox_async_put : Object → Call  -- of tx_msg
  mbox_get : Object → Call  -- into rx_msg
  pipe_ring_init : Object → ℕ → Call
  pipe_init : Call
  pipe_write_begin : Call  -- of active_message_size bytes to test_pipe, in two
  pipe_write_end : Call
  pipe_read_begin : Call
  pipe_read_end : Call
  mbox_init : Object → Call
  mbox_put_begin : Object → Call  -- of tx_msg, in two
  mbox_put_end : Object → Call
  get_rendezvous_cnt : Call  -- BMTH_GET_STOP_CNT(test_stop_time_rendezvous)
  rendezvous_iterate : Series → Call  -- with test_stop_time_rendezvous; the branch does nothing
  reset_outlier_count : Call  -- uint32_t outlier_count = 0U
  add_outliers : Series → Call  -- to outlier_count
  signalize_outlier_count : Call  -- with whether it is 0
  skip_unless_counted : Series → ℕ → Call  -- the test of iteration_count, and how many calls it guards
  release_init : Call
  release_wait : ℕ → Call
  release_post : ℕ → Call
  irq_enable : Call
  irq_disable : Call
  trigger_test_irq : Call
  clear_pending_irq : Call
  isr_entry : Call  -- the interrupt handler, here a thread of the highest priority, is entered
  thread_create : Task → Call
  thread_start : Task → ℕ → Call  -- k_thread_create(), with the C function of that number
  thread_abort : Task → Call
  thread_suspend : Task → Call
  suspend_self : Call  -- k_thread_suspend(k_current_get())
  thread_resume : Task → Call
  signalize_mseries_stop : Call  -- with whether neither series has an outlier

-- The body of a C function: calls, a counted `for`, and a `while (1)` at its end.
infixr 20 ◌⨾◌
pub data Program : Type 0 where
  finished : Program
  ◌⨾◌ : Call → Program → Program
  for_count : ℕ → List Call → Program → Program
  while_true : List Call → Program

infixr 20 ◌then◌
abbrev pub ◌then◌ : List Call → Program → Program
◌then◌ [] p = p
◌then◌ (c ∷ cs) p = c ⨾ (cs then p)

-- The next call, and what is left after it.
abbrev pub next_call : Program → Option (Call × Program)
next_call finished = none
next_call (c ⨾ p) = some (c, p)
next_call (for_count zero cs p) = next_call p
next_call (for_count (suc n) [] p) = none
next_call (for_count (suc n) (c ∷ cs) p) = some (c, cs then for_count n (c ∷ cs) p)
next_call (while_true []) = none
next_call (while_true (c ∷ cs)) = some (c, cs then while_true (c ∷ cs))

-- What is left after the next `n` calls.
abbrev past_call : Option (Call × Program) → Program
past_call none = finished
past_call (some (c, p)) = p

abbrev pub skip_calls : ℕ → Program → Program
skip_calls zero p = p
skip_calls (suc n) p = skip_calls n (past_call (next_call p))
