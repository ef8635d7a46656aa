-- ===== src/Scenario/Program.antt =====
-- The system that runs the threads of a test one call at a time.
use zephyr_kernel_bm_tuc_hms.Prelude.{
  ℕ, zero, suc, ◌+◌, ◌%◌, ◌^◌, Bool, true, false, not, ◌||◌, List, [], ◌∷◌, Option, none, some,
  ◌==◌, leb, if◌then◌else◌,
}
use zephyr_kernel_bm_tuc_hms.Window.{Mark, Series}
use zephyr_kernel_bm_tuc_hms.Itc.Handover.{continue}
use zephyr_kernel_bm_tuc_hms.Itc.Kernel.{SemPtr}
use zephyr_kernel_bm_tuc_hms.Scenario.Kernel.{
  Task, slot_1, slot_2, slot_3, slot_4, idle, Object, Kernel,
}
pub use zephyr_kernel_bm_tuc_hms.Scenario.Program.Calls.{
  Call, Program, finished, ◌⨾◌, for_count, while_true, ◌then◌, next_call, skip_calls,
}
mod Calls

-- The harness: what its calls return after the marks so far.
pub record Board : Type 0 where
  pub counter : List Mark → ℕ
  pub jitter : List Mark → Bool
  pub outliers : Series → List Mark → ℕ  -- values_outlier_count
  pub iterations : Series → List Mark → ℕ  -- iteration_count

-- What every thread has left to do.
pub record Programs : Type 0 where
  pub left_1 : Program
  pub left_2 : Program
  pub left_3 : Program
  pub left_4 : Program
  pub idle_left : Program

abbrev pub left : Task → Programs → Program
left slot_1 p = p.left_1
left slot_2 p = p.left_2
left slot_3 p = p.left_3
left slot_4 p = p.left_4
left idle p = p.idle_left

abbrev pub set_left : Task → Program → Programs → Programs
set_left slot_1 q p = record p { left_1 = q }
set_left slot_2 q p = record p { left_2 = q }
set_left slot_3 q p = record p { left_3 = q }
set_left slot_4 q p = record p { left_4 = q }
set_left idle q p = record p { idle_left = q }

-- The kernel, the threads, the statics of the test and the marks of the harness.
pub record System (S : Type 0) : Type 0 where
  pub kernel : S
  pub programs : Programs
  pub test_start_time : ℕ
  pub test_stop_time : ℕ  -- or test_stop_time_direct
  pub test_stop_time_rendezvous : ℕ
  pub message_size : ℕ
  pub tx_size : ℕ  -- tx_msg.size
  pub rx_size : ℕ  -- rx_msg.size
  pub outlier_count : ℕ  -- of I_Task in src/itc
  pub functions : ℕ → Program  -- the C functions of threads, numbered
  pub jitters : ℕ  -- the calls of BMTH_signalize_jitter_detected()
  pub signalled : Option Bool  -- what BMTH_signalize_mseries_stop() was last given
  pub trace : List Mark

-- `scenario_a` and `scenario_b`, numbered.
abbrev pub scenario_a : Series
scenario_a = 0

abbrev pub scenario_b : Series
scenario_b = 1

module _ (b : Board) {S : Type 0} (k : Kernel S) where
  abbrev pub on_kernel : (S → S) → System S → Option (System S)
  on_kernel f y = some (record y { kernel = f y.kernel })

  abbrev pub or_pend : (S → Option S) → System S → Option (System S)
  or_pend f y = continue (f y.kernel) (λ s. some (record y { kernel = s }))

  abbrev pub marked : Mark → System S → Option (System S)
  marked m y = some (record y { trace = m ∷ y.trace })

  -- One call of thread `t`; `none` where it pends.
  abbrev pub call : Task → Call → System S → Option (System S)
  call t (Call.mwindow_open s) y = marked (Mark.opened s) y
  call t Call.reset_counter y = marked Mark.reset y
  call t Call.get_start_cnt y =
      let v = b.counter y.trace in
      some (record y { test_start_time = v; trace = Mark.start v ∷ y.trace })
  call t Call.get_stop_cnt y =
      let v = b.counter y.trace in
      some (record y { test_stop_time = v; trace = Mark.stop v ∷ y.trace })
  call t (Call.mseries_iterate s) y = marked (Mark.fed s y.test_start_time y.test_stop_time) y
  call t (Call.mseries_iterate_or_signal s) y =
      let ms = Mark.fed s y.test_start_time y.test_stop_time ∷ y.trace in
      some (record y { trace = ms; jitters = if b.jitter ms then suc y.jitters else y.jitters })
  call t (Call.mwindow_close s) y = marked (Mark.closed s) y
  call t Call.sem_init y = on_kernel k.k_sem_init y
  call t Call.sem_take y = or_pend k.k_sem_take y
  call t Call.sem_take_no_wait y = on_kernel k.k_sem_take_no_wait y
  call t Call.sem_give y = on_kernel k.k_sem_give y
  call t Call.sem_reset y = on_kernel k.k_sem_reset y
  call t Call.event_init y = on_kernel k.k_event_init y
  call t (Call.event_wait m) y = or_pend (k.k_event_wait_safe m) y
  call t (Call.event_wait_no_wait m) y = on_kernel (k.k_event_wait_safe_no_wait m) y
  call t (Call.event_wait_begin m) y = on_kernel (k.k_event_wait_begin t m) y
  call t Call.event_wait_end y = or_pend (k.k_event_wait_end t) y
  call t (Call.event_post m) y = on_kernel (k.k_event_post m) y
  call t (Call.event_clear m) y = on_kernel (k.k_event_clear m) y
  call t (Call.gate_give p) y = on_kernel (k.k_gate_give p) y
  call t (Call.gate_take p) y = or_pend (k.k_gate_take p) y
  call t (Call.gate_init p) y = on_kernel (k.k_gate_init p) y
  call t (Call.gate_reset p) y = on_kernel (k.k_gate_reset p) y
  call t (Call.set_message_size n) y = some (record y { message_size = n })
  call t Call.arm_descriptors y =
      some (record y { tx_size = y.message_size; rx_size = y.message_size })
  call t (Call.pipe_write o) y = or_pend (k.k_pipe_write o y.message_size) y
  call t (Call.pipe_read o) y = or_pend (k.k_pipe_read o y.message_size) y
  call t (Call.pipe_reset o) y = on_kernel (k.k_pipe_reset o) y
  call t (Call.mbox_async_put o) y = on_kernel (k.k_mbox_async_put o y.tx_size) y
  call t (Call.mbox_get o) y = or_pend (k.k_mbox_get o y.rx_size) y
  call t (Call.pipe_ring_init o n) y = on_kernel (k.k_pipe_ring_init o n) y
  call t Call.pipe_init y = on_kernel k.k_pipe_init y
  call t Call.pipe_write_begin y = on_kernel (k.k_pipe_write_begin y.message_size) y
  call t Call.pipe_write_end y = or_pend k.k_pipe_write_end y
  call t Call.pipe_read_begin y = on_kernel (k.k_pipe_read_begin y.message_size) y
  call t Call.pipe_read_end y = or_pend k.k_pipe_read_end y
  call t (Call.mbox_init o) y = on_kernel (k.k_mbox_init o) y
  call t (Call.mbox_put_begin o) y = on_kernel (k.k_mbox_put_begin o y.tx_size) y
  call t (Call.mbox_put_end o) y = or_pend (k.k_mbox_put_end o) y
  call t Call.get_rendezvous_cnt y =
      let v = b.counter y.trace in
      some (record y { test_stop_time_rendezvous = v; trace = Mark.stop v ∷ y.trace })
  call t (Call.rendezvous_iterate s) y =
      marked (Mark.fed s y.test_start_time y.test_stop_time_rendezvous) y
  call t Call.reset_outlier_count y = some (record y { outlier_count = 0 })
  call t (Call.add_outliers s) y =
      some (record y { outlier_count = (y.outlier_count + b.outliers s y.trace) % 2 ^ 32 })
  call t Call.signalize_outlier_count y =
      some (record y { signalled = if not (y.outlier_count == 0) then some false else some true })
  call t (Call.thread_start u f) y = some (record y {
    kernel = k.k_thread_create u y.kernel;
    programs = set_left u (y.functions f) y.programs;
  })
  call t (Call.skip_unless_counted s n) y = some (
      if leb 50000 (b.iterations s y.trace)
      then y
      else record y { programs = set_left t (skip_calls n (left t y.programs)) y.programs })
  call t Call.release_init y = on_kernel k.k_release_init y
  call t (Call.release_wait m) y = or_pend (k.k_release_wait m) y
  call t (Call.release_post m) y = on_kernel (k.k_release_post m) y
  call t Call.irq_enable y = on_kernel k.irq_enable y
  call t Call.irq_disable y = on_kernel k.irq_disable y
  call t Call.trigger_test_irq y = on_kernel k.nvic_set_pending_irq y
  call t Call.clear_pending_irq y = on_kernel k.nvic_clear_pending_irq y
  call t Call.isr_entry y = or_pend k.irq_entry y
  call t (Call.thread_create u) y = on_kernel (k.k_thread_create u) y
  call t (Call.thread_abort u) y = on_kernel (k.k_thread_abort u) y
  call t (Call.thread_suspend u) y = on_kernel (k.k_thread_suspend u) y
  call t Call.suspend_self y = on_kernel (k.k_thread_suspend t) y
  call t (Call.thread_resume u) y = on_kernel (k.k_thread_resume u) y
  call t Call.signalize_mseries_stop y = some (record y {
    signalled =
        if not (b.outliers scenario_a y.trace == 0) || not (b.outliers scenario_b y.trace == 0)
        then some false
        else some true;
  })

  -- The next call of a thread that has one left.
  abbrev pub proceed : Task → Option (Call × Program) → System S → Option (System S)
  proceed t none y = none
  proceed t (some (c, p)) y = call t c (record y { programs = set_left t p y.programs })

  -- The next call of a thread, if it can run.
  abbrev pub advance : Task → System S → Option (System S)
  advance t y = if k.can_run t y.kernel then proceed t (next_call (left t y.programs)) y else none

  -- The threads of a test, with their priorities.
  abbrev pub tasks : (Task → ℕ) → System S → List (ℕ × Option (System S))
  tasks prio y =
      (prio slot_1, advance slot_1 y)
      ∷ (prio slot_2, advance slot_2 y)
      ∷ (prio slot_3, advance slot_3 y)
      ∷ (prio slot_4, advance slot_4 y)
      ∷ (prio idle, advance idle y)
      ∷ []
