-- ===== src/Scenario/Kernel.antt =====
-- What the threads of src/task_switching, src/itc/pipe and src/itc/mailbox call of Zephyr, and the
-- view of a kernel that its documentation gives: the counts of the semaphores, the posted events and
-- who waits for them, what is in the pipes and mailboxes, and which threads can run.
use zephyr_kernel_bm_tuc_hms.Prelude.{
  ℕ, ◌+◌, ◌-◌, Bool, true, false, Option, none, some, List, [], ◌∷◌, ◌++◌, ◌==◌, ltb, leb,
  if◌then◌else◌, bit_and, bit_or, min,
}
use zephyr_kernel_bm_tuc_hms.Itc.Kernel.{SemPtr, test_arm_sem, test_recv_sem}
use zephyr_kernel_bm_tuc_hms.Scenario.Kernel.RingLess.{
  Transfer, offer, ask, hand_over_done, take_received,
}
use zephyr_kernel_bm_tuc_hms.Scenario.Kernel.Waiting.{
  Wait, elsewhere, wants, woken, Waits, wait_of, set_wait, wake_all, unclaimed_by_all,
}
use zephyr_kernel_bm_tuc_hms.Scenario.Kernel.Line.{IrqLine, enter_handler}
use zephyr_kernel_bm_tuc_hms.Scenario.Kernel.State.{
  channel, set_channel, gate, set_gate, written, read_from, put_in, unread, got, status, set_status,
  after_suspend, after_resume, is_ready, found, taken, on_channel, post, begin_wait, end_wait,
  on_transfer, in_line, released_bits,
}
pub use zephyr_kernel_bm_tuc_hms.Scenario.Kernel.State.{
  Object, test_self, test_high, test_low, Status, absent, ready, stopped, Channel, Mail, View,
}
pub use zephyr_kernel_bm_tuc_hms.Scenario.Kernel.Line.{idle_line}
pub use zephyr_kernel_bm_tuc_hms.Scenario.Kernel.RingLess.{no_transfer}
pub use zephyr_kernel_bm_tuc_hms.Scenario.Kernel.Waiting.{
  Task, slot_1, slot_2, slot_3, slot_4, idle, nobody,
}
mod Line
mod RingLess
mod State
mod Waiting

-- The operations on the kernel state `S`; `none` where the calling thread pends. The waits are
-- k_event_wait_safe() with `reset` false.
pub record Kernel (S : Type 0) : Type 0 where
  pub k_sem_init : S → S
  pub k_sem_take : S → Option S  -- K_FOREVER
  pub k_sem_take_no_wait : S → S
  pub k_sem_give : S → S
  pub k_sem_reset : S → S
  pub k_event_init : S → S
  pub k_event_wait_safe : ℕ → S → Option S  -- K_FOREVER
  pub k_event_wait_safe_no_wait : ℕ → S → S
  pub k_event_wait_begin : Task → ℕ → S → S  -- k_event_wait_safe() up to where the thread may pend
  pub k_event_wait_end : Task → S → Option S  -- its return
  pub k_event_post : ℕ → S → S
  pub k_event_clear : ℕ → S → S
  pub k_gate_give : SemPtr → S → S  -- k_sem_give() of test_arm_sem or test_recv_sem
  pub k_gate_take : SemPtr → S → Option S  -- k_sem_take(), K_FOREVER
  pub k_gate_init : SemPtr → S → S  -- k_sem_init() of test_arm_sem or test_recv_sem
  pub k_gate_reset : SemPtr → S → S
  pub k_pipe_write : Object → ℕ → S → Option S  -- of so many bytes, K_FOREVER
  pub k_pipe_read : Object → ℕ → S → Option S  -- K_FOREVER
  pub k_pipe_reset : Object → S → S
  pub k_mbox_async_put : Object → ℕ → S → S  -- of a message of that size
  pub k_mbox_get : Object → ℕ → S → Option S  -- K_FOREVER
  pub k_pipe_ring_init : Object → ℕ → S → S  -- k_pipe_init() with a ring of so many bytes
  pub k_pipe_init : S → S  -- of test_pipe, with no ring buffer
  pub k_pipe_write_begin : ℕ → S → S  -- of so many bytes to test_pipe, up to where it may pend
  pub k_pipe_write_end : S → Option S  -- its return
  pub k_pipe_read_begin : ℕ → S → S
  pub k_pipe_read_end : S → Option S
  pub k_mbox_init : Object → S → S
  pub k_mbox_put_begin : Object → ℕ → S → S  -- of a message of that size, up to where it may pend
  pub k_mbox_put_end : Object → S → Option S  -- its return, when the message was received
  pub k_release_init : S → S  -- k_event_init(&test_release_event)
  pub k_release_wait : ℕ → S → Option S  -- k_event_wait_safe() of it, K_FOREVER
  pub k_release_post : ℕ → S → S
  pub irq_enable : S → S  -- of TEST_IRQ_LINE
  pub irq_disable : S → S
  pub nvic_set_pending_irq : S → S
  pub nvic_clear_pending_irq : S → S
  pub irq_entry : S → Option S  -- the handler of the line is entered
  pub k_thread_create : Task → S → S
  pub k_thread_abort : Task → S → S
  pub k_thread_suspend : Task → S → S
  pub k_thread_resume : Task → S → S
  pub can_run : Task → S → Bool  -- created, and neither aborted nor suspended

-- The documented effect of each call, for a limit of `limit` of `test_sem`, and of 1 of the
-- other two semaphores.
abbrev pub documented : ℕ → Kernel View
documented limit = record {
  k_sem_init = λ v. record v { count = 0 };
  k_sem_take = λ v. if ltb 0 v.count then some (record v { count = v.count - 1 }) else none;
  k_sem_take_no_wait = λ v. if ltb 0 v.count then record v { count = v.count - 1 } else v;
  k_sem_give = λ v. record v { count = min (v.count + 1) limit };
  k_sem_reset = λ v. record v { count = 0 };
  k_event_init = λ v. record v { events = 0 };
  k_event_wait_safe = λ mask v. if found mask v == 0 then none else some (taken mask v);
  k_event_wait_safe_no_wait = λ mask v. taken mask v;
  k_event_wait_begin = λ t mask v. begin_wait t mask v;
  k_event_wait_end = λ t v. end_wait t (wait_of t v.waits) v;
  k_event_post = λ mask v. post (bit_or v.events mask) v;
  k_event_clear = λ mask v. taken mask v;
  k_gate_give = λ p v. record v { mail = set_gate p 1 v.mail };
  k_gate_take = λ p v.
      if ltb 0 (gate p v.mail)
      then some (record v { mail = set_gate p (gate p v.mail - 1) v.mail })
      else none;
  k_gate_init = λ p v. record v { mail = set_gate p 0 v.mail };
  k_gate_reset = λ p v. record v { mail = set_gate p 0 v.mail };
  k_pipe_write = λ o n v. on_channel o v (written n (channel o v.mail));
  k_pipe_read = λ o n v. on_channel o v (read_from n (channel o v.mail));
  k_pipe_reset =
      λ o v. record v { mail = set_channel o (record (channel o v.mail) { bytes = 0 }) v.mail };
  k_mbox_async_put =
      λ o n v. record v { mail = set_channel o (put_in n (channel o v.mail)) v.mail };
  k_mbox_get = λ o n v. on_channel o v (got (channel o v.mail).messages (channel o v.mail));
  k_pipe_ring_init = λ o n v. record v {
    mail = set_channel o (record (channel o v.mail) { bytes = 0; capacity = n }) v.mail;
  };
  k_pipe_init = λ v. record v { mail = record v.mail { transfer = no_transfer } };
  k_pipe_write_begin =
      λ n v. record v { mail = record v.mail { transfer = offer n v.mail.transfer } };
  k_pipe_write_end = λ v. on_transfer v (hand_over_done v.mail.transfer);
  k_pipe_read_begin = λ n v. record v { mail = record v.mail { transfer = ask n v.mail.transfer } };
  k_pipe_read_end = λ v. on_transfer v (take_received v.mail.transfer);
  k_mbox_init =
      λ o v. record v { mail = set_channel o (record (channel o v.mail) { messages = [] }) v.mail };
  k_mbox_put_begin =
      λ o n v. record v { mail = set_channel o (put_in n (channel o v.mail)) v.mail };
  k_mbox_put_end = λ o v. on_channel o v (unread (channel o v.mail).messages (channel o v.mail));
  k_release_init = λ v. record v { mail = record v.mail { released = 0 } };
  k_release_wait = λ mask v.
      if released_bits mask v == 0
      then none
      else some
          (record v { mail = record v.mail { released = v.mail.released - released_bits mask v } });
  k_release_post =
      λ mask v. record v { mail = record v.mail { released = bit_or v.mail.released mask } };
  irq_enable =
      λ v. record v { mail = record v.mail { line = record v.mail.line { enabled = true } } };
  irq_disable =
      λ v. record v { mail = record v.mail { line = record v.mail.line { enabled = false } } };
  nvic_set_pending_irq =
      λ v. record v { mail = record v.mail { line = record v.mail.line { pending = true } } };
  nvic_clear_pending_irq =
      λ v. record v { mail = record v.mail { line = record v.mail.line { pending = false } } };
  irq_entry = λ v. in_line v (enter_handler v.mail.line);
  k_thread_create = λ t v. set_status t ready v;
  k_thread_abort = λ t v. record (set_status t absent v) { waits = set_wait t elsewhere v.waits };
  k_thread_suspend = λ t v. set_status t (after_suspend (status t v)) v;
  k_thread_resume = λ t v. set_status t (after_resume (status t v)) v;
  can_run = λ t v. is_ready (status t v);
}
