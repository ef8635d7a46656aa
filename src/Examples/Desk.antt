-- ===== src/Examples/Desk.antt =====
-- A concrete kernel and harness for the threads of Scenario/Program.antt: the documented ones.
use zephyr_kernel_bm_tuc_hms.Prelude.{ℕ, ◌≡◌, refl, false, [], Option, none, some, length}
use zephyr_kernel_bm_tuc_hms.Scenario.Kernel.{
  no_transfer, idle_line, View, Channel, Mail, documented,
}
use zephyr_kernel_bm_tuc_hms.Scenario.Doc.{KernelDoc, map_option}
use zephyr_kernel_bm_tuc_hms.Scenario.Program.{Board, finished, Programs, System}
use zephyr_kernel_bm_tuc_hms.Scenario.Rounds.{Seen}
use zephyr_kernel_bm_tuc_hms.Scenario.Tally.{tally, timed}
use zephyr_kernel_bm_tuc_hms.Scenario.Whole.{Booted, boot}

abbrev pub itself : View → View
itself v = v

map-itself : (r : Option View) → map_option itself r ≡ r
map-itself none = refl
map-itself (some v) = refl

pub documented-KernelDoc : (limit : ℕ) → KernelDoc (documented limit) limit itself
documented-KernelDoc limit = record {
  sem_init = λ s. refl;
  sem_take = λ s. map-itself ((documented limit).k_sem_take s);
  sem_take_no_wait = λ s. refl;
  sem_give = λ s. refl;
  sem_reset = λ s. refl;
  event_init = λ s. refl;
  event_wait = λ m s. map-itself ((documented limit).k_event_wait_safe m s);
  event_wait_no_wait = λ m s. refl;
  event_wait_begin = λ t m s. refl;
  event_wait_end = λ t s. map-itself ((documented limit).k_event_wait_end t s);
  event_post = λ m s. refl;
  event_clear = λ m s. refl;
  gate_give = λ p s. refl;
  gate_take = λ p s. map-itself ((documented limit).k_gate_take p s);
  gate_init = λ p s. refl;
  gate_reset = λ p s. refl;
  pipe_write = λ o n s. map-itself ((documented limit).k_pipe_write o n s);
  pipe_read = λ o n s. map-itself ((documented limit).k_pipe_read o n s);
  pipe_reset = λ o s. refl;
  mbox_async_put = λ o n s. refl;
  mbox_get = λ o n s. map-itself ((documented limit).k_mbox_get o n s);
  pipe_ring_init = λ o n s. refl;
  pipe_init = λ s. refl;
  pipe_write_begin = λ n s. refl;
  pipe_write_end = λ s. map-itself ((documented limit).k_pipe_write_end s);
  pipe_read_begin = λ n s. refl;
  pipe_read_end = λ s. map-itself ((documented limit).k_pipe_read_end s);
  mbox_init = λ o s. refl;
  mbox_put_begin = λ o n s. refl;
  mbox_put_end = λ o s. map-itself ((documented limit).k_mbox_put_end o s);
  release_init = λ s. refl;
  release_wait = λ m s. map-itself ((documented limit).k_release_wait m s);
  release_post = λ m s. refl;
  irq_enable = λ s. refl;
  irq_disable = λ s. refl;
  irq_set_pending = λ s. refl;
  irq_clear_pending = λ s. refl;
  handler_entry = λ s. map-itself ((documented limit).irq_entry s);
  thread_create = λ t s. refl;
  thread_abort = λ t s. refl;
  thread_suspend = λ t s. refl;
  thread_resume = λ t s. refl;
  runnable = λ t s. refl;
}

abbrev pub desk : Board
desk = record {
  counter = λ t. length t;
  jitter = λ t. false;
  outliers = λ s t. 0;
  iterations = λ s t. timed s t;
}

abbrev pub empty_channel : Channel
empty_channel = record { bytes = 0; capacity = 1024; messages = [] }

abbrev pub empty_mail : Mail
empty_mail = record {
  arm_count = 0;
  recv_count = 0;
  self_object = empty_channel;
  high_object = empty_channel;
  low_object = empty_channel;
  transfer = no_transfer;
  released = 0;
  line = idle_line;
}

abbrev pub unseen : Seen
unseen = record {
  last_start = 0;
  last_stop = 0;
  last_rendezvous = 0;
  outlier_count = 0;
  functions = λ n. finished;
  jitters = 0;
  count = 0;
  mail = empty_mail;
  message_size = 0;
  tx_size = 0;
  rx_size = 0;
  trace = [];
}

abbrev pub dawn : Programs → System View
dawn p = boot p 0 unseen

pub dawn-Booted : (p : Programs) → Booted itself p (dawn p)
unfolding tally
dawn-Booted p = record {
  none_wait = refl;
  absent_1 = refl;
  absent_2 = refl;
  absent_3 = refl;
  absent_4 = refl;
  idle_only = refl;
  at_start = refl;
  silent = refl;
  a_fresh = refl;
  b_fresh = refl;
}
