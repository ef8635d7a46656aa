-- ===== src/Scenario/Refine/Calls.antt =====
-- What a call does to the view of a kernel that does what is documented.
use zephyr_kernel_bm_tuc_hms.Prelude.{
  ℕ, ◌≡◌, refl, ap, true, false, Option, none, some, leb, if◌then◌else◌,
}
use zephyr_kernel_bm_tuc_hms.Itc.Handover.{continue}
use zephyr_kernel_bm_tuc_hms.Scenario.Kernel.{Task, Kernel, View, documented}
use zephyr_kernel_bm_tuc_hms.Scenario.Doc.{KernelDoc, map_option}
use zephyr_kernel_bm_tuc_hms.Scenario.Program.{
  Call, Board, System, left, set_left, skip_calls, call,
}

-- The system as its view.
abbrev pub viewed : {S : Type 0} → (S → View) → System S → System View
viewed view y = record {
  kernel = view y.kernel;
  programs = y.programs;
  test_start_time = y.test_start_time;
  test_stop_time = y.test_stop_time;
  test_stop_time_rendezvous = y.test_stop_time_rendezvous;
  message_size = y.message_size;
  tx_size = y.tx_size;
  rx_size = y.rx_size;
  outlier_count = y.outlier_count;
  functions = y.functions;
  jitters = y.jitters;
  signalled = y.signalled;
  trace = y.trace;
}

abbrev skipped : {S : Type 0} → ℕ → Task → System S → System S
skipped n t y = record y { programs = set_left t (skip_calls n (left t y.programs)) y.programs }

module _ {S : Type 0} (b : Board) (limit : ℕ) (k : Kernel S) (view : S → View)
    (doc : KernelDoc k limit view) where
  -- The pending calls.
  pend :
      (y : System S) (r : Option S) (v : Option View)
      → map_option view r ≡ v
      → map_option (viewed view) (continue r (λ s. some (record y { kernel = s })))
        ≡ continue v (λ s. some (record (viewed view y) { kernel = s }))
  pend y none v e = ap (λ v. continue v (λ s. some (record (viewed view y) { kernel = s }))) e
  pend y (some s) v e = ap (λ v. continue v (λ s. some (record (viewed view y) { kernel = s }))) e

  -- The others.
  go :
      (y : System S) (s : S) (v : View)
      → view s ≡ v
      → some (viewed view (record y { kernel = s })) ≡ some (record (viewed view y) { kernel = v })
  go y s v e = ap (λ v. some (record (viewed view y) { kernel = v })) e

  pub call-viewed :
      (t : Task) (c : Call) (y : System S)
      → map_option (viewed view) (call b k t c y) ≡ call b (documented limit) t c (viewed view y)
  call-viewed t (Call.mwindow_open s) y = refl
  call-viewed t Call.reset_counter y = refl
  call-viewed t Call.get_start_cnt y = refl
  call-viewed t Call.get_stop_cnt y = refl
  call-viewed t (Call.mseries_iterate s) y = refl
  call-viewed t (Call.mseries_iterate_or_signal s) y = refl
  call-viewed t (Call.mwindow_close s) y = refl
  call-viewed t Call.sem_init y = go y _ _ (doc.sem_init y.kernel)
  call-viewed t Call.sem_take y = pend y (k.k_sem_take y.kernel) _ (doc.sem_take y.kernel)
  call-viewed t Call.sem_take_no_wait y = go y _ _ (doc.sem_take_no_wait y.kernel)
  call-viewed t Call.sem_give y = go y _ _ (doc.sem_give y.kernel)
  call-viewed t Call.sem_reset y = go y _ _ (doc.sem_reset y.kernel)
  call-viewed t Call.event_init y = go y _ _ (doc.event_init y.kernel)
  call-viewed t (Call.event_wait m) y =
      pend y (k.k_event_wait_safe m y.kernel) _ (doc.event_wait m y.kernel)
  call-viewed t (Call.event_wait_no_wait m) y = go y _ _ (doc.event_wait_no_wait m y.kernel)
  call-viewed t (Call.event_wait_begin m) y = go y _ _ (doc.event_wait_begin t m y.kernel)
  call-viewed t Call.event_wait_end y =
      pend y (k.k_event_wait_end t y.kernel) _ (doc.event_wait_end t y.kernel)
  call-viewed t (Call.event_post m) y = go y _ _ (doc.event_post m y.kernel)
  call-viewed t (Call.event_clear m) y = go y _ _ (doc.event_clear m y.kernel)
  call-viewed t (Call.gate_give p) y = go y _ _ (doc.gate_give p y.kernel)
  call-viewed t (Call.gate_take p) y =
      pend y (k.k_gate_take p y.kernel) _ (doc.gate_take p y.kernel)
  call-viewed t (Call.gate_init p) y = go y _ _ (doc.gate_init p y.kernel)
  call-viewed t (Call.gate_reset p) y = go y _ _ (doc.gate_reset p y.kernel)
  call-viewed t (Call.set_message_size n) y = refl
  call-viewed t Call.arm_descriptors y = refl
  call-viewed t (Call.pipe_write o) y =
      pend y (k.k_pipe_write o y.message_size y.kernel) _ (doc.pipe_write o y.message_size y.kernel)
  call-viewed t (Call.pipe_read o) y =
      pend y (k.k_pipe_read o y.message_size y.kernel) _ (doc.pipe_read o y.message_size y.kernel)
  call-viewed t (Call.pipe_reset o) y = go y _ _ (doc.pipe_reset o y.kernel)
  call-viewed t (Call.mbox_async_put o) y = go y _ _ (doc.mbox_async_put o y.tx_size y.kernel)
  call-viewed t (Call.mbox_get o) y =
      pend y (k.k_mbox_get o y.rx_size y.kernel) _ (doc.mbox_get o y.rx_size y.kernel)
  call-viewed t (Call.pipe_ring_init o n) y = go y _ _ (doc.pipe_ring_init o n y.kernel)
  call-viewed t Call.pipe_init y = go y _ _ (doc.pipe_init y.kernel)
  call-viewed t Call.pipe_write_begin y = go y _ _ (doc.pipe_write_begin y.message_size y.kernel)
  call-viewed t Call.pipe_write_end y =
      pend y (k.k_pipe_write_end y.kernel) _ (doc.pipe_write_end y.kernel)
  call-viewed t Call.pipe_read_begin y = go y _ _ (doc.pipe_read_begin y.message_size y.kernel)
  call-viewed t Call.pipe_read_end y =
      pend y (k.k_pipe_read_end y.kernel) _ (doc.pipe_read_end y.kernel)
  call-viewed t (Call.mbox_init o) y = go y _ _ (doc.mbox_init o y.kernel)
  call-viewed t (Call.mbox_put_begin o) y = go y _ _ (doc.mbox_put_begin o y.tx_size y.kernel)
  call-viewed t (Call.mbox_put_end o) y =
      pend y (k.k_mbox_put_end o y.kernel) _ (doc.mbox_put_end o y.kernel)
  call-viewed t Call.get_rendezvous_cnt y = refl
  call-viewed t (Call.rendezvous_iterate s) y = refl
  call-viewed t Call.reset_outlier_count y = refl
  call-viewed t (Call.add_outliers s) y = refl
  call-viewed t Call.signalize_outlier_count y = refl
  call-viewed t (Call.thread_start u f) y =
      go (record y { programs = set_left u (y.functions f) y.programs }) _ _
        (doc.thread_create u y.kernel)
  call-viewed t (Call.skip_unless_counted s n) y =
      elim (leb 50000 (b.iterations s y.trace))
        as (λ g.
          some (viewed view (if g then y else skipped n t y))
          ≡ some (if g then viewed view y else skipped n t (viewed view y))) [
            | true ↦ refl
            | false ↦ refl
          ]
  call-viewed t Call.release_init y = go y _ _ (doc.release_init y.kernel)
  call-viewed t (Call.release_wait m) y =
      pend y (k.k_release_wait m y.kernel) _ (doc.release_wait m y.kernel)
  call-viewed t (Call.release_post m) y = go y _ _ (doc.release_post m y.kernel)
  call-viewed t Call.irq_enable y = go y _ _ (doc.irq_enable y.kernel)
  call-viewed t Call.irq_disable y = go y _ _ (doc.irq_disable y.kernel)
  call-viewed t Call.trigger_test_irq y = go y _ _ (doc.irq_set_pending y.kernel)
  call-viewed t Call.clear_pending_irq y = go y _ _ (doc.irq_clear_pending y.kernel)
  call-viewed t Call.isr_entry y = pend y (k.irq_entry y.kernel) _ (doc.handler_entry y.kernel)
  call-viewed t (Call.thread_suspend u) y = go y _ _ (doc.thread_suspend u y.kernel)
  call-viewed t (Call.thread_create u) y = go y _ _ (doc.thread_create u y.kernel)
  call-viewed t (Call.thread_abort u) y = go y _ _ (doc.thread_abort u y.kernel)
  call-viewed t Call.suspend_self y = go y _ _ (doc.thread_suspend t y.kernel)
  call-viewed t (Call.thread_resume u) y = go y _ _ (doc.thread_resume u y.kernel)
  call-viewed t Call.signalize_mseries_stop y = refl
