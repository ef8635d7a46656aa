-- ===== src/EventBlock/Laws.antt =====
-- What the `measure_*_overhead` functions of event_block/zephyr_sim.c leave behind.
use zephyr_kernel_bm_tuc_hms.Prelude.{ℕ, suc, ◌+◌, ◌≡◌, ◌≢◌, arith, bit_and, ◌∷◌}
use zephyr_kernel_bm_tuc_hms.Window.{Mark, phase, samples, IsSampled}
use zephyr_kernel_bm_tuc_hms.Sim.Machine.{
  current_thread, Action, Trace, Env, KernelDoc, World, Ensures, marks,
}
use zephyr_kernel_bm_tuc_hms.Sim.Probe.{Ready, after, Measured, Measured-repeat}
use zephyr_kernel_bm_tuc_hms.Sim.Event.{
  EventFile, sim_guard, sim_wait_request, WaitPart, wait_tail, wait_prologue, measure_wait_tail,
  measure_wait_prologue,
}
use zephyr_kernel_bm_tuc_hms.Sim.Event.Laws.{
  TailReady, PrologueReady, waited, measure_wait_tail-TailReady,
  measure_wait_prologue-PrologueReady,
}
use zephyr_kernel_bm_tuc_hms.EventBlock.{
  measure_wait_overhead, measure_wait_tail_no_wait_overhead, measure_post_tail,
  measure_post_tail_overhead,
}

record PostReady (s k r m old event i : ℕ) (w : World EventFile) : Type 0 where
  ready : Ready s (k + i) r m w
  switching : w.ready_cache ≢ current_thread
  sunk : (w.sim_sink ≡ after i old sim_guard) × (w.file.tail_event ≡ after i event sim_guard)

record NoWaitReady (s k r m old i : ℕ) (w : World EventFile) : Type 0 where
  ready : Ready s (k + i) r m w
  sunk : w.file.sim_wait_sink ≡ after i old 0

module _ (env : Env) (doc : KernelDoc env) (s k r m : ℕ) (apart : r ≢ s) where
  measure_post_tail-PostReady :
      ((t : Trace) → env.ipsr t ≡ 0)
      → (old event i : ℕ) (w : World EventFile) → PostReady s k r m old event i w
      → Ensures (λ _ w'. PostReady s k r m old event (suc i) w') (measure_post_tail env s w)
  unfolding measure_post_tail phase samples marks
  measure_post_tail-PostReady thread_mode old event i w h =
      ground (arith, thread_mode (Action.mark Mark.reset ∷ Action.mark (Mark.opened s) ∷ w.trace))

  measure_wait_tail-NoWaitReady :
      (old i : ℕ) (w : World EventFile)
      → NoWaitReady s k r m old i w
      → Ensures
          (λ _ w'. NoWaitReady s k r m old (suc i) w')
          (measure_wait_tail env s env.ticks_no_wait w)
  unfolding measure_wait_tail phase samples marks
  measure_wait_tail-NoWaitReady old i w h = ground (arith, doc.no_wait)

  -- Each half of the simulated k_event_wait_safe(), if the windows of `s` and `r` are shut and the
  -- event holds none of the requested bits: no null pointer is followed, exactly `loop_count`
  -- samples are added to `s`, each timed in its own window, and none to `r`; and if a round ran the
  -- sink holds the requested bits after the tail and 0 after the prologue, else what it held.
  pub measure_wait_overhead_lem :
      (part : WaitPart) (loop_count : ℕ) (w : World EventFile)
      → IsSampled s k (marks w.trace)
      → IsSampled r m (marks w.trace)
      → bit_and w.file.tail_event sim_wait_request ≡ 0
      → Ensures
          (λ _ w'.
            Measured s k loop_count r m w'
            × (w'.file.sim_wait_sink ≡ after loop_count w.file.sim_wait_sink (waited part)))
          (measure_wait_overhead env s loop_count part w)
  unfolding measure_wait_overhead marks
  measure_wait_overhead_lem wait_tail n w h g d =
      Measured-repeat s k r m (λ i. TailReady s k r m w.file.sim_wait_sink i) _
        (measure_wait_tail env s env.ticks_forever)
        (measure_wait_tail-TailReady env doc s k r m apart w.file.sim_wait_sink) (λ _ _ e. e.ready)
        n _ (λ w' e. e.sunk) (ground arith)
  measure_wait_overhead_lem wait_prologue n w h g d =
      Measured-repeat s k r m (λ i. PrologueReady s k r m w.file.sim_wait_sink i) _
        (measure_wait_prologue env s env.ticks_forever)
        (measure_wait_prologue-PrologueReady env doc s k r m apart w.file.sim_wait_sink)
        (λ _ _ e. e.ready) n _ (λ w' e. e.sunk) (ground arith)

  -- The K_NO_WAIT wait, if the windows of `s` and `r` are shut: no null pointer is followed, exactly
  -- `loop_count` samples are added to `s`, each timed in its own window, and none to `r`; and if a
  -- round ran the sink holds 0, else what it held.
  pub measure_wait_tail_no_wait_overhead_lem :
      (loop_count : ℕ) (w : World EventFile)
      → IsSampled s k (marks w.trace)
      → IsSampled r m (marks w.trace)
      → Ensures
          (λ _ w'.
            Measured s k loop_count r m w'
            × (w'.file.sim_wait_sink ≡ after loop_count w.file.sim_wait_sink 0))
          (measure_wait_tail_no_wait_overhead env s loop_count w)
  unfolding measure_wait_tail_no_wait_overhead marks
  measure_wait_tail_no_wait_overhead_lem n w h g =
      Measured-repeat s k r m (λ i. NoWaitReady s k r m w.file.sim_wait_sink i) _
        (measure_wait_tail env s env.ticks_no_wait)
        (measure_wait_tail-NoWaitReady w.file.sim_wait_sink) (λ _ _ e. e.ready) n _ (λ w' e. e.sunk)
        (ground arith)

  -- The k_event_post() tail with a switch, run in thread mode, with another thread than the current
  -- one in the ready cache and the windows of `s` and `r` shut: exactly `loop_count` samples are
  -- added to `s`, each timed in its own window, and none to `r`; and if a round ran the sink and the
  -- event hold the event's bits from before the post, else what they held.
  pub measure_post_tail_overhead_lem :
      ((t : Trace) → env.ipsr t ≡ 0)
      → (loop_count : ℕ) (w : World EventFile) → w.ready_cache ≢ current_thread
      → IsSampled s k (marks w.trace)
      → IsSampled r m (marks w.trace)
      → Ensures
          (λ _ w'.
            Measured s k loop_count r m w'
            × ((w'.sim_sink ≡ after loop_count w.sim_sink sim_guard)
                × (w'.file.tail_event ≡ after loop_count w.file.tail_event sim_guard)))
          (measure_post_tail_overhead env s loop_count w)
  unfolding measure_post_tail_overhead marks
  measure_post_tail_overhead_lem thread_mode n w c h g =
      Measured-repeat s k r m (λ i. PostReady s k r m w.sim_sink w.file.tail_event i) _
        (measure_post_tail env s)
        (measure_post_tail-PostReady thread_mode w.sim_sink w.file.tail_event) (λ _ _ e. e.ready) n
        _ (λ w' e. e.sunk) (ground arith)
