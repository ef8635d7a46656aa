-- ===== src/SemBlock/Laws.antt =====
-- What the `measure_*_overhead` functions of sem_block/zephyr_sim.c leave behind.
use zephyr_kernel_bm_tuc_hms.Prelude.{ℕ, suc, ◌+◌, ◌≡◌, ◌≢◌, ◌∷◌, arith, neg, ℤ, pos, to_u32}
use zephyr_kernel_bm_tuc_hms.Window.{Mark, phase, samples, IsSampled}
use zephyr_kernel_bm_tuc_hms.Sim.Machine.{
  current_thread, Action, Trace, Env, KernelDoc, World, Ensures, marks,
}
use zephyr_kernel_bm_tuc_hms.Sim.Probe.{Ready, after, Measured, Measured-repeat}
use zephyr_kernel_bm_tuc_hms.Sim.Sem.{SemFile}
use zephyr_kernel_bm_tuc_hms.SemBlock.{
  measure_take_tail, measure_take_tail_no_wait_overhead, measure_give_tail,
  measure_give_tail_overhead,
}

record TakeReady (env : Env) (s k r m old i : ℕ) (w : World SemFile) : Type 0 where
  ready : Ready s (k + i) r m w
  no_wait : w.file.sim_take_ticks ≡ pos 0
  empty : w.file.tail_sem.count ≡ 0
  sunk : w.file.sim_take_sink ≡ after i old (to_u32 (neg env.ebusy))

record GiveReady (ticks : ℤ) (s k r m i : ℕ) (w : World SemFile) : Type 0 where
  ready : Ready s (k + i) r m w
  switching : w.ready_cache ≢ current_thread
  kept : w.file.sim_take_ticks ≡ ticks

module _ (env : Env) (doc : KernelDoc env) (s k r m : ℕ) (apart : r ≢ s) where
  measure_take_tail-TakeReady :
      (old i : ℕ) (w : World SemFile)
      → TakeReady env s k r m old i w
      → Ensures (λ _ w'. TakeReady env s k r m old (suc i) w') (measure_take_tail env s w)
  unfolding measure_take_tail phase samples marks
  measure_take_tail-TakeReady old i w h = ground (arith, doc.no_wait)

  measure_give_tail-GiveReady :
      ((t : Trace) → env.ipsr t ≡ 0)
      → (ticks : ℤ) (i : ℕ) (w : World SemFile) → GiveReady ticks s k r m i w
      → Ensures (λ _ w'. GiveReady ticks s k r m (suc i) w') (measure_give_tail env s w)
  unfolding measure_give_tail phase samples marks
  measure_give_tail-GiveReady thread_mode ticks i w h =
      ground (arith, thread_mode (Action.mark Mark.reset ∷ Action.mark (Mark.opened s) ∷ w.trace))

  -- The K_NO_WAIT take, with the initial timeout of 0 ticks and the windows of `s` and `r` shut: the
  -- semaphore, initialised empty, ends empty; exactly `loop_count` samples are added to `s`, each
  -- timed in its own window, and none to `r`; and if a round ran the sink holds -EBUSY as a
  -- `uint32_t`, else what it held.
  pub measure_take_tail_no_wait_overhead_lem :
      (loop_count : ℕ) (w : World SemFile)
      → w.file.sim_take_ticks ≡ pos 0
      → IsSampled s k (marks w.trace)
      → IsSampled r m (marks w.trace)
      → Ensures
          (λ _ w'.
            Measured s k loop_count r m w'
            × ((w'.file.tail_sem.count ≡ 0)
                × (w'.file.sim_take_sink
                    ≡ after loop_count w.file.sim_take_sink (to_u32 (neg env.ebusy)))))
          (measure_take_tail_no_wait_overhead env s loop_count w)
  unfolding measure_take_tail_no_wait_overhead marks
  measure_take_tail_no_wait_overhead_lem n w t h g =
      Measured-repeat s k r m (λ i. TakeReady env s k r m w.file.sim_take_sink i) _
        (measure_take_tail env s) (measure_take_tail-TakeReady w.file.sim_take_sink)
        (λ _ _ e. e.ready) n _ (λ w' e. (e.empty, e.sunk))
        (ground (arith, doc.init_count w.file.tail_sem 0 env.sem_max_limit))

  -- The k_sem_give() tail with a switch, run in thread mode, with another thread than the current
  -- one in the ready cache and the windows of `s` and `r` shut: exactly `loop_count` samples are
  -- added to `s`, each timed in its own window, and none to `r`, the current thread stays the
  -- simulation's, and the timeout of the take what it was.
  pub measure_give_tail_overhead_lem :
      ((t : Trace) → env.ipsr t ≡ 0)
      → (loop_count : ℕ) (w : World SemFile) → w.ready_cache ≢ current_thread
      → IsSampled s k (marks w.trace)
      → IsSampled r m (marks w.trace)
      → Ensures
          (λ _ w'.
            Measured s k loop_count r m w'
            × ((w'.cpu_current ≡ current_thread)
                × (w'.file.sim_take_ticks ≡ w.file.sim_take_ticks)))
          (measure_give_tail_overhead env s loop_count w)
  unfolding measure_give_tail_overhead marks
  measure_give_tail_overhead_lem thread_mode n w c h g =
      Measured-repeat s k r m (λ i. GiveReady w.file.sim_take_ticks s k r m i) _
        (measure_give_tail env s) (measure_give_tail-GiveReady thread_mode w.file.sim_take_ticks)
        (λ _ _ e. e.ready) n _ (λ w' e. (e.ready.current, e.kept)) (ground arith)
