-- ===== src/TaskPreempt/Laws.antt =====
-- What the `measure_*` functions of task_preempt/zephyr_sim.c leave behind.
use zephyr_kernel_bm_tuc_hms.Prelude.{ℕ, suc, ◌+◌, ◌≡◌, ◌≢◌, arith, neg, to_u32}
use zephyr_kernel_bm_tuc_hms.Window.{phase, samples, IsSampled}
use zephyr_kernel_bm_tuc_hms.Sim.Machine.{Env, World, Ensures, marks}
use zephyr_kernel_bm_tuc_hms.Sim.Probe.{Ready, after, Measured, Measured-repeat}
use zephyr_kernel_bm_tuc_hms.TaskPreempt.{
  TaskFile, measure_resume_tail, measure_swap_prologue, measure_swap_prologue_overhead,
  measure_suspend_tail, measure_thread_suspend_tail, measure_thread_resume_tail,
}

record SinkReady (v s k r m old i : ℕ) (w : World TaskFile) : Type 0 where
  ready : Ready s (k + i) r m w
  sunk : w.sim_sink ≡ after i old v

module _ (env : Env) (s k r m : ℕ) (apart : r ≢ s) where
  measure_resume_tail-SinkReady :
      (old i : ℕ) (w : World TaskFile)
      → SinkReady 0 s k r m old i w
      → Ensures (λ _ w'. SinkReady 0 s k r m old (suc i) w') (measure_resume_tail env s w)
  unfolding measure_resume_tail phase samples marks
  measure_resume_tail-SinkReady old i w h = ground arith

  measure_suspend_tail-SinkReady :
      (old i : ℕ) (w : World TaskFile)
      → SinkReady 0 s k r m old i w
      → Ensures (λ _ w'. SinkReady 0 s k r m old (suc i) w') (measure_suspend_tail env s w)
  unfolding measure_suspend_tail phase samples marks
  measure_suspend_tail-SinkReady old i w h = ground arith

  measure_swap_prologue-SinkReady :
      (old i : ℕ) (w : World TaskFile)
      → SinkReady (to_u32 (neg env.eagain)) s k r m old i w
      → Ensures
          (λ _ w'. SinkReady (to_u32 (neg env.eagain)) s k r m old (suc i) w')
          (measure_swap_prologue env s w)
  unfolding measure_swap_prologue phase samples marks
  measure_swap_prologue-SinkReady old i w h = ground arith

  -- The three series of the file: each of them, from any state in which the windows of `s` and `r`
  -- are shut, follows no null pointer and adds exactly `loop_count` samples to `s`, each timed in
  -- its own window, and none to `r`; and if a round ran the sink holds 0, 0 and -EAGAIN as a
  -- `uint32_t`, else what it held. Nothing is assumed of what the kernel, the harness and the
  -- processor return.
  pub task_preempt_series :
      (loop_count : ℕ) (w : World TaskFile)
      → IsSampled s k (marks w.trace)
      → IsSampled r m (marks w.trace)
      → Ensures
          (λ _ w'. Measured s k loop_count r m w' × (w'.sim_sink ≡ after loop_count w.sim_sink 0))
          (measure_thread_resume_tail env s loop_count w)
        × Ensures
            (λ _ w'. Measured s k loop_count r m w' × (w'.sim_sink ≡ after loop_count w.sim_sink 0))
            (measure_thread_suspend_tail env s loop_count w)
        × Ensures
            (λ _ w'.
              Measured s k loop_count r m w'
              × (w'.sim_sink ≡ after loop_count w.sim_sink (to_u32 (neg env.eagain))))
            (measure_swap_prologue_overhead env s loop_count w)
  unfolding measure_thread_resume_tail measure_thread_suspend_tail measure_swap_prologue_overhead
      marks
  task_preempt_series n w h g = (
    Measured-repeat s k r m (λ i. SinkReady 0 s k r m w.sim_sink i) _ (measure_resume_tail env s)
        (measure_resume_tail-SinkReady w.sim_sink) (λ _ _ e. e.ready) n _ (λ w' e. e.sunk)
        (ground arith),
    Measured-repeat s k r m (λ i. SinkReady 0 s k r m w.sim_sink i) _ (measure_suspend_tail env s)
        (measure_suspend_tail-SinkReady w.sim_sink) (λ _ _ e. e.ready) n _ (λ w' e. e.sunk)
        (ground arith),
    Measured-repeat s k r m (λ i. SinkReady (to_u32 (neg env.eagain)) s k r m w.sim_sink i) _
        (measure_swap_prologue env s) (measure_swap_prologue-SinkReady w.sim_sink)
        (λ _ _ e. e.ready) n _ (λ w' e. e.sunk) (ground arith),
  )
