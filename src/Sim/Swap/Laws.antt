-- ===== src/Sim/Swap/Laws.antt =====
-- What the swap probe that four of the zephyr_sim.c files share leaves behind.
use zephyr_kernel_bm_tuc_hms.Prelude.{ℕ, suc, ◌+◌, ◌≡◌, ◌≢◌, arith, ℤ, neg, pos, to_u32}
use zephyr_kernel_bm_tuc_hms.Window.{phase, samples, IsSampled}
use zephyr_kernel_bm_tuc_hms.Sim.Machine.{Env, ReadWindow, World, Ensures, marks}
use zephyr_kernel_bm_tuc_hms.Sim.Probe.{Ready, after, Measured, repeat, Measured-repeat}
use zephyr_kernel_bm_tuc_hms.Sim.Swap.{
  SwapPart, swap_prologue, swap_tail, measure_z_swap, measure_z_swap_overhead,
}

-- What `sim_sink` gets from a round: the prologue always reads back the -EAGAIN that it stored.
abbrev pub returned : Env → SwapPart → ℕ
returned env swap_prologue = to_u32 (neg env.eagain)
returned env swap_tail = 0

-- The tail reads back what `sim_kernel_init` stored.
abbrev Kept : SwapPart → ℤ → Type 0
Kept swap_prologue v = Unit
Kept swap_tail v = v ≡ pos 0

record SwapReady (env : Env) (part : SwapPart) (s k r m old i : ℕ) {F : Type 0} (w : World F)
    : Type 0 where
  ready : Ready s (k + i) r m w
  kept : Kept part w.sim_current_thread.swap_return_value
  sunk : w.sim_sink ≡ after i old (returned env part)

module _ (env : Env) {F : Type 0} (s k r m : ℕ) (apart : r ≢ s) where
  measure_z_swap-SwapReady :
      (part : SwapPart) (old i : ℕ) (w : World F)
      → SwapReady env part s k r m old i w
      → Ensures (λ _ w'. SwapReady env part s k r m old (suc i) w') (measure_z_swap env s part w)
  unfolding measure_z_swap phase samples marks
  measure_z_swap-SwapReady swap_prologue i w h = ground arith
  measure_z_swap-SwapReady swap_tail i w h = ground arith

  swap_rounds :
      (old n : ℕ) (part : SwapPart) (w : World F)
      → SwapReady env part s k r m old 0 w
      → Ensures
          (λ _ w'. Measured s k n r m w' × (w'.sim_sink ≡ after n old (returned env part)))
          (repeat n (measure_z_swap env s part) w)
  swap_rounds old n part w h =
      Measured-repeat s k r m (λ i. SwapReady env part s k r m old i)
        (λ w'. w'.sim_sink ≡ after n old (returned env part)) (measure_z_swap env s part)
        (measure_z_swap-SwapReady part old) (λ _ _ e. e.ready) n w (λ w' e. e.sunk) h

  -- The swap probe: from any state in which the windows of `s` and `r` are shut, whatever the
  -- counter, the harness and the interrupt keys return, no null pointer is followed, exactly
  -- `loop_count` samples are added to `s` and none to `r`, and if a round ran the sink holds
  -- -EAGAIN as a `uint32_t` after the prologue part and 0 after the tail part, else what it held.
  pub measure_z_swap_overhead_lem :
      (window : ReadWindow) (loop_count : ℕ) (part : SwapPart) (w : World F)
      → IsSampled s k (marks w.trace)
      → IsSampled r m (marks w.trace)
      → Ensures
          (λ _ w'.
            Measured s k loop_count r m w'
            × (w'.sim_sink ≡ after loop_count w.sim_sink (returned env part)))
          (measure_z_swap_overhead env window s loop_count part w)
  unfolding measure_z_swap_overhead marks
  measure_z_swap_overhead_lem window n swap_prologue w h g =
      swap_rounds w.sim_sink n swap_prologue _ (ground arith)
  measure_z_swap_overhead_lem window n swap_tail w h g =
      swap_rounds w.sim_sink n swap_tail _ (ground arith)
