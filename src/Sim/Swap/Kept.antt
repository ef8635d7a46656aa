-- ===== src/Sim/Swap/Kept.antt =====
-- What the swap probe of the zephyr_sim.c files leaves as it was.
use zephyr_kernel_bm_tuc_hms.Prelude.{ℕ, ◌≡◌, refl, arith}
use zephyr_kernel_bm_tuc_hms.Sim.Machine.{
  ThreadPtr, current_thread, ReadWindow, Env, World, Ensures,
}
use zephyr_kernel_bm_tuc_hms.Sim.Main.{Ensures-weaken}
use zephyr_kernel_bm_tuc_hms.Sim.Probe.{repeat_inv}
use zephyr_kernel_bm_tuc_hms.Sim.Swap.{swap_prologue, measure_z_swap, measure_z_swap_overhead}

-- The ready cache and the statics of the file are the given ones.
pub record Kept (p : ThreadPtr) {F : Type 0} (a : F) (w : World F) : Type 0 where
  pub cache : w.ready_cache ≡ p
  pub statics : w.file ≡ a

-- A probe of the swap leaves them.
record Swapping (p : ThreadPtr) {F : Type 0} (a : F) (w : World F) : Type 0 where
  current : w.cpu_current ≡ current_thread
  cache : w.ready_cache ≡ p
  statics : w.file ≡ a

measure_z_swap-Swapping :
    (env : Env) {F : Type 0} (s : ℕ) (p : ThreadPtr) (a : F) (w : World F)
    → Swapping p a w
    → Ensures (λ _ w'. Swapping p a w') (measure_z_swap env s swap_prologue w)
unfolding measure_z_swap
measure_z_swap-Swapping env s p a w h = ground arith

pub measure_z_swap_overhead-Kept :
    (env : Env) {F : Type 0} (window : ReadWindow) (s n : ℕ) (p : ThreadPtr) (a : F) (w : World F)
    → Kept p a w
    → Ensures (λ _ w'. Kept p a w') (measure_z_swap_overhead env window s n swap_prologue w)
unfolding measure_z_swap_overhead
measure_z_swap_overhead-Kept env window s n p a w h =
    Ensures-weaken (λ _ w'. Swapping p a w') (λ _ w'. Kept p a w') _
      (repeat_inv (λ _ w'. Swapping p a w') (measure_z_swap env s swap_prologue)
        (λ _ w' h. measure_z_swap-Swapping env s p a w' h) n 0 n _ (omega arith)
        (record { current = refl; cache = h.cache; statics = h.statics }))
      (λ _ _ h. record { cache = h.cache; statics = h.statics })
