-- ===== src/Sim/Kernel/Laws.antt =====
-- The swap chain of the simulated kernel: what each half reads, writes and calls.
use zephyr_kernel_bm_tuc_hms.Prelude.{ℕ, ◌≡◌, arith, none, neg, pos}
use zephyr_kernel_bm_tuc_hms.Sim.Machine.{null, current_thread, Lock, Env, World, ◌>>=◌, Ensures}
use zephyr_kernel_bm_tuc_hms.Sim.Kernel.{sim_kernel_init, sim_z_swap_prologue, sim_z_swap_tail}

module _ (env : Env) {F : Type 0} where
  -- Both halves of the swap follow _sim_kernel.cpus[0].current: where it is null, as it is before
  -- sim_kernel_init(), each is a null access.
  pub swap_needs_init :
      (lock : Lock) (key : ℕ) (w : World F)
      → w.cpu_current ≡ null
      → (sim_z_swap_prologue env lock key w ≡ none) × (sim_z_swap_tail env key w ≡ none)
  unfolding sim_z_swap_prologue sim_z_swap_tail
  swap_needs_init lock key w h = ground arith

  -- A tail run right after a prologue reads the prologue's -EAGAIN; one run after a fresh
  -- sim_kernel_init() reads 0. This holds for every key and lock, from every state with a current
  -- thread.
  pub swap_tail-swap_prologue :
      (lock : Lock) (key key' : ℕ) (w : World F)
      → w.cpu_current ≡ current_thread
      → Ensures
          (λ rv w'. (rv ≡ neg env.eagain) × (w'.sim_current_thread.basepri ≡ key'))
          ((sim_z_swap_prologue env lock key >>= λ _. sim_z_swap_tail env key') w)
        × Ensures
            (λ rv w'. (rv ≡ pos 0) × (w'.sim_current_thread.basepri ≡ key'))
            ((sim_z_swap_prologue env lock key >>= λ _.
                sim_kernel_init >>= λ _. sim_z_swap_tail env key')
              w)
  unfolding sim_z_swap_prologue sim_z_swap_tail sim_kernel_init
  swap_tail-swap_prologue lock key key' w h = ground arith
