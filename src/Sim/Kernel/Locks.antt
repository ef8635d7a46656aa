-- ===== src/Sim/Kernel/Locks.antt =====
-- The spinlocks of the simulated kernel: which one the swap out of sim_z_pend_curr_prologue() holds.
use zephyr_kernel_bm_tuc_hms.Prelude.{
  ℕ, Bool, true, false, [], ◌∷◌, ◌≡◌, ◌≢◌, arith, ℤ, neg, if◌then◌else◌,
}
use zephyr_kernel_bm_tuc_hms.Sim.Machine.{
  current_thread, Lock, sched_spinlock, sem_lock, event_lock, Action, Trace, Env, World, Ensures,
}
use zephyr_kernel_bm_tuc_hms.Sim.Kernel.{QueuePtr, sim_z_pend_curr_prologue}

abbrev same_lock : Lock → Lock → Bool
same_lock sched_spinlock sched_spinlock = true
same_lock sem_lock sem_lock = true
same_lock event_lock event_lock = true
same_lock _ _ = false

-- Whether the lock is taken after the calls, newest first.
pub held : Lock → Trace → Bool
held l [] = false
held l (Action.spin_lock k key ∷ t) =
    let before = held l t in if same_lock k l then true else before
held l (Action.spin_unlock k key ∷ t) =
    let before = held l t in if same_lock k l then false else before
held l (Action.spin_release k ∷ t) =
    let before = held l t in if same_lock k l then false else before
held l (_ ∷ t) = held l t

-- sim_z_pend_curr_prologue() returns -EAGAIN and has saved the caller's key. It takes the scheduler
-- spinlock and releases the caller's lock (twice), so a caller whose lock is another one gets back
-- with its own lock free and the scheduler spinlock still held.
pub pend_curr-held :
    (env : Env) {F : Type 0} (lock : Lock) (key : ℕ) (wait_q : QueuePtr) (ticks : ℤ) (w : World F)
    → w.cpu_current ≡ current_thread
    → lock ≢ sched_spinlock
    → Ensures
        (λ rv w'.
          (rv ≡ neg env.eagain)
          × (w'.sim_current_thread.basepri ≡ key)
          × (held sched_spinlock w'.trace ≡ true)
          × (held lock w'.trace ≡ false))
        (sim_z_pend_curr_prologue env lock key wait_q ticks w)
unfolding sim_z_pend_curr_prologue held
pend_curr-held env lock key wait_q ticks w c d = ground arith
