-- ===== src/Sim/Event/Halves.antt =====
-- The simulated k_event_wait_internal() and its tail: where the two halves agree.
use zephyr_kernel_bm_tuc_hms.Prelude.{
  ℕ, ◌%◌, ◌≡◌, arith, ◌&&◌, ◌==◌, not, if◌then◌else◌, ℤ, is_zero, to_u32, Option, none, some,
  bit_and, ◌||◌,
}
use zephyr_kernel_bm_tuc_hms.Sim.Machine.{current_thread, Env, KernelDoc, World, Ensures}
use zephyr_kernel_bm_tuc_hms.Sim.Event.{
  EventFile, sim_guard, sim_k_event_wait_internal, sim_k_event_wait_internal_tail,
}

-- The documented contract of a wait: `none` if it has to pend, else the answer. Bit 0 of the options
-- asks for all the desired bits at once.
abbrev pub answer : (events options : ℕ) → (ticks : ℤ) → (current : ℕ) → Option ℕ
answer events options ticks current =
    let match = bit_and current events in
    if events == 0
    then some 0
    else if not (match == 0) && (not (options % 2 == 1) || match == events)
    then some match
    else if is_zero ticks
    then some 0
    else none

abbrev pub or_else : Option ℕ → ℕ → ℕ
or_else none d = d
or_else (some a) d = a

-- The request that the thread holds afterwards: a new one only if the wait had to pend.
abbrev pub request : Option ℕ → ℕ → ℕ → ℕ
request none events old = events
request (some _) events old = old

module _ (env : Env) (doc : KernelDoc env) (events options : ℕ) (ticks : ℤ) where
  -- Both halves implement the contract. Where the wait is answered at once, the two halves return
  -- the same value and leave the thread's `events` alone. Where it pends, the tail returns the
  -- events that were asked for if the swap's return value is 0 and else 0, while the prologue,
  -- which reads back the -EAGAIN that it stored, always returns 0; both leave the requested bits in
  -- the thread's `events`. The tail reads the low 32 bits of the timeout, so a nonzero timeout has to have some
  -- set; and the simulated event has to hold the guard that the tail is built on.
  pub wait_halves :
      (w : World EventFile)
      → w.cpu_current ≡ current_thread
      → w.file.tail_event ≡ sim_guard
      → (to_u32 ticks == 0) ≡ is_zero ticks
      → Ensures
          (λ rv w'.
            (rv
              ≡ or_else
                  (answer events options ticks sim_guard)
                  (if is_zero w.sim_current_thread.swap_return_value then events else 0))
            × (w'.sim_current_thread.events
                ≡ request
                    (answer events options ticks sim_guard)
                    events
                    w.sim_current_thread.events))
          (sim_k_event_wait_internal_tail env events options ticks w)
        × Ensures
            (λ rv w'.
              (rv ≡ or_else (answer events options ticks sim_guard) 0)
              × (w'.sim_current_thread.events
                  ≡ request
                      (answer events options ticks sim_guard)
                      events
                      w.sim_current_thread.events))
            (sim_k_event_wait_internal env events options ticks w)
  unfolding sim_k_event_wait_internal_tail sim_k_event_wait_internal
  wait_halves w c g t = (ground (arith, doc.again), ground (arith, doc.again))
