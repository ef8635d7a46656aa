-- ===== src/Sim/Event/Laws.antt =====
-- One round of each probe of the simulated k_event_wait_safe() (event_block/zephyr_sim.c,
-- event_preempt/zephyr_sim.c).
use zephyr_kernel_bm_tuc_hms.Prelude.{ℕ, suc, ◌+◌, ◌≡◌, ◌≢◌, arith, pos, bit_and}
use zephyr_kernel_bm_tuc_hms.Window.{phase, samples}
use zephyr_kernel_bm_tuc_hms.Sim.Machine.{Env, KernelDoc, World, Ensures, marks}
use zephyr_kernel_bm_tuc_hms.Sim.Probe.{Ready, after}
use zephyr_kernel_bm_tuc_hms.Sim.Event.{
  EventFile, WaitPart, wait_tail, wait_prologue, sim_wait_request, measure_wait_tail,
  measure_wait_prologue,
}

-- What the wait returns in each half: the requested bits, or 0.
abbrev pub waited : WaitPart → ℕ
waited wait_tail = sim_wait_request
waited wait_prologue = 0

-- A round of the wait tail: the wait pends, finds 0 as the swap's return value, and the sink gets
-- the thread's events, which are the bits that were asked for.
pub record TailReady (s k r m old i : ℕ) (w : World EventFile) : Type 0 where
  pub ready : Ready s (k + i) r m w
  pub swapped : w.sim_current_thread.swap_return_value ≡ pos 0
  pub sunk : w.file.sim_wait_sink ≡ after i old sim_wait_request

pub record PrologueReady (s k r m old i : ℕ) (w : World EventFile) : Type 0 where
  pub ready : Ready s (k + i) r m w
  pub disjoint : bit_and w.file.tail_event sim_wait_request ≡ 0
  pub sunk : w.file.sim_wait_sink ≡ after i old 0

module _ (env : Env) (doc : KernelDoc env) (s k r m : ℕ) (apart : r ≢ s) where
  pub measure_wait_tail-TailReady :
      (old i : ℕ) (w : World EventFile)
      → TailReady s k r m old i w
      → Ensures
          (λ _ w'. TailReady s k r m old (suc i) w')
          (measure_wait_tail env s env.ticks_forever w)
  unfolding measure_wait_tail phase samples marks
  measure_wait_tail-TailReady old i w h = ground (arith, doc.forever)

  pub measure_wait_prologue-PrologueReady :
      (old i : ℕ) (w : World EventFile)
      → PrologueReady s k r m old i w
      → Ensures
          (λ _ w'. PrologueReady s k r m old (suc i) w')
          (measure_wait_prologue env s env.ticks_forever w)
  unfolding measure_wait_prologue phase samples marks
  measure_wait_prologue-PrologueReady old i w h = ground (arith, doc.forever, doc.again)
