-- ===== src/Sim/Sem.antt =====
-- What sem_block/zephyr_sim.c and sem_preempt/zephyr_sim.c share: their statics.
use zephyr_kernel_bm_tuc_hms.Prelude.{ℕ, ℤ}
use zephyr_kernel_bm_tuc_hms.Sim.Machine.{Sem, M, modify}

-- `sim_sink` is a field of `World`.
pub record SemFile : Type 0 where
  pub tail_sem : Sem
  pub sim_take_ticks : ℤ
  pub sim_take_sink : ℕ

abbrev pub set_sem : Sem → M SemFile (Unit {0})
set_sem s = modify (λ w. record w { file = record (w.file) { tail_sem = s } })

abbrev pub set_take_sink : ℕ → M SemFile (Unit {0})
set_take_sink v = modify (λ w. record w { file = record (w.file) { sim_take_sink = v } })

abbrev pub set_take_ticks : ℤ → M SemFile (Unit {0})
set_take_ticks t = modify (λ w. record w { file = record (w.file) { sim_take_ticks = t } })
