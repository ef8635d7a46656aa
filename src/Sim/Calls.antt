-- ===== src/Sim/Calls.antt =====
-- The calls of the simulation that leave src/: the harness, the spinlocks, the processor. Each is
-- recorded in the trace, and takes what it returns from the `Env`.
use zephyr_kernel_bm_tuc_hms.Prelude.{ℕ, ◌∷◌, Bool, some}
use zephyr_kernel_bm_tuc_hms.Window.{Mark, Series}
use zephyr_kernel_bm_tuc_hms.Sim.Machine.{Lock, ReadWindow, Action, Env, M, act, gets}

module _ {F : Type 0} where
  abbrev pub mwindow_open : Series → M F (Unit {0})
  mwindow_open s = act (Action.mark (Mark.opened s))

  abbrev pub mwindow_close : Series → M F (Unit {0})
  mwindow_close s = act (Action.mark (Mark.closed s))

  -- BMTH_RESET_CNTR and BMTH_RESET_COUNTER
  abbrev pub reset_cntr : M F (Unit {0})
  reset_cntr = act (Action.mark Mark.reset)

  abbrev pub mseries_initialize : Series → ReadWindow → M F (Unit {0})
  mseries_initialize s r = act (Action.mseries_initialize s r)

  abbrev pub signalize_jitter_detected : M F (Unit {0})
  signalize_jitter_detected = act Action.signalize_jitter

  abbrev pub spin_unlock : Lock → ℕ → M F (Unit {0})
  spin_unlock l key = act (Action.spin_unlock l key)

  abbrev pub spin_release : Lock → M F (Unit {0})
  spin_release l = act (Action.spin_release l)

  abbrev pub irq_unlock : ℕ → M F (Unit {0})
  irq_unlock key = act (Action.irq_unlock key)

  abbrev pub set_basepri : ℕ → M F (Unit {0})
  set_basepri key = act (Action.set_basepri key)

  -- SIM_INSTRUCTION_FLUSH()
  abbrev pub instruction_flush : M F (Unit {0})
  instruction_flush = act Action.isb

module _ (env : Env) {F : Type 0} where
  -- BMTH_GET_START_CNT(sim_test_start_time)
  abbrev pub get_start_cnt : M F (Unit {0})
  get_start_cnt w =
      let v = env.counter w.trace in
      some (tt, record w { sim_test_start_time = v; trace = Action.mark (Mark.start v) ∷ w.trace })

  -- BMTH_GET_STOP_CNT(sim_test_stop_time)
  abbrev pub get_stop_cnt : M F (Unit {0})
  get_stop_cnt w =
      let v = env.counter w.trace in
      some (tt, record w { sim_test_stop_time = v; trace = Action.mark (Mark.stop v) ∷ w.trace })

  -- `BMTH_mseries_iterate(s, ...)`, and whether it reports jitter
  abbrev pub mseries_iterate : Series → ℕ → ℕ → M F Bool
  mseries_iterate s a b w =
      some (env.jitter w.trace, record w { trace = Action.mark (Mark.fed s a b) ∷ w.trace })

  abbrev pub spin_lock : Lock → M F ℕ
  spin_lock l w =
      let key = env.lock_key w.trace in
      some (key, record w { trace = Action.spin_lock l key ∷ w.trace })

  abbrev pub irq_lock : M F ℕ
  irq_lock w =
      let key = env.lock_key w.trace in
      some (key, record w { trace = Action.irq_lock key ∷ w.trace })

  abbrev pub get_ipsr : M F ℕ
  get_ipsr = gets (λ w. env.ipsr w.trace)

  -- `SCB->ICSR |= 0UL << SCB_ICSR_PENDSVSET_Pos`: the register is written with what it holds.
  abbrev pub rewrite_icsr : M F (Unit {0})
  rewrite_icsr w = some (tt, record w { trace = Action.set_icsr (env.icsr w.trace) ∷ w.trace })
