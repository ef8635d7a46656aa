-- ===== src/Sim/Event.antt =====
-- The wait chain that event_block/zephyr_sim.c and event_preempt/zephyr_sim.c share word for word,
-- but for a filler instruction: k_event_wait_safe() in two halves, and the probes of each half.
pub mod Laws
pub mod Halves
use zephyr_kernel_bm_tuc_hms.Prelude.{
  ℕ, Bool, false, not, ◌&&◌, ◌%◌, ◌==◌, if◌then◌else◌, ℤ, is_zero, to_u32, bit_and,
}
use zephyr_kernel_bm_tuc_hms.Window.{Series}
use zephyr_kernel_bm_tuc_hms.Sim.Machine.{
  current_thread, event_lock, Env, M, ◌>>=◌, ◌>>◌, pure, gets, modify, load_thread, store_thread,
}
use zephyr_kernel_bm_tuc_hms.Sim.Calls.{
  mwindow_open, reset_cntr, irq_unlock, get_start_cnt, get_stop_cnt, irq_lock,
}
use zephyr_kernel_bm_tuc_hms.Sim.Kernel.{
  event_queue, sim_z_pend_curr_prologue, sim_z_pend_curr_tail,
}
use zephyr_kernel_bm_tuc_hms.Sim.Probe.{feed_and_close}

-- The statics of the two files; `sim_sink` is a field of `World`. Those that keep their
-- initialisers are constants below.
pub record EventFile : Type 0 where
  pub tail_event : ℕ  -- tail_event.events
  pub sim_wait_sink : ℕ

abbrev pub sim_guard : ℕ
sim_guard = 0x20

abbrev pub sim_wait_request : ℕ
sim_wait_request = 0x1

-- `sim_wait_part_t`
pub data WaitPart : Type 0 where
  wait_tail : WaitPart
  wait_prologue : WaitPart

set_wait_sink : ℕ → M EventFile (Unit {0})
set_wait_sink v = modify (λ w. record w { file = record (w.file) { sim_wait_sink = v } })

unfoldable pub sim_are_wait_conditions_met : ℕ → ℕ → ℕ → ℕ
sim_are_wait_conditions_met desired current wait_condition =
    let match = bit_and current desired in
    if (wait_condition == 1) && not (match == desired) then 0 else match

module _ (env : Env) where
  -- The first argument is not used. The timeout is its `ticks`; data[2] holds their low 32 bits.
  unfoldable pub sim_k_event_wait_internal_tail : (events options : ℕ) → (ticks : ℤ) → M EventFile ℕ
  unfolding sim_are_wait_conditions_met sim_z_pend_curr_tail
  sim_k_event_wait_internal_tail events options ticks =
      let rv = sim_are_wait_conditions_met events sim_guard (options % 2) in
      if events == 0
      then pure 0
      else if not (rv == 0)
      then pure rv
      else if to_u32 ticks == 0
      then (do reset_cntr; get_start_cnt env; irq_unlock 0; pure rv)
      else do
        store_thread current_thread (λ t. record t { events = events })
        store_thread current_thread (λ t. record t { event_options = options })
        swapped ← sim_z_pend_curr_tail env options
        if is_zero swapped then (do t ← load_thread current_thread; pure t.events) else pure rv

  -- The event is `tail_event`, the only one that is passed.
  unfoldable pub sim_k_event_wait_internal : (events options : ℕ) → (ticks : ℤ) → M EventFile ℕ
  unfolding sim_are_wait_conditions_met sim_z_pend_curr_prologue
  sim_k_event_wait_internal events options ticks = if events == 0 then pure 0 else do
    key ← irq_lock env
    current ← gets (λ w. w.file.tail_event)
    let rv = sim_are_wait_conditions_met events current (options % 2)
    if not (rv == 0) then pure rv else if is_zero ticks then (do irq_unlock 0; pure rv) else do
      reset_cntr
      get_start_cnt env
      store_thread current_thread (λ t. record t { events = events; event_options = options })
      swapped ← sim_z_pend_curr_prologue env event_lock key event_queue ticks
      if is_zero swapped then (do t ← load_thread current_thread; pure t.events) else pure rv

  unfoldable pub sim_z_impl_k_event_wait_safe_tail : ℕ → Bool → ℤ → M EventFile ℕ
  unfolding sim_k_event_wait_internal_tail
  sim_z_impl_k_event_wait_safe_tail events reset ticks =
      let options : ℕ = if reset then 0x06 else 0x04 in
      sim_k_event_wait_internal_tail events options ticks

  unfoldable pub sim_z_impl_k_event_wait_safe : ℕ → Bool → ℤ → M EventFile ℕ
  unfolding sim_k_event_wait_internal
  sim_z_impl_k_event_wait_safe events reset ticks =
      let options : ℕ = if reset then 0x06 else 0x04 in
      sim_k_event_wait_internal events options ticks

  unfoldable pub measure_wait_tail : Series → ℤ → M EventFile (Unit {0})
  unfolding sim_z_impl_k_event_wait_safe_tail set_wait_sink
  measure_wait_tail mseries timeout = do
    mwindow_open mseries
    reset_cntr
    rv ← sim_z_impl_k_event_wait_safe_tail sim_wait_request false timeout
    get_stop_cnt env
    set_wait_sink rv
    feed_and_close env mseries

  unfoldable pub measure_wait_prologue : Series → ℤ → M EventFile (Unit {0})
  unfolding sim_z_impl_k_event_wait_safe set_wait_sink
  measure_wait_prologue mseries timeout = do
    mwindow_open mseries
    reset_cntr
    rv ← sim_z_impl_k_event_wait_safe sim_wait_request false timeout
    set_wait_sink rv
    feed_and_close env mseries
