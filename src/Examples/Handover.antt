-- ===== src/Examples/Handover.antt =====
-- Each theorem of the threads of src/itc at a concrete state.
use zephyr_kernel_bm_tuc_hms.Prelude.{ℕ, ◌≤◌, ◌≡◌, refl, arith, true, false, none}
use zephyr_kernel_bm_tuc_hms.Window.{IsSampled}
use zephyr_kernel_bm_tuc_hms.Itc.Handover.{up, down, series, ArmPc, threads, run}
use zephyr_kernel_bm_tuc_hms.Itc.Handover.States.{Then}
use zephyr_kernel_bm_tuc_hms.Itc.Handover.Steps.{sweep}
use zephyr_kernel_bm_tuc_hms.Itc.Self.{self_loop}
use zephyr_kernel_bm_tuc_hms.Itc.Self.Laws.{Idle, self_loop-Idle}
use zephyr_kernel_bm_tuc_hms.Itc.Msgq.Buffers.{
  msgq_buffer_offset, slice_end, slices_apart, IsSliced,
}
use zephyr_kernel_bm_tuc_hms.Itc.Outliers.{mseries_stop, mseries_stop-success}
use zephyr_kernel_bm_tuc_hms.Itc.Fifo
use zephyr_kernel_bm_tuc_hms.Itc.Fifo.{fifo_sweep}
use zephyr_kernel_bm_tuc_hms.Itc.Lifo
use zephyr_kernel_bm_tuc_hms.Itc.Lifo.{lifo_sweep}
use zephyr_kernel_bm_tuc_hms.Itc.Stack
use zephyr_kernel_bm_tuc_hms.Itc.Stack.{stack_sweep}
use zephyr_kernel_bm_tuc_hms.Itc.Msgq
use zephyr_kernel_bm_tuc_hms.Itc.Msgq.{msgq_sweep}
use zephyr_kernel_bm_tuc_hms.Examples.Counts.{
  counts, counts-KernelDoc, highest, highest-SchedulerDoc, clock, waiting, waiting-Between, quiet,
  quiet-Idle,
}

self_loop-Idle_example :
    Then (Idle counts 24 50000) (self_loop counts clock false true (λ step. step) quiet)
self_loop-Idle_example =
    self_loop-Idle counts counts-KernelDoc clock false true (λ step. step) 8 0 quiet (omega arith)
      quiet-Idle

sweep_example :
    Then
      (λ y'.
        (y'.arm ≡ ArmPc.suspended)
        × ((highest (threads counts clock Msgq.high_uses up y') ≡ none)
            × IsSampled (series up 8) 50000 y'.trace))
      (run highest (threads counts clock Msgq.high_uses up) 5400010 waiting)
sweep_example =
    sweep counts counts-KernelDoc clock Msgq.high_uses (λ _. refl) highest highest-SchedulerDoc up 8
      waiting (omega arith) waiting-Between

fifo_sweep_example :
    Then
      (λ y'.
        (y'.arm ≡ ArmPc.suspended)
        × ((highest (Fifo.threads_up counts clock y') ≡ none)
            × IsSampled (series up 8) 50000 y'.trace))
      (run highest (Fifo.threads_up counts clock) 5400010 waiting)
    × (Then
          (λ y'.
            (y'.arm ≡ ArmPc.suspended)
            × ((highest (Fifo.threads_down counts clock y') ≡ none)
                × IsSampled (series down 8) 50000 y'.trace))
          (run highest (Fifo.threads_down counts clock) 5400010 waiting)
        × Then (Idle counts 24 50000) (Fifo.t_self counts clock quiet))
fifo_sweep_example =
    fifo_sweep counts counts-KernelDoc clock highest highest-SchedulerDoc 8 waiting quiet
      (omega arith) waiting-Between quiet-Idle

lifo_sweep_example :
    Then
      (λ y'.
        (y'.arm ≡ ArmPc.suspended)
        × ((highest (Lifo.threads_up counts clock y') ≡ none)
            × IsSampled (series up 8) 50000 y'.trace))
      (run highest (Lifo.threads_up counts clock) 5400010 waiting)
    × (Then
          (λ y'.
            (y'.arm ≡ ArmPc.suspended)
            × ((highest (Lifo.threads_down counts clock y') ≡ none)
                × IsSampled (series down 8) 50000 y'.trace))
          (run highest (Lifo.threads_down counts clock) 5400010 waiting)
        × Then (Idle counts 24 50000) (Lifo.t_self counts clock quiet))
lifo_sweep_example =
    lifo_sweep counts counts-KernelDoc clock highest highest-SchedulerDoc 8 waiting quiet
      (omega arith) waiting-Between quiet-Idle

stack_sweep_example :
    Then
      (λ y'.
        (y'.arm ≡ ArmPc.suspended)
        × ((highest (Stack.threads_up counts clock y') ≡ none)
            × IsSampled (series up 8) 50000 y'.trace))
      (run highest (Stack.threads_up counts clock) 5400010 waiting)
    × (Then
          (λ y'.
            (y'.arm ≡ ArmPc.suspended)
            × ((highest (Stack.threads_down counts clock y') ≡ none)
                × IsSampled (series down 8) 50000 y'.trace))
          (run highest (Stack.threads_down counts clock) 5400010 waiting)
        × Then (Idle counts 24 50000) (Stack.t_self counts clock quiet))
stack_sweep_example =
    stack_sweep counts counts-KernelDoc clock highest highest-SchedulerDoc 8 waiting quiet
      (omega arith) waiting-Between quiet-Idle

msgq_sweep_example :
    Then
      (λ y'.
        (y'.arm ≡ ArmPc.suspended)
        × ((highest (Msgq.threads_up counts clock y') ≡ none)
            × IsSampled (series up 8) 50000 y'.trace))
      (run highest (Msgq.threads_up counts clock) 5400010 waiting)
    × (Then
          (λ y'.
            (y'.arm ≡ ArmPc.suspended)
            × ((highest (Msgq.threads_down counts clock y') ≡ none)
                × IsSampled (series down 8) 50000 y'.trace))
          (run highest (Msgq.threads_down counts clock) 5400010 waiting)
        × Then (Idle counts 24 50000) (Msgq.t_self counts clock quiet))
msgq_sweep_example =
    msgq_sweep counts counts-KernelDoc clock highest highest-SchedulerDoc 8 waiting quiet
      (omega arith) waiting-Between quiet-Idle

-- The slices of the messages of 64 and of 4 bytes.
slices_apart_example : IsSliced 4 × IsSliced 0 × (slice_end 4 ≤ msgq_buffer_offset 0)
slices_apart_example = slices_apart 4 0 (omega arith) (omega arith)

abbrev clean : ℕ → ℕ
clean = λ _. 0

clean_stops : mseries_stop clean clean clean ≡ true
unfolding mseries_stop
clean_stops = refl

mseries_stop-success_example : (clean 8 ≡ 0) × ((clean 8 ≡ 0) × (clean 8 ≡ 0))
mseries_stop-success_example =
    mseries_stop-success clean clean clean (λ _. omega arith) (λ _. omega arith) (λ _. omega arith)
      8 (omega arith) clean_stops
