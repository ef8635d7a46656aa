-- ===== src/Itc/PipeAsync/States.antt =====
-- The sweeps of the three phases of src/itc/pipe/pipe_async.c.
use zephyr_kernel_bm_tuc_hms.Prelude.{ℕ, List}
use zephyr_kernel_bm_tuc_hms.Itc.Handover.{up, down}
use zephyr_kernel_bm_tuc_hms.Scenario.Program.{Board, Call, Program}
use zephyr_kernel_bm_tuc_hms.Scenario.Rounds.{Seen, sample}
use zephyr_kernel_bm_tuc_hms.Itc.Async.{Phase, to_self, toward, phase_series}
use zephyr_kernel_bm_tuc_hms.Itc.PipeAsync.{
  t_self_round, t_self_sweep, t_arm_up, t_arm_up_round, t_arm_down, t_arm_down_round,
}

-- The program with the sweep, at its step.
abbrev pub sweeper : Phase → ℕ → ℕ → Program
sweeper to_self n step = t_self_sweep n step
sweeper (toward up) n step = t_arm_up n step
sweeper (toward down) n step = t_arm_down n step

abbrev pub round_of : Phase → ℕ → List Call
round_of to_self step = t_self_round step
round_of (toward up) step = t_arm_up_round step
round_of (toward down) step = t_arm_down_round step

abbrev pub turn : Board → Phase → ℕ → Seen → Seen
turn b ph step w = sample b (phase_series ph step) w
