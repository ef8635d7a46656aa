-- ===== src/Scenario/Kernel/Line.antt =====
-- An interrupt line.
use zephyr_kernel_bm_tuc_hms.Prelude.{Bool, false, ◌&&◌, Option, none, some, if◌then◌else◌}

pub record IrqLine : Type 0 where
  pub enabled : Bool
  pub pending : Bool

abbrev pub idle_line : IrqLine
idle_line = record { enabled = false; pending = false }

-- The handler is entered where the line is enabled and pends, which ends the pending.
abbrev pub enter_handler : IrqLine → Option IrqLine
enter_handler l = if l.enabled && l.pending then some (record l { pending = false }) else none
