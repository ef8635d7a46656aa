-- ===== src/Scenario/Kernel/RingLess.antt =====
-- The transfer through a pipe that has no ring buffer, between one writer and one reader.
use zephyr_kernel_bm_tuc_hms.Prelude.{ℕ, ◌-◌, ◌==◌, ltb, min, Option, none, some, if◌then◌else◌}

-- What the writer has yet to hand over, what the waiting reader asks for, and what the reader was
-- given, in bytes.
pub record Transfer : Type 0 where
  pub offered : ℕ
  pub wanted : ℕ
  pub received : ℕ

abbrev pub no_transfer : Transfer
no_transfer = record { offered = 0; wanted = 0; received = 0 }

-- Where both are there, what fits is copied, and the reader waits no more.
abbrev settle : Transfer → Transfer
settle t = if min t.offered t.wanted == 0 then t else record {
  offered = t.offered - min t.offered t.wanted;
  wanted = 0;
  received = min t.offered t.wanted;
}

abbrev pub offer : ℕ → Transfer → Transfer
offer n t = settle (record t { offered = n })

abbrev pub ask : ℕ → Transfer → Transfer
ask n t = settle (record t { wanted = n })

-- The writer returns when all is handed over, the reader when it was given something.
abbrev pub hand_over_done : Transfer → Option Transfer
hand_over_done t = if t.offered == 0 then some t else none

abbrev pub take_received : Transfer → Option Transfer
take_received t = if ltb 0 t.received then some (record t { received = 0 }) else none
