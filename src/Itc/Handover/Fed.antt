-- ===== src/Itc/Handover/Fed.antt =====
-- The samples that the releaser of src/itc has fed to a series, counted over the steps.
use zephyr_kernel_bm_tuc_hms.Prelude.{ℕ, zero, suc, ◌<◌, ◌≡◌, arith, inl, inr, lt_split}
use zephyr_kernel_bm_tuc_hms.Window.{Series}
use zephyr_kernel_bm_tuc_hms.Itc.Handover.{measurement_count, Direction, up, down, series}
use zephyr_kernel_bm_tuc_hms.Itc.Handover.Sweep.{fed_so_far}

-- The samples that a series has had when a step begins.
unfoldable pub fed_before : Direction → ℕ → Series → ℕ
unfolding fed_so_far
fed_before d zero s = 0
fed_before d (suc step) s = fed_so_far d step measurement_count s

pub fed_so_far-zero :
    (d : Direction) (step : ℕ) (s : Series) → fed_so_far d step 0 s ≡ fed_before d step s
unfolding fed_so_far fed_before
fed_so_far-zero d zero s = ground arith
fed_so_far-zero d (suc step) s = ground arith

pub fed_so_far-later :
    (d : Direction) (step i j : ℕ) → step < j → fed_so_far d step i (series d j) ≡ 0
unfolding fed_so_far
fed_so_far-later up zero i j h = ground arith
fed_so_far-later down zero i j h = ground arith
fed_so_far-later up (suc step) i j h =
    ground (arith, fed_so_far-later up step measurement_count j (omega arith))
fed_so_far-later down (suc step) i j h =
    ground (arith, fed_so_far-later down step measurement_count j (omega arith))

pub fed_so_far-done :
    (d : Direction) (step j : ℕ)
    → j < suc step
    → fed_so_far d step measurement_count (series d j) ≡ measurement_count
unfolding fed_so_far
fed_so_far-done up zero j h = ground arith
fed_so_far-done down zero j h = ground arith
fed_so_far-done up (suc step) j h = elim (lt_split j (suc step) h) [
  | inl l ↦ ground (arith, fed_so_far-done up step j l)
  | inr e ↦ ground (arith, fed_so_far-later up step measurement_count j (omega arith))
]
fed_so_far-done down (suc step) j h = elim (lt_split j (suc step) h) [
  | inl l ↦ ground (arith, fed_so_far-done down step j l)
  | inr e ↦ ground (arith, fed_so_far-later down step measurement_count j (omega arith))
]
