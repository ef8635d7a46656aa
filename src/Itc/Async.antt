-- ===== src/Itc/Async.antt =====
-- The phases of an asynchronous test of src/itc/pipe or src/itc/mailbox: T_Self and the two directions.
use zephyr_kernel_bm_tuc_hms.Prelude.{ℕ, zero, suc, ◌<◌, ◌≡◌, arith, false, ◌==◌}
use zephyr_kernel_bm_tuc_hms.Window.{Series}
use zephyr_kernel_bm_tuc_hms.Itc.Handover.{Direction, up, down, self_send, series}
pub mod Outcome
pub mod Course

pub data Phase : Type 0 where
  to_self : Phase
  toward : Direction → Phase

abbrev pub phase_series : Phase → ℕ → Series
phase_series to_self step = self_send step
phase_series (toward d) step = series d step

pub phase_series-apart :
    (ph : Phase) (i j : ℕ)
    → i < j
    → ((phase_series ph i == phase_series ph j) ≡ false)
      × ((phase_series ph j == phase_series ph i) ≡ false)
phase_series-apart to_self i j l = (ground arith, ground arith)
phase_series-apart (toward up) i j l = (ground arith, ground arith)
phase_series-apart (toward down) i j l = (ground arith, ground arith)

-- A claim on each of the nine steps of a sweep.
pub below_nine :
    (P : ℕ → Type 0)
    → P 0
    → P 1
    → P 2
    → P 3
    → P 4
    → P 5
    → P 6
    → P 7
    → P 8
    → (step : ℕ) → step < 9
    → P step
below_nine P a b c d e f g h i zero l = a
below_nine P a b c d e f g h i (suc zero) l = b
below_nine P a b c d e f g h i (suc (suc zero)) l = c
below_nine P a b c d e f g h i (suc (suc (suc zero))) l = d
below_nine P a b c d e f g h i (suc (suc (suc (suc zero)))) l = e
below_nine P a b c d e f g h i (suc (suc (suc (suc (suc zero))))) l = f
below_nine P a b c d e f g h i (suc (suc (suc (suc (suc (suc zero)))))) l = g
below_nine P a b c d e f g h i (suc (suc (suc (suc (suc (suc (suc zero))))))) l = h
below_nine P a b c d e f g h i (suc (suc (suc (suc (suc (suc (suc (suc zero)))))))) l = i
below_nine P a b c d e f g h i (suc (suc (suc (suc (suc (suc (suc (suc (suc n))))))))) l =
    absurd (omega arith)

pub none_or_more : (P : ℕ → Type 0) → P zero → ((n : ℕ) → P (suc n)) → (n : ℕ) → P n
none_or_more P a b zero = a
none_or_more P a b (suc n) = b n
