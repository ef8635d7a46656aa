-- ===== src/Itc/Async/Outcome.antt =====
-- What the three sweeps of an asynchronous test of src/itc/pipe or src/itc/mailbox leave together.
use zephyr_kernel_bm_tuc_hms.Prelude.{
  ℕ, zero, suc, ◌+◌, ◌<◌, ◌≡◌, refl, ap, ◌∙◌, arith, Bool, true, false, not, List, Option, some,
  ◌==◌, if◌then◌else◌,
}
use zephyr_kernel_bm_tuc_hms.Window.{Mark, Series}
use zephyr_kernel_bm_tuc_hms.Itc.Handover.{up, down, self_send, series}
use zephyr_kernel_bm_tuc_hms.Itc.Outliers.{outlier_count, mseries_stop}
use zephyr_kernel_bm_tuc_hms.Scenario.Program.{Call, Program, ◌⨾◌, Board}
use zephyr_kernel_bm_tuc_hms.Scenario.Rounds.{Seen, sample}
use zephyr_kernel_bm_tuc_hms.Scenario.Tally.{timed, stray, timed-window_other, stray-window_other}
use zephyr_kernel_bm_tuc_hms.Scenario.Sweep.{swept, timed-swept, stray-swept}
use zephyr_kernel_bm_tuc_hms.Scenario.Measured.{measure-swept_idle}
use zephyr_kernel_bm_tuc_hms.Itc.Async.{Phase, to_self, toward, phase_series, phase_series-apart}

-- The loop of I_Task that adds up the outliers, `n` steps from `step` on.
abbrev pub add_all_outliers : ℕ → ℕ → Program → Program
add_all_outliers zero step rest = rest
add_all_outliers (suc n) step rest =
    Call.add_outliers (self_send step)
    ⨾ Call.add_outliers (series up step)
    ⨾ Call.add_outliers (series down step)
    ⨾ add_all_outliers n (suc step) rest

-- outlier_count after it, and what is then signalled.
abbrev pub all_outliers : Board → List Mark → ℕ
all_outliers b ms =
    outlier_count (λ n. b.outliers (self_send n) ms) (λ n. b.outliers (series up n) ms)
      (λ n. b.outliers (series down n) ms) 9

abbrev pub async_verdict : Board → List Mark → Option Bool
async_verdict b ms = if not (all_outliers b ms == 0) then some false else some true

-- I_Task has signalled what the sum of all outliers says, and every series of every step has 50,000 timed
-- samples more than before, and no more stray ones.
pub record AsyncCompleted (b : Board) (before : List Mark) (signalled : Option Bool)
    (ms : List Mark) : Type 0 where
  pub last_signal :
      signalled
      ≡ some (
          mseries_stop
            (λ n. b.outliers (self_send n) ms)
            (λ n. b.outliers (series up n) ms)
            (λ n. b.outliers (series down n) ms))
  pub every_timed :
      (ph : Phase) (step : ℕ)
      → step < 9
      → timed (phase_series ph step) ms ≡ 50000 + timed (phase_series ph step) before
  pub no_stray :
      (ph : Phase) (step : ℕ)
      → stray (phase_series ph step) ms ≡ stray (phase_series ph step) before

pub async_verdict-mseries_stop :
    (b : Board) (ms : List Mark)
    → async_verdict b ms
      ≡ some (
          mseries_stop
            (λ n. b.outliers (self_send n) ms)
            (λ n. b.outliers (series up n) ms)
            (λ n. b.outliers (series down n) ms))
unfolding mseries_stop
async_verdict-mseries_stop b ms = ground arith

-- How many samples a sweep of the one phase gives each series of the other.
abbrev pub gained : Phase → Phase → ℕ
gained to_self to_self = 50000
gained (toward up) (toward up) = 50000
gained (toward down) (toward down) = 50000
gained to_self (toward d) = 0
gained (toward d) to_self = 0
gained (toward up) (toward down) = 0
gained (toward down) (toward up) = 0

module _ (b : Board) (ph : Phase) (turn : ℕ → Seen → Seen)
    (same : (i : ℕ) (w : Seen) → (turn i w).trace ≡ (sample b (phase_series ph i) w).trace) where
  timed-foreign :
      (s : Series)
      → ((i : ℕ) → ((s == phase_series ph i) ≡ false) × ((phase_series ph i == s) ≡ false))
      → (w : Seen) → timed s (swept turn 9 0 w).trace ≡ 0 + timed s w.trace
  timed-foreign s apart w =
      let e : 0 + timed s w.trace ≡ timed s w.trace = omega arith in
      rw e (
        measure-swept_idle (timed s) turn
          (λ i v.
            ap (timed s) (same i v)
            ∙ timed-window_other s (phase_series ph i) _ _ v.trace (apart i).0 (apart i).1)
          9 0 w)

  stray-foreign :
      (s : Series)
      → ((i : ℕ) → ((s == phase_series ph i) ≡ false) × ((phase_series ph i == s) ≡ false))
      → (w : Seen) → stray s (swept turn 9 0 w).trace ≡ stray s w.trace
  stray-foreign s apart w =
      measure-swept_idle (stray s) turn
        (λ i v.
          ap (stray s) (same i v)
          ∙ stray-window_other s (phase_series ph i) _ _ v.trace (apart i).0 (apart i).1)
        9 0 w

phases_apart :
    (d e : Phase) (i j : ℕ)
    → gained d e ≡ 0
    → ((phase_series d j == phase_series e i) ≡ false)
      × ((phase_series e i == phase_series d j) ≡ false)
phases_apart to_self to_self i j h = absurd (omega (arith, h))
phases_apart (toward up) (toward up) i j h = absurd (omega (arith, h))
phases_apart (toward down) (toward down) i j h = absurd (omega (arith, h))
phases_apart to_self (toward up) i j h = (ground arith, ground arith)
phases_apart to_self (toward down) i j h = (ground arith, ground arith)
phases_apart (toward up) to_self i j h = (ground arith, ground arith)
phases_apart (toward down) to_self i j h = (ground arith, ground arith)
phases_apart (toward up) (toward down) i j h = (ground arith, ground arith)
phases_apart (toward down) (toward up) i j h = (ground arith, ground arith)

module _ (b : Board) (turn : Phase → ℕ → Seen → Seen)
    (same : (ph : Phase) (i : ℕ) (w : Seen)
      → (turn ph i w).trace ≡ (sample b (phase_series ph i) w).trace) where
  own :
      (ph : Phase) (j : ℕ) (w : Seen)
      → j < 9
      → timed (phase_series ph j) (swept (turn ph) 9 0 w).trace
        ≡ 50000 + timed (phase_series ph j) w.trace
  own ph j w l =
      timed-swept b (phase_series ph) (turn ph) (phase_series-apart ph) (same ph) 9 0 j w
        (omega arith) l

  foreign :
      (d e : Phase) (j : ℕ) (w : Seen)
      → gained d e ≡ 0
      → timed (phase_series d j) (swept (turn e) 9 0 w).trace ≡ 0 + timed (phase_series d j) w.trace
  foreign d e j w h =
      timed-foreign b e (turn e) (same e) (phase_series d j) (λ i. phases_apart d e i j h) w

  -- What a sweep adds to a series of any phase.
  pub timed-gained :
      (d e : Phase) (j : ℕ) (w : Seen)
      → j < 9
      → timed (phase_series d j) (swept (turn e) 9 0 w).trace
        ≡ gained d e + timed (phase_series d j) w.trace
  timed-gained to_self to_self j w l = own to_self j w l
  timed-gained (toward up) (toward up) j w l = own (toward up) j w l
  timed-gained (toward down) (toward down) j w l = own (toward down) j w l
  timed-gained to_self (toward d) j w l = foreign to_self (toward d) j w refl
  timed-gained (toward d) to_self j w l = foreign (toward d) to_self j w refl
  timed-gained (toward up) (toward down) j w l = foreign (toward up) (toward down) j w refl
  timed-gained (toward down) (toward up) j w l = foreign (toward down) (toward up) j w refl

  stray_own :
      (ph : Phase) (j : ℕ) (w : Seen)
      → stray (phase_series ph j) (swept (turn ph) 9 0 w).trace ≡ stray (phase_series ph j) w.trace
  stray_own ph j w =
      stray-swept b (phase_series ph) (turn ph) (phase_series-apart ph) (same ph) 9 0 j w

  stray_foreign :
      (d e : Phase) (j : ℕ) (w : Seen)
      → gained d e ≡ 0
      → stray (phase_series d j) (swept (turn e) 9 0 w).trace ≡ stray (phase_series d j) w.trace
  stray_foreign d e j w h =
      stray-foreign b e (turn e) (same e) (phase_series d j) (λ i. phases_apart d e i j h) w

  pub stray-gained :
      (d e : Phase) (j : ℕ) (w : Seen)
      → stray (phase_series d j) (swept (turn e) 9 0 w).trace ≡ stray (phase_series d j) w.trace
  stray-gained to_self to_self j w = stray_own to_self j w
  stray-gained (toward up) (toward up) j w = stray_own (toward up) j w
  stray-gained (toward down) (toward down) j w = stray_own (toward down) j w
  stray-gained to_self (toward d) j w = stray_foreign to_self (toward d) j w refl
  stray-gained (toward d) to_self j w = stray_foreign (toward d) to_self j w refl
  stray-gained (toward up) (toward down) j w = stray_foreign (toward up) (toward down) j w refl
  stray-gained (toward down) (toward up) j w = stray_foreign (toward down) (toward up) j w refl
