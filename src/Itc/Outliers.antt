-- ===== src/Itc/Outliers.antt =====
-- The end of I_Task in src/itc: the outliers of all series are added up, and the outcome signalled.
use zephyr_kernel_bm_tuc_hms.Prelude.{
  ℕ, zero, suc, ◌+◌, ◌*◌, ◌%◌, ◌^◌, ◌<◌, ◌≤◌, ◌≡◌, inl, inr, refl, arith, Bool, true, false, ◌==◌,
  if◌then◌else◌, lt_split,
}
use zephyr_kernel_bm_tuc_hms.Itc.Handover.{measurement_count, message_size_steps}

-- `values_outlier_count` of self_send[step], send_to_higher_prio[step], send_to_lower_prio[step].
module _ (self high low : ℕ → ℕ) where
  -- `outlier_count`, a `uint32_t`, after the first `n` steps of the loop.
  unfoldable pub outlier_count : ℕ → ℕ
  outlier_count zero = 0
  outlier_count (suc n) =
      let before = outlier_count n in
      (((before + self n) % 2 ^ 32 + high n) % 2 ^ 32 + low n) % 2 ^ 32

  -- What I_Task passes to BMTH_signalize_mseries_stop().
  unfoldable pub mseries_stop : Bool
  unfolding outlier_count
  mseries_stop = if outlier_count message_size_steps == 0 then true else false

  outlier_count-clean :
      ((n : ℕ) → (self n ≡ 0) × ((high n ≡ 0) × (low n ≡ 0))) → (n : ℕ) → outlier_count n ≡ 0
  unfolding outlier_count
  outlier_count-clean h zero = refl
  outlier_count-clean h (suc n) = ground (arith, outlier_count-clean h n, h n)

  -- Where no series of any step has an outlier, a success is signalled.
  pub mseries_stop-clean :
      ((n : ℕ) → (self n ≡ 0) × ((high n ≡ 0) × (low n ≡ 0))) → mseries_stop ≡ true
  unfolding mseries_stop
  mseries_stop-clean h = ground (arith, outlier_count-clean h message_size_steps)

  module _ (self_fits : (n : ℕ) → self n ≤ measurement_count)
      (high_fits : (n : ℕ) → high n ≤ measurement_count)
      (low_fits : (n : ℕ) → low n ≤ measurement_count) where
    outlier_count-le : (n : ℕ) → n ≤ message_size_steps → outlier_count n ≤ 150000 * n
    unfolding outlier_count
    outlier_count-le zero l = omega arith
    outlier_count-le (suc n) l =
        omega (arith, outlier_count-le n (omega arith), self_fits n, high_fits n, low_fits n)

    -- A sum that stays below 2 ^ 32 is 0 only if everything added is.
    all_zero :
        (n : ℕ)
        → outlier_count (suc n) ≡ 0
        → outlier_count n ≤ 150000 * n
        → suc n ≤ message_size_steps
        → (self n ≡ 0) × ((high n ≡ 0) × (low n ≡ 0))
    unfolding outlier_count
    all_zero n z below l = (
      omega (arith, below, self_fits n, high_fits n, low_fits n),
      (
        omega (arith, below, self_fits n, high_fits n, low_fits n),
        omega (arith, below, self_fits n, high_fits n, low_fits n),
      ),
    )

    outlier_count-zero :
        (n step : ℕ)
        → n ≤ message_size_steps
        → outlier_count n ≡ 0
        → step < n
        → (self step ≡ 0) × ((high step ≡ 0) × (low step ≡ 0))
    unfolding outlier_count
    outlier_count-zero zero step l z s = ground arith
    outlier_count-zero (suc n) step l z s =
        let below : outlier_count n ≤ 150000 * n = outlier_count-le n (omega arith) in
        elim (lt_split step n s) [
          | inl m ↦
              outlier_count-zero n step (omega arith)
                (omega (arith, below, self_fits n, high_fits n, low_fits n)) m
          | inr e ↦ rw e (all_zero n z below l)
        ]

    zero_of : mseries_stop ≡ true → outlier_count message_size_steps ≡ 0
    unfolding mseries_stop
    zero_of h = ground arith

    -- If no series can have more outliers than samples, a success is signalled only where no series
    -- of any step has an outlier: the sum does not wrap.
    pub mseries_stop-success :
        (step : ℕ)
        → step < message_size_steps
        → mseries_stop ≡ true
        → (self step ≡ 0) × ((high step ≡ 0) × (low step ≡ 0))
    unfolding mseries_stop
    mseries_stop-success step l h =
        outlier_count-zero message_size_steps step (omega arith) (zero_of h) l
