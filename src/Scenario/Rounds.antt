-- ===== src/Scenario/Rounds.antt =====
-- What a round of a scenario leaves, and what many do.
use zephyr_kernel_bm_tuc_hms.Prelude.{
  ℕ, zero, suc, ◌+◌, ◌≡◌, refl, arith, false, List, ◌∷◌, ◌==◌, if◌then◌else◌,
}
use zephyr_kernel_bm_tuc_hms.Window.{Mark, Series}
use zephyr_kernel_bm_tuc_hms.Scenario.Kernel.{Mail}
use zephyr_kernel_bm_tuc_hms.Scenario.Program.{Board, Program}
use zephyr_kernel_bm_tuc_hms.Scenario.Run.{iterate}
use zephyr_kernel_bm_tuc_hms.Scenario.Tally.{
  timed, stray, timed-window, stray-window, timed-window_other, stray-window_other,
}

-- The parts of a system that a round changes: the captures, the signals of jitter, what is in
-- the kernel's objects, the sizes in the statics and the marks.
pub record Seen : Type 0 where
  pub last_start : ℕ
  pub last_stop : ℕ
  pub last_rendezvous : ℕ
  pub outlier_count : ℕ
  pub functions : ℕ → Program
  pub jitters : ℕ
  pub count : ℕ
  pub mail : Mail
  pub message_size : ℕ
  pub tx_size : ℕ
  pub rx_size : ℕ
  pub trace : List Mark

abbrev start_of : Board → Series → Seen → ℕ
start_of b s w = b.counter (Mark.reset ∷ Mark.opened s ∷ w.trace)

abbrev stop_of : Board → Series → Seen → ℕ
stop_of b s w = b.counter (Mark.start (start_of b s w) ∷ Mark.reset ∷ Mark.opened s ∷ w.trace)

-- A round that takes one sample of series `s`.
abbrev pub sample : Board → Series → Seen → Seen
sample b s w =
    let ms = Mark.reset ∷ Mark.opened s ∷ w.trace in
    let a = b.counter ms in
    let ns = Mark.start a ∷ ms in
    let z = b.counter ns in
    record w {
      last_start = a;
      last_stop = z;
      trace = Mark.closed s ∷ Mark.fed s a z ∷ Mark.stop z ∷ ns;
    }

-- The same, with BMTH_signalize_jitter_detected() where the iteration reports jitter.
abbrev pub sample_or_signal : Board → Series → Seen → Seen
sample_or_signal b s w =
    let ms = Mark.reset ∷ Mark.opened s ∷ w.trace in
    let a = b.counter ms in
    let ns = Mark.start a ∷ ms in
    let z = b.counter ns in
    let fs = Mark.fed s a z ∷ Mark.stop z ∷ ns in
    record w {
      last_start = a;
      last_stop = z;
      jitters = if b.jitter fs then suc w.jitters else w.jitters;
      trace = Mark.closed s ∷ fs;
    }

module _ (b : Board) (s : Series) (turn : Seen → Seen)
    (same : (w : Seen) → (turn w).trace ≡ (sample b s w).trace) where
  -- `n` rounds take `n` samples.
  pub timed-rounds : (n : ℕ) (w : Seen) → timed s (iterate turn n w).trace ≡ n + timed s w.trace
  timed-rounds zero w = omega arith
  timed-rounds (suc n) w = ground (
    arith,
    timed-rounds n (turn w),
    same w,
    timed-window s (start_of b s w) (stop_of b s w) w.trace,
  )

  pub stray-rounds : (n : ℕ) (w : Seen) → stray s (iterate turn n w).trace ≡ stray s w.trace
  stray-rounds zero w = refl
  stray-rounds (suc n) w = ground (
    arith,
    stray-rounds n (turn w),
    same w,
    stray-window s (start_of b s w) (stop_of b s w) w.trace,
  )

  -- And none of another series.
  pub timed-rounds_other :
      (r : Series)
      → (r == s) ≡ false
      → (s == r) ≡ false
      → (n : ℕ) (w : Seen) → timed r (iterate turn n w).trace ≡ timed r w.trace
  timed-rounds_other r d e zero w = refl
  timed-rounds_other r d e (suc n) w = ground (
    arith,
    timed-rounds_other r d e n (turn w),
    same w,
    timed-window_other r s (start_of b s w) (stop_of b s w) w.trace d e,
  )

  pub stray-rounds_other :
      (r : Series)
      → (r == s) ≡ false
      → (s == r) ≡ false
      → (n : ℕ) (w : Seen) → stray r (iterate turn n w).trace ≡ stray r w.trace
  stray-rounds_other r d e zero w = refl
  stray-rounds_other r d e (suc n) w = ground (
    arith,
    stray-rounds_other r d e n (turn w),
    same w,
    stray-window_other r s (start_of b s w) (stop_of b s w) w.trace d e,
  )
