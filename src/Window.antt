-- ===== src/Window.antt =====
-- The measurement windows of the benchmark harness, as the tests under src/ use them: a window of a
-- series is opened, the cycle counter is reset and captured twice, the pair of captures is fed to
-- the series (`BMTH_mseries_iterate`) and the window is closed. The harness itself is a submodule
-- and is not modelled; what the tests do to it is recorded as a list of marks.
use zephyr_kernel_bm_tuc_hms.Prelude.{
  ℕ, ◌+◌, ◌≡◌, Bool, true, ◌&&◌, List, [], ◌∷◌, ◌==◌, if◌then◌else◌,
}

-- A `BMTH_measurement_series_t *`, by an identifying number.
abbrev pub Series : Type 0
Series = ℕ

-- What one call does to the harness: `BMTH_mwindow_open`, `BMTH_RESET_CNTR` or
-- `BMTH_RESET_COUNTER`, `BMTH_GET_START_CNT` and `BMTH_GET_STOP_CNT` with the value captured,
-- `BMTH_mseries_iterate` with the two values passed, `BMTH_mwindow_close`.
pub data Mark : Type 0 where
  opened : Series → Mark
  reset : Mark
  start : ℕ → Mark
  stop : ℕ → Mark
  fed : Series → ℕ → ℕ → Mark
  closed : Series → Mark

-- Where the window of one series stands. `broken` is for good.
pub data Phase : Type 0 where
  shut : Phase
  empty : Phase
  armed : Phase
  timing : ℕ → Phase
  timed : ℕ → ℕ → Phase
  done : Phase
  broken : Phase

-- The protocol of a window: open, reset, start, stop, feed exactly the two captures, close. The
-- counter may be reset again before the stop, and the start is then captured again.
pub own : Phase → Mark → Phase
own shut (opened s) = empty
own shut (fed s a b) = broken
own shut (closed s) = broken
own shut _ = shut
own empty reset = armed
own empty _ = broken
own armed reset = armed
own armed (start a) = timing a
own armed _ = broken
own (timing a) reset = armed
own (timing a) (stop b) = timed a b
own (timing a) _ = broken
own (timed a b) (fed s a' b') = if (a' == a) && (b' == b) then done else broken
own (timed a b) _ = broken
own done (closed s) = shut
own done _ = broken
own broken _ = broken

-- Marks that name another series are no business of `s`.
unfoldable pub concerns : Series → Mark → Bool
concerns s (opened r) = r == s
concerns s (fed r a b) = r == s
concerns s (closed r) = r == s
concerns s _ = true

-- Whether a mark feeds the series.
pub feeds : Series → Mark → ℕ
feeds s (fed r a b) = if r == s then 1 else 0
feeds s _ = 0

-- The phase of `s` and the number of samples fed to it, after the marks, newest first.
unfoldable pub phase : Series → List Mark → Phase
unfolding own concerns
phase s [] = shut
phase s (m ∷ ms) = let before = phase s ms in if concerns s m then own before m else before

unfoldable pub samples : Series → List Mark → ℕ
unfolding feeds
samples s [] = 0
samples s (m ∷ ms) = feeds s m + samples s ms

-- Every window of `s` so far was opened, timed, fed and closed as the protocol wants, and `n`
-- samples were fed.
pub record IsSampled (s : Series) (n : ℕ) (ms : List Mark) : Type 0 where
  pub at_rest : phase s ms ≡ Phase.shut
  pub count : samples s ms ≡ n
