-- ===== src/Scenario/Tally.antt =====
-- What the marks of a whole test hold for one series: samples whose two values were captured in its
-- window, and values fed outside of one.
use zephyr_kernel_bm_tuc_hms.Prelude.{
  ℕ, suc, ◌≡◌, arith, Bool, true, false, ◌&&◌, List, [], ◌∷◌, ◌==◌, if◌then◌else◌,
}
use zephyr_kernel_bm_tuc_hms.Window.{Mark, Series, Phase, concerns}

-- As `own` of Window, but a window may be opened at any time, and what comes while it is shut leaves
-- it shut.
unfoldable pub follow : Phase → Mark → Phase
follow _ (Mark.opened s) = Phase.empty
follow Phase.shut m = Phase.shut
follow Phase.empty Mark.reset = Phase.armed
follow Phase.armed (Mark.start a) = Phase.timing a
follow (Phase.timing a) (Mark.stop b) = Phase.timed a b
follow (Phase.timed a b) (Mark.fed s a' b') =
    if (a' == a) && (b' == b) then Phase.done else Phase.broken
follow Phase.done (Mark.closed s) = Phase.shut
follow _ m = Phase.broken

-- Whether a mark feeds the two values that the window has just captured.
unfoldable pub feeds_timed : Phase → Mark → Bool
feeds_timed (Phase.timed a b) (Mark.fed s a' b') = (a' == a) && (b' == b)
feeds_timed _ m = false

unfoldable pub feeds_any : Mark → Bool
feeds_any (Mark.fed s a b) = true
feeds_any m = false

pub record Tally : Type 0 where
  pub stands : Phase
  pub timed_samples : ℕ
  pub stray_samples : ℕ

unfoldable pub count_mark : Mark → Tally → Tally
unfolding follow feeds_timed feeds_any
count_mark m c = record {
  stands = follow c.stands m;
  timed_samples = if feeds_timed c.stands m then suc c.timed_samples else c.timed_samples;
  stray_samples =
      if feeds_timed c.stands m
      then c.stray_samples
      else if feeds_any m
      then suc c.stray_samples
      else c.stray_samples;
}

-- The tally of series `s` after the marks, newest first.
unfoldable pub tally : Series → List Mark → Tally
unfolding count_mark concerns
tally s [] = record { stands = Phase.shut; timed_samples = 0; stray_samples = 0 }
tally s (m ∷ ms) = let before = tally s ms in if concerns s m then count_mark m before else before

unfoldable pub timed : Series → List Mark → ℕ
timed s ms = (tally s ms).timed_samples

unfoldable pub stray : Series → List Mark → ℕ
stray s ms = (tally s ms).stray_samples

-- The window of a sample: opened, the counter reset, captured as `a` and as `b`, fed, closed.
abbrev pub window : Series → ℕ → ℕ → List Mark → List Mark
window s a b ms =
    Mark.closed s ∷ Mark.fed s a b ∷ Mark.stop b ∷ Mark.start a ∷ Mark.reset ∷ Mark.opened s ∷ ms

-- A window adds one timed sample, and no stray one, however the series stood.
pub timed-window : (s a b : ℕ) (ms : List Mark) → timed s (window s a b ms) ≡ suc (timed s ms)
unfolding timed tally count_mark concerns follow feeds_timed
timed-window s a b ms = ground arith

pub stray-window : (s a b : ℕ) (ms : List Mark) → stray s (window s a b ms) ≡ stray s ms
unfolding stray tally count_mark concerns follow feeds_timed feeds_any
stray-window s a b ms = ground arith

-- For another series it adds neither.
pub timed-window_other :
    (r s a b : ℕ) (ms : List Mark)
    → (r == s) ≡ false
    → (s == r) ≡ false
    → timed r (window s a b ms) ≡ timed r ms
unfolding timed tally count_mark concerns follow feeds_timed
timed-window_other r s a b ms h g = ground arith

pub stray-window_other :
    (r s a b : ℕ) (ms : List Mark)
    → (r == s) ≡ false
    → (s == r) ≡ false
    → stray r (window s a b ms) ≡ stray r ms
unfolding stray tally count_mark concerns follow feeds_timed feeds_any
stray-window_other r s a b ms h g = ground arith
