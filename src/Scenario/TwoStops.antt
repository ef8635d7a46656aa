-- ===== src/Scenario/TwoStops.antt =====
-- What the marks of a whole test hold for one of two series that share their windows: two values are
-- captured after the start, one for each series.
use zephyr_kernel_bm_tuc_hms.Prelude.{
  ℕ, suc, ◌≡◌, arith, Bool, false, ◌&&◌, List, [], ◌∷◌, ◌==◌, if◌then◌else◌,
}
use zephyr_kernel_bm_tuc_hms.Window.{Mark, Series, concerns}
use zephyr_kernel_bm_tuc_hms.Scenario.Tally.{feeds_any}

-- Which of the two values is the one of the series.
pub data Capture : Type 0 where
  earlier : Capture
  later : Capture

abbrev pub chosen : Capture → ℕ → ℕ → ℕ
chosen earlier b c = b
chosen later b c = c

-- Where the window of a series stands.
pub data Stand : Type 0 where
  shut : Stand
  empty : Stand
  armed : Stand
  timing : ℕ → Stand
  timed_once : ℕ → ℕ → Stand
  timed_twice : ℕ → ℕ → ℕ → Stand
  done : Stand
  broken : Stand

unfoldable pub pursue : Capture → Stand → Mark → Stand
pursue w _ (Mark.opened s) = Stand.empty
pursue w Stand.shut m = Stand.shut
pursue w Stand.empty Mark.reset = Stand.armed
pursue w Stand.armed (Mark.start a) = Stand.timing a
pursue w (Stand.timing a) (Mark.stop b) = Stand.timed_once a b
pursue w (Stand.timed_once a b) (Mark.stop c) = Stand.timed_twice a b c
pursue w (Stand.timed_twice a b c) (Mark.fed s x y) =
    if (x == a) && (y == chosen w b c) then Stand.done else Stand.broken
pursue w Stand.done (Mark.closed s) = Stand.shut
pursue w _ m = Stand.broken

-- Whether a mark feeds the start and the value of the series that its window has captured.
unfoldable pub feeds_chosen : Capture → Stand → Mark → Bool
feeds_chosen w (Stand.timed_twice a b c) (Mark.fed s x y) = (x == a) && (y == chosen w b c)
feeds_chosen w _ m = false

pub record Score : Type 0 where
  pub stand : Stand
  pub chosen_samples : ℕ
  pub other_samples : ℕ

unfoldable pub score_mark : Capture → Mark → Score → Score
unfolding pursue feeds_chosen feeds_any
score_mark w m c = record {
  stand = pursue w c.stand m;
  chosen_samples = if feeds_chosen w c.stand m then suc c.chosen_samples else c.chosen_samples;
  other_samples =
      if feeds_chosen w c.stand m
      then c.other_samples
      else if feeds_any m
      then suc c.other_samples
      else c.other_samples;
}

-- The score of series `s` after the marks, newest first.
unfoldable pub score : Capture → Series → List Mark → Score
unfolding score_mark concerns
score w s [] = record { stand = Stand.shut; chosen_samples = 0; other_samples = 0 }
score w s (m ∷ ms) =
    let before = score w s ms in if concerns s m then score_mark w m before else before

-- The samples of `s` that are the start and the chosen value of their window, and the others.
unfoldable pub chosen_in : Capture → Series → List Mark → ℕ
chosen_in w s ms = (score w s ms).chosen_samples

unfoldable pub other_in : Capture → Series → List Mark → ℕ
other_in w s ms = (score w s ms).other_samples

-- The window of the series `s` and `r`: both opened, the counter reset, captured as `a`, `b` and `c`,
-- fed to `s` and to `r`, both closed.
abbrev pub double_window : Series → Series → ℕ → ℕ → ℕ → ℕ → ℕ → List Mark → List Mark
double_window s r a b c x y ms =
    Mark.closed r
    ∷ Mark.closed s
    ∷ Mark.fed r a y
    ∷ Mark.fed s a x
    ∷ Mark.stop c
    ∷ Mark.stop b
    ∷ Mark.start a
    ∷ Mark.reset
    ∷ Mark.opened r
    ∷ Mark.opened s
    ∷ ms

module _ (w : Capture) (s r a b c x y : ℕ) (ms : List Mark) where
  -- It adds one sample to each of the two series, however they stood, the one it captured.
  pub chosen-double_window_left :
      (r == s) ≡ false
      → (s == r) ≡ false
      → x ≡ chosen w b c
      → chosen_in w s (double_window s r a b c x y ms) ≡ suc (chosen_in w s ms)
  unfolding chosen_in score score_mark concerns pursue feeds_chosen
  chosen-double_window_left h g e = ground arith

  pub other-double_window_left :
      (r == s) ≡ false
      → (s == r) ≡ false
      → x ≡ chosen w b c
      → other_in w s (double_window s r a b c x y ms) ≡ other_in w s ms
  unfolding other_in score score_mark concerns pursue feeds_chosen feeds_any
  other-double_window_left h g e = ground arith

  pub chosen-double_window_right :
      (r == s) ≡ false
      → (s == r) ≡ false
      → y ≡ chosen w b c
      → chosen_in w r (double_window s r a b c x y ms) ≡ suc (chosen_in w r ms)
  unfolding chosen_in score score_mark concerns pursue feeds_chosen
  chosen-double_window_right h g e = ground arith

  pub other-double_window_right :
      (r == s) ≡ false
      → (s == r) ≡ false
      → y ≡ chosen w b c
      → other_in w r (double_window s r a b c x y ms) ≡ other_in w r ms
  unfolding other_in score score_mark concerns pursue feeds_chosen feeds_any
  other-double_window_right h g e = ground arith

  -- And none to any other series.
  pub chosen-double_window_other :
      (q : Series)
      → (s == q) ≡ false
      → (r == q) ≡ false
      → chosen_in w q (double_window s r a b c x y ms) ≡ chosen_in w q ms
  unfolding chosen_in score score_mark concerns pursue feeds_chosen
  chosen-double_window_other q h g = ground arith

  pub other-double_window_other :
      (q : Series)
      → (s == q) ≡ false
      → (r == q) ≡ false
      → other_in w q (double_window s r a b c x y ms) ≡ other_in w q ms
  unfolding other_in score score_mark concerns pursue feeds_chosen feeds_any
  other-double_window_other q h g = ground arith
