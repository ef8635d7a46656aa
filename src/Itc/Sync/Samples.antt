-- ===== src/Itc/Sync/Samples.antt =====
-- Of what series a transaction, and a sweep of them, takes samples.
use zephyr_kernel_bm_tuc_hms.Prelude.{
  ℕ, suc, ◌+◌, ◌<◌, ◌≡◌, refl, ap, ◌∙◌, arith, false, ◌==◌, ◌⊎◌, inl, inr,
}
use zephyr_kernel_bm_tuc_hms.Itc.Handover.{Direction, up, down}
use zephyr_kernel_bm_tuc_hms.Scenario.Program.{Board}
use zephyr_kernel_bm_tuc_hms.Scenario.Rounds.{Seen}
use zephyr_kernel_bm_tuc_hms.Scenario.Sweep.{swept, trichotomy}
use zephyr_kernel_bm_tuc_hms.Scenario.Measured.{measure-swept, measure-swept_idle}
use zephyr_kernel_bm_tuc_hms.Scenario.TwoStops.{
  chosen_in, other_in, chosen-double_window_left, other-double_window_left,
  chosen-double_window_right, other-double_window_right, chosen-double_window_other,
  other-double_window_other,
}
use zephyr_kernel_bm_tuc_hms.Itc.Sync.{Marker, direct, rendezvous, sync_series, capture_of, meeting}

-- The series of one step differ.
pair_apart :
    (d : Direction) (j : ℕ)
    → ((sync_series rendezvous d j == sync_series direct d j) ≡ false)
      × ((sync_series direct d j == sync_series rendezvous d j) ≡ false)
pair_apart up j = (ground arith, ground arith)
pair_apart down j = (ground arith, ground arith)

-- And those of two steps, or of two directions.
steps_apart :
    (m n : Marker) (d e : Direction) (i j : ℕ)
    → (i < j) ⊎ (j < i)
    → (sync_series m d i == sync_series n e j) ≡ false
steps_apart direct direct up up i j h = ground arith
steps_apart direct direct up down i j h = ground arith
steps_apart direct direct down up i j h = ground arith
steps_apart direct direct down down i j h = ground arith
steps_apart direct rendezvous up up i j h = ground arith
steps_apart direct rendezvous up down i j h = ground arith
steps_apart direct rendezvous down up i j h = ground arith
steps_apart direct rendezvous down down i j h = ground arith
steps_apart rendezvous direct up up i j h = ground arith
steps_apart rendezvous direct up down i j h = ground arith
steps_apart rendezvous direct down up i j h = ground arith
steps_apart rendezvous direct down down i j h = ground arith
steps_apart rendezvous rendezvous up up i j h = ground arith
steps_apart rendezvous rendezvous up down i j h = ground arith
steps_apart rendezvous rendezvous down up i j h = ground arith
steps_apart rendezvous rendezvous down down i j h = ground arith

abbrev pub opposite : Direction → Direction
opposite up = down
opposite down = up

ways_apart :
    (m n : Marker) (d : Direction) (i j : ℕ)
    → (sync_series m (opposite d) i == sync_series n d j) ≡ false
ways_apart direct direct up i j = ground arith
ways_apart direct direct down i j = ground arith
ways_apart direct rendezvous up i j = ground arith
ways_apart direct rendezvous down i j = ground arith
ways_apart rendezvous direct up i j = ground arith
ways_apart rendezvous direct down i j = ground arith
ways_apart rendezvous rendezvous up i j = ground arith
ways_apart rendezvous rendezvous down i j = ground arith

-- A transaction takes one sample of each of its two series, with the marker of the series.
chosen-meeting :
    (b : Board) (m : Marker) (d : Direction) (j : ℕ) (w : Seen)
    → chosen_in (capture_of m d) (sync_series m d j) (meeting b d j w).trace
      ≡ suc (chosen_in (capture_of m d) (sync_series m d j) w.trace)
chosen-meeting b direct up j w =
    chosen-double_window_left (capture_of direct up) (sync_series direct up j)
      (sync_series rendezvous up j) _ _ _ _ _ w.trace (pair_apart up j).0 (pair_apart up j).1 refl
chosen-meeting b direct down j w =
    chosen-double_window_left (capture_of direct down) (sync_series direct down j)
      (sync_series rendezvous down j) _ _ _ _ _ w.trace (pair_apart down j).0 (pair_apart down j).1
      refl
chosen-meeting b rendezvous up j w =
    chosen-double_window_right (capture_of rendezvous up) (sync_series direct up j)
      (sync_series rendezvous up j) _ _ _ _ _ w.trace (pair_apart up j).0 (pair_apart up j).1 refl
chosen-meeting b rendezvous down j w =
    chosen-double_window_right (capture_of rendezvous down) (sync_series direct down j)
      (sync_series rendezvous down j) _ _ _ _ _ w.trace (pair_apart down j).0 (pair_apart down j).1
      refl

other-meeting :
    (b : Board) (m : Marker) (d : Direction) (j : ℕ) (w : Seen)
    → other_in (capture_of m d) (sync_series m d j) (meeting b d j w).trace
      ≡ other_in (capture_of m d) (sync_series m d j) w.trace
other-meeting b direct up j w =
    other-double_window_left (capture_of direct up) (sync_series direct up j)
      (sync_series rendezvous up j) _ _ _ _ _ w.trace (pair_apart up j).0 (pair_apart up j).1 refl
other-meeting b direct down j w =
    other-double_window_left (capture_of direct down) (sync_series direct down j)
      (sync_series rendezvous down j) _ _ _ _ _ w.trace (pair_apart down j).0 (pair_apart down j).1
      refl
other-meeting b rendezvous up j w =
    other-double_window_right (capture_of rendezvous up) (sync_series direct up j)
      (sync_series rendezvous up j) _ _ _ _ _ w.trace (pair_apart up j).0 (pair_apart up j).1 refl
other-meeting b rendezvous down j w =
    other-double_window_right (capture_of rendezvous down) (sync_series direct down j)
      (sync_series rendezvous down j) _ _ _ _ _ w.trace (pair_apart down j).0 (pair_apart down j).1
      refl

module _ (b : Board) (m : Marker) where
  -- And none of another step or of the opposite direction.
  chosen-meeting_elsewhere :
      (d e : Direction) (i j : ℕ) (w : Seen)
      → ((sync_series direct e i == sync_series m d j) ≡ false)
        × ((sync_series rendezvous e i == sync_series m d j) ≡ false)
      → chosen_in (capture_of m d) (sync_series m d j) (meeting b e i w).trace
        ≡ chosen_in (capture_of m d) (sync_series m d j) w.trace
  chosen-meeting_elsewhere d up i j w h =
      chosen-double_window_other (capture_of m d) (sync_series direct up i)
        (sync_series rendezvous up i) _ _ _ _ _ w.trace (sync_series m d j) h.0 h.1
  chosen-meeting_elsewhere d down i j w h =
      chosen-double_window_other (capture_of m d) (sync_series direct down i)
        (sync_series rendezvous down i) _ _ _ _ _ w.trace (sync_series m d j) h.0 h.1

  other-meeting_elsewhere :
      (d e : Direction) (i j : ℕ) (w : Seen)
      → ((sync_series direct e i == sync_series m d j) ≡ false)
        × ((sync_series rendezvous e i == sync_series m d j) ≡ false)
      → other_in (capture_of m d) (sync_series m d j) (meeting b e i w).trace
        ≡ other_in (capture_of m d) (sync_series m d j) w.trace
  other-meeting_elsewhere d up i j w h =
      other-double_window_other (capture_of m d) (sync_series direct up i)
        (sync_series rendezvous up i) _ _ _ _ _ w.trace (sync_series m d j) h.0 h.1
  other-meeting_elsewhere d down i j w h =
      other-double_window_other (capture_of m d) (sync_series direct down i)
        (sync_series rendezvous down i) _ _ _ _ _ w.trace (sync_series m d j) h.0 h.1

  module _ (e : Direction) (turn : ℕ → Seen → Seen)
      (same : (i : ℕ) (w : Seen) → (turn i w).trace ≡ (meeting b e i w).trace) where
    -- A sweep takes 50,000 samples of each series of its steps, and no others of them.
    pub chosen-swept :
        (j : ℕ) (w : Seen)
        → j < 9
        → chosen_in (capture_of m e) (sync_series m e j) (swept turn 9 0 w).trace
          ≡ 50000 + chosen_in (capture_of m e) (sync_series m e j) w.trace
    chosen-swept j w l =
        measure-swept (chosen_in (capture_of m e) (sync_series m e j)) turn j
          (λ v.
            ap (chosen_in (capture_of m e) (sync_series m e j)) (same j v)
            ∙ chosen-meeting b m e j v)
          (λ i h v.
            ap (chosen_in (capture_of m e) (sync_series m e j)) (same i v)
            ∙ chosen-meeting_elsewhere e e i j v
                (steps_apart direct m e e i j h, steps_apart rendezvous m e e i j h))
          9 0 w (omega arith) (omega arith)

    pub other-swept :
        (j : ℕ) (w : Seen)
        → other_in (capture_of m e) (sync_series m e j) (swept turn 9 0 w).trace
          ≡ other_in (capture_of m e) (sync_series m e j) w.trace
    other-swept j w =
        measure-swept_idle (other_in (capture_of m e) (sync_series m e j)) turn
          (λ i v.
            ap (other_in (capture_of m e) (sync_series m e j)) (same i v) ∙ elim (trichotomy i j) [
              | inl h ↦
                  other-meeting_elsewhere e e i j v
                    (steps_apart direct m e e i j (inl h), steps_apart rendezvous m e e i j (inl h))
              | inr (inl h) ↦ rw h (other-meeting b m e j v)
              | inr (inr h) ↦
                  other-meeting_elsewhere e e i j v
                    (steps_apart direct m e e i j (inr h), steps_apart rendezvous m e e i j (inr h))
            ])
          9 0 w

  module _ (d : Direction) (turn : ℕ → Seen → Seen)
      (same : (i : ℕ) (w : Seen) → (turn i w).trace ≡ (meeting b (opposite d) i w).trace) where
    -- A sweep of the opposite direction takes none.
    pub chosen-swept_opposite :
        (j : ℕ) (w : Seen)
        → chosen_in (capture_of m d) (sync_series m d j) (swept turn 9 0 w).trace
          ≡ chosen_in (capture_of m d) (sync_series m d j) w.trace
    chosen-swept_opposite j w =
        measure-swept_idle (chosen_in (capture_of m d) (sync_series m d j)) turn
          (λ i v.
            ap (chosen_in (capture_of m d) (sync_series m d j)) (same i v)
            ∙ chosen-meeting_elsewhere d (opposite d) i j v
                (ways_apart direct m d i j, ways_apart rendezvous m d i j))
          9 0 w

    pub other-swept_opposite :
        (j : ℕ) (w : Seen)
        → other_in (capture_of m d) (sync_series m d j) (swept turn 9 0 w).trace
          ≡ other_in (capture_of m d) (sync_series m d j) w.trace
    other-swept_opposite j w =
        measure-swept_idle (other_in (capture_of m d) (sync_series m d j)) turn
          (λ i v.
            ap (other_in (capture_of m d) (sync_series m d j)) (same i v)
            ∙ other-meeting_elsewhere d (opposite d) i j v
                (ways_apart direct m d i j, ways_apart rendezvous m d i j))
          9 0 w
