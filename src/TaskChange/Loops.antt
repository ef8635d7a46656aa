-- ===== src/TaskChange/Loops.antt =====
-- The loops of task_change, each until its series is complete.
use zephyr_kernel_bm_tuc_hms.Prelude.{
  ℕ, zero, suc, ◌+◌, ◌*◌, ◌<◌, ◌≡◌, refl, ◌∙◌, ap, arith, true, false, some, ◌∷◌, leb,
}
use zephyr_kernel_bm_tuc_hms.Window.{Mark, Series}
use zephyr_kernel_bm_tuc_hms.Scenario.Program.{Board, scenario_a, scenario_b}
use zephyr_kernel_bm_tuc_hms.Scenario.Run.{steps, steps-after, iterate}
use zephyr_kernel_bm_tuc_hms.Scenario.Tally.{timed, stray}
use zephyr_kernel_bm_tuc_hms.Scenario.Guarded.{CountsSamples, steps-until}
use zephyr_kernel_bm_tuc_hms.TaskChange.Ready.{View, WakeOrder}
use zephyr_kernel_bm_tuc_hms.TaskChange.Tasks.{System}
use zephyr_kernel_bm_tuc_hms.TaskChange.States.{
  Held, past, at_a, stopped, out_a, out_a_0, at_b, out_b, take_sample, shut, shut_by,
}
use zephyr_kernel_bm_tuc_hms.TaskChange.Counts.{
  timed-closed, stray-closed, timed-take_sample, stray-take_sample, turn_a, turn_b, timed-turn_a,
  stray-turn_a, timed-turn_b, stray-turn_b,
}
use zephyr_kernel_bm_tuc_hms.TaskChange.Turns.{
  f, is_full, measured, dummy_passes, dummy_stops, next_stops, high_passes, high_stops, sb_passes,
  sb_stops,
}

-- Of the calls of L_Task_SA, H_Task_SA and the dummies: those of a round of S_A, those of the last one.
abbrev pub round_calls : ℕ → ℕ
round_calls zero = 9
round_calls (suc n) = 7 + suc n * 3

abbrev pub last_calls : ℕ → ℕ
last_calls zero = 10
last_calls (suc n) = 7 + (5 + n * 5)

abbrev pub left_a : ℕ → Held → System View
left_a zero w = out_a_0 w
left_a (suc n) w = out_a (suc n) w

module _ (b : Board) (counts : CountsSamples b) where
  -- What iteration_count says behind a closed window.
  is_full-closed :
      (s n : ℕ) (w : Held)
      → stray s w.trace ≡ 0
      → timed s w.trace ≡ n
      → is_full b s (shut s w) ≡ leb 50000 n
  is_full-closed s n w z e = ap (leb 50000) (
      counts s (Mark.closed s ∷ w.trace) (stray-closed s s w.trace ∙ z)
      ∙ timed-closed s s w.trace
      ∙ e)

  pub not_full :
      (s : Series) (w : Held)
      → stray s w.trace ≡ 0
      → timed s w.trace < 50000
      → is_full b s (shut s w) ≡ false
  not_full s w z l = let e = is_full-closed s (timed s w.trace) w z refl in ground arith

  full :
      (s : Series) (w : Held)
      → stray s w.trace ≡ 0
      → timed s w.trace ≡ 50000
      → is_full b s (shut s w) ≡ true
  full s w z e = is_full-closed s 50000 w z e

  module _ (o : WakeOrder) where
    -- The dummies from number `i` on have their turns.
    pub passes :
        (j i n : ℕ) (w : Held)
        → i + j ≡ n
        → n < 5
        → stray scenario_a w.trace ≡ 0
        → timed scenario_a w.trace < 50000
        → steps (f b o) (j * 3) (past n i w) ≡ some (past n n (shut_by j w))
    unfolding steps
    passes zero i n w e u z l =
        let g : 0 * 3 ≡ 0 = omega arith in
        let d : i ≡ n = omega (arith, e) in rw g (ap (λ k. some (past n k w)) d)
    passes (suc j) i n w e u z l =
        let v = shut scenario_a w in
        let g : suc j * 3 ≡ 3 + j * 3 = omega arith in
        let t = timed-closed scenario_a scenario_a w.trace in
        rw g (
          steps-after (f b o) 3 (j * 3) _ _
            (dummy_passes b o n i w (omega (arith, e)) u (not_full scenario_a w z l))
          ∙ passes j (suc i) n v (omega (arith, e)) u
              (stray-closed scenario_a scenario_a w.trace ∙ z) (omega (arith, t)))

    stops :
        (j i n : ℕ) (w : Held)
        → i + j ≡ n
        → n < 5
        → stray scenario_a w.trace ≡ 0
        → timed scenario_a w.trace ≡ 50000
        → steps (f b o) (j * 5) (stopped n i w) ≡ some (stopped n n (shut_by j w))
    unfolding steps
    stops zero i n w e u z l =
        let g : 0 * 5 ≡ 0 = omega arith in
        let d : i ≡ n = omega (arith, e) in rw g (ap (λ k. some (stopped n k w)) d)
    stops (suc j) i n w e u z l =
        let v = shut scenario_a w in
        let g : suc j * 5 ≡ 5 + j * 5 = omega arith in
        rw g (
          steps-after (f b o) 5 (j * 5) _ _
            (next_stops b o n i w (omega (arith, e)) u (full scenario_a w z l))
          ∙ stops j (suc i) n v (omega (arith, e)) u
              (stray-closed scenario_a scenario_a w.trace ∙ z)
              (timed-closed scenario_a scenario_a w.trace ∙ l))

    again_a :
        (n : ℕ) (w : Held)
        → n < 5
        → stray scenario_a w.trace ≡ 0
        → suc (timed scenario_a w.trace) < 50000
        → steps (f b o) (round_calls n) (at_a n w) ≡ some (at_a n (turn_a b n w))
    again_a zero w u z l =
        let v = take_sample b scenario_a w in
        let t = timed-take_sample b scenario_a w in
        high_passes b o w
          (not_full scenario_a v (stray-take_sample b scenario_a w ∙ z) (omega (arith, t)))
    again_a (suc n) w u z l =
        let v = take_sample b scenario_a w in
        let t = timed-take_sample b scenario_a w in
        steps-after (f b o) 7 (suc n * 3) _ _ (measured b o n w (omega arith))
        ∙ passes (suc n) 0 (suc n) v (omega arith) u (stray-take_sample b scenario_a w ∙ z)
            (omega (arith, t))

    leave_a :
        (n : ℕ) (w : Held)
        → n < 5
        → stray scenario_a w.trace ≡ 0
        → suc (timed scenario_a w.trace) ≡ 50000
        → steps (f b o) (last_calls n) (at_a n w) ≡ some (left_a n (turn_a b n w))
    leave_a zero w u z e =
        let v = take_sample b scenario_a w in
        high_stops b o w (
          full scenario_a v (stray-take_sample b scenario_a w ∙ z)
            (timed-take_sample b scenario_a w ∙ e))
    leave_a (suc n) w u z e =
        let v = take_sample b scenario_a w in
        let s = stray-take_sample b scenario_a w ∙ z in
        let t = timed-take_sample b scenario_a w ∙ e in
        steps-after (f b o) 7 (5 + n * 5) _ _ (measured b o n w (omega arith))
        ∙ steps-after (f b o) 5 (n * 5) _ _
            (dummy_stops b o n v (omega arith) (full scenario_a v s t))
        ∙ stops n 1 (suc n) (shut scenario_a v) (omega arith) u
            (stray-closed scenario_a scenario_a v.trace ∙ s)
            (timed-closed scenario_a scenario_a v.trace ∙ t)

    -- S_A ends when scenario_a has its samples.
    pub loop_a :
        (n : ℕ) (w : Held)
        → n < 5
        → stray scenario_a w.trace ≡ 0
        → timed scenario_a w.trace ≡ 0
        → steps (f b o) (49999 * round_calls n + last_calls n) (at_a n w)
          ≡ some (left_a n (iterate (turn_a b n) 50000 w))
    loop_a n w u z e =
        steps-until (f b o) 50000 (round_calls n) (last_calls n) (at_a n) (left_a n) (turn_a b n)
          (λ w. timed scenario_a w.trace) (λ w. stray scenario_a w.trace ≡ 0) (timed-turn_a b n)
          (λ w z. stray-turn_a b n w ∙ z) (λ w z l. again_a n w u z l) (λ w z e. leave_a n w u z e)
          49999 w z (ap (λ (k : ℕ). k + 50000) e)

    -- S_B ends when scenario_b has its samples.
    pub loop_b :
        (n : ℕ) (w : Held)
        → stray scenario_b w.trace ≡ 0
        → timed scenario_b w.trace ≡ 0
        → steps (f b o) (49999 * 8 + 9) (at_b n w) ≡ some (out_b n (iterate (turn_b b) 50000 w))
    loop_b n w z e =
        steps-until (f b o) 50000 8 9 (at_b n) (out_b n) (turn_b b) (λ w. timed scenario_b w.trace)
          (λ w. stray scenario_b w.trace ≡ 0) (timed-turn_b b) (λ w z. stray-turn_b b w ∙ z)
          (λ w z l.
            let t = timed-take_sample b scenario_b w in
            sb_passes b o n w (
              not_full scenario_b (take_sample b scenario_b w)
                (stray-take_sample b scenario_b w ∙ z) (omega (arith, t))))
          (λ w z e. sb_stops b o n w (
            full scenario_b (take_sample b scenario_b w) (stray-take_sample b scenario_b w ∙ z)
              (timed-take_sample b scenario_b w ∙ e)))
          49999 w z (ap (λ (k : ℕ). k + 50000) e)
