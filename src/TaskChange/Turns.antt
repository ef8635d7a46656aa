-- ===== src/TaskChange/Turns.antt =====
-- What the documented machine does in the turns of the threads of task_change, for every number of dummies.
use zephyr_kernel_bm_tuc_hms.Prelude.{
  ℕ, suc, ◌+◌, ◌*◌, ◌<◌, ◌≡◌, refl, ◌∙◌, ap, arith, Bool, true, false, Option, none, some, leb,
  if◌then◌else◌, [], ◌∷◌,
}
use zephyr_kernel_bm_tuc_hms.Scenario.Program.{Board, scenario_a, scenario_b}
use zephyr_kernel_bm_tuc_hms.Scenario.Run.{steps}
use zephyr_kernel_bm_tuc_hms.Scenario.Guarded.{steps-then, steps-else}
use zephyr_kernel_bm_tuc_hms.Scenario.Whole.{verdict}
use zephyr_kernel_bm_tuc_hms.TaskChange.Ready.{
  View, WakeOrder, oldest_first, newest_first, sb_thread, idle_thread,
}
use zephyr_kernel_bm_tuc_hms.TaskChange.Tasks.{
  System, h_task_sa_loop, skip_calls, task_sb, i_task_end,
}
use zephyr_kernel_bm_tuc_hms.TaskChange.Refine.{machine}
use zephyr_kernel_bm_tuc_hms.TaskChange.Pool.{below_five, below_four, each_dummy}
use zephyr_kernel_bm_tuc_hms.TaskChange.States.{
  Held, at_start, past, at_a, incomplete, complete, stopped, stopped_incomplete, stopped_complete,
  out_a, tested, out_a_0, at_b, out_b, in_b, over, take_sample, shut, begun,
}

module _ (b : Board) where
  -- Whether the test of iteration_count in a state says that the series is complete.
  abbrev pub is_full : ℕ → Held → Bool
  is_full s w = leb 50000 (b.iterations s w.trace)

  -- The threads of S_A are created, and H_Task_SA is in its first k_yield().
  pub to_a :
      (n e : ℕ) (w : Held)
      → n < 5
      → steps (machine b oldest_first) (2 * n + 11) (at_start n e w) ≡ some (past n 0 (begun b w))
  unfolding steps
  to_a n e w =
      below_five
        (λ n.
          steps (machine b oldest_first) (2 * n + 11) (at_start n e w)
          ≡ some (past n 0 (begun b w)))
        refl refl refl refl refl n

  -- With no dummies and the other order, H_Task_SA is the first to run, and there is no window yet.
  pub to_a_reversed :
      (e : ℕ) (w : Held) → steps (machine b newest_first) 7 (at_start 0 e w) ≡ some (at_a 0 w)
  unfolding steps
  to_a_reversed e w = refl

  module _ (o : WakeOrder) where
    abbrev pub f : System View → Option (System View)
    f v = machine b o v

    -- A switch is measured.
    pub measured :
        (n : ℕ) (w : Held)
        → n < 4
        → steps f 7 (at_a (suc n) w) ≡ some (past (suc n) 0 (take_sample b scenario_a w))
    unfolding steps
    measured n w l =
        below_four
          (λ n. steps f 7 (at_a (suc n) w) ≡ some (past (suc n) 0 (take_sample b scenario_a w)))
          refl refl refl refl n l

    -- The turn of a dummy in a round.
    dummy_tests :
        (n i : ℕ) (w : Held)
        → i < n
        → n < 5
        → steps f 2 (past n i w)
          ≡ some (
              if is_full scenario_a (shut scenario_a w)
              then complete n i (shut scenario_a w)
              else incomplete n i (shut scenario_a w))
    unfolding steps
    dummy_tests n i w =
        each_dummy
          (λ n i.
            steps f 2 (past n i w)
            ≡ some (
                if is_full scenario_a (shut scenario_a w)
                then complete n i (shut scenario_a w)
                else incomplete n i (shut scenario_a w)))
          refl refl refl refl refl refl refl refl refl refl n i

    dummy_yields :
        (n i : ℕ) (w : Held)
        → i < n
        → n < 5
        → steps f 1 (incomplete n i w) ≡ some (past n (suc i) w)
    unfolding steps
    dummy_yields n i w =
        each_dummy (λ n i. steps f 1 (incomplete n i w) ≡ some (past n (suc i) w)) refl refl refl
          refl refl refl refl refl refl refl n i

    pub dummy_passes :
        (n i : ℕ) (w : Held)
        → i < n
        → n < 5
        → is_full scenario_a (shut scenario_a w) ≡ false
        → steps f 3 (past n i w) ≡ some (past n (suc i) (shut scenario_a w))
    dummy_passes n i w l u h =
        let v = shut scenario_a w in
        steps-else f 2 1 (past n i w) (complete n i v) (incomplete n i v) _ (is_full scenario_a v)
          (dummy_tests n i w l u) h (dummy_yields n i v l u)

    -- The first dummy that finds the series complete.
    dummy_suspends :
        (n : ℕ) (w : Held) → n < 4 → steps f 3 (complete (suc n) 0 w) ≡ some (stopped (suc n) 1 w)
    unfolding steps
    dummy_suspends n w l =
        below_four (λ n. steps f 3 (complete (suc n) 0 w) ≡ some (stopped (suc n) 1 w)) refl refl
          refl refl n l

    pub dummy_stops :
        (n : ℕ) (w : Held)
        → n < 4
        → is_full scenario_a (shut scenario_a w) ≡ true
        → steps f 5 (past (suc n) 0 w) ≡ some (stopped (suc n) 1 (shut scenario_a w))
    dummy_stops n w l h =
        let v = shut scenario_a w in
        steps-then f 2 3 (past (suc n) 0 w) (complete (suc n) 0 v) (incomplete (suc n) 0 v) _
          (is_full scenario_a v) (dummy_tests (suc n) 0 w (omega arith) (omega arith)) h
          (dummy_suspends n v l)

    -- The others.
    next_tests :
        (n i : ℕ) (w : Held)
        → i < n
        → n < 5
        → steps f 2 (stopped n i w)
          ≡ some (
              if is_full scenario_a (shut scenario_a w)
              then stopped_complete n i (shut scenario_a w)
              else stopped_incomplete n i (shut scenario_a w))
    unfolding steps
    next_tests n i w =
        each_dummy
          (λ n i.
            steps f 2 (stopped n i w)
            ≡ some (
                if is_full scenario_a (shut scenario_a w)
                then stopped_complete n i (shut scenario_a w)
                else stopped_incomplete n i (shut scenario_a w)))
          refl refl refl refl refl refl refl refl refl refl n i

    next_suspends :
        (n i : ℕ) (w : Held)
        → i < n
        → n < 5
        → steps f 3 (stopped_complete n i w) ≡ some (stopped n (suc i) w)
    unfolding steps
    next_suspends n i w =
        each_dummy (λ n i. steps f 3 (stopped_complete n i w) ≡ some (stopped n (suc i) w)) refl
          refl refl refl refl refl refl refl refl refl n i

    pub next_stops :
        (n i : ℕ) (w : Held)
        → i < n
        → n < 5
        → is_full scenario_a (shut scenario_a w) ≡ true
        → steps f 5 (stopped n i w) ≡ some (stopped n (suc i) (shut scenario_a w))
    next_stops n i w l u h =
        let v = shut scenario_a w in
        steps-then f 2 3 (stopped n i w) (stopped_complete n i v) (stopped_incomplete n i v) _
          (is_full scenario_a v) (next_tests n i w l u) h (next_suspends n i v l u)

    -- A round with no dummies: H_Task_SA closes the window and tests iteration_count.
    abbrev taken_0 : Held → Held
    taken_0 w = shut scenario_a (take_sample b scenario_a w)

    high_tests :
        (w : Held)
        → steps f 8 (at_a 0 w)
          ≡ some (
              if is_full scenario_a (taken_0 w)
              then tested (skip_calls 5 (h_task_sa_loop 0)) (taken_0 w)
              else tested (h_task_sa_loop 0) (taken_0 w))
    unfolding steps
    high_tests w = refl

    pub high_passes :
        (w : Held)
        → is_full scenario_a (taken_0 w) ≡ false
        → steps f 9 (at_a 0 w) ≡ some (at_a 0 (taken_0 w))
    unfolding steps
    high_passes w h =
        steps-else f 8 1 (at_a 0 w) (tested (skip_calls 5 (h_task_sa_loop 0)) (taken_0 w))
          (tested (h_task_sa_loop 0) (taken_0 w)) _ (is_full scenario_a (taken_0 w)) (high_tests w)
          h refl

    pub high_stops :
        (w : Held)
        → is_full scenario_a (taken_0 w) ≡ true
        → steps f 10 (at_a 0 w) ≡ some (out_a_0 (taken_0 w))
    unfolding steps
    high_stops w h =
        steps-then f 8 2 (at_a 0 w) (tested (skip_calls 5 (h_task_sa_loop 0)) (taken_0 w))
          (tested (h_task_sa_loop 0) (taken_0 w)) _ (is_full scenario_a (taken_0 w)) (high_tests w)
          h refl

    -- I_Task ends S_A and creates Task_SB.
    pub to_b_0 : (w : Held) → steps f 3 (out_a_0 w) ≡ some (at_b 0 w)
    unfolding steps
    to_b_0 w = refl

    pub to_b :
        (n : ℕ) (w : Held) → n < 4 → steps f (n + 4) (out_a (suc n) w) ≡ some (at_b (suc n) w)
    unfolding steps
    to_b n w l =
        below_four (λ n. steps f (n + 4) (out_a (suc n) w) ≡ some (at_b (suc n) w)) refl refl refl
          refl n l

    -- A round of S_B.
    abbrev pub taken_b : Held → Held
    taken_b w = shut scenario_b (take_sample b scenario_b w)

    sb_tests :
        (n : ℕ) (w : Held)
        → steps f 8 (at_b n w)
          ≡ some (
              if is_full scenario_b (taken_b w)
              then in_b n
                  (sb_thread ∷ idle_thread ∷ [])
                  (skip_calls 8 task_sb)
                  i_task_end
                  none
                  (taken_b w)
              else at_b n (taken_b w))
    unfolding steps
    sb_tests n w = refl

    pub sb_passes :
        (n : ℕ) (w : Held)
        → is_full scenario_b (taken_b w) ≡ false
        → steps f 8 (at_b n w) ≡ some (at_b n (taken_b w))
    sb_passes n w h =
        sb_tests n w
        ∙ ap
            (λ (g : Bool). some (
              if g
              then in_b n (sb_thread ∷ idle_thread ∷ []) (skip_calls 8 task_sb) i_task_end none
                  (taken_b w)
              else at_b n (taken_b w)))
            h

    pub sb_stops :
        (n : ℕ) (w : Held)
        → is_full scenario_b (taken_b w) ≡ true
        → steps f 9 (at_b n w) ≡ some (out_b n (taken_b w))
    unfolding steps
    sb_stops n w h =
        steps-then f 8 1 (at_b n w)
          (in_b n (sb_thread ∷ idle_thread ∷ []) (skip_calls 8 task_sb) i_task_end none (taken_b w))
          (at_b n (taken_b w)) _ (is_full scenario_b (taken_b w)) (sb_tests n w) h refl

    -- I_Task signals.
    pub to_end : (n : ℕ) (w : Held) → f (out_b n w) ≡ some (over n (verdict b w.trace) w)
    to_end n w = refl

    pub for_ever :
        (n : ℕ) (w : Held) → f (over n (verdict b w.trace) w) ≡ some (over n (verdict b w.trace) w)
    for_ever n w = refl
