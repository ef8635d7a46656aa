-- ===== src/TaskChange/Reversed.antt =====
-- The first sample of task_change where k_event_post() makes the waiting threads ready the other way round, the
-- newest first, in the build with four dummies, which benchmark_testcases.h has as its default.
use zephyr_kernel_bm_tuc_hms.Prelude.{
  ℕ, zero, suc, ◌+◌, ◌*◌, ◌<◌, ◌≡◌, refl, ap, ◌∙◌, arith, [], ◌∷◌, ◌++◌, none, some, List,
  if◌then◌else◌, Option,
}
use zephyr_kernel_bm_tuc_hms.Window.{Mark}
use zephyr_kernel_bm_tuc_hms.Itc.Handover.States.{Then}
use zephyr_kernel_bm_tuc_hms.Scenario.Program.{Board, scenario_a}
use zephyr_kernel_bm_tuc_hms.Scenario.Run.{steps, steps-after}
use zephyr_kernel_bm_tuc_hms.Scenario.Tally.{
  tally, timed, stray, count_mark, follow, feeds_timed, feeds_any,
}
use zephyr_kernel_bm_tuc_hms.Window.{concerns}
use zephyr_kernel_bm_tuc_hms.Scenario.Guarded.{CountsSamples, steps-else}
use zephyr_kernel_bm_tuc_hms.TaskChange.Ready.{
  Thread, sa_low_prio_thread, sa_high_prio_thread, sa_dummy_0, sa_dummy_1, sa_dummy_2, sa_dummy_3,
  idle_thread, newest_first, Kernel, KernelDoc, View,
}
use zephyr_kernel_bm_tuc_hms.TaskChange.Tasks.{
  System, Program, dummy_task_loop, h_task_sa_loop, rest_of, skip_calls, set_left, next_state,
}
use zephyr_kernel_bm_tuc_hms.TaskChange.Refine.{machine, steps-viewed}
use zephyr_kernel_bm_tuc_hms.TaskChange.States.{Held, in_a, at_start, parked, shut, shut_by, begun}
use zephyr_kernel_bm_tuc_hms.TaskChange.Pool.{below_four}
use zephyr_kernel_bm_tuc_hms.TaskChange.Turns.{is_full}
use zephyr_kernel_bm_tuc_hms.TaskChange.Counts.{
  timed-closed, stray-closed, timed-shut_by, stray-shut_by, timed-begun, stray-begun,
}
use zephyr_kernel_bm_tuc_hms.TaskChange.Loops.{not_full}
use zephyr_kernel_bm_tuc_hms.TaskChange.Whole.{Started, held, viewed-start, Then-viewed}

-- The dummies in that order, from the `i`-th on, and the `i` before them.
abbrev newer : ℕ → List Thread
newer zero = sa_dummy_3 ∷ sa_dummy_2 ∷ sa_dummy_1 ∷ sa_dummy_0 ∷ []
newer (suc zero) = sa_dummy_2 ∷ sa_dummy_1 ∷ sa_dummy_0 ∷ []
newer (suc (suc zero)) = sa_dummy_1 ∷ sa_dummy_0 ∷ []
newer (suc (suc (suc zero))) = sa_dummy_0 ∷ []
newer (suc (suc (suc (suc i)))) = []

abbrev gone : ℕ → List Thread
gone zero = []
gone (suc zero) = sa_dummy_3 ∷ []
gone (suc (suc zero)) = sa_dummy_3 ∷ sa_dummy_2 ∷ []
gone (suc (suc (suc zero))) = sa_dummy_3 ∷ sa_dummy_2 ∷ sa_dummy_1 ∷ []
gone (suc (suc (suc (suc i)))) = sa_dummy_3 ∷ sa_dummy_2 ∷ sa_dummy_1 ∷ sa_dummy_0 ∷ []

abbrev turn_of : ℕ → Thread
turn_of zero = sa_dummy_3
turn_of (suc zero) = sa_dummy_2
turn_of (suc (suc zero)) = sa_dummy_1
turn_of (suc (suc (suc i))) = sa_dummy_0

abbrev line_past : ℕ → List Thread
line_past i = newer i ++ (sa_high_prio_thread ∷ sa_low_prio_thread ∷ (gone i ++ (idle_thread ∷ [])))

-- H_Task_SA is at `p`.
abbrev past : Program → ℕ → Held → System View
past p i w = parked (line_past i) (record (in_a 4) { high_left = p }) none w

abbrev at_test : ℕ → Program → ℕ → Held → System View
at_test skipped p i w =
    parked (line_past i)
      (set_left (turn_of i) (skip_calls skipped dummy_task_loop)
        (record (in_a 4) { high_left = p }))
      none w

-- A start that the dummies come in front of.
abbrev fed_late : Board → Held → Held
fed_late b w =
    let v = shut_by 4 (begun b w) in
    let z = b.counter v.trace in
    record v { last_stop = z; trace = Mark.fed scenario_a v.last_start z ∷ Mark.stop z ∷ v.trace }

module _ (b : Board) where
  abbrev g : System View → Option (System View)
  g v = machine b newest_first v

  tests :
      (p : Program) (i : ℕ) (w : Held)
      → i < 4
      → steps g 2 (past p i w)
        ≡ some (
            if is_full b scenario_a (shut scenario_a w)
            then at_test 2 p i (shut scenario_a w)
            else at_test 5 p i (shut scenario_a w))
  unfolding steps
  tests p i w =
      below_four
        (λ i.
          steps g 2 (past p i w)
          ≡ some (
              if is_full b scenario_a (shut scenario_a w)
              then at_test 2 p i (shut scenario_a w)
              else at_test 5 p i (shut scenario_a w)))
        refl refl refl refl i

  yields :
      (p : Program) (i : ℕ) (w : Held)
      → i < 4
      → steps g 1 (at_test 5 p i w) ≡ some (past p (suc i) w)
  unfolding steps
  yields p i w =
      below_four (λ i. steps g 1 (at_test 5 p i w) ≡ some (past p (suc i) w)) refl refl refl refl i

  boots : (e : ℕ) (w : Held) → steps g 14 (at_start 4 e w) ≡ some (past (h_task_sa_loop 4) 0 w)
  unfolding steps
  boots e w = refl

  -- H_Task_SA yields once, then L_Task_SA starts the window.
  starts :
      (w : Held)
      → steps g 5 (past (h_task_sa_loop 4) 4 w)
        ≡ some (past (rest_of (h_task_sa_loop 4)) 0 (begun b w))
  unfolding steps
  starts w = refl

  abbrev after_feed : Held → System View
  after_feed w = past (rest_of (rest_of (rest_of (h_task_sa_loop 4)))) 4 w

  feeds :
      (w : Held)
      → steps g 2 (past (rest_of (h_task_sa_loop 4)) 4 (shut_by 4 (begun b w)))
        ≡ some (after_feed (fed_late b w))
  unfolding steps
  feeds w = refl

  module _ (counts : CountsSamples b) where
    passes :
        (j i : ℕ) (p : Program) (w : Held)
        → i + j ≡ 4
        → stray scenario_a w.trace ≡ 0
        → timed scenario_a w.trace ≡ 0
        → steps g (j * 3) (past p i w) ≡ some (past p 4 (shut_by j w))
    unfolding steps
    passes zero i p w e z t =
        let h : 0 * 3 ≡ 0 = omega arith in
        let d : i ≡ 4 = omega (arith, e) in rw h (ap (λ k. some (past p k w)) d)
    passes (suc j) i p w e z t =
        let v = shut scenario_a w in
        let h : suc j * 3 ≡ 3 + j * 3 = omega arith in
        let l : i < 4 = omega (arith, e) in
        rw h (
          steps-after g 3 (j * 3) _ _ (
            steps-else g 2 1 (past p i w) (at_test 2 p i v) (at_test 5 p i v) _
              (is_full b scenario_a v) (tests p i w l)
              (not_full b counts scenario_a w z (omega (arith, t))) (yields p i v l))
          ∙ passes j (suc i) p v (omega (arith, e)) (stray-closed scenario_a scenario_a w.trace ∙ z)
              (timed-closed scenario_a scenario_a w.trace ∙ t))

timed-fed_late :
    (b : Board) (w : Held) → timed scenario_a (fed_late b w).trace ≡ timed scenario_a w.trace
unfolding timed tally count_mark concerns follow feeds_timed
timed-fed_late b w = ground arith

stray-fed_late :
    (b : Board) (w : Held) → stray scenario_a (fed_late b w).trace ≡ suc (stray scenario_a w.trace)
unfolding stray tally count_mark concerns follow feeds_timed feeds_any
stray-fed_late b w = ground arith

module _ (b : Board) (counts : CountsSamples b) (w : Held) (z : stray scenario_a w.trace ≡ 0)
    (t : timed scenario_a w.trace ≡ 0) where
  abbrev first_lap : Held
  first_lap = shut_by 4 w

  stray-first_lap : stray scenario_a first_lap.trace ≡ 0
  stray-first_lap = stray-shut_by scenario_a 4 w ∙ z

  timed-first_lap : timed scenario_a first_lap.trace ≡ 0
  timed-first_lap = timed-shut_by scenario_a 4 w ∙ t

  steps-fed_late :
      (e : ℕ) → steps (g b) 45 (at_start 4 e w) ≡ some (after_feed b (fed_late b first_lap))
  steps-fed_late e =
      steps-after (g b) 14 31 _ _ (boots b e w)
      ∙ steps-after (g b) 12 19 _ _ (passes b counts 4 0 (h_task_sa_loop 4) w refl z t)
      ∙ steps-after (g b) 5 14 _ _ (starts b first_lap)
      ∙ steps-after (g b) 12 2 _ _ (
          passes b counts 4 0 (rest_of (h_task_sa_loop 4)) (begun b first_lap) refl
            (stray-begun b scenario_a first_lap ∙ stray-first_lap)
            (timed-begun b scenario_a first_lap ∙ timed-first_lap))
      ∙ feeds b first_lap

  counted-fed_late :
      (timed scenario_a (fed_late b first_lap).trace ≡ 0)
      × (stray scenario_a (fed_late b first_lap).trace ≡ 1)
  counted-fed_late = (
    timed-fed_late b first_lap ∙ timed-first_lap,
    stray-fed_late b first_lap ∙ ap (λ (n : ℕ). suc n) stray-first_lap,
  )

-- Where k_event_post() makes the waiting threads ready the newest first, the first sample of scenario_a in the
-- build with four dummies is fed outside of its window: the 45 calls from the start of I_Task, alone and with
-- nothing fed yet, end with a value that the dummies have closed the window in front of, and with none that
-- was captured and fed in an open one. This holds of every kernel that does otherwise what is documented, and
-- every harness whose iteration_count is the number of samples of a series to which nothing else was fed.
pub task_change-stray :
    (b : Board) (counts : CountsSamples b) {S : Type 0} (k : Kernel S) (view : S → View)
    (doc : KernelDoc k newest_first view) (y : System S) (started : Started view 4 y)
    → Then
        (λ y'. (timed scenario_a y'.trace ≡ 0) × (stray scenario_a y'.trace ≡ 1))
        (steps (next_state b k) 45 y)
unfolding timed stray
task_change-stray b counts k view doc y started =
    let w = held y in
    let z = ap (λ t. t.stray_samples) started.a_fresh in
    let t = ap (λ t. t.timed_samples) started.a_fresh in
    Then-viewed view (λ v. (timed scenario_a v.trace ≡ 0) × (stray scenario_a v.trace ≡ 1))
      (steps (next_state b k) 45 y) (after_feed b (fed_late b (first_lap b counts w z t)))
      (steps-viewed b newest_first k view doc 45 y
        ∙ ap (steps (g b) 45) (viewed-start view 4 y started)
        ∙ steps-fed_late b counts w z t (view y.kernel).events)
      (counted-fed_late b counts w z t)
