-- ===== src/Scenario/Complete.antt =====
-- From the course of a test on the documented machine to what it leaves over any kernel that does
-- what is documented.
use zephyr_kernel_bm_tuc_hms.Prelude.{
  ℕ, ◌+◌, ◌*◌, ◌≡◌, refl, sym, ap, ◌∙◌, arith, List, Option, none, some,
}
use mathlib.Core.Path.{subst}
use zephyr_kernel_bm_tuc_hms.Window.{Mark}
use zephyr_kernel_bm_tuc_hms.Itc.Kernel.{Scheduler, SchedulerDoc}
use zephyr_kernel_bm_tuc_hms.Itc.Handover.States.{Then}
use zephyr_kernel_bm_tuc_hms.Scenario.Kernel.{Task, Kernel, View}
use zephyr_kernel_bm_tuc_hms.Scenario.Doc.{KernelDoc, map_option}
use zephyr_kernel_bm_tuc_hms.Scenario.Program.{
  Board, Programs, System, tasks, scenario_a, scenario_b,
}
use zephyr_kernel_bm_tuc_hms.Scenario.Run.{steps, iterate}
use zephyr_kernel_bm_tuc_hms.Scenario.Refine.{viewed, Ranked, machine, steps-viewed}
use zephyr_kernel_bm_tuc_hms.Scenario.Tally.{tally, timed, stray}
use zephyr_kernel_bm_tuc_hms.Scenario.Rounds.{
  Seen, sample, timed-rounds, stray-rounds, timed-rounds_other, stray-rounds_other,
}
use zephyr_kernel_bm_tuc_hms.Scenario.Whole.{
  fresh, verdict, verdict-no_outliers, Completed, Booted, seen, viewed-boot, Course, Course-steps,
}

-- What each part of a test adds to the samples.
pub record Counted (b : Board) (strays na nb : ℕ) (turn_a turn_b first_a first_b : Seen → Seen)
    : Type 0 where
  pub same_a : (w : Seen) → (turn_a w).trace ≡ (sample b scenario_a w).trace
  pub same_b : (w : Seen) → (turn_b w).trace ≡ (sample b scenario_b w).trace
  pub start_a :
      (w : Seen)
      → tally scenario_a w.trace ≡ fresh
      → na + timed scenario_a (first_a w).trace ≡ 50000
  pub start_stray :
      (w : Seen) → tally scenario_a w.trace ≡ fresh → stray scenario_a (first_a w).trace ≡ strays
  pub start_b :
      (w : Seen) → tally scenario_b w.trace ≡ fresh → timed scenario_b (first_a w).trace ≡ 0
  pub start_b_stray :
      (w : Seen) → tally scenario_b w.trace ≡ fresh → stray scenario_b (first_a w).trace ≡ 0
  pub change_a : (w : Seen) → timed scenario_a (first_b w).trace ≡ timed scenario_a w.trace
  pub change_stray : (w : Seen) → stray scenario_a (first_b w).trace ≡ stray scenario_a w.trace
  pub change_b :
      (w : Seen) → nb + timed scenario_b (first_b w).trace ≡ 50000 + timed scenario_b w.trace
  pub change_b_stray : (w : Seen) → stray scenario_b (first_b w).trace ≡ stray scenario_b w.trace

module _ (b : Board) (strays na nb : ℕ) (turn_a turn_b first_a first_b : Seen → Seen)
    (c : Counted b strays na nb turn_a turn_b first_a first_b) where
  module _ (w : Seen) (fa : tally scenario_a w.trace ≡ fresh)
      (fb : tally scenario_b w.trace ≡ fresh) where
    abbrev pub ends : List Mark
    ends = (iterate turn_b nb (first_b (iterate turn_a na (first_a w)))).trace

    timed_a-ends : timed scenario_a ends ≡ 50000
    timed_a-ends =
        timed-rounds_other b scenario_b turn_b c.same_b scenario_a refl refl nb
          (first_b (iterate turn_a na (first_a w)))
        ∙ c.change_a (iterate turn_a na (first_a w))
        ∙ timed-rounds b scenario_a turn_a c.same_a na (first_a w)
        ∙ c.start_a w fa

    stray_a-ends : stray scenario_a ends ≡ strays
    stray_a-ends =
        stray-rounds_other b scenario_b turn_b c.same_b scenario_a refl refl nb
          (first_b (iterate turn_a na (first_a w)))
        ∙ c.change_stray (iterate turn_a na (first_a w))
        ∙ stray-rounds b scenario_a turn_a c.same_a na (first_a w)
        ∙ c.start_stray w fa

    timed_b-ends : timed scenario_b ends ≡ 50000
    timed_b-ends =
        timed-rounds b scenario_b turn_b c.same_b nb (first_b (iterate turn_a na (first_a w)))
        ∙ c.change_b (iterate turn_a na (first_a w))
        ∙ ap (λ (n : ℕ). 50000 + n)
            (timed-rounds_other b scenario_a turn_a c.same_a scenario_b refl refl na (first_a w)
              ∙ c.start_b w fb)

    stray_b-ends : stray scenario_b ends ≡ 0
    stray_b-ends =
        stray-rounds b scenario_b turn_b c.same_b nb (first_b (iterate turn_a na (first_a w)))
        ∙ c.change_b_stray (iterate turn_a na (first_a w))
        ∙ stray-rounds_other b scenario_a turn_a c.same_a scenario_b refl refl na (first_a w)
        ∙ c.start_b_stray w fb

    pub ends-Completed : Completed b strays (verdict b ends) ends
    ends-Completed = record {
      last_signal = verdict-no_outliers b ends;
      timed_a = timed_a-ends;
      stray_a = stray_a-ends;
      timed_b = timed_b-ends;
      stray_b = stray_b-ends;
    }

pub Then-viewed :
    {S : Type 0} (view : S → View) (P : System View → Type 0) (r : Option (System S))
    (z : System View)
    → map_option (viewed view) r ≡ some z
    → P z
    → Then (λ y. P (viewed view y)) r
Then-viewed view P none z e p = absurd (ground arith)
Then-viewed view P (some y) z e p = let d : viewed view y ≡ z = cc in subst P (sym d) p

-- Whoever runs it, a test with such a course and such counts ends completed, and stays so.
pub run-Completed :
    (b : Board) (limit : ℕ) (prio : Task → ℕ) (ranked : Ranked prio) (threads : Programs)
    (boots ra mid rb tail na nb strays : ℕ) (at_a at_b : ℕ → Seen → System View)
    (turn_a turn_b first_a first_b : Seen → Seen) (over : Seen → System View)
    (course : Course
      (machine b limit prio)
      threads
      boots
      ra
      mid
      rb
      tail
      na
      nb
      at_a
      at_b
      turn_a
      turn_b
      first_a
      first_b
      over)
    (counted : Counted b strays na nb turn_a turn_b first_a first_b)
    (over_signal : (w : Seen) → (over w).signalled ≡ verdict b w.trace)
    (over_trace : (w : Seen) → (over w).trace ≡ w.trace) {S : Type 0} (k : Kernel S)
    (view : S → View) (doc : KernelDoc k limit view) (next : Scheduler (System S))
    (rule : SchedulerDoc next) (y : System S) (booted : Booted view threads y) (m : ℕ)
    → Then
        (λ y'. Completed b strays y'.signalled y'.trace)
        (steps
          (λ y'. next (tasks b k prio y'))
          (boots + (na * ra + (mid + (nb * rb + (tail + m)))))
          y)
run-Completed b limit prio ranked threads boots ra mid rb tail na nb strays at_a at_b turn_a turn_b
      first_a first_b over course counted over_signal over_trace k view doc next rule y booted m =
    let n = boots + (na * ra + (mid + (nb * rb + (tail + m)))) in
    let w = seen view y in
    let u = iterate turn_b nb (first_b (iterate turn_a na (first_a w))) in
    Then-viewed view (λ v. Completed b strays v.signalled v.trace)
      (steps (λ y'. next (tasks b k prio y')) n y) (over u)
      (steps-viewed b limit k view doc prio ranked next rule n y
        ∙ ap (steps (machine b limit prio) n) (viewed-boot view threads y booted)
        ∙ Course-steps (machine b limit prio) threads boots ra mid rb tail na nb at_a at_b turn_a
            turn_b first_a first_b over course m (view y.kernel).events w)
      (subst (λ s. Completed b strays s (over u).trace) (sym (over_signal u))
        (subst (λ t. Completed b strays (verdict b u.trace) t) (sym (over_trace u))
          (ends-Completed b strays na nb turn_a turn_b first_a first_b counted w booted.a_fresh
            booted.b_fresh)))
