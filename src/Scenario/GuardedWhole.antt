-- ===== src/Scenario/GuardedWhole.antt =====
-- A whole test whose two loops end when their series are complete.
use zephyr_kernel_bm_tuc_hms.Prelude.{ℕ, ◌+◌, ◌*◌, ◌≡◌, refl, sym, ap, ◌∙◌, arith, Option, some}
use mathlib.Core.Path.{subst}
use zephyr_kernel_bm_tuc_hms.Itc.Kernel.{Scheduler, SchedulerDoc}
use zephyr_kernel_bm_tuc_hms.Itc.Handover.States.{Then}
use zephyr_kernel_bm_tuc_hms.Scenario.Kernel.{Task, Kernel, View}
use zephyr_kernel_bm_tuc_hms.Scenario.Doc.{KernelDoc}
use zephyr_kernel_bm_tuc_hms.Scenario.Program.{Board, System, tasks, scenario_a, scenario_b}
use zephyr_kernel_bm_tuc_hms.Scenario.Run.{steps, iterate, steps-after, steps-still}
use zephyr_kernel_bm_tuc_hms.Scenario.Refine.{viewed, Ranked, machine, steps-viewed}
use zephyr_kernel_bm_tuc_hms.Scenario.Tally.{tally, timed, stray}
use zephyr_kernel_bm_tuc_hms.Scenario.Rounds.{Seen, timed-rounds_other, stray-rounds_other}
use zephyr_kernel_bm_tuc_hms.Scenario.Whole.{fresh, verdict, Completed}
use zephyr_kernel_bm_tuc_hms.Scenario.Complete.{Counted, ends-Completed, Then-viewed}
use zephyr_kernel_bm_tuc_hms.Scenario.Guarded.{CountsSamples, GuardedLoop, steps-guarded}

-- How the documented machine goes through the parts of such a test.
pub record GuardedCourse (b : Board) (f : System View → Option (System View))
    (boots ra qa mid rb qb tail : ℕ) (start at_a out_a at_b out_b over : Seen → System View)
    (turn_a turn_b first second : Seen → Seen) : Type 0 where
  pub to_a : (w : Seen) → steps f boots (start w) ≡ some (at_a (first w))
  pub loop_a : GuardedLoop b f scenario_a ra qa at_a out_a turn_a
  pub to_b : (w : Seen) → steps f mid (out_a w) ≡ some (at_b (second w))
  pub loop_b : GuardedLoop b f scenario_b rb qb at_b out_b turn_b
  pub to_end : (w : Seen) → steps f tail (out_b w) ≡ some (over w)
  pub for_ever : (w : Seen) → f (over w) ≡ some (over w)
  pub first_quiet : (w : Seen) → (first w).trace ≡ w.trace
  pub second_quiet : (w : Seen) → (second w).trace ≡ w.trace
  pub over_signal : (w : Seen) → (over w).signalled ≡ verdict b w.trace
  pub over_trace : (w : Seen) → (over w).trace ≡ w.trace

module _ (b : Board) (f : System View → Option (System View)) (boots ra qa mid rb qb tail : ℕ)
    (start at_a out_a at_b out_b over : Seen → System View)
    (turn_a turn_b first second : Seen → Seen)
    (c : GuardedCourse b f boots ra qa mid rb qb tail start at_a out_a at_b out_b over turn_a turn_b
      first second) where
  abbrev closing : Seen → Seen
  closing w = iterate turn_b 50000 (second (iterate turn_a 50000 (first w)))

  GuardedCourse-Counted : Counted b 0 50000 50000 turn_a turn_b first second
  unfolding timed stray
  GuardedCourse-Counted = record {
    same_a = c.loop_a.takes;
    same_b = c.loop_b.takes;
    start_a = λ w h.
        ap (λ t. 50000 + timed scenario_a t) (c.first_quiet w)
        ∙ ap (λ t. 50000 + t.timed_samples) h;
    start_stray = λ w h. ap (stray scenario_a) (c.first_quiet w) ∙ ap (λ t. t.stray_samples) h;
    start_b = λ w h. ap (timed scenario_b) (c.first_quiet w) ∙ ap (λ t. t.timed_samples) h;
    start_b_stray = λ w h. ap (stray scenario_b) (c.first_quiet w) ∙ ap (λ t. t.stray_samples) h;
    change_a = λ w. ap (timed scenario_a) (c.second_quiet w);
    change_stray = λ w. ap (stray scenario_a) (c.second_quiet w);
    change_b = λ w. ap (λ t. 50000 + timed scenario_b t) (c.second_quiet w);
    change_b_stray = λ w. ap (stray scenario_b) (c.second_quiet w);
  }

  module _ (counts : CountsSamples b) (w : Seen) (fa : tally scenario_a w.trace ≡ fresh)
      (fb : tally scenario_b w.trace ≡ fresh) where
    abbrev between : Seen
    between = second (iterate turn_a 50000 (first w))

    timed_b-between : timed scenario_b between.trace ≡ 0
    timed_b-between =
        ap (timed scenario_b) (c.second_quiet (iterate turn_a 50000 (first w)))
        ∙ timed-rounds_other b scenario_a turn_a c.loop_a.takes scenario_b refl refl 50000 (first w)
        ∙ GuardedCourse-Counted.start_b w fb

    stray_b-between : stray scenario_b between.trace ≡ 0
    stray_b-between =
        ap (stray scenario_b) (c.second_quiet (iterate turn_a 50000 (first w)))
        ∙ stray-rounds_other b scenario_a turn_a c.loop_a.takes scenario_b refl refl 50000 (first w)
        ∙ GuardedCourse-Counted.start_b_stray w fb

    pub GuardedCourse-steps :
        (m : ℕ)
        → steps f (boots + ((49999 * ra + qa) + (mid + ((49999 * rb + qb) + (tail + m))))) (start w)
          ≡ some (over (closing w))
    GuardedCourse-steps m =
        steps-after f boots ((49999 * ra + qa) + (mid + ((49999 * rb + qb) + (tail + m)))) _ _
          (c.to_a w)
        ∙ steps-after f (49999 * ra + qa) (mid + ((49999 * rb + qb) + (tail + m))) _ _ (
            steps-guarded b f scenario_a ra qa at_a out_a turn_a c.loop_a counts 49999 (first w)
              (GuardedCourse-Counted.start_stray w fa)
              (omega (arith, GuardedCourse-Counted.start_a w fa)))
        ∙ steps-after f mid ((49999 * rb + qb) + (tail + m)) _ _
            (c.to_b (iterate turn_a 50000 (first w)))
        ∙ steps-after f (49999 * rb + qb) (tail + m) _ _ (
            steps-guarded b f scenario_b rb qb at_b out_b turn_b c.loop_b counts 49999 between
              stray_b-between (ap (λ (n : ℕ). n + 50000) timed_b-between))
        ∙ steps-after f tail m _ _ (c.to_end (closing w))
        ∙ steps-still f m _ (c.for_ever (closing w))

-- Whoever runs it, a test with such a course ends completed, and stays so.
pub run-GuardedCompleted :
    (b : Board) (limit : ℕ) (prio : Task → ℕ) (ranked : Ranked prio)
    (boots ra qa mid rb qb tail : ℕ) (start at_a out_a at_b out_b over : Seen → System View)
    (turn_a turn_b first second : Seen → Seen)
    (c : GuardedCourse b
      (machine b limit prio)
      boots
      ra
      qa
      mid
      rb
      qb
      tail
      start
      at_a
      out_a
      at_b
      out_b
      over
      turn_a
      turn_b
      first
      second)
    (counts : CountsSamples b) {S : Type 0} (k : Kernel S) (view : S → View)
    (doc : KernelDoc k limit view) (next : Scheduler (System S)) (rule : SchedulerDoc next)
    (y : System S) (w : Seen) (starts : viewed view y ≡ start w)
    (fa : tally scenario_a w.trace ≡ fresh) (fb : tally scenario_b w.trace ≡ fresh) (m : ℕ)
    → Then
        (λ y'. Completed b 0 y'.signalled y'.trace)
        (steps
          (λ y'. next (tasks b k prio y'))
          (boots + ((49999 * ra + qa) + (mid + ((49999 * rb + qb) + (tail + m)))))
          y)
run-GuardedCompleted b limit prio ranked boots ra qa mid rb qb tail start at_a out_a at_b out_b over
      turn_a turn_b first second c counts k view doc next rule y w starts fa fb m =
    let f = machine b limit prio in
    let n = boots + ((49999 * ra + qa) + (mid + ((49999 * rb + qb) + (tail + m)))) in
    let u = iterate turn_b 50000 (second (iterate turn_a 50000 (first w))) in
    let counted =
      GuardedCourse-Counted b f boots ra qa mid rb qb tail start at_a out_a at_b out_b over turn_a
        turn_b first second c in
    Then-viewed view (λ v. Completed b 0 v.signalled v.trace)
      (steps (λ y'. next (tasks b k prio y')) n y) (over u)
      (steps-viewed b limit k view doc prio ranked next rule n y
        ∙ ap (steps f n) starts
        ∙ GuardedCourse-steps b f boots ra qa mid rb qb tail start at_a out_a at_b out_b over turn_a
            turn_b first second c counts w fa fb m)
      (subst (λ s. Completed b 0 s (over u).trace) (sym (c.over_signal u))
        (subst (λ t. Completed b 0 (verdict b u.trace) t) (sym (c.over_trace u))
          (ends-Completed b 0 50000 50000 turn_a turn_b first second counted w fa fb)))
