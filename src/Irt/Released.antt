-- ===== src/Irt/Released.antt =====
-- A round of scenario_a of src/irt/time_interrupt_response.c where the handler releases A_Task_SA
-- (SA_RELEASE_RESUME, SA_RELEASE_SEM and SA_RELEASE_EVENT).
use zephyr_kernel_bm_tuc_hms.Prelude.{
  ℕ, suc, ◌≡◌, refl, arith, ◌∷◌, Option, some, List, true, ap, ◌∙◌,
}
use zephyr_kernel_bm_tuc_hms.Window.{Mark, concerns}
use zephyr_kernel_bm_tuc_hms.Itc.Kernel.{Scheduler, SchedulerDoc}
use zephyr_kernel_bm_tuc_hms.Itc.Handover.States.{Then}
use zephyr_kernel_bm_tuc_hms.Scenario.Kernel.{Kernel, View, Status, absent, ready, stopped}
use zephyr_kernel_bm_tuc_hms.Scenario.Doc.{KernelDoc}
use zephyr_kernel_bm_tuc_hms.Scenario.Program.{Call, Program, ◌⨾◌, System, Board, tasks, scenario_a}
use zephyr_kernel_bm_tuc_hms.Scenario.Run.{steps}
use zephyr_kernel_bm_tuc_hms.Scenario.Refine.{viewed, machine, steps-viewed}
use zephyr_kernel_bm_tuc_hms.Scenario.Rounds.{Seen}
use zephyr_kernel_bm_tuc_hms.Scenario.Tally.{
  tally, timed, stray, window, count_mark, follow, feeds_timed, feeds_any,
}
use zephyr_kernel_bm_tuc_hms.Scenario.Whole.{parked}
use zephyr_kernel_bm_tuc_hms.Scenario.Complete.{Then-viewed}
use zephyr_kernel_bm_tuc_hms.Irt.{
  Release, release_resume, release_sem, release_event, priority, a_task_sa, l_task_sa_loop,
  i_task_a, threads_at, signalize_done_event_mask,
}
use zephyr_kernel_bm_tuc_hms.Irt.Whole.{on_line, ranked}

-- The tests that create A_Task_SA.
pub data Releasing : Type 0 where
  by_resume : Releasing
  by_sem : Releasing
  by_event : Releasing

abbrev pub release_of : Releasing → Release
release_of by_resume = release_resume
release_of by_sem = release_sem
release_of by_event = release_event

-- How A_Task_SA waits for its release.
abbrev a_status : Releasing → Status
a_status by_resume = stopped
a_status by_sem = ready
a_status by_event = ready

abbrev a_left : Releasing → Program
a_left by_resume =
    Call.get_stop_cnt
    ⨾ Call.mseries_iterate scenario_a
    ⨾ Call.mwindow_close scenario_a
    ⨾ a_task_sa release_resume
a_left by_sem = a_task_sa release_sem
a_left by_event = a_task_sa release_event

-- L_Task_SA is at `l`, A_Task_SA waits.
abbrev pub waiting_at : Releasing → Program → Seen → System View
waiting_at t l w =
    parked 0 0 ready (a_status t) ready absent
      (threads_at (release_of t) (a_left t) l (i_task_a (release_of t))) Option.none
      (on_line true w)

-- L_Task_SA at its test of iteration_count.
abbrev pub at_test : Program
at_test =
    Call.skip_unless_counted scenario_a 2
    ⨾ Call.event_post signalize_done_event_mask
    ⨾ Call.suspend_self
    ⨾ l_task_sa_loop

-- What a round does: A_Task_SA takes the sample, L_Task_SA feeds the same two values again.
abbrev fed_twice : Board → Seen → Seen
fed_twice b w =
    let ms = Mark.reset ∷ Mark.opened scenario_a ∷ w.trace in
    let x = b.counter ms in
    let z = b.counter (Mark.start x ∷ ms) in
    record w {
      last_start = x;
      last_stop = z;
      trace = Mark.closed scenario_a ∷ Mark.fed scenario_a x z ∷ window scenario_a x z w.trace;
    }

timed_again :
    (x z : ℕ) (ms : List Mark)
    → timed scenario_a (Mark.closed scenario_a ∷ Mark.fed scenario_a x z ∷ window scenario_a x z ms)
      ≡ suc (timed scenario_a ms)
unfolding timed tally count_mark concerns follow feeds_timed
timed_again x z ms = ground arith

stray_again :
    (x z : ℕ) (ms : List Mark)
    → stray scenario_a (Mark.closed scenario_a ∷ Mark.fed scenario_a x z ∷ window scenario_a x z ms)
      ≡ suc (stray scenario_a ms)
unfolding stray tally count_mark concerns follow feeds_timed feeds_any
stray_again x z ms = ground arith

round :
    (b : Board) (t : Releasing) (w : Seen)
    → steps (machine b 1 priority) 12 (waiting_at t l_task_sa_loop w)
      ≡ some (waiting_at t at_test (fed_twice b w))
unfolding steps
round b by_resume w = refl
round b by_sem w = refl
round b by_event w = refl

-- Where A_Task_SA is released by the handler, through k_thread_resume(), test_sem or test_release_event: from
-- L_Task_SA at the head of its loop and A_Task_SA waiting for its release, after 12 calls L_Task_SA is at its test of
-- iteration_count, and scenario_a has one sample more with the two captures of its window, and one
-- more value that was fed outside of its window. This holds of every kernel that does what is
-- documented and every scheduler that follows Zephyr's rule.
pub released_round-stray :
    (b : Board) (t : Releasing) {S : Type 0} (k : Kernel S) (view : S → View)
    (doc : KernelDoc k 1 view) (next : Scheduler (System S)) (rule : SchedulerDoc next)
    (y : System S) (w : Seen) (starts : viewed view y ≡ waiting_at t l_task_sa_loop w)
    → Then
        (λ y'.
          (y'.programs.left_3 ≡ at_test)
          × (timed scenario_a y'.trace ≡ suc (timed scenario_a w.trace))
          × (stray scenario_a y'.trace ≡ suc (stray scenario_a w.trace)))
        (steps (λ y'. next (tasks b k priority y')) 12 y)
released_round-stray b t k view doc next rule y w starts =
    Then-viewed view
      (λ v.
        (v.programs.left_3 ≡ at_test)
        × (timed scenario_a v.trace ≡ suc (timed scenario_a w.trace))
        × (stray scenario_a v.trace ≡ suc (stray scenario_a w.trace)))
      (steps (λ y'. next (tasks b k priority y')) 12 y) (waiting_at t at_test (fed_twice b w))
      (steps-viewed b 1 k view doc priority ranked next rule 12 y
        ∙ ap (steps (machine b 1 priority) 12) starts
        ∙ round b t w)
      (refl, timed_again _ _ w.trace, stray_again _ _ w.trace)
