-- ===== src/Itc/Sync/Complete.antt =====
-- From the course of a synchronous test on the documented machine to what it leaves over any kernel
-- that does what is documented.
use zephyr_kernel_bm_tuc_hms.Prelude.{ℕ, suc, ◌+◌, ◌*◌, ◌≤◌, sym, ap, ◌∙◌, List}
use mathlib.Core.Path.{subst}
use zephyr_kernel_bm_tuc_hms.Window.{Mark, Series}
use zephyr_kernel_bm_tuc_hms.Itc.Kernel.{Scheduler, SchedulerDoc}
use zephyr_kernel_bm_tuc_hms.Itc.Handover.{Direction}
use zephyr_kernel_bm_tuc_hms.Itc.Handover.States.{Then}
use zephyr_kernel_bm_tuc_hms.Scenario.Kernel.{Kernel, View}
use zephyr_kernel_bm_tuc_hms.Scenario.Doc.{KernelDoc}
use zephyr_kernel_bm_tuc_hms.Scenario.Program.{Board, Program, System, tasks}
use zephyr_kernel_bm_tuc_hms.Scenario.Run.{steps}
use zephyr_kernel_bm_tuc_hms.Scenario.Refine.{machine, steps-viewed}
use zephyr_kernel_bm_tuc_hms.Scenario.Rounds.{Seen}
use zephyr_kernel_bm_tuc_hms.Scenario.Whole.{seen}
use zephyr_kernel_bm_tuc_hms.Scenario.Complete.{Then-viewed}
use zephyr_kernel_bm_tuc_hms.Itc.Sync.{sync_priority, sync_priority-Ranked, sync_verdict}
use zephyr_kernel_bm_tuc_hms.Itc.Sync.Course.{
  Launched, SyncCompleted, viewed-launch, SyncCourse, final, SyncCourse-steps,
  verdict-no_sync_outliers, final-chosen, final-other,
}

module _ (b : Board) (limit : ℕ) (p : Program) (functions : ℕ → Program) (boots r mid tail : ℕ)
    (before : Direction → ℕ → ℕ → Seen → System View)
    (inside : Direction → ℕ → ℕ → ℕ → Seen → System View) (after : Direction → Seen → System View)
    (turn : Direction → ℕ → Seen → Seen) (first second : Seen → Seen) (over : Seen → System View)
    (c : SyncCourse b
      (machine b limit sync_priority)
      p
      functions
      boots
      r
      mid
      tail
      before
      inside
      after
      turn
      first
      second
      over) where
  final-SyncCompleted :
      (fits : (s : Series) (ms : List Mark) → b.outliers s ms ≤ 50000) (w : Seen)
      → let u =
          final b
            (machine b limit sync_priority)
            p
            functions
            boots
            r
            mid
            tail
            before
            inside
            after
            turn
            first
            second
            over
            c
            w in
        SyncCompleted b w.trace (sync_verdict b u.trace) u.trace
  final-SyncCompleted fits w =
      let f = machine b limit sync_priority in
      record {
        last_signal =
            verdict-no_sync_outliers b f p functions boots r mid tail before inside after turn first
              second over c fits _;
        all_chosen = λ m d step l.
            final-chosen b f p functions boots r mid tail before inside after turn first second over
              c m d step w l;
        none_other = λ m d step.
            final-other b f p functions boots r mid tail before inside after turn first second over
              c m d step w;
      }

  pub run-SyncCompleted :
      {S : Type 0} (k : Kernel S) (view : S → View) (doc : KernelDoc k limit view)
      (next : Scheduler (System S)) (rule : SchedulerDoc next)
      (fits : (s : Series) (ms : List Mark) → b.outliers s ms ≤ 50000) (y : System S)
      (launched : Launched view p functions y) (m : ℕ)
      → Then
          (λ y'. SyncCompleted b y.trace y'.signalled y'.trace)
          (steps
            (λ y'. next (tasks b k sync_priority y'))
            (boots + (9 * (1 + 50000 * r) + suc (mid + (9 * (1 + 50000 * r) + suc (tail + m)))))
            y)
  run-SyncCompleted k view doc next rule fits y launched m =
      let f = machine b limit sync_priority in
      let n = boots + (9 * (1 + 50000 * r) + suc (mid + (9 * (1 + 50000 * r) + suc (tail + m)))) in
      let w = seen view y in
      let u =
        final b f p functions boots r mid tail before inside after turn first second over c w in
      Then-viewed view (λ v. SyncCompleted b y.trace v.signalled v.trace)
        (steps (λ y'. next (tasks b k sync_priority y')) n y) (over u)
        (steps-viewed b limit k view doc sync_priority sync_priority-Ranked next rule n y
          ∙ ap (steps f n) (viewed-launch view p functions y launched)
          ∙ SyncCourse-steps b f p functions boots r mid tail before inside after turn first second
              over c m (view y.kernel).events w)
        (subst (λ s. SyncCompleted b y.trace s (over u).trace) (sym (c.over_signal u))
          (subst (λ t. SyncCompleted b y.trace (sync_verdict b u.trace) t) (sym (c.over_trace u))
            (final-SyncCompleted fits w)))
