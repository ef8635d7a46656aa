-- ===== src/Itc/Async/Course.antt =====
-- A whole asynchronous test of src/itc/pipe or src/itc/mailbox: from the start of I_Task through the sweeps of
-- its three phases to the signals at the end.
use zephyr_kernel_bm_tuc_hms.Prelude.{ℕ, suc, ◌+◌, ◌*◌, ◌<◌, ◌≡◌, sym, ap, ◌∙◌, arith, Option, some}
use mathlib.Core.Path.{subst}
use zephyr_kernel_bm_tuc_hms.Itc.Kernel.{Scheduler, SchedulerDoc}
use zephyr_kernel_bm_tuc_hms.Itc.Handover.{up, down}
use zephyr_kernel_bm_tuc_hms.Itc.Handover.States.{Then}
use zephyr_kernel_bm_tuc_hms.Scenario.Kernel.{Kernel, View}
use zephyr_kernel_bm_tuc_hms.Scenario.Doc.{KernelDoc}
use zephyr_kernel_bm_tuc_hms.Scenario.Program.{Board, Program, System, tasks}
use zephyr_kernel_bm_tuc_hms.Scenario.Run.{steps, steps-after, steps-still}
use zephyr_kernel_bm_tuc_hms.Scenario.Refine.{machine, steps-viewed}
use zephyr_kernel_bm_tuc_hms.Scenario.Rounds.{Seen, sample}
use zephyr_kernel_bm_tuc_hms.Scenario.Whole.{seen}
use zephyr_kernel_bm_tuc_hms.Scenario.Complete.{Then-viewed}
use zephyr_kernel_bm_tuc_hms.Scenario.Sweep.{Sweeping, swept, steps-sweep}
use zephyr_kernel_bm_tuc_hms.Scenario.Tally.{timed, stray}
use zephyr_kernel_bm_tuc_hms.Itc.Sync.{sync_priority, sync_priority-Ranked}
use zephyr_kernel_bm_tuc_hms.Itc.Sync.Course.{Launched, launch, viewed-launch}
use zephyr_kernel_bm_tuc_hms.Itc.Async.{Phase, to_self, toward, phase_series}
use zephyr_kernel_bm_tuc_hms.Itc.Async.Outcome.{
  async_verdict, AsyncCompleted, async_verdict-mseries_stop, gained, timed-gained, stray-gained,
}

-- How the documented machine goes through the parts of a test.
pub record AsyncCourse (b : Board) (f : System View → Option (System View)) (p : Program)
    (functions : ℕ → Program) (boots rs rd mid_1 mid_2 tail : ℕ)
    (before : Phase → ℕ → ℕ → Seen → System View) (inside : Phase → ℕ → ℕ → ℕ → Seen → System View)
    (after : Phase → Seen → System View) (turn : Phase → ℕ → Seen → Seen)
    (first second third : Seen → Seen) (over : Seen → System View) : Type 0 where
  pub to_start :
      (e : ℕ) (w : Seen)
      → steps f boots (launch p functions e w) ≡ some (before to_self 9 0 (first w))
  pub sweeping_self : Sweeping f rs (before to_self) (inside to_self) (after to_self) (turn to_self)
  pub to_up :
      (w : Seen) → steps f (suc mid_1) (after to_self w) ≡ some (before (toward up) 9 0 (second w))
  pub sweeping_up :
      Sweeping f rd (before (toward up)) (inside (toward up)) (after (toward up)) (turn (toward up))
  pub to_down :
      (w : Seen)
      → steps f (suc mid_2) (after (toward up) w) ≡ some (before (toward down) 9 0 (third w))
  pub sweeping_down :
      Sweeping f rd
        (before (toward down))
        (inside (toward down))
        (after (toward down))
        (turn (toward down))
  pub to_end : (w : Seen) → steps f (suc tail) (after (toward down) w) ≡ some (over w)
  pub for_ever : (w : Seen) → f (over w) ≡ some (over w)
  pub takes :
      (ph : Phase) (i : ℕ) (w : Seen) → (turn ph i w).trace ≡ (sample b (phase_series ph i) w).trace
  pub first_quiet : (w : Seen) → (first w).trace ≡ w.trace
  pub second_quiet : (w : Seen) → (second w).trace ≡ w.trace
  pub third_quiet : (w : Seen) → (third w).trace ≡ w.trace
  pub over_signal : (w : Seen) → (over w).signalled ≡ async_verdict b w.trace
  pub over_trace : (w : Seen) → (over w).trace ≡ w.trace

module _ (b : Board) (limit : ℕ) (p : Program) (functions : ℕ → Program)
    (boots rs rd mid_1 mid_2 tail : ℕ) (before : Phase → ℕ → ℕ → Seen → System View)
    (inside : Phase → ℕ → ℕ → ℕ → Seen → System View) (after : Phase → Seen → System View)
    (turn : Phase → ℕ → Seen → Seen) (first second third : Seen → Seen) (over : Seen → System View)
    (c : AsyncCourse b
      (machine b limit sync_priority)
      p
      functions
      boots
      rs
      rd
      mid_1
      mid_2
      tail
      before
      inside
      after
      turn
      first
      second
      third
      over) where
  abbrev self_end : Seen → Seen
  self_end w = swept (turn to_self) 9 0 (first w)

  abbrev up_end : Seen → Seen
  up_end w = swept (turn (toward up)) 9 0 (second (self_end w))

  abbrev down_end : Seen → Seen
  down_end w = swept (turn (toward down)) 9 0 (third (up_end w))

  abbrev pub async_calls : ℕ → ℕ
  async_calls m =
      boots
      + (9 * (1 + 50000 * rs)
          + suc (
              mid_1
              + (9 * (1 + 50000 * rd) + suc (mid_2 + (9 * (1 + 50000 * rd) + suc (tail + m))))))

  AsyncCourse-steps :
      (m e : ℕ) (w : Seen)
      → steps (machine b limit sync_priority) (async_calls m) (launch p functions e w)
        ≡ some (over (down_end w))
  AsyncCourse-steps m e w =
      let f = machine b limit sync_priority in
      let s = 9 * (1 + 50000 * rs) in
      let d = 9 * (1 + 50000 * rd) in
      let x = d + suc (tail + m) in
      let y = d + suc (mid_2 + x) in
      let g : suc (mid_1 + y) ≡ suc mid_1 + y = omega arith in
      let h : suc (mid_2 + x) ≡ suc mid_2 + x = omega arith in
      let i : suc (tail + m) ≡ suc tail + m = omega arith in
      steps-after f boots (s + suc (mid_1 + y)) _ _ (c.to_start e w)
      ∙ steps-sweep f rs (before to_self) (inside to_self) (after to_self) (turn to_self)
          c.sweeping_self 9 0 (mid_1 + y) (first w) (omega arith)
      ∙ ap (λ n. steps f n (after to_self (self_end w))) g
      ∙ steps-after f (suc mid_1) y _ _ (c.to_up (self_end w))
      ∙ steps-sweep f rd (before (toward up)) (inside (toward up)) (after (toward up))
          (turn (toward up)) c.sweeping_up 9 0 (mid_2 + x) (second (self_end w)) (omega arith)
      ∙ ap (λ n. steps f n (after (toward up) (up_end w))) h
      ∙ steps-after f (suc mid_2) x _ _ (c.to_down (up_end w))
      ∙ steps-sweep f rd (before (toward down)) (inside (toward down)) (after (toward down))
          (turn (toward down)) c.sweeping_down 9 0 (tail + m) (third (up_end w)) (omega arith)
      ∙ ap (λ n. steps f n (after (toward down) (down_end w))) i
      ∙ steps-after f (suc tail) m _ _ (c.to_end (down_end w))
      ∙ steps-still f m _ (c.for_ever (down_end w))

  gained_sum :
      (ph : Phase) (n : ℕ)
      → gained ph (toward down) + (gained ph (toward up) + (gained ph to_self + n)) ≡ 50000 + n
  gained_sum to_self n = omega arith
  gained_sum (toward up) n = omega arith
  gained_sum (toward down) n = omega arith

  timed-down_end :
      (ph : Phase) (j : ℕ) (w : Seen)
      → j < 9
      → timed (phase_series ph j) (down_end w).trace ≡ 50000 + timed (phase_series ph j) w.trace
  timed-down_end ph j w l =
      let count = timed (phase_series ph j) in
      timed-gained b turn c.takes ph (toward down) j (third (up_end w)) l
      ∙ ap (λ t. gained ph (toward down) + count t) (c.third_quiet (up_end w))
      ∙ ap (λ (n : ℕ). gained ph (toward down) + n)
          (timed-gained b turn c.takes ph (toward up) j (second (self_end w)) l
            ∙ ap (λ t. gained ph (toward up) + count t) (c.second_quiet (self_end w))
            ∙ ap (λ (n : ℕ). gained ph (toward up) + n)
                (timed-gained b turn c.takes ph to_self j (first w) l
                  ∙ ap (λ t. gained ph to_self + count t) (c.first_quiet w)))
      ∙ gained_sum ph (count w.trace)

  stray-down_end :
      (ph : Phase) (j : ℕ) (w : Seen)
      → stray (phase_series ph j) (down_end w).trace ≡ stray (phase_series ph j) w.trace
  stray-down_end ph j w =
      let count = stray (phase_series ph j) in
      stray-gained b turn c.takes ph (toward down) j (third (up_end w))
      ∙ ap count (c.third_quiet (up_end w))
      ∙ stray-gained b turn c.takes ph (toward up) j (second (self_end w))
      ∙ ap count (c.second_quiet (self_end w))
      ∙ stray-gained b turn c.takes ph to_self j (first w)
      ∙ ap count (c.first_quiet w)

  -- Whoever runs it, a test with such a course ends completed, and stays so.
  pub run-AsyncCompleted :
      {S : Type 0} (k : Kernel S) (view : S → View) (doc : KernelDoc k limit view)
      (next : Scheduler (System S)) (rule : SchedulerDoc next) (y : System S)
      (launched : Launched view p functions y) (m : ℕ)
      → Then
          (λ y'. AsyncCompleted b y.trace y'.signalled y'.trace)
          (steps (λ y'. next (tasks b k sync_priority y')) (async_calls m) y)
  run-AsyncCompleted k view doc next rule y launched m =
      let w = seen view y in
      let u = down_end w in
      Then-viewed view (λ v. AsyncCompleted b y.trace v.signalled v.trace)
        (steps (λ y'. next (tasks b k sync_priority y')) (async_calls m) y) (over u)
        (steps-viewed b limit k view doc sync_priority sync_priority-Ranked next rule
            (async_calls m) y
          ∙ ap (steps (machine b limit sync_priority) (async_calls m))
              (viewed-launch view p functions y launched)
          ∙ AsyncCourse-steps m (view y.kernel).events w)
        (subst (λ s. AsyncCompleted b y.trace s (over u).trace) (sym (c.over_signal u))
          (subst (λ t. AsyncCompleted b y.trace (async_verdict b u.trace) t) (sym (c.over_trace u))
            (record {
              last_signal = async_verdict-mseries_stop b u.trace;
              every_timed = λ ph j l. timed-down_end ph j w l;
              no_stray = λ ph j. stray-down_end ph j w;
            })))
