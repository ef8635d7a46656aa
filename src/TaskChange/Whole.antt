-- ===== src/TaskChange/Whole.antt =====
-- The whole run of src/task_switching/task_change/time_task_switch.c.
use zephyr_kernel_bm_tuc_hms.Prelude.{
  ℕ, zero, suc, ◌+◌, ◌*◌, ◌<◌, ◌≡◌, sym, ap, ◌∙◌, arith, [], ◌∷◌, Option, none, some,
}
use mathlib.Core.Path.{subst}
use zephyr_kernel_bm_tuc_hms.Itc.Handover.States.{Then}
use zephyr_kernel_bm_tuc_hms.Scenario.Doc.{map_option}
use zephyr_kernel_bm_tuc_hms.Scenario.Program.{Board, scenario_a, scenario_b}
use zephyr_kernel_bm_tuc_hms.Scenario.Run.{steps, steps-after, steps-still, iterate}
use zephyr_kernel_bm_tuc_hms.Scenario.Tally.{tally, timed, stray}
use zephyr_kernel_bm_tuc_hms.Scenario.Whole.{fresh, verdict, verdict-no_outliers, Completed}
use zephyr_kernel_bm_tuc_hms.Scenario.Guarded.{CountsSamples}
use zephyr_kernel_bm_tuc_hms.TaskChange.Ready.{
  idle_thread, WakeOrder, oldest_first, newest_first, Kernel, KernelDoc, View,
}
use zephyr_kernel_bm_tuc_hms.TaskChange.Tasks.{System, threads, next_state}
use zephyr_kernel_bm_tuc_hms.TaskChange.Refine.{viewed, steps-viewed}
use zephyr_kernel_bm_tuc_hms.TaskChange.States.{
  Held, at_start, at_a, at_b, out_b, over, shut_by, begun,
}
use zephyr_kernel_bm_tuc_hms.TaskChange.Turns.{f, to_a, to_a_reversed, to_b_0, to_b, for_ever}
use zephyr_kernel_bm_tuc_hms.TaskChange.Counts.{
  turn_a, turn_b, timed-turn_a, stray-turn_a, timed-turn_b, stray-turn_b, timed_b-rounds_a,
  stray_b-rounds_a, timed_a-rounds_b, stray_a-rounds_b, raised, kept, timed-shut_by, stray-shut_by,
  timed-begun, stray-begun,
}
use zephyr_kernel_bm_tuc_hms.TaskChange.Loops.{
  round_calls, last_calls, left_a, loop_a, loop_b, passes,
}

-- I_Task is about to run, alone, and nothing was fed to either scenario yet; `n` is DUMMY_TASKS_COUNT.
pub record Started {S : Type 0} (view : S → View) (n : ℕ) (y : System S) : Type 0 where
  pub alone : (view y.kernel).queue ≡ idle_thread ∷ []
  pub nobody_waits : (view y.kernel).waiters ≡ []
  pub of_programs : y.programs ≡ threads n
  pub no_signal : y.signalled ≡ none
  pub a_fresh : tally scenario_a y.trace ≡ fresh
  pub b_fresh : tally scenario_b y.trace ≡ fresh

abbrev pub held : {S : Type 0} → System S → Held
held y = record { last_start = y.test_start_time; last_stop = y.test_stop_time; trace = y.trace }

pub viewed-start :
    {S : Type 0} (view : S → View) (n : ℕ) (y : System S)
    → Started view n y
    → viewed view y ≡ at_start n (view y.kernel).events (held y)
viewed-start view n y h = λ i. record {
  kernel = record {
    queue = h.alone i;
    waiters = h.nobody_waits i;
    events = (view y.kernel).events;
  };
  programs = h.of_programs i;
  test_start_time = y.test_start_time;
  test_stop_time = y.test_stop_time;
  signalled = h.no_signal i;
  trace = y.trace;
}

pub Then-viewed :
    {S : Type 0} (view : S → View) (P : System View → Type 0) (r : Option (System S))
    (z : System View)
    → map_option (viewed view) r ≡ some z
    → P z
    → Then (λ y. P (viewed view y)) r
Then-viewed view P none z e p = absurd (ground arith)
Then-viewed view P (some y) z e p = let d : viewed view y ≡ z = cc in subst P (sym d) p

-- The calls from the first round of S_A to the signal, and `m` more.
abbrev rounds_calls : ℕ → ℕ → ℕ
rounds_calls n m = (49999 * round_calls n + last_calls n) + ((n + 3) + ((49999 * 8 + 9) + suc m))

change :
    (b : Board) (o : WakeOrder) (n : ℕ) (w : Held)
    → n < 5
    → steps (f b o) (n + 3) (left_a n w) ≡ some (at_b n w)
change b o zero w u = to_b_0 b o w
change b o (suc n) w u =
    let g : suc n + 3 ≡ n + 4 = omega arith in rw g (to_b b o n w (omega arith))

signals :
    (b : Board) (o : WakeOrder) (n : ℕ) (w : Held) (m : ℕ)
    → steps (f b o) (suc m) (out_b n w) ≡ some (over n (verdict b w.trace) w)
unfolding steps
signals b o n w m = steps-still (f b o) m _ (for_ever b o n w)

-- Nothing was fed to either series.
pub record Unfed (w : Held) : Type 0 where
  pub timed_a : timed scenario_a w.trace ≡ 0
  pub stray_a : stray scenario_a w.trace ≡ 0
  pub timed_b : timed scenario_b w.trace ≡ 0
  pub stray_b : stray scenario_b w.trace ≡ 0

fresh-Unfed :
    (w : Held) → tally scenario_a w.trace ≡ fresh → tally scenario_b w.trace ≡ fresh → Unfed w
unfolding timed stray
fresh-Unfed w fa fb = record {
  timed_a = ap (λ t. t.timed_samples) fa;
  stray_a = ap (λ t. t.stray_samples) fa;
  timed_b = ap (λ t. t.timed_samples) fb;
  stray_b = ap (λ t. t.stray_samples) fb;
}

begun-Unfed : (b : Board) (w : Held) → Unfed w → Unfed (begun b w)
begun-Unfed b w h = record {
  timed_a = timed-begun b scenario_a w ∙ h.timed_a;
  stray_a = stray-begun b scenario_a w ∙ h.stray_a;
  timed_b = timed-begun b scenario_b w ∙ h.timed_b;
  stray_b = stray-begun b scenario_b w ∙ h.stray_b;
}

shut_by-Unfed : (n : ℕ) (w : Held) → Unfed w → Unfed (shut_by n w)
shut_by-Unfed n w h = record {
  timed_a = timed-shut_by scenario_a n w ∙ h.timed_a;
  stray_a = stray-shut_by scenario_a n w ∙ h.stray_a;
  timed_b = timed-shut_by scenario_b n w ∙ h.timed_b;
  stray_b = stray-shut_by scenario_b n w ∙ h.stray_b;
}

-- From the first round of S_A on.
module _ (b : Board) (counts : CountsSamples b) (o : WakeOrder) (n : ℕ) (u : n < 5) (w : Held)
    (unfed : Unfed w) where
  abbrev after_a : Held
  after_a = iterate (turn_a b n) 50000 w

  abbrev after_b : Held
  after_b = iterate (turn_b b) 50000 after_a

  stray_b-between : stray scenario_b after_a.trace ≡ 0
  stray_b-between = stray_b-rounds_a b n 50000 w ∙ unfed.stray_b

  timed_b-between : timed scenario_b after_a.trace ≡ 0
  timed_b-between = timed_b-rounds_a b n 50000 w ∙ unfed.timed_b

  steps-over :
      (m : ℕ)
      → steps (f b o) (rounds_calls n m) (at_a n w)
        ≡ some (over n (verdict b after_b.trace) after_b)
  steps-over m =
      let x = (49999 * 8 + 9) + suc m in
      steps-after (f b o) (49999 * round_calls n + last_calls n) ((n + 3) + x) _ _
        (loop_a b counts o n w u unfed.stray_a unfed.timed_a)
      ∙ steps-after (f b o) (n + 3) x _ _ (change b o n after_a u)
      ∙ steps-after (f b o) (49999 * 8 + 9) (suc m) _ _
          (loop_b b counts o n after_a stray_b-between timed_b-between)
      ∙ signals b o n after_b m

  after_b-Completed : Completed b 0 (verdict b after_b.trace) after_b.trace
  after_b-Completed = record {
    last_signal = verdict-no_outliers b after_b.trace;
    timed_a =
        timed_a-rounds_b b 50000 after_a
        ∙ raised (turn_a b n) (λ w. timed scenario_a w.trace) (timed-turn_a b n) 50000 w
        ∙ ap (λ (k : ℕ). 50000 + k) unfed.timed_a;
    stray_a =
        stray_a-rounds_b b 50000 after_a
        ∙ kept (turn_a b n) (λ w. stray scenario_a w.trace) (stray-turn_a b n) 50000 w
        ∙ unfed.stray_a;
    timed_b =
        raised (turn_b b) (λ w. timed scenario_b w.trace) (timed-turn_b b) 50000 after_a
        ∙ ap (λ (k : ℕ). 50000 + k) timed_b-between;
    stray_b =
        kept (turn_b b) (λ w. stray scenario_b w.trace) (stray-turn_b b) 50000 after_a
        ∙ stray_b-between;
  }

  -- A run that reaches the first round has the whole test behind it.
  reached-Completed :
      (c m : ℕ) {S : Type 0} (k : Kernel S) (view : S → View) (doc : KernelDoc k o view)
      (y : System S) (started : Started view n y)
      → steps (f b o) c (at_start n (view y.kernel).events (held y)) ≡ some (at_a n w)
      → Then
          (λ y'. Completed b 0 y'.signalled y'.trace)
          (steps (next_state b k) (c + rounds_calls n m) y)
  reached-Completed c m k view doc y started r =
      Then-viewed view (λ v. Completed b 0 v.signalled v.trace)
        (steps (next_state b k) (c + rounds_calls n m) y) (over n (verdict b after_b.trace) after_b)
        (steps-viewed b o k view doc (c + rounds_calls n m) y
          ∙ ap (steps (f b o) (c + rounds_calls n m)) (viewed-start view n y started)
          ∙ steps-after (f b o) c (rounds_calls n m) _ _ r
          ∙ steps-over m)
        after_b-Completed

-- The calls in front of the first round, and what they leave, without dummies: where L_Task_SA is the first to
-- run, it has begun a window in front of H_Task_SA's first k_yield().
abbrev pub boot_calls : WakeOrder → ℕ
boot_calls oldest_first = 11
boot_calls newest_first = 7

abbrev boot_window : WakeOrder → Board → Held → Held
boot_window oldest_first b w = begun b w
boot_window newest_first b w = w

boots :
    (b : Board) (o : WakeOrder) (e : ℕ) (w : Held)
    → steps (f b o) (boot_calls o) (at_start 0 e w) ≡ some (at_a 0 (boot_window o b w))
boots b oldest_first e w = to_a b 0 e w (omega arith)
boots b newest_first e w = to_a_reversed b e w

boot_window-Unfed : (b : Board) (o : WakeOrder) (w : Held) → Unfed w → Unfed (boot_window o b w)
boot_window-Unfed b oldest_first w h = begun-Unfed b w h
boot_window-Unfed b newest_first w h = h

-- The calls up to the signal without dummies, and `m` more.
abbrev pub test_calls : WakeOrder → ℕ → ℕ
test_calls o m = boot_calls o + ((49999 * 9 + 10) + (3 + ((49999 * 8 + 9) + suc m)))

-- task_change without dummies, its base measurement, ends, in whichever order k_event_post() makes the two
-- waiting threads ready: from the start of I_Task, alone and with nothing fed yet, after 11 calls or, where
-- H_Task_SA is made ready first, 7, and 49999 * 9 + 10 of S_A, 3 of I_Task, 49999 * 8 + 9 of S_B and one more,
-- and for ever after, I_Task has signalled whether neither scenario has an outlier, and each scenario has
-- exactly 50,000 samples, each the two captures of its window, and no other values. This holds of every kernel
-- that does what is documented, and every harness whose iteration_count is the number of samples of a series
-- to which nothing else was fed.
pub task_change-Completed :
    (b : Board) (counts : CountsSamples b) (o : WakeOrder) {S : Type 0} (k : Kernel S)
    (view : S → View) (doc : KernelDoc k o view) (y : System S) (started : Started view 0 y) (m : ℕ)
    → Then (λ y'. Completed b 0 y'.signalled y'.trace) (steps (next_state b k) (test_calls o m) y)
task_change-Completed b counts o k view doc y started m =
    let w = held y in
    reached-Completed b counts o 0 (omega arith) (boot_window o b w)
      (boot_window-Unfed b o w (fresh-Unfed w started.a_fresh started.b_fresh)) (boot_calls o) m k
      view doc y started (boots b o (view y.kernel).events w)

-- The calls in front of the first round with dummies, and all up to the signal, and `m` more.
abbrev loaded_boot_calls : ℕ → ℕ
loaded_boot_calls n = (2 * n + 11) + n * 3

abbrev pub loaded_calls : ℕ → ℕ → ℕ
loaded_calls n m = loaded_boot_calls n + rounds_calls n m

-- With a dummy load of up to the four of the pool, task_change ends in the same way after `loaded_calls` if
-- k_event_post() makes the waiting threads ready in the order in which they began to wait.
pub task_change_loaded-Completed :
    (b : Board) (counts : CountsSamples b) (n : ℕ) (within : n < 5) {S : Type 0} (k : Kernel S)
    (view : S → View) (doc : KernelDoc k oldest_first view) (y : System S)
    (started : Started view n y) (m : ℕ)
    → Then (λ y'. Completed b 0 y'.signalled y'.trace) (steps (next_state b k) (loaded_calls n m) y)
task_change_loaded-Completed b counts n within k view doc y started m =
    let w = held y in
    let e = (view y.kernel).events in
    let h = begun-Unfed b w (fresh-Unfed w started.a_fresh started.b_fresh) in
    let z = h.timed_a in
    reached-Completed b counts oldest_first n within (shut_by n (begun b w))
      (shut_by-Unfed n (begun b w) h) (loaded_boot_calls n) m k view doc y started
      (steps-after (f b oldest_first) (2 * n + 11) (n * 3) _ _ (to_a b n e w within)
        ∙ passes b counts oldest_first n 0 n (begun b w) (omega arith) within h.stray_a
            (omega (arith, z)))
