-- ===== src/Itc/Sync/Course.antt =====
-- A whole test of src/itc/pipe/pipe_sync.c or src/itc/mailbox/mailbox_sync.c: from the start of I_Task through
-- the sweeps of both directions to the signals at the end.
use zephyr_kernel_bm_tuc_hms.Prelude.{
  ℕ, suc, ◌+◌, ◌*◌, ◌<◌, ◌≤◌, ◌≡◌, ap, ◌∙◌, arith, Bool, List, Option, none, some,
}
use zephyr_kernel_bm_tuc_hms.Window.{Mark, Series}
use zephyr_kernel_bm_tuc_hms.Itc.Handover.{Direction, up, down}
use zephyr_kernel_bm_tuc_hms.Scenario.Kernel.{View, absent, ready, nobody}
use zephyr_kernel_bm_tuc_hms.Scenario.Program.{Board, Program, finished, Programs, System}
use zephyr_kernel_bm_tuc_hms.Scenario.Run.{steps, steps-after, steps-still}
use zephyr_kernel_bm_tuc_hms.Scenario.Refine.{viewed}
use zephyr_kernel_bm_tuc_hms.Scenario.Rounds.{Seen}
use zephyr_kernel_bm_tuc_hms.Scenario.Whole.{parked, seen}
use zephyr_kernel_bm_tuc_hms.Scenario.Sweep.{Sweeping, swept, steps-sweep}
use zephyr_kernel_bm_tuc_hms.Scenario.TwoStops.{chosen_in, other_in}
use zephyr_kernel_bm_tuc_hms.Itc.Sync.{
  Marker, sync_series, capture_of, meeting, no_sync_outliers, sync_verdict, outliers_added-zero,
}
use zephyr_kernel_bm_tuc_hms.Itc.Sync.Samples.{
  chosen-swept, other-swept, chosen-swept_opposite, other-swept_opposite,
}

-- The programs where I_Task is about to run, with nothing in the slots.
abbrev pub only_idle : Program → Programs
only_idle p = record {
  left_1 = finished;
  left_2 = finished;
  left_3 = finished;
  left_4 = finished;
  idle_left = p;
}

-- I_Task is about to run `p`, alone, and nobody waits for test_event; threads are started with the C
-- functions `functions`.
pub record Launched {S : Type 0} (view : S → View) (p : Program) (functions : ℕ → Program)
    (y : System S) : Type 0 where
  pub nobody_waits : (view y.kernel).waits ≡ nobody
  pub none_1 : (view y.kernel).status_1 ≡ absent
  pub none_2 : (view y.kernel).status_2 ≡ absent
  pub none_3 : (view y.kernel).status_3 ≡ absent
  pub none_4 : (view y.kernel).status_4 ≡ absent
  pub idle_ready : (view y.kernel).idle_status ≡ ready
  pub of_programs : y.programs ≡ only_idle p
  pub of_functions : y.functions ≡ functions
  pub no_signal : y.signalled ≡ none

-- I_Task has signalled whether no series has an outlier, and every series of every step and direction has 50,000
-- samples more than before, each the start and the marker of that series, and no others more.
pub record SyncCompleted (b : Board) (before : List Mark) (signalled : Option Bool) (ms : List Mark)
    : Type 0 where
  pub last_signal : signalled ≡ some (no_sync_outliers b ms 9 0)
  pub all_chosen :
      (m : Marker) (d : Direction) (step : ℕ)
      → step < 9
      → chosen_in (capture_of m d) (sync_series m d step) ms
        ≡ 50000 + chosen_in (capture_of m d) (sync_series m d step) before
  pub none_other :
      (m : Marker) (d : Direction) (step : ℕ)
      → other_in (capture_of m d) (sync_series m d step) ms
        ≡ other_in (capture_of m d) (sync_series m d step) before

abbrev pub launch : Program → (ℕ → Program) → ℕ → Seen → System View
launch p functions e w =
    parked w.count e absent absent absent absent (only_idle p) none
      (record w { functions = functions })

pub viewed-launch :
    {S : Type 0} (view : S → View) (p : Program) (functions : ℕ → Program) (y : System S)
    → Launched view p functions y
    → viewed view y ≡ launch p functions (view y.kernel).events (seen view y)
viewed-launch view p functions y h = λ i. record {
  kernel = record {
    count = (view y.kernel).count;
    mail = (view y.kernel).mail;
    events = (view y.kernel).events;
    waits = h.nobody_waits i;
    status_1 = h.none_1 i;
    status_2 = h.none_2 i;
    status_3 = h.none_3 i;
    status_4 = h.none_4 i;
    idle_status = h.idle_ready i;
  };
  programs = h.of_programs i;
  test_start_time = y.test_start_time;
  test_stop_time = y.test_stop_time;
  test_stop_time_rendezvous = y.test_stop_time_rendezvous;
  message_size = y.message_size;
  tx_size = y.tx_size;
  rx_size = y.rx_size;
  outlier_count = y.outlier_count;
  functions = h.of_functions i;
  jitters = y.jitters;
  signalled = h.no_signal i;
  trace = y.trace;
}

-- How the documented machine goes through the parts of a test.
pub record SyncCourse (b : Board) (f : System View → Option (System View)) (p : Program)
    (functions : ℕ → Program) (boots r mid tail : ℕ)
    (before : Direction → ℕ → ℕ → Seen → System View)
    (inside : Direction → ℕ → ℕ → ℕ → Seen → System View) (after : Direction → Seen → System View)
    (turn : Direction → ℕ → Seen → Seen) (first second : Seen → Seen) (over : Seen → System View)
    : Type 0 where
  pub to_up :
      (e : ℕ) (w : Seen) → steps f boots (launch p functions e w) ≡ some (before up 9 0 (first w))
  pub sweeping : (d : Direction) → Sweeping f r (before d) (inside d) (after d) (turn d)
  pub to_down : (w : Seen) → steps f (suc mid) (after up w) ≡ some (before down 9 0 (second w))
  pub to_end : (w : Seen) → steps f (suc tail) (after down w) ≡ some (over w)
  pub for_ever : (w : Seen) → f (over w) ≡ some (over w)
  pub takes : (d : Direction) (i : ℕ) (w : Seen) → (turn d i w).trace ≡ (meeting b d i w).trace
  pub first_quiet : (w : Seen) → (first w).trace ≡ w.trace
  pub second_quiet : (w : Seen) → (second w).trace ≡ w.trace
  pub over_signal : (w : Seen) → (over w).signalled ≡ sync_verdict b w.trace
  pub over_trace : (w : Seen) → (over w).trace ≡ w.trace

module _ (b : Board) (f : System View → Option (System View)) (p : Program)
    (functions : ℕ → Program) (boots r mid tail : ℕ)
    (before : Direction → ℕ → ℕ → Seen → System View)
    (inside : Direction → ℕ → ℕ → ℕ → Seen → System View) (after : Direction → Seen → System View)
    (turn : Direction → ℕ → Seen → Seen) (first second : Seen → Seen) (over : Seen → System View)
    (c : SyncCourse b f p functions boots r mid tail before inside after turn first second
      over) where
  -- What is seen at the end.
  abbrev pub final : Seen → Seen
  final w = swept (turn down) 9 0 (second (swept (turn up) 9 0 (first w)))

  pub SyncCourse-steps :
      (m e : ℕ) (w : Seen)
      → steps f
          (boots + (9 * (1 + 50000 * r) + suc (mid + (9 * (1 + 50000 * r) + suc (tail + m)))))
          (launch p functions e w)
        ≡ some (over (final w))
  SyncCourse-steps m e w =
      let s = 9 * (1 + 50000 * r) in
      let u = swept (turn up) 9 0 (first w) in
      let v = final w in
      let g : suc (mid + (s + suc (tail + m))) ≡ suc mid + (s + suc (tail + m)) = omega arith in
      let h : suc (tail + m) ≡ suc tail + m = omega arith in
      steps-after f boots (s + suc (mid + (s + suc (tail + m)))) _ _ (c.to_up e w)
      ∙ steps-sweep f r (before up) (inside up) (after up) (turn up) (c.sweeping up) 9 0
          (mid + (s + suc (tail + m))) (first w) (omega arith)
      ∙ ap (λ i. steps f i (after up u)) g
      ∙ steps-after f (suc mid) (s + suc (tail + m)) _ _ (c.to_down u)
      ∙ steps-sweep f r (before down) (inside down) (after down) (turn down) (c.sweeping down) 9 0
          (tail + m) (second u) (omega arith)
      ∙ ap (λ i. steps f i (after down v)) h
      ∙ steps-after f (suc tail) m _ _ (c.to_end v)
      ∙ steps-still f m _ (c.for_ever v)

  pub verdict-no_sync_outliers :
      (fits : (s : Series) (ms : List Mark) → b.outliers s ms ≤ 50000) (ms : List Mark)
      → sync_verdict b ms ≡ some (no_sync_outliers b ms 9 0)
  verdict-no_sync_outliers fits ms =
      let e = outliers_added-zero b ms (λ s. fits s ms) 9 0 0 (omega arith) in ground (arith, e)

  pub final-chosen :
      (m : Marker) (d : Direction) (step : ℕ) (w : Seen)
      → step < 9
      → chosen_in (capture_of m d) (sync_series m d step) (final w).trace
        ≡ 50000 + chosen_in (capture_of m d) (sync_series m d step) w.trace
  final-chosen m up step w l =
      let count = chosen_in (capture_of m up) (sync_series m up step) in
      chosen-swept_opposite b m up (turn down) (c.takes down) step
        (second (swept (turn up) 9 0 (first w)))
      ∙ ap count (c.second_quiet (swept (turn up) 9 0 (first w)))
      ∙ chosen-swept b m up (turn up) (c.takes up) step (first w) l
      ∙ ap (λ t. 50000 + count t) (c.first_quiet w)
  final-chosen m down step w l =
      let count = chosen_in (capture_of m down) (sync_series m down step) in
      chosen-swept b m down (turn down) (c.takes down) step (second (swept (turn up) 9 0 (first w)))
        l
      ∙ ap (λ t. 50000 + count t) (c.second_quiet (swept (turn up) 9 0 (first w)))
      ∙ ap (λ (n : ℕ). 50000 + n)
          (chosen-swept_opposite b m down (turn up) (c.takes up) step (first w)
            ∙ ap count (c.first_quiet w))

  pub final-other :
      (m : Marker) (d : Direction) (step : ℕ) (w : Seen)
      → other_in (capture_of m d) (sync_series m d step) (final w).trace
        ≡ other_in (capture_of m d) (sync_series m d step) w.trace
  final-other m up step w =
      let count = other_in (capture_of m up) (sync_series m up step) in
      other-swept_opposite b m up (turn down) (c.takes down) step
        (second (swept (turn up) 9 0 (first w)))
      ∙ ap count (c.second_quiet (swept (turn up) 9 0 (first w)))
      ∙ other-swept b m up (turn up) (c.takes up) step (first w)
      ∙ ap count (c.first_quiet w)
  final-other m down step w =
      let count = other_in (capture_of m down) (sync_series m down step) in
      other-swept b m down (turn down) (c.takes down) step (second (swept (turn up) 9 0 (first w)))
      ∙ ap count (c.second_quiet (swept (turn up) 9 0 (first w)))
      ∙ other-swept_opposite b m down (turn up) (c.takes up) step (first w)
      ∙ ap count (c.first_quiet w)
