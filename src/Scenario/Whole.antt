-- ===== src/Scenario/Whole.antt =====
-- A whole test of src/task_switching: the start, the rounds of S_A, the change to S_B, the rounds of
-- S_B and the signals at the end.
use zephyr_kernel_bm_tuc_hms.Prelude.{
  ℕ, suc, ◌+◌, ◌*◌, ◌≡◌, ◌∙◌, arith, Bool, true, false, not, ◌||◌, ◌&&◌, List, Option, none, some,
  ◌==◌, if◌then◌else◌,
}
use zephyr_kernel_bm_tuc_hms.Window.{Mark, Phase}
use zephyr_kernel_bm_tuc_hms.Scenario.Kernel.{nobody, View, Status, absent, ready}
use zephyr_kernel_bm_tuc_hms.Scenario.Program.{Board, Programs, System, scenario_a, scenario_b}
use zephyr_kernel_bm_tuc_hms.Scenario.Run.{steps, iterate, steps-after, steps-rounds, steps-still}
use zephyr_kernel_bm_tuc_hms.Scenario.Refine.{viewed}
use zephyr_kernel_bm_tuc_hms.Scenario.Tally.{Tally, tally, timed, stray}
use zephyr_kernel_bm_tuc_hms.Scenario.Rounds.{Seen}

abbrev pub fresh : Tally
fresh = record { stands = Phase.shut; timed_samples = 0; stray_samples = 0 }

abbrev pub no_outliers : Board → List Mark → Bool
no_outliers b ms = (b.outliers scenario_a ms == 0) && (b.outliers scenario_b ms == 0)

abbrev pub verdict : Board → List Mark → Option Bool
verdict b ms =
    if not (b.outliers scenario_a ms == 0) || not (b.outliers scenario_b ms == 0)
    then some false
    else some true

pub verdict-no_outliers : (b : Board) (ms : List Mark) → verdict b ms ≡ some (no_outliers b ms)
verdict-no_outliers b ms = ground arith

-- A test that is over: I_Task has signalled whether no series has an outlier, and each scenario has
-- its 50,000 samples; `strays` values were fed to scenario_a outside of a window.
pub record Completed (b : Board) (strays : ℕ) (signalled : Option Bool) (ms : List Mark)
    : Type 0 where
  pub last_signal : signalled ≡ some (no_outliers b ms)
  pub timed_a : timed scenario_a ms ≡ 50000
  pub stray_a : stray scenario_a ms ≡ strays
  pub timed_b : timed scenario_b ms ≡ 50000
  pub stray_b : stray scenario_b ms ≡ 0

-- I_Task is about to run, alone, and nobody waits for test_event; nothing was fed to either scenario yet.
pub record Booted {S : Type 0} (view : S → View) (threads : Programs) (y : System S) : Type 0 where
  pub none_wait : (view y.kernel).waits ≡ nobody
  pub absent_1 : (view y.kernel).status_1 ≡ absent
  pub absent_2 : (view y.kernel).status_2 ≡ absent
  pub absent_3 : (view y.kernel).status_3 ≡ absent
  pub absent_4 : (view y.kernel).status_4 ≡ absent
  pub idle_only : (view y.kernel).idle_status ≡ ready
  pub at_start : y.programs ≡ threads
  pub silent : y.signalled ≡ none
  pub a_fresh : tally scenario_a y.trace ≡ fresh
  pub b_fresh : tally scenario_b y.trace ≡ fresh

-- The view of a system between two rounds.
abbrev pub parked :
    ℕ → ℕ → Status → Status → Status → Status → Programs → Option Bool → Seen → System View
parked c e sa_h sa_l sb_h sb_l p signal w = record {
  kernel = record {
    count = c;
    mail = w.mail;
    events = e;
    waits = nobody;
    status_1 = sa_h;
    status_2 = sa_l;
    status_3 = sb_h;
    status_4 = sb_l;
    idle_status = ready;
  };
  programs = p;
  test_start_time = w.last_start;
  test_stop_time = w.last_stop;
  test_stop_time_rendezvous = w.last_rendezvous;
  outlier_count = w.outlier_count;
  functions = w.functions;
  message_size = w.message_size;
  tx_size = w.tx_size;
  rx_size = w.rx_size;
  jitters = w.jitters;
  signalled = signal;
  trace = w.trace;
}

-- The view of a booted system.
abbrev pub boot : Programs → ℕ → Seen → System View
boot threads e w = parked w.count e absent absent absent absent threads none w

abbrev pub seen : {S : Type 0} → (S → View) → System S → Seen
seen view y = record {
  last_start = y.test_start_time;
  last_stop = y.test_stop_time;
  last_rendezvous = y.test_stop_time_rendezvous;
  outlier_count = y.outlier_count;
  functions = y.functions;
  message_size = y.message_size;
  tx_size = y.tx_size;
  rx_size = y.rx_size;
  jitters = y.jitters;
  count = (view y.kernel).count;
  mail = (view y.kernel).mail;
  trace = y.trace;
}

pub viewed-boot :
    {S : Type 0} (view : S → View) (threads : Programs) (y : System S)
    → Booted view threads y
    → viewed view y ≡ boot threads (view y.kernel).events (seen view y)
viewed-boot view threads y h = λ i. record {
  kernel = record {
    count = (view y.kernel).count;
    mail = (view y.kernel).mail;
    events = (view y.kernel).events;
    waits = h.none_wait i;
    status_1 = h.absent_1 i;
    status_2 = h.absent_2 i;
    status_3 = h.absent_3 i;
    status_4 = h.absent_4 i;
    idle_status = h.idle_only i;
  };
  programs = h.at_start i;
  test_start_time = y.test_start_time;
  test_stop_time = y.test_stop_time;
  test_stop_time_rendezvous = y.test_stop_time_rendezvous;
  outlier_count = y.outlier_count;
  functions = y.functions;
  message_size = y.message_size;
  tx_size = y.tx_size;
  rx_size = y.rx_size;
  jitters = y.jitters;
  signalled = h.silent i;
  trace = y.trace;
}

-- How the documented machine goes through the parts of a test.
pub record Course (f : System View → Option (System View)) (threads : Programs)
    (boots ra mid rb tail na nb : ℕ) (at_a at_b : ℕ → Seen → System View)
    (turn_a turn_b first_a first_b : Seen → Seen) (over : Seen → System View) : Type 0 where
  pub to_a : (e : ℕ) (w : Seen) → steps f boots (boot threads e w) ≡ some (at_a na (first_a w))
  pub round_a : (n : ℕ) (w : Seen) → steps f ra (at_a (suc n) w) ≡ some (at_a n (turn_a w))
  pub to_b : (w : Seen) → steps f mid (at_a 0 w) ≡ some (at_b nb (first_b w))
  pub round_b : (n : ℕ) (w : Seen) → steps f rb (at_b (suc n) w) ≡ some (at_b n (turn_b w))
  pub to_end : (w : Seen) → steps f tail (at_b 0 w) ≡ some (over w)
  pub for_ever : (w : Seen) → f (over w) ≡ some (over w)

pub Course-steps :
    (f : System View → Option (System View)) (threads : Programs) (boots ra mid rb tail na nb : ℕ)
    (at_a at_b : ℕ → Seen → System View) (turn_a turn_b first_a first_b : Seen → Seen)
    (over : Seen → System View)
    → Course f threads boots ra mid rb tail na nb at_a at_b turn_a turn_b first_a first_b over
    → (m e : ℕ) (w : Seen)
    → steps f (boots + (na * ra + (mid + (nb * rb + (tail + m))))) (boot threads e w)
      ≡ some (over (iterate turn_b nb (first_b (iterate turn_a na (first_a w)))))
Course-steps f threads boots ra mid rb tail na nb at_a at_b turn_a turn_b first_a first_b over c m e
      w =
    steps-after f boots (na * ra + (mid + (nb * rb + (tail + m)))) _ _ (c.to_a e w)
    ∙ steps-after f (na * ra) (mid + (nb * rb + (tail + m))) _ _
        (steps-rounds f ra at_a turn_a c.round_a na (first_a w))
    ∙ steps-after f mid (nb * rb + (tail + m)) _ _ (c.to_b (iterate turn_a na (first_a w)))
    ∙ steps-after f (nb * rb) (tail + m) _ _
        (steps-rounds f rb at_b turn_b c.round_b nb (first_b (iterate turn_a na (first_a w))))
    ∙ steps-after f tail m _ _
        (c.to_end (iterate turn_b nb (first_b (iterate turn_a na (first_a w)))))
    ∙ steps-still f m _ (c.for_ever (iterate turn_b nb (first_b (iterate turn_a na (first_a w)))))
